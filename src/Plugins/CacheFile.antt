-- ===== src/Plugins/CacheFile.antt =====
-- How plugins/sitter_cpu/cpu.cpp and plugins/sitter_reboot/reboot.cpp remember since when something
-- lasts: a file in the cache directory holds the time of the run that saw it first.
pub mod Since
pub mod Lost
use sitter.Base.{
  ℤ, pos, Bool, true, false, if◌then◌else◌, Text, text_eq, to_string, Option, none, some, Result,
}
use sitter.Env.{Env}
use sitter.Action.{Action}
use sitter.Server.{Server, get_cache_path}

-- The server and the files that can be read, by name.
pub record State : Type 0 where
  pub server : Server
  pub files : Text → Option Text

-- A call on the report of the server.
unfoldable pub with_report : {A : Type 0} → Action A → State → State × Result A
with_report m s =
    let (report, a) = m s.server.report in
    (record s { server = record s.server { report = report } }, a)

unfoldable pub set_file : Text → Option Text → State → State
set_file name contents s = record s {
  files = λ other. if text_eq other name then contents else s.files other;
}

-- The path of a file of the plugin, and the state after the server was asked for it.
unfoldable pub asked_path : (Text → ℤ) → Env → Text → State → State × Text
asked_path mkdir_p env filename s =
    let (server, path) = get_cache_path mkdir_p env filename s.server in
    (record s { server = server }, path)

-- A file that is there is left alone; else the time is written, and a write that fails leaves no file.
unfoldable pub remember : Bool → ℤ → Option Text → Option Text
remember can_write now (some contents) = some contents
remember can_write now none = if can_write then some (to_string now) else none
