-- ===== src/Server.antt =====
-- The parts of `sitter::server` (sitter/sitter.cpp) that its clients share: the parameters, the cache
-- path, and the link to the communicator daemon. The settings and the errors have their own modules.
use sitter.Base.{ℤ, pos, eqb_ℤ, if◌then◌else◌, Text, codes, is_empty, [], ◌++◌}
use sitter.Env.{Env}
use sitter.Report.{Report}
use sitter.Settings.{Settings}

pub record Server : Type 0 where
  pub settings : Settings
  pub report : Report
  pub cache_path : Text

unfoldable pub get_server_parameter : Env → Text → Text
get_server_parameter env name = if env.is_defined name then env.get_string name else []

-- `snapdev::mkdir_p` is given by what it returns. The path is kept for the next call, but a return
-- value of zero clears it.
unfoldable pub get_cache_path : (Text → ℤ) → Env → Text → Server → Server × Text
get_cache_path mkdir_p env filename s =
    let asked = env.get_string (codes "cache_path") in
    if is_empty s.cache_path
    then (if eqb_ℤ (mkdir_p asked) (pos 0)
        then (record s { cache_path = [] }, [])
        else (record s { cache_path = asked }, asked ++ codes "/" ++ filename))
    else (s, s.cache_path ++ codes "/" ++ filename)
