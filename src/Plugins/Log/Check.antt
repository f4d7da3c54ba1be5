-- ===== src/Plugins/Log/Check.antt =====
-- The checks of the log files: `on_process_watch` and `check_log` of plugins/sitter_log/log.cpp. The
-- flag `f_found` goes through the calls as an argument and an answer.
pub mod Problems
pub mod Outcome
use sitter.Base.{
  ℕ, ◌*◌, ◌%◌, ◌^◌, ltb, ℤ, pos, Bool, true, false, not, ◌&&◌, if◌then◌else◌, ◌==◌, Text, codes,
  to_string, List, [], ◌∷◌, ◌++◌, Option, none, some,
}
use sitter.Json.{Key, Value, put, Doc, ◌/+◌}
use sitter.Report.{append_error}
use sitter.Action.{Action, pure, lift, ◌>>=◌, ◌>>◌, write, when}
use sitter.Plugins.Log.Definition.{Stat, Host, Config, Definition, no_id, load}
use Prim.Native.Nat.{bit_and}

-- The four tests of a file.
unfoldable pub is_too_big : Definition → Stat → Bool
is_too_big def st = ltb def.max_size st.size

unfoldable pub has_wrong_owner : Definition → Stat → Bool
has_wrong_owner def st = not (def.uid == no_id) && not (def.uid == st.uid)

unfoldable pub has_wrong_group : Definition → Stat → Bool
has_wrong_group def st = not (def.gid == no_id) && not (def.gid == st.gid)

unfoldable pub has_wrong_mode : Definition → Stat → Bool
has_wrong_mode def st = not (def.mode == 0) && not (bit_and st.mode def.mode_mask == def.mode)

-- More than twice the limit, in 64 bits, is more urgent.
unfoldable pub size_priority : Definition → Stat → ℤ
size_priority def st = if ltb (def.max_size * 2 % 2 ^ 64) st.size then pos 73 else pos 58

abbrev pub of_file : Text → Definition → Text → Text
of_file start def filename = start ++ def.name ++ codes " (" ++ filename ++ codes ")"

abbrev pub mismatch : Text → ℕ → ℕ → Text
mismatch file found expected =
    file
    ++ codes ", found "
    ++ to_string (pos found)
    ++ codes " expected "
    ++ to_string (pos expected)

abbrev pub size_message : Definition → Text → Stat → Text
size_message def filename st =
    of_file (codes "size of log file  ") def filename
    ++ codes " is "
    ++ to_string (pos st.size)
    ++ codes ", which is more than the maximum size of "
    ++ to_string (pos def.max_size)

abbrev pub log_item : List Key → Definition → Text → Stat → Doc
log_item l def filename st =
    put (l /+ codes "name") (Value.text def.name)
    ∷ put (l /+ codes "filename") (Value.text filename)
    ∷ put (l /+ codes "size") (Value.number (pos st.size))
    ∷ put (l /+ codes "mode") (Value.number (pos st.mode))
    ∷ put (l /+ codes "uid") (Value.number (pos st.uid))
    ∷ put (l /+ codes "gid") (Value.number (pos st.gid))
    ∷ put (l /+ codes "mtime") (Value.number st.mtime)
    ∷ []

unfoldable pub check_size : Definition → Text → Stat → List Key → Action (Unit {0})
unfolding is_too_big size_priority
check_size def filename st l =
    when (is_too_big def st)
      (append_error l (codes "log") (size_message def filename st) (size_priority def st))

unfoldable pub check_owner : Definition → Text → Stat → List Key → Action (Unit {0})
unfolding has_wrong_owner
check_owner def filename st l = when (has_wrong_owner def st) (
    append_error l (codes "log")
      (mismatch (of_file (codes "log file owner mismatched for ") def filename) st.uid def.uid)
      (pos 63))

unfoldable pub check_group : Definition → Text → Stat → List Key → Action (Unit {0})
unfolding has_wrong_group
check_group def filename st l = when (has_wrong_group def st) (
    append_error l (codes "log")
      (mismatch (of_file (codes "log file group mismatched for ") def filename) st.gid def.gid)
      (pos 59))

unfoldable pub check_mode : Definition → Text → Stat → List Key → Action (Unit {0})
unfolding has_wrong_mode
check_mode def filename st l = when (has_wrong_mode def st) (
    append_error l (codes "log")
      (mismatch (of_file (codes "log file mode mismatched ") def filename) st.mode def.mode)
      (pos 64))

-- The checks of a file that exists, in their order.
unfoldable pub check_file : Definition → Text → Stat → List Key → Action (Unit {0})
unfolding check_size check_owner check_group check_mode
check_file def filename st l =
    write (log_item l def filename st)
    >> (check_size def filename st l
        >> (check_owner def filename st l
            >> (check_group def filename st l >> check_mode def filename st l)))

-- What `stat` answered for a file: one that cannot be read is passed over.
unfoldable pub check_answer : Definition → List Key → Text → Bool → Option Stat → Action Bool
unfolding check_file
check_answer def json filename found none = pure found
check_answer def json filename found (some st) =
    check_file def filename st (json /+ codes "log") >> pure true

unfoldable pub check_log : Host → Definition → List Key → Text → Bool → Action Bool
unfolding check_answer
check_log host def json filename found = check_answer def json filename found (host.stat filename)

unfoldable pub check_files : Host → Definition → List Key → List Text → Bool → Action Bool
unfolding check_log
check_files host def json [] found = pure found
check_files host def json (f ∷ fs) found =
    check_log host def json f found >>= check_files host def json fs

unfoldable pub check_patterns : Host → Definition → List Key → List Text → Bool → Action Bool
unfolding check_files
check_patterns host def json [] found = pure found
check_patterns host def json (p ∷ ps) found =
    check_files host def json (host.glob (def.path ++ codes "/" ++ p)) found
    >>= check_patterns host def json ps

abbrev pub not_found_message : Definition → Text
not_found_message def =
    codes "no logs found for "
    ++ def.name
    ++ codes " which says it is mandatory to have at least one log file"

unfoldable pub report_found : Definition → List Key → Bool → Action (Unit {0})
report_found def json found =
    when (not found) (append_error json (codes "log") (not_found_message def) (pos 85))

unfoldable pub check_definition : Host → List Key → Definition → Action (Unit {0})
unfolding check_patterns report_found
check_definition host json def =
    check_patterns host def json def.patterns false >>= report_found def json

unfoldable pub check_definitions : Host → List Key → List Definition → Action (Unit {0})
unfolding check_definition
check_definitions host json [] = pure tt
check_definitions host json (def ∷ defs) =
    check_definition host json def >> check_definitions host json defs

abbrev pub logs : List Key
logs = [] /+ codes "logs"

-- `on_process_watch`, on the configuration files; what `load` throws ends it.
unfoldable pub on_process_watch : Host → List Config → Action (Unit {0})
unfolding check_definitions
on_process_watch host confs = lift (load host confs) >>= check_definitions host logs
