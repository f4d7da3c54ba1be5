-- ===== src/Plugins/Reboot.antt =====
-- The reboot plugin, plugins/sitter_reboot/reboot.cpp: an error while the system asks for a reboot, of a
-- priority that grows with the days.
pub mod Reports
pub mod Lost
use sitter.Base.{
  ℤ, pos, ◌-ℤ◌, ◌/ℤ◌, ltb_ℤ, Bool, true, false, if◌then◌else◌, Text, codes, List, [], ◌∷◌, ◌++◌,
  Option, none, some, Result, ok, err,
}
use sitter.Env.{Env}
use sitter.Json.{Key, Value, put, ◌/+◌}
use sitter.Report.{append_error}
use sitter.Action.{Action, write}
use sitter.Plugins.CacheFile.{State, with_report, set_file, asked_path, remember}

-- What one run calls outside this repository: the creation of the cache directory, the success of
-- `write_all` by the name of the file, the clock, and whether `/run/reboot-required` can be read.
pub record Host : Type 0 where
  pub mkdir_p : Text → ℤ
  pub write_all : Text → Bool
  pub now : ℤ
  pub required : Bool

-- The date in the file; a text that is no number counts as now.
unfoldable pub date_from : Env → Host → Option Text → ℤ
date_from env host none = host.now
date_from env host (some text) =
    let (is_number, date) = env.convert_integer text (pos 0) in if is_number then date else host.now

unfoldable pub priority_after : ℤ → ℤ
priority_after diff =
    if ltb_ℤ diff (pos 4)
    then pos 45
    else if ltb_ℤ diff (pos 10)
    then pos 70
    else if ltb_ℤ diff (pos 30)
    then pos 90
    else pos 100

-- From one day number to another.
unfoldable pub days_between : ℤ → ℤ → ℤ
days_between date now = (now /ℤ 86400) -ℤ (date /ℤ 86400)

unfoldable pub report_required : Env → Host → Option Text → Action (Unit {0})
report_required env host file =
    append_error [] (codes "reboot") (codes "Reboot is required.")
      (priority_after (days_between (date_from env host file) host.now))

unfoldable pub check_required : Env → Host → Text → State → State × Result (Unit {0})
check_required env host filename s =
    let file = s.files filename in
    with_report (report_required env host file)
      (set_file filename (remember (host.write_all filename) host.now file) s)

-- Whether `/run/reboot-required` can be read decides.
unfoldable pub check_flag : Env → Host → Bool → State → State × Result (Unit {0})
check_flag env host required s =
    let value = Value.text (if required then codes "true" else codes "false") in
    let calls = put ([] /+ codes "reboot" /+ codes "required") value ∷ [] in
    let (asked, filename) =
      asked_path host.mkdir_p env (codes "reboot.txt") (with_report (write calls) s).0 in
    if required
    then check_required env host filename asked
    else (set_file filename none asked, ok tt)

unfoldable pub on_process_watch : Env → Host → State → State × Result (Unit {0})
unfolding check_flag
on_process_watch env host s = check_flag env host host.required s
