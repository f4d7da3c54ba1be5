-- ===== src/Plugins/Reboot/Lost.antt =====
-- The reboot plugin, plugins/sitter_reboot/reboot.cpp, where the cache directory can be made.
use sitter.Base.{
  ◌≡◌, refl, ℤ, pos, Bool, true, false, if◌then◌else◌, codes, text_eq, List, [], ◌∷◌, none, arith,
  int_laws, eq_of_parts,
}
use sitter.Env.{Env}
use sitter.Json.{Value, put, ◌/+◌}
use sitter.Report.{Report}
use sitter.Report.Laws.{Issue}
use sitter.Report.Adds.{Adds, Adds-report, Adds-write}
use sitter.Action.{write}
use sitter.Plugins.CacheFile.{State, with_report, set_file, remember}
use sitter.Plugins.CacheFile.Since.{Reports, runs}
use sitter.Plugins.CacheFile.Lost.{IsMade, IsLost, AllGiven, asked_path-IsLost, runs-keep}
use sitter.Plugins.Reboot.{
  Host, date_from, priority_after, days_between, report_required, check_required, check_flag,
  on_process_watch,
}
use sitter.Plugins.Reboot.Reports.{reboot_watcher}

days_between-same : (now : ℤ) → days_between now now ≡ pos 0
unfolding days_between
days_between-same now = eq_of_parts (days_between now now) (pos 0) (omega int_laws)

-- The errors of a run that remembers nothing.
abbrev first_day : Bool → List Issue
first_day required = if required then (codes "Reboot is required.", pos 45) ∷ [] else []

report_required-IsLost :
    (env : Env) (host : Host) (r : Report)
    → Adds (report_required env host none) r tt ((codes "Reboot is required.", pos 45) ∷ [])
unfolding report_required date_from priority_after
report_required-IsLost env host r = rw (days_between-same host.now) (
    Adds-report true [] (codes "reboot") (codes "Reboot is required.") (pos 45) r
      (omega arith, omega arith))

check_flag-IsLost :
    (env : Env) (host : Host) (required : Bool) (s : State)
    → IsMade env host.mkdir_p host.write_all
    → IsLost s
    → let outcome = check_flag env host required s in
      IsLost outcome.0 × Reports outcome s.server.report (first_day required)
unfolding check_flag check_required with_report set_file remember text_eq
check_flag-IsLost env host true s (made, unwritten) (unknown, absent) =
    let calls = put ([] /+ codes "reboot" /+ codes "required") (Value.text (codes "true")) ∷ [] in
    let wrote = (with_report (write calls) s).0 in
    rw
      (
        asked_path-IsLost host.mkdir_p env (codes "reboot.txt") wrote made unknown,
        absent,
        unwritten,
      )
      ((refl, refl), report_required-IsLost env host wrote.server.report)
check_flag-IsLost env host false s (made, unwritten) (unknown, absent) =
    let calls = put ([] /+ codes "reboot" /+ codes "required") (Value.text (codes "false")) ∷ [] in
    let wrote = (with_report (write calls) s).0 in
    rw (asked_path-IsLost host.mkdir_p env (codes "reboot.txt") wrote made unknown)
      ((refl, refl), Adds-write calls s.server.report)

-- Where the cache directory can be made, no path of it is known yet, and no file without a name can be read
-- or written, every run while a reboot is required reports one error, of priority 45, however many days it
-- has been required.
reboot_stays_at_45 :
    (env : Env) (hosts : List Host) (host : Host) (s : State)
    → AllGiven (λ h. IsMade env h.mkdir_p h.write_all) (host ∷ hosts)
    → IsLost s
    → let before = runs (reboot_watcher env) hosts s in
      Reports (on_process_watch env host before) before.server.report (first_day host.required)
unfolding on_process_watch
reboot_stays_at_45 env hosts host s (made, all_made) lost =
    (check_flag-IsLost env host host.required (runs (reboot_watcher env) hosts s) made (
      runs-keep (reboot_watcher env) (λ h. IsMade env h.mkdir_p h.write_all) IsLost
        (λ h t given is_lost. (check_flag-IsLost env h h.required t given is_lost).0) hosts s
        all_made lost)).1
