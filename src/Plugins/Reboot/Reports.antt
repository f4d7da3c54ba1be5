-- ===== src/Plugins/Reboot/Reports.antt =====
-- What the reboot plugin, plugins/sitter_reboot/reboot.cpp, reports over several runs.
use sitter.Base.{
  ◌≡◌, refl, subst, ℕ, ℤ, pos, ◌+ℤ◌, ◌-ℤ◌, leb_ℤ, ◌≤ℤ◌, ◌/ℤ◌, Bool, true, false, if◌then◌else◌,
  Text, codes, text_eq_refl, List, [], ◌∷◌, Option, none, some, arith, int_laws, negsuc, ◌↔◌,
}
use sitter.Env.{Env}
use sitter.Json.{Value, put, ◌/+◌}
use sitter.Report.{Report}
use sitter.Report.Laws.{InRange, Issue}
use sitter.Report.Adds.{Adds, Adds-report, Adds-write}
use sitter.Action.{write}
use sitter.Plugins.CacheFile.{State, with_report, set_file}
use sitter.Plugins.CacheFile.Since.{
  since_next, Says, ReadsBack, remember-Says, path_in, asked_path-known, Reports, Watcher, Knows,
  Goes, Remembers, runs, since_after, AllUsual, runs-Go,
}
use sitter.Plugins.Reboot.{
  Host, date_from, priority_after, days_between, report_required, check_required, check_flag,
  on_process_watch,
}

abbrev pub start : ℤ → Option ℤ → ℤ
start now none = now
start now (some t) = t

-- At least `n` midnights have passed.
abbrev days_over : ℕ → ℤ → ℤ → Bool
days_over n date now = leb_ℤ (date /ℤ 86400 +ℤ pos n) (now /ℤ 86400)

abbrev pub level_after : ℤ → ℤ → ℤ
level_after date now =
    if days_over 30 date now
    then pos 100
    else if days_over 10 date now
    then pos 90
    else if days_over 4 date now
    then pos 70
    else pos 45

priority-Is :
    (a b : ℤ)
    → priority_after (b -ℤ a) ≡ (
        if leb_ℤ (a +ℤ pos 30) b
        then pos 100
        else if leb_ℤ (a +ℤ pos 10) b
        then pos 90
        else if leb_ℤ (a +ℤ pos 4) b
        then pos 70
        else pos 45)
unfolding priority_after ◌-ℤ◌ ◌+ℤ◌
priority-Is a b = ground arith

priority_after-Is : (date now : ℤ) → priority_after (days_between date now) ≡ level_after date now
unfolding days_between
priority_after-Is date now = priority-Is (date /ℤ 86400) (now /ℤ 86400)

-- The errors of a run: one while a reboot is required, by the days since the first run that saw it.
abbrev pub reboot_problems : Host → Bool → Option ℤ → List Issue
reboot_problems host required since =
    if required
    then (codes "Reboot is required.", level_after (start host.now since) host.now) ∷ []
    else []

priority_after-InRange : (diff : ℤ) → InRange (priority_after diff)
unfolding priority_after
priority_after-InRange diff = ground arith

date_from-Says :
    (env : Env) (host : Host) (since : Option ℤ) (file : Option Text)
    → Says env since file
    → date_from env host file ≡ start host.now since
unfolding date_from
date_from-Says env host none file absent = rw absent refl
date_from-Says env host (some t) file (text, there, read) = rw (there, read) refl

report_required-Adds :
    (env : Env) (host : Host) (since : Option ℤ) (file : Option Text) (r : Report)
    → Says env since file
    → Adds
        (report_required env host file)
        r
        tt
        ((codes "Reboot is required.", level_after (start host.now since) host.now) ∷ [])
unfolding report_required
report_required-Adds env host since file r says =
    let date = start host.now since in
    let same = priority_after-Is date host.now in
    let in_range = subst InRange same (priority_after-InRange (days_between date host.now)) in
    rw (date_from-Says env host since file says, same)
      (Adds-report true [] (codes "reboot") (codes "Reboot is required.")
        (level_after date host.now) r in_range)

-- A run whose write would succeed and whose time is read back as it is written.
abbrev pub IsUsual : Env → Text → Host → Type 0
IsUsual env path host = (host.write_all path ≡ true) × ReadsBack env host.now

check_required-Knows :
    (env : Env) (host : Host) (since : Option ℤ) (s : State)
    → let path = path_in s.server (codes "reboot.txt") in
      let outcome = check_required env host path s in
      IsUsual env path host
      → Knows env (codes "reboot.txt") since s
      → Knows env (codes "reboot.txt") (since_next true host.now since) outcome.0
        × (outcome.0.server.cache_path ≡ s.server.cache_path)
        × Reports outcome s.server.report
            ((codes "Reboot is required.", level_after (start host.now since) host.now) ∷ [])
unfolding check_required with_report set_file
check_required-Knows env host since s (writes, back) (known, says) =
    let path = path_in s.server (codes "reboot.txt") in
    let file = s.files path in
    (
      (known, rw (text_eq_refl path, writes) (remember-Says env host.now since file back says)),
      refl,
      report_required-Adds env host since file s.server.report says,
    )

check_flag-Goes :
    (env : Env) (host : Host) (required : Bool) (since : Option ℤ) (s : State)
    → IsUsual env (path_in s.server (codes "reboot.txt")) host
    → Knows env (codes "reboot.txt") since s
    → Goes env
        (codes "reboot.txt")
        required
        host.now
        (reboot_problems host required since)
        since
        s
        (check_flag env host required s)
unfolding check_flag with_report set_file
check_flag-Goes env host true since s usual (known, says) =
    let calls = put ([] /+ codes "reboot" /+ codes "required") (Value.text (codes "true")) ∷ [] in
    let wrote = (with_report (write calls) s).0 in
    rw (asked_path-known host.mkdir_p env (codes "reboot.txt") wrote known)
      (check_required-Knows env host since wrote usual (known, says))
check_flag-Goes env host false since s usual (known, says) =
    let calls = put ([] /+ codes "reboot" /+ codes "required") (Value.text (codes "false")) ∷ [] in
    let wrote = (with_report (write calls) s).0 in
    rw (asked_path-known host.mkdir_p env (codes "reboot.txt") wrote known) (
      (known, rw (text_eq_refl (path_in s.server (codes "reboot.txt"))) refl),
      refl,
      Adds-write calls s.server.report,
    )

abbrev pub reboot_watcher : Env → Watcher Host
reboot_watcher env = record {
  run = on_process_watch env;
  holds = λ host. host.required;
  now = λ host. host.now;
  problems = λ host since. reboot_problems host host.required since;
}

watch-Remembers :
    (env : Env) → Remembers env (codes "reboot.txt") (reboot_watcher env) (IsUsual env)
unfolding on_process_watch
watch-Remembers env host = check_flag-Goes env host host.required

-- Let the directory of the cache be known, the file say since when a reboot is required (or be absent),
-- and every run be able to write the file and to read its own time back. After any number of runs, the
-- next run throws nothing. If a reboot is required then, it reports one error, of priority 100 if the day
-- is the thirtieth or a later one after that of the first of the latest runs in a row that saw the flag, 90
-- from the tenth day on, 70 from the fourth on and 45 before, and the file says the time of that first run;
-- otherwise it reports no error and removes the file.
pub reboot-Remembers :
    (env : Env) (hosts : List Host) (host : Host) (since : Option ℤ) (s : State)
    → AllUsual (IsUsual env) (path_in s.server (codes "reboot.txt")) (host ∷ hosts)
    → Knows env (codes "reboot.txt") since s
    → let before = runs (reboot_watcher env) hosts s in
      let held = since_after (reboot_watcher env) hosts since in
      Goes env
        (codes "reboot.txt")
        host.required
        host.now
        (reboot_problems host host.required held)
        held
        before
        (on_process_watch env host before)
reboot-Remembers env =
    runs-Go env (codes "reboot.txt") (reboot_watcher env) (IsUsual env) (watch-Remembers env)

/ℤ-mono : (a b : ℤ) → a ≤ℤ b → a /ℤ 86400 ≤ℤ b /ℤ 86400
unfolding ◌/ℤ◌
/ℤ-mono (pos a) (pos b) h = ground arith
/ℤ-mono (pos a) (negsuc b) h = ground arith
/ℤ-mono (negsuc a) (pos b) h = ground arith
/ℤ-mono (negsuc a) (negsuc b) h = ground arith

days_between-mono :
    (date now later : ℤ) → now ≤ℤ later → days_between date now ≤ℤ days_between date later
unfolding days_between
days_between-mono date now later h = omega (int_laws, /ℤ-mono now later h)

priority_after-mono : (d e : ℤ) → d ≤ℤ e → priority_after d ≤ℤ priority_after e
unfolding priority_after
priority_after-mono d e h = ground arith

priority_after-highest : (d : ℤ) → (priority_after d ≡ pos 100) ↔ (pos 30 ≤ℤ d)
unfolding priority_after
priority_after-highest d = ground arith

-- While a reboot stays required since the same date, a later run never reports a lower priority, and the
-- priority is 100 exactly from the thirtieth day on.
report-Grows :
    (date now later : ℤ)
    → now ≤ℤ later
    → (priority_after (days_between date now) ≤ℤ priority_after (days_between date later))
      × ((priority_after (days_between date now) ≡ pos 100) ↔ (pos 30 ≤ℤ days_between date now))
report-Grows date now later h = (
  priority_after-mono (days_between date now) (days_between date later)
      (days_between-mono date now later h),
  priority_after-highest (days_between date now),
)
