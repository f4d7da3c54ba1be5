-- ===== src/Plugins/Cpu/Overload.antt =====
-- When the cpu plugin, plugins/sitter_cpu/cpu.cpp, reports an error over several runs.
use sitter.Base.{
  ◌≡◌, refl, ℤ, pos, ◌-ℤ◌, ltb_ℤ, Bool, true, false, if◌then◌else◌, Text, codes, text_eq_refl, List,
  [], ◌∷◌, Option, none, some, Result, ok, err, arith, Bool-cases, inl, inr,
}
use sitter.Double.{Double}
use sitter.Env.{Env}
use sitter.Json.{Doc}
use sitter.Report.{Report}
use sitter.Report.Laws.{Issue}
use sitter.Report.Adds.{Adds, Adds-report, Adds-write, Adds-pure}
use sitter.Action.{write, ◌>>◌}
use sitter.SysStats.{Stats, load_uptime, load_loadavg}
use sitter.Plugins.CacheFile.{State, with_report, set_file}
use sitter.Plugins.CacheFile.Since.{
  Says, ReadsBack, remember-Says, path_in, asked_path-known, Watcher, Knows, Goes, Remembers, runs,
  since_after, AllUsual, runs-Go,
}
use sitter.Plugins.Cpu.Numbers.{Host, new_stats, uptime_doc, counters}
use sitter.Plugins.Cpu.{
  report_averages, warning_doc, write_averages, check_since, report_high, check_load,
  report_counters, is_high, check_averages, on_process_watch,
}

-- The errors of a run: one once the load is high for more than a quarter of an hour.
abbrev held_problems : ℤ → Option ℤ → List Issue
held_problems now none = []
held_problems now (some t) =
    if ltb_ℤ (pos 900) (now -ℤ t) then (codes "High CPU usage.", pos 100) ∷ [] else []

abbrev pub cpu_problems : Bool → ℤ → Option ℤ → List Issue
cpu_problems high now since = if high then held_problems now since else []

check_since-Adds :
    (now t : ℤ) (r : Report) → Adds (check_since now (true, t)) r tt (held_problems now (some t))
unfolding check_since
check_since-Adds now t r = elim (Bool-cases (ltb_ℤ (pos 900) (now -ℤ t))) [
  | inl late ↦ rw late (
      Adds-report true [] (codes "cpu") (codes "High CPU usage.") (pos 100) r
        (omega arith, omega arith))
  | inr early ↦ rw early (Adds-write warning_doc r)
]

report_high-Adds :
    (env : Env) (now : ℤ) (since : Option ℤ) (file : Option Text) (r : Report)
    → Says env since file
    → Adds (report_high env now file) r tt (held_problems now since)
unfolding report_high
report_high-Adds env now none file r absent = rw absent (Adds-write warning_doc r)
report_high-Adds env now (some t) file r (text, there, read) =
    rw (there, read) (check_since-Adds now t r)

module _ {D : Type 0} ⦃d : Double D⦄ (env : Env) where
  -- The members after the load averages were read, where their file has what the code reads.
  abbrev pub averages_of : Host D → Result (Stats D)
  averages_of host =
      load_loadavg host.convert_double env host.proc
        (load_uptime host.convert_double env host.proc (new_stats host.indeterminate_cpu))

  abbrev high_from : Host D → Result (Stats D) → Bool
  high_from host (ok s) = is_high host s
  high_from host (err e) = false

  abbrev pub high_of : Host D → Bool
  high_of host = high_from host (averages_of host)

  -- A run whose files of /proc have what the code reads, whose write would succeed, and whose time is read
  -- back as it is written.
  abbrev pub IsUsual : Text → Host D → Type 0
  IsUsual path host =
      (host.write_all path ≡ true)
      × ReadsBack env host.now
      × ((s : Stats D) × (averages_of host ≡ ok s)
          × (calls : Doc) × (counters env host s ≡ ok calls))

  check_load-Goes :
      (host : Host D) (high : Bool) (since : Option ℤ) (s : State)
      → host.write_all (path_in s.server (codes "high_cpu_usage.txt")) ≡ true
      → ReadsBack env host.now
      → Knows env (codes "high_cpu_usage.txt") since s
      → Goes env
          (codes "high_cpu_usage.txt")
          high
          host.now
          (cpu_problems high host.now since)
          since
          s
          (check_load env host high s)
  unfolding check_load with_report set_file
  check_load-Goes host true since s writes back (known, says) =
      let path = path_in s.server (codes "high_cpu_usage.txt") in
      rw (asked_path-known host.mkdir_p env (codes "high_cpu_usage.txt") s known) (
        (
          known,
          rw (text_eq_refl path, writes)
              (remember-Says env host.now since (s.files path) back says),
        ),
        refl,
        report_high-Adds env host.now since (s.files path) s.server.report says,
      )
  check_load-Goes host false since s writes back (known, says) =
      let path = path_in s.server (codes "high_cpu_usage.txt") in
      rw (asked_path-known host.mkdir_p env (codes "high_cpu_usage.txt") s known)
        ((known, rw (text_eq_refl path) refl), refl, Adds-pure tt s.server.report)

  report_counters-Goes :
      (host : Host D) (high : Bool) (since : Option ℤ) (s : State) (calls : Doc)
      (checked : State × Result (Unit {0}))
      → let goes =
          Goes env
            (codes "high_cpu_usage.txt")
            high
            host.now
            (cpu_problems high host.now since)
            since
            s in
        goes checked → goes (report_counters (ok calls) checked)
  unfolding report_counters with_report
  report_counters-Goes host high since s calls (s', ok a)
        (knows, path, (done, count, highest, issues)) =
      (knows, path, (refl, count, highest, issues))
  report_counters-Goes host high since s calls (s', err e)
        (knows, path, (thrown, count, highest, issues)) =
      cc

  check_averages-Goes :
      (host : Host D) (averages : Stats D) (calls : Doc) (since : Option ℤ) (s : State)
      → counters env host averages ≡ ok calls
      → host.write_all (path_in s.server (codes "high_cpu_usage.txt")) ≡ true
      → ReadsBack env host.now
      → Knows env (codes "high_cpu_usage.txt") since s
      → let high = is_high host averages in
        Goes env
          (codes "high_cpu_usage.txt")
          high
          host.now
          (cpu_problems high host.now since)
          since
          s
          (check_averages env host (s, ok averages))
  unfolding check_averages
  check_averages-Goes host averages calls since s counted writes back knows = rw counted (
      report_counters-Goes host (is_high host averages) since s calls
        (check_load env host (is_high host averages) s)
        (check_load-Goes host (is_high host averages) since s writes back knows))

  abbrev pub cpu_watcher : Watcher (Host D)
  cpu_watcher = record {
    run = on_process_watch env;
    holds = high_of;
    now = λ host. host.now;
    problems = λ host since. cpu_problems (high_of host) host.now since;
  }

  counters-same :
      (host : Host D) (found averages : Stats D) (calls : Doc)
      → ◌≡◌ {A = Result (Stats D)} (ok found) (ok averages)
      → counters env host averages ≡ ok calls
      → counters env host found ≡ ok calls
  counters-same host found averages calls same counted = cc

  watch_loaded-Goes :
      (host : Host D) (loaded : Result (Stats D)) (averages : Stats D) (calls up : Doc)
      (since : Option ℤ) (s : State)
      → loaded ≡ ok averages
      → counters env host averages ≡ ok calls
      → host.write_all (path_in s.server (codes "high_cpu_usage.txt")) ≡ true
      → ReadsBack env host.now
      → Knows env (codes "high_cpu_usage.txt") since s
      → Goes env
          (codes "high_cpu_usage.txt")
          (high_from host loaded)
          host.now
          (cpu_problems (high_from host loaded) host.now since)
          since
          s
          (check_averages env host (with_report (write up >> write_averages loaded) s))
  unfolding with_report write_averages
  watch_loaded-Goes host (err e) averages calls up since s thrown counted writes back knows = cc
  watch_loaded-Goes host (ok found) averages calls up since s loaded counted writes back knows =
      let told = (with_report (write up >> write_averages (ok found)) s).0 in
      check_averages-Goes host found calls since told
        (counters-same host found averages calls loaded counted) writes back knows

  watch-Remembers : Remembers env (codes "high_cpu_usage.txt") cpu_watcher IsUsual
  unfolding on_process_watch report_averages
  watch-Remembers host since s (writes, back, (averages, loaded, calls, counted)) knows =
      watch_loaded-Goes host (averages_of host) averages calls
        (uptime_doc host
          (load_uptime host.convert_double env host.proc (new_stats host.indeterminate_cpu)))
        since s loaded counted writes back knows

  -- Let the directory of the cache be known, the file say since when the load is high (or be absent), and
  -- every run find what it reads in /proc, be able to write the file and to read its own time back. After
  -- any number of runs, the next run throws nothing. If the load is high then, the file says the time of the
  -- first of the latest runs in a row that found it high, and the run reports "High CPU usage.", of priority 100,
  -- if that time was in the file before the run and lies more than 900 seconds back, and no error
  -- otherwise. If the load is not high, it reports no error and removes the file.
  pub cpu-Remembers :
      (hosts : List (Host D)) (host : Host D) (since : Option ℤ) (s : State)
      → AllUsual IsUsual (path_in s.server (codes "high_cpu_usage.txt")) (host ∷ hosts)
      → Knows env (codes "high_cpu_usage.txt") since s
      → let before = runs cpu_watcher hosts s in
        let held = since_after cpu_watcher hosts since in
        Goes env
          (codes "high_cpu_usage.txt")
          (high_of host)
          host.now
          (cpu_problems (high_of host) host.now held)
          held
          before
          (on_process_watch env host before)
  cpu-Remembers = runs-Go env (codes "high_cpu_usage.txt") cpu_watcher IsUsual watch-Remembers
