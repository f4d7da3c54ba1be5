-- ===== src/Plugins/Cpu/Lost.antt =====
-- The cpu plugin, plugins/sitter_cpu/cpu.cpp, where the cache directory can be made.
use sitter.Base.{◌≡◌, refl, Bool, true, false, codes, text_eq, List, ◌∷◌, Result, ok, err}
use sitter.Double.{Double}
use sitter.Env.{Env}
use sitter.Json.{Doc}
use sitter.Action.{write, ◌>>◌}
use sitter.SysStats.{Stats, load_uptime}
use sitter.Plugins.CacheFile.{State, with_report, set_file, remember}
use sitter.Plugins.CacheFile.Since.{runs}
use sitter.Plugins.CacheFile.Lost.{IsMade, IsLost, AllGiven, asked_path-IsLost, runs-keep}
use sitter.Plugins.Cpu.Numbers.{Host, counters, new_stats, uptime_doc}
use sitter.Plugins.Cpu.{
  write_averages, report_high, check_load, report_counters, is_high, check_averages,
  report_averages, on_process_watch,
}
use sitter.Plugins.Cpu.Overload.{cpu_watcher, averages_of}

-- No run adds an error; one that returns or throws leaves the state lost.
abbrev IsQuiet : State → State × Result (Unit {0}) → Type 0
IsQuiet s outcome =
    IsLost outcome.0
    × (outcome.0.server.report.error_count ≡ s.server.report.error_count)
    × (outcome.0.server.report.max_error_priority ≡ s.server.report.max_error_priority)

report_counters-IsLost :
    (calls : Result Doc) (s : State) (checked : State × Result (Unit {0}))
    → IsQuiet s checked
    → IsQuiet s (report_counters calls checked)
unfolding report_counters with_report
report_counters-IsLost calls s (s', err e) quiet = quiet
report_counters-IsLost (err e) s (s', ok a) quiet = quiet
report_counters-IsLost (ok calls) s (s', ok a) quiet = quiet

module _ {D : Type 0} ⦃d : Double D⦄ (env : Env) where
  check_load-IsLost :
      (host : Host D) (high : Bool) (s : State)
      → IsMade env host.mkdir_p host.write_all
      → IsLost s
      → IsQuiet s (check_load env host high s)
  unfolding check_load report_high with_report set_file remember text_eq
  check_load-IsLost host true s (made, unwritten) (unknown, absent) =
      rw
        (
          asked_path-IsLost host.mkdir_p env (codes "high_cpu_usage.txt") s made unknown,
          absent,
          unwritten,
        )
        ((refl, refl), refl, refl)
  check_load-IsLost host false s (made, unwritten) (unknown, absent) =
      rw (asked_path-IsLost host.mkdir_p env (codes "high_cpu_usage.txt") s made unknown)
        ((refl, refl), refl, refl)

  watch-IsLost :
      (host : Host D) (loaded : Result (Stats D)) (up : Doc) (s : State)
      → IsMade env host.mkdir_p host.write_all
      → IsLost s
      → IsQuiet s (check_averages env host (with_report (write up >> write_averages loaded) s))
  unfolding check_averages with_report write_averages
  watch-IsLost host (err e) up s made lost = (lost, refl, refl)
  watch-IsLost host (ok averages) up s made lost =
      let told = (with_report (write up >> write_averages (ok averages)) s).0 in
      report_counters-IsLost (counters env host averages) s
        (check_load env host (is_high host averages) told)
        (check_load-IsLost host (is_high host averages) told made lost)

  run-IsLost :
      (host : Host D) (s : State)
      → IsMade env host.mkdir_p host.write_all
      → IsLost s
      → IsQuiet s (on_process_watch env host s)
  unfolding on_process_watch report_averages
  run-IsLost host s made lost =
      watch-IsLost host (averages_of env host)
        (uptime_doc host
          (load_uptime host.convert_double env host.proc (new_stats host.indeterminate_cpu)))
        s made lost

  -- Where the cache directory can be made, no path of it is known yet, and no file without a name can be
  -- read or written, no run of the plugin ever reports an error, however high the load is and however long.
  pub overload_never_reported :
      (hosts : List (Host D)) (host : Host D) (s : State)
      → AllGiven (λ (h : Host D). IsMade env h.mkdir_p h.write_all) (host ∷ hosts)
      → IsLost s
      → let before = runs (cpu_watcher env) hosts s in
        let after = (on_process_watch env host before).0 in
        (after.server.report.error_count ≡ before.server.report.error_count)
        × (after.server.report.max_error_priority ≡ before.server.report.max_error_priority)
  overload_never_reported hosts host s (made, all_made) lost =
      let (_, count, highest) = run-IsLost host (runs (cpu_watcher env) hosts s) made (
        runs-keep (cpu_watcher env) (λ (h : Host D). IsMade env h.mkdir_p h.write_all) IsLost
          (λ h t given is_lost. (run-IsLost h t given is_lost).0) hosts s all_made lost) in
      (count, highest)
