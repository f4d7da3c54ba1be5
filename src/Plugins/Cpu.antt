-- ===== src/Plugins/Cpu.antt =====
-- The cpu plugin, plugins/sitter_cpu/cpu.cpp: the numbers of `sys_stats`, and an error while the load stays
-- high for a quarter of an hour.
pub mod Numbers
pub mod Overload
pub mod Lost
use sitter.Base.{
  ℤ, pos, ◌-ℤ◌, ltb_ℤ, Bool, true, false, if◌then◌else◌, codes, [], ◌∷◌, Text, Option, none, some,
  Result, ok, err,
}
use sitter.Double.{Double}
use sitter.Env.{Env}
use sitter.Json.{Value, put, Doc, ◌/+◌}
use sitter.Report.{append_error}
use sitter.Action.{Action, pure, throw, write, ◌>>◌}
use sitter.SysStats.{Stats, load_uptime, load_loadavg}
use sitter.Plugins.CacheFile.{State, with_report, set_file, asked_path, remember}
use sitter.Plugins.Cpu.Numbers.{
  Host, cpu_ref, cpu_count, new_stats, max_load, uptime_doc, averages_doc, counters,
}

abbrev pub warning_doc : Doc
warning_doc = put (cpu_ref /+ codes "warning") (Value.text (codes "High CPU usage")) ∷ []

abbrev add_warning : Action (Unit {0})
add_warning = write warning_doc

-- The time in the file decides between the error, at the root of the document, and the warning.
unfoldable pub check_since : ℤ → Bool × ℤ → Action (Unit {0})
check_since now (true, date) =
    if ltb_ℤ (pos 900) (now -ℤ date)
    then append_error [] (codes "cpu") (codes "High CPU usage.") (pos 100)
    else add_warning
check_since now (false, date) = add_warning

unfoldable pub report_high : Env → ℤ → Option Text → Action (Unit {0})
unfolding check_since
report_high env now none = add_warning
report_high env now (some contents) = check_since now (env.convert_integer contents (pos 0))

-- The counters come after the check, unless it threw.
unfoldable pub report_counters : Result Doc → State × Result (Unit {0}) → State × Result (Unit {0})
report_counters calls (s, err e) = (s, err e)
report_counters (err e) (s, ok _) = (s, err e)
report_counters (ok calls) (s, ok _) = with_report (write calls) s

module _ {D : Type 0} ⦃d : Double D⦄ where
  unfoldable pub write_averages : Result (Stats D) → Action (Stats D)
  write_averages (err e) = throw e
  write_averages (ok s) = write (averages_doc s) >> pure s

  -- The uptime and the load averages.
  unfoldable pub report_averages : Env → Host D → Action (Stats D)
  unfolding write_averages
  report_averages env host =
      let up = load_uptime host.convert_double env host.proc (new_stats host.indeterminate_cpu) in
      write (uptime_doc host up)
      >> write_averages (load_loadavg host.convert_double env host.proc up)

  unfoldable pub check_load : Env → Host D → Bool → State → State × Result (Unit {0})
  check_load env host high s =
      let (asked, filename) = asked_path host.mkdir_p env (codes "high_cpu_usage.txt") s in
      let file = asked.files filename in
      if high
      then with_report (report_high env host.now file)
          (set_file filename (remember (host.write_all filename) host.now file) asked)
      else (set_file filename none asked, ok tt)

  unfoldable pub is_high : Host D → Stats D → Bool
  is_high host s = d.le (max_load (cpu_count host)) s.avg_1min

  unfoldable pub check_averages :
      Env → Host D → State × Result (Stats D) → State × Result (Unit {0})
  unfolding check_load report_counters is_high
  check_averages env host (s, err e) = (s, err e)
  check_averages env host (s, ok averages) =
      report_counters (counters env host averages) (check_load env host (is_high host averages) s)

  unfoldable pub on_process_watch : Env → Host D → State → State × Result (Unit {0})
  unfolding check_averages
  on_process_watch env host s = check_averages env host (with_report (report_averages env host) s)
