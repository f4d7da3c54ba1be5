-- ===== src/Tests/Daemons.antt =====
-- The theorems on the runs of plugins/sitter_cpu, plugins/sitter_reboot and plugins/sitter_network, on
-- tools/find_process.cpp and on the life of the daemon, sitter/sitter.cpp, on small data.
use sitter.Base.{
  ℕ, ◌≡◌, refl, ℤ, pos, negsuc, true, false, not, if◌then◌else◌, Text, codes, text_eq, [], ◌∷◌,
  Option, none, some, ok, ◌↔◌, ◌⊎◌, to_string, is_empty, ◌/ℤ◌, ◌-ℤ◌, ◌*ℤ◌, ◌+ℤ◌,
}
use sitter.Env.{Env}
use sitter.Double.Laws.{Fraction, fraction_double}
use sitter.Report.{ProcessInfo}
use sitter.Report.Adds.{Adds}
use sitter.Settings.{unset}
use sitter.Plugins.CacheFile.{State}
use sitter.Plugins.CacheFile.Since.{Goes, ReadsBack, runs, since_after}
use sitter.Plugins.Reboot
use sitter.Plugins.Reboot.Reports.{reboot_watcher, reboot_problems, reboot-Remembers}
use sitter.SysStats.{
  load_loadavg, load_uptime, convert_integer, get_cpu_stat, load_stat, get_vmstat, load_vmstats,
  get_map_int64,
}
use sitter.Plugins.Cpu
use sitter.Plugins.Cpu.Numbers.{Host as CpuHost, new_stats, counters, max_load, cpu_count}
use sitter.Plugins.Cpu.Overload
use sitter.Plugins.Cpu.{is_high}
use sitter.Plugins.Cpu.Lost.{overload_never_reported}
use sitter.Plugins.Network
use sitter.Plugins.Network.{watch_network, unconnected_message}
use sitter.Plugins.Network.Reports.{network_problems, lost_connection_unreported}
use sitter.Connection.{new_link, after_ready, get_communicatord_is_connected}
use sitter.FindProcess.{Host as FindHost, Tests, main}
use sitter.FindProcess.Found.{IsThere, tests_of, main-Found, script_is_found}
use sitter.Daemon.{
  DaemonState, start_run, is_registered, handle, process_timeout, fluid_settings_changed,
  setting_changed, fluid_ready, timeout,
}
use sitter.Daemon.Reachable.{Reaches, begin, after, Succeeds, daemon-IsSafe}
use sitter.Settings.Statistics.{get_statistics_frequency}
use mathlib.Core.Option
use sitter.Tests.Sample.{env_of, new_report, read_integer}

abbrev sample_env : Env
sample_env = env_of ((codes "cache_path", codes "/c") ∷ [])

-- The directory is known, and no file is there.
abbrev known_state : State
known_state = record {
  server = record { settings = unset; report = new_report; cache_path = codes "/c" };
  files = λ name. none;
}

abbrev reboot_at : ℤ → Reboot.Host
reboot_at now = record {
  mkdir_p = λ path. negsuc 0;
  write_all = λ name. true;
  now = now;
  required = true;
}

-- The flag is seen twelve days apart.
reboot-Remembers_example :
    let hosts = reboot_at (pos 86400) ∷ [] in
    let host = reboot_at (pos 1123200) in
    let before = runs (reboot_watcher sample_env) hosts known_state in
    let held = since_after (reboot_watcher sample_env) hosts none in
    Goes sample_env
      (codes "reboot.txt")
      true
      (pos 1123200)
      (reboot_problems host true held)
      held
      before
      (Reboot.on_process_watch sample_env host before)
unfolding to_string
reboot-Remembers_example =
    reboot-Remembers sample_env (reboot_at (pos 86400) ∷ []) (reboot_at (pos 1123200)) none
      known_state ((refl, refl), ((refl, refl), tt)) (refl, refl)

twelve_days :
    reboot_problems
      (reboot_at (pos 1123200))
      true
      (since_after (reboot_watcher sample_env) (reboot_at (pos 86400) ∷ []) none)
    ≡ (codes "Reboot is required.", pos 90) ∷ []
unfolding ◌/ℤ◌ ◌+ℤ◌
twelve_days = refl

abbrev to_fraction : Text → Fraction → Fraction
to_fraction text old = fraction_double.of_int (read_integer text (pos 0)).1

abbrev busy_proc : Text → Option Text
busy_proc name = if text_eq name (codes "/proc/loadavg") then some (codes "5 4 3 1/2 9") else none

abbrev busy_at : ℤ → CpuHost Fraction
busy_at now = record {
  proc = busy_proc;
  convert_double = to_fraction;
  hardware_concurrency = 1;
  clock_ticks = pos 100;
  mkdir_p = λ path. negsuc 0;
  write_all = λ name. true;
  now = now;
  indeterminate_cpu = pos 0 ∷ pos 0 ∷ pos 0 ∷ pos 0 ∷ pos 0 ∷ pos 0 ∷ pos 0 ∷ pos 0 ∷ pos 0 ∷ [];
}

busy-IsUsual :
    (n : ℕ)
    → ReadsBack sample_env (pos n)
    → Overload.IsUsual sample_env (codes "/c/high_cpu_usage.txt") (busy_at (pos n))
unfolding load_loadavg load_uptime new_stats convert_integer counters get_cpu_stat load_stat
    get_vmstat load_vmstats get_map_int64 text_eq ◌*ℤ◌ ◌+ℤ◌
busy-IsUsual n back = (refl, back, (_, refl, _, refl))

-- High load found at 100 is an error at 1100, once 900 seconds have passed.
cpu-Remembers_example :
    let hosts = busy_at (pos 100) ∷ [] in
    let host = busy_at (pos 1100) in
    let before = runs (Overload.cpu_watcher sample_env) hosts known_state in
    let held = since_after (Overload.cpu_watcher sample_env) hosts none in
    Goes sample_env
      (codes "high_cpu_usage.txt")
      (Overload.high_of sample_env host)
      (pos 1100)
      (Overload.cpu_problems (Overload.high_of sample_env host) (pos 1100) held)
      held
      before
      (Cpu.on_process_watch sample_env host before)
unfolding to_string
cpu-Remembers_example =
    Overload.cpu-Remembers sample_env (busy_at (pos 100) ∷ []) (busy_at (pos 1100)) none known_state
      (busy-IsUsual 1100 refl, (busy-IsUsual 100 refl, tt)) (refl, refl)

busy_run :
    Overload.cpu_problems
      (Overload.high_of sample_env (busy_at (pos 1100)))
      (pos 1100)
      (since_after (Overload.cpu_watcher sample_env) (busy_at (pos 100) ∷ []) none)
    ≡ (codes "High CPU usage.", pos 100) ∷ []
unfolding load_loadavg load_uptime new_stats convert_integer text_eq is_high max_load cpu_count ◌-ℤ◌
    ◌*ℤ◌
busy_run = refl

abbrev fresh_state : State
fresh_state = record {
  server = record { settings = unset; report = new_report; cache_path = [] };
  files = λ name. none;
}

-- The same load where the directory of the cache can be made.
abbrev made_at : ℤ → CpuHost Fraction
made_at now = record (busy_at now) {
  mkdir_p = λ path. pos 0;
  write_all = λ name. not (is_empty name);
}

overload_never_reported_example :
    let before = runs (Overload.cpu_watcher sample_env) (made_at (pos 100) ∷ []) fresh_state in
    let after = (Cpu.on_process_watch sample_env (made_at (pos 1100)) before).0 in
    (after.server.report.error_count ≡ before.server.report.error_count)
    × (after.server.report.max_error_priority ≡ before.server.report.max_error_priority)
overload_never_reported_example =
    overload_never_reported sample_env (made_at (pos 100) ∷ []) (made_at (pos 1100)) fresh_state
      ((refl, refl), ((refl, refl), tt)) (refl, refl)

abbrev sample_process : ProcessInfo
sample_process = record {
  name = codes "communicatord";
  command = codes "/usr/sbin/communicatord";
  args = [];
  cpu_percent = codes "0.5";
  total_size = pos 1000;
  rss_size = pos 500;
  tty_major = pos 0;
  tty_minor = pos 0;
  utime = pos 1;
  stime = pos 1;
  cutime = pos 0;
  cstime = pos 0;
}

abbrev network_host : Network.Host
network_host = record {
  list_find = λ name. if text_eq name (codes "communicatord") then some sample_process else none;
  now = pos 500_000_000_000;
  show_seconds = λ z. [];
}

network_run :
    network_problems network_host
      (new_link (pos 0))
      (network_host.list_find (codes "communicatord"))
    ≡ (unconnected_message network_host (pos 200_000_000_000), pos 30) ∷ []
unfolding text_eq new_link get_communicatord_is_connected ◌-ℤ◌
network_run = refl

lost_connection_unreported_example :
    Adds
      (watch_network network_host (after_ready (pos 5 ∷ pos 9 ∷ []) (new_link (pos 1))))
      new_report
      tt
      []
unfolding text_eq
lost_connection_unreported_example =
    lost_connection_unreported network_host (pos 1) (pos 5) (pos 9 ∷ []) sample_process new_report
      refl refl

abbrev tool_host : FindHost
tool_host = record {
  env = env_of ((codes "script", codes "java") ∷ (codes "--", codes "tool") ∷ []);
  processes =
      record { basename = codes "sh"; args = codes "sh" ∷ [] }
      ∷ record {
        basename = codes "java";
        args = codes "/bin/java" ∷ codes "-v" ∷ codes "opt/tool" ∷ codes "x" ∷ [];
      }
      ∷ [];
  regex = λ pattern. ok (λ name. text_eq name pattern);
}

main-Found_example : (main tool_host ≡ pos 0) ↔ (
    (tests : Tests) × (tests_of tool_host ≡ ok tests)
    × IsThere tests (codes "java") tool_host.processes)
unfolding text_eq
main-Found_example = main-Found tool_host

script_is_found_example : main tool_host ≡ pos 0
unfolding text_eq
script_is_found_example =
    script_is_found tool_host 1 (codes "/bin/java") (codes "-v" ∷ []) b'o' (codes "pt")
      (codes "x" ∷ []) refl refl refl refl refl refl

-- The settings are ready, the timer ticks, and a signal stops the daemon.
abbrev ready_daemon : DaemonState
ready_daemon = record (start_run (pos 5)) { timer_enabled = true }

ready_daemon-Reaches : Reaches (pos 5) ready_daemon
unfolding start_run is_registered handle fluid_settings_changed
ready_daemon-Reaches = after begin (setting_changed fluid_ready []) refl refl

daemon-IsSafe_example :
    (is_registered (timeout sample_env) ready_daemon ≡ false)
    ⊎ ((ready_daemon.stopping ≡ false) × Succeeds (handle (timeout sample_env) ready_daemon))
daemon-IsSafe_example = daemon-IsSafe (pos 5) ready_daemon (timeout sample_env) ready_daemon-Reaches

-- The first timeout asks for the delay of the default frequency.
first_timeout :
    Option.map (λ (d : DaemonState). d.timeout_delay) (handle (timeout sample_env) ready_daemon)
    ≡ some (pos 60_000_000)
unfolding start_run handle process_timeout get_statistics_frequency ◌*ℤ◌ text_eq
first_timeout = refl
