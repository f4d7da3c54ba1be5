-- ===== src/Tests/Worker.antt =====
-- The theorems on sitter/sitter_worker.cpp at concrete interleavings, clocks and options.
use sitter.Base.{
  ◌≤◌, ◌≡◌, refl, ℤ, pos, ◌+ℤ◌, ◌-ℤ◌, ◌≤ℤ◌, true, Text, codes, text_eq, to_string, List, [], ◌∷◌,
  none, ok,
}
use sitter.Env.{Env}
use sitter.Settings.{unset}
use sitter.Server.{get_cache_path, get_server_parameter}
use sitter.Settings.Priorities.{get_error_report_low_priority, get_error_report_critical_priority}
use sitter.Worker.Ticks.{
  asleep, left, Shared, Event, timer_tick, stop_request, wakeup_call, worker, run, initial,
}
use sitter.Worker.Ticks.Laws.{IsSound, run-initial-IsSound, run_loses_no_tick, total}
use sitter.Worker.Ticks.Stop.{stop_ends_the_worker}
use sitter.Worker.Run.{
  Machine, Daemon, send_email, report_after, report_error, too_soon, select_span,
  get_error_report_low_span, get_error_report_critical_span,
}
use sitter.Worker.Run.Emails.{emails_apart, span_of}
use sitter.Tests.Sample.{env_of, new_report}

abbrev events : List Event
events = worker ∷ timer_tick ∷ timer_tick ∷ worker ∷ worker ∷ timer_tick ∷ []

run-initial-IsSound_example : IsSound (run (wakeup_call ∷ events) initial)
run-initial-IsSound_example = run-initial-IsSound (wakeup_call ∷ events)

run_loses_no_tick_example :
    let s = run events initial in (total s.taken +ℤ s.ticks ≡ pos 3) × (s.runs ≤ 3)
run_loses_no_tick_example = run_loses_no_tick events refl

abbrev sleeping : Shared
sleeping = record initial { place = asleep }

stop_ends_the_worker_example :
    let s = run (stop_request ∷ wakeup_call ∷ worker ∷ []) sleeping in
    (s.place ≡ left) × (s.runs ≡ 0)
stop_ends_the_worker_example = stop_ends_the_worker sleeping (worker ∷ []) refl

-- A run that found an error of priority 95.
abbrev machine_at : ℤ → ℤ → Machine
machine_at start now = record {
  start_date = start;
  end_date = now;
  now = now;
  hostname = codes "node";
  writable = λ name. true;
  mkdir_p = λ name. pos 0;
  json_text = λ doc. codes "{}";
}

abbrev daemon_with : Text → Daemon
daemon_with cache_path = record {
  server = record {
    settings = unset;
    report = record new_report { error_count = pos 1; max_error_priority = pos 95 };
    cache_path = cache_path;
  };
  files = λ name. none;
  emails = [];
  err_once = true;
}

abbrev with_addresses : Env
with_addresses =
    env_of ((codes "from_email", codes "a") ∷ (codes "administrator_email", codes "b") ∷ [])

-- The first report, and a second one more than a day later.
abbrev after_first : Daemon
after_first =
    report_after with_addresses (machine_at (pos 0) (pos 5)) (pos 600) (daemon_with (codes "c"))

abbrev after_second : Daemon
after_second =
    report_after with_addresses (machine_at (pos 0) (pos 90000)) (pos 86400) (record after_first {
      server = record after_first.server {
        settings = record unset {
          low_priority = pos 10;
          low_span = pos 604800;
          critical_priority = pos 90;
          critical_span = pos 86400;
        };
      };
    })

emails_apart_example :
    (span : ℤ) × (span_of with_addresses after_first ≡ ok span) × (span ≤ℤ pos 90000 -ℤ pos 5)
unfolding text_eq to_string report_after get_cache_path send_email report_error too_soon
    get_server_parameter ◌-ℤ◌ get_error_report_low_priority select_span get_error_report_low_span
    get_error_report_critical_priority get_error_report_critical_span
emails_apart_example =
    emails_apart with_addresses (machine_at (pos 0) (pos 5)) (machine_at (pos 0) (pos 90000))
      (pos 600) (daemon_with (codes "c")) after_first after_second (λ h. cc) refl refl refl
      (λ h. cc) refl refl (λ h. cc)
