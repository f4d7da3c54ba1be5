-- ===== src/Tests/Processes.antt =====
-- The theorems on plugins/sitter_processes at two definitions and two running processes.
use sitter.Base.{
  ◌≡◌, refl, pos, true, false, ◌&&◌, ◌||◌, if◌then◌else◌, Text, codes, text_eq, [], ◌∷◌, ◌++◌, List,
  ok, some,
}
use sitter.Plugins.Processes.Registered.{register_files}
use sitter.Env.{ConfFile}
use sitter.Report.{ProcessInfo}
use sitter.Report.Adds.{Adds}
use sitter.Plugins.Processes.{Process, Host, set_service}
use sitter.Plugins.Processes.Definitions.{load_processes}
use sitter.Plugins.Processes.Loading.{process_files, is_distinct, load_processes-IsDistinct}
use sitter.Plugins.Processes.Services.{missing_service_unreported}
use sitter.Plugins.Processes.Watch.{State, on_process_watch, check_missing}
use sitter.Plugins.Processes.Watch.Meaning.{fits, should_run}
use sitter.Plugins.Processes.Watch.Pairs.{Pairing, IsPairing}
use sitter.Plugins.Processes.Watch.Problems.{on_process_watch-Leaves}
use sitter.Plugins.Processes.Watch.Running.{Leaves, running_problems, missing_problems}
use sitter.Tests.Sample.{env_of, new_report}

-- One file for each definition: a process by its name, and a backend.
abbrev conf_of : Text → ConfFile
conf_of filename = record {
  has_parameter = λ name.
      text_eq name (codes "name")
      || text_eq filename (codes "backend.conf")
        && (text_eq name (codes "service") || text_eq name (codes "backend"));
  get_parameter = λ name.
      if text_eq name (codes "name")
      then (if text_eq filename (codes "backend.conf") then codes "snapbackend" else codes "cron")
      else if text_eq name (codes "service")
      then codes "snapbackend"
      else if text_eq name (codes "backend")
      then codes "true"
      else [];
}

abbrev host : Host
host = record {
  env = env_of [];
  show_output = λ service. codes "enabled\n";
  active_start = λ service. pos 0;
  active_wait = λ service. pos 0;
  maintenance_exists = true;
  maintenance_contents = [];
  is_true = λ text. text_eq text (codes "true");
  is_regex = λ text. true;
  regex_match = λ text expression. text_eq text expression;
  trim_string = λ text. text;
  glob = λ pattern. codes "cron.conf" ∷ codes "backend.conf" ∷ [];
  conf_file = conf_of;
}

abbrev cron : Process
cron = record {
  name = codes "cron";
  command = [];
  service = [];
  match = [];
  match_defined = false;
  mandatory = false;
  allow_duplicates = false;
  service_is_enabled = true;
  service_is_active = true;
  service_is_backend = false;
}

abbrev backend : Process
backend = record {
  name = codes "snapbackend";
  command = [];
  service = codes "snapbackend";
  match = [];
  match_defined = false;
  mandatory = false;
  allow_duplicates = false;
  service_is_enabled = false;
  service_is_active = false;
  service_is_backend = true;
}

both_load : load_processes host ≡ ok (cron ∷ backend ∷ [])
unfolding load_processes text_eq
both_load = refl

load_processes-IsDistinct_example :
    (is_distinct (cron ∷ backend ∷ []) ≡ true)
    × (register_files host (process_files host) []
        ≡ some ((codes "cron", false) ∷ (codes "snapbackend", false) ∷ []))
load_processes-IsDistinct_example = load_processes-IsDistinct host (cron ∷ backend ∷ []) both_load

abbrev running : Text → ProcessInfo
running name = record {
  name = name;
  command = name;
  args = [];
  cpu_percent = codes "0";
  total_size = pos 1;
  rss_size = pos 1;
  tty_major = pos 0;
  tty_minor = pos 0;
  utime = pos 0;
  stime = pos 0;
  cutime = pos 0;
  cstime = pos 0;
}

abbrev two_running : List ProcessInfo
two_running = running (codes "/usr/bin/snapbackend") ∷ running (codes "/bin/sh") ∷ []

abbrev nothing : State
nothing = record { processes = []; valid_backends = [] }

on_process_watch-Leaves_example :
    (found : Pairing) × IsPairing (fits host) two_running (cron ∷ backend ∷ []) found
    × Leaves host (on_process_watch host two_running nothing) new_report found.left [] (
        running_problems (should_run host []) found.pairs
        ++ missing_problems host (should_run host []) found.left)
on_process_watch-Leaves_example =
    on_process_watch-Leaves host two_running nothing (cron ∷ backend ∷ []) new_report both_load

missing_service_unreported_example :
    Adds
      (check_missing host
        (set_service host (codes "cron") false (record cron { mandatory = true }) ∷ [])
        [])
      new_report
      []
      []
missing_service_unreported_example =
    missing_service_unreported host (codes "cron") (codes "enabled")
      (record cron { mandatory = true }) [] new_report refl refl
