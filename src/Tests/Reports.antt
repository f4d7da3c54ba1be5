-- ===== src/Tests/Reports.antt =====
-- The theorems on plugins/sitter_flags and plugins/sitter_apt at a few flags and one file of updates.
use sitter.Base.{
  ℤ, pos, ◌+ℤ◌, ◌<ℤ◌, ◌≡◌, ◌⊎◌, false, Text, codes, [], ◌∷◌, some, ok, err, invalid_parameter,
}
use sitter.Report.Laws.{InRange}
use sitter.Report.Adds.{Adds, highest_of}
use sitter.Plugins.Flags.{Flag, raised_message}
use sitter.Plugins.Flags as Flags
use sitter.Plugins.Flags.Reports.{joined, priorities, flags-Report}
use sitter.Plugins.Apt.{Host}
use sitter.Plugins.Apt as Apt
use sitter.Plugins.Apt.Reports.{is_up_to_date, is_urgent, Says, apt-Report}
use sitter.Tests.Sample.{env_of, new_report}

abbrev flag_with : Text → ℤ → Flag
flag_with name priority = record {
  unit = codes "core";
  section = codes "network";
  name = name;
  priority = priority;
  manual_down = false;
  date = pos 1000;
  modified = pos 1000;
  message = codes "no route";
  source_file = codes "a.cpp";
  function = codes "run";
  line = pos 7;
  tags = codes "net" ∷ [];
}

flags-Report_example :
    let f = flag_with (codes "route") (pos 60) in
    let fs = flag_with (codes "dns") (pos 120) ∷ [] in
    let top = highest_of (pos 5) (priorities (f ∷ fs)) in
    (Flags.on_process_watch [] new_report ≡ (new_report, ok tt))
    × ((InRange top
          × Adds
              (Flags.on_process_watch (f ∷ fs))
              new_report
              tt
              ((raised_message 2 (joined [] (f ∷ fs)), top) ∷ []))
        ⊎ ((pos 100 <ℤ top)
            × ((Flags.on_process_watch (f ∷ fs) new_report).1 ≡ err invalid_parameter)
            × ((Flags.on_process_watch (f ∷ fs) new_report).0.error_count ≡ pos 0 +ℤ pos 1)))
flags-Report_example =
    flags-Report (flag_with (codes "route") (pos 60)) (flag_with (codes "dns") (pos 120) ∷ [])
      new_report

-- Twelve packages can be upgraded, two of them for security.
abbrev updates : Host
updates = record {
  env = env_of [];
  manager_config = record { has_parameter = λ name. false; get_parameter = λ name. [] };
  read_all = λ filename. some (codes "900;12;2");
  trim_string = λ text. text;
  now = pos 1000;
}

apt-Report_example :
    Says (Apt.on_process_watch updates) new_report (is_up_to_date updates) (is_urgent updates)
apt-Report_example = apt-Report updates new_report
