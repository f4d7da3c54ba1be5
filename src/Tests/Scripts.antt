-- ===== src/Tests/Scripts.antt =====
-- The theorems on plugins/sitter_scripts at three files, of which two are scripts that fail.
use sitter.Base.{pos, if◌then◌else◌, codes, text_eq, contains_text, [], ◌∷◌, ◌++◌, some}
use sitter.Report.Adds.{Adds}
use sitter.Plugins.Scripts.{Host, Scripts, output_text, error_text, on_process_watch, scripts_path}
use sitter.Plugins.Scripts.Reports.{after_files, scripts-Report}
use sitter.Tests.Sample.{env_of, new_report}

abbrev host : Host
host = record {
  env = env_of [];
  glob = λ pattern. codes "a.sh" ∷ codes "README.md" ∷ codes "b.sh" ∷ [];
  start = λ starter file. pos 0;
  wait = λ starter file. pos 1;
  output_of = λ file. codes "cannot connect to " ++ file;
  error_of = λ file. if text_eq file (codes "b.sh") then codes "refused\n" else [];
  start_date = λ file. pos 1000;
  date_text = λ date. codes "today";
  version = codes "1.0";
  hostname = some (codes "a.org");
  trim_string = λ text. text;
  my_address = [];
  local_addresses = some (codes "10.0.0.1" ∷ codes "10.0.0.2" ∷ []);
}

abbrev no_scripts : Scripts
no_scripts = record {
  script_starter = [];
  scripts_output_log = [];
  scripts_error_log = [];
  environment = [];
  files = [];
}

scripts-Report_example :
    Adds
      (on_process_watch host no_scripts)
      new_report
      (after_files host no_scripts (host.glob (scripts_path host.env ++ codes "/*")))
      ((output_text host (codes "a.sh"), pos 65)
        ∷ (output_text host (codes "b.sh"), pos 65)
        ∷ (error_text host (codes "b.sh"), pos 90)
        ∷ [])
unfolding text_eq contains_text output_text error_text
scripts-Report_example = scripts-Report host no_scripts new_report
