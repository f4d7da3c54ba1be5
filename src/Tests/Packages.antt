-- ===== src/Tests/Packages.antt =====
-- The theorems on plugins/sitter_packages at two packages in conflict.
use sitter.Base.{
  ◌≡◌, refl, pos, Bool, true, false, ◌||◌, if◌then◌else◌, Text, codes, text_eq, [], ◌∷◌, List, all,
  some, arith,
}
use sitter.Env.{ConfFile}
use sitter.Settings.{unset}
use sitter.StdMap.{text_ltb}
use sitter.Plugins.Packages.{Host, State, load_packages}
use sitter.Plugins.Packages.Loading.{is_valid, load_packages-AllValid}
use sitter.Plugins.Packages.Status.{cache_content, load_content, load_lines, is_package_installed}
use sitter.Plugins.Packages.Status.Lines.{lines, add_lines, load_lines-lines}
use sitter.Plugins.Packages.Status.RoundTrip.{load_content-cache_content}
use sitter.Plugins.Packages.Status.Table.{known}
use sitter.Plugins.Packages.Watch.{on_process_watch}
use sitter.Plugins.Packages.Watch.Refines.{specify_watch, on_process_watch-Refines}
use sitter.Plugins.Packages.Watch.Stale.{is_package_installed_stale}
use sitter.Tests.Sample.{env_of, new_report}

-- A required package with a conflict; the parameter `installation` is spelled correctly.
abbrev ntp_conf : ConfFile
ntp_conf = record {
  has_parameter = λ name.
      text_eq name (codes "name")
      || text_eq name (codes "installation")
      || text_eq name (codes "conflicts");
  get_parameter = λ name.
      if text_eq name (codes "name")
      then codes "ntp"
      else if text_eq name (codes "installation")
      then codes "required"
      else codes "ntpdate";
}

abbrev host_with : List Text → Host
host_with installed = record {
  env = env_of [];
  mkdir_p = λ path. pos 1;
  read_all = λ filename. some (codes "ntpdate=t\nvim=f\n");
  start = λ name. pos 0;
  wait = λ name. pos 0;
  trimmed_output =
      λ name. if all (text_eq name) installed then codes "install ok installed" else [];
  join_strings = λ texts separator. separator;
  trim_string = λ text. text;
  glob = λ pattern. codes "ntp.conf" ∷ [];
  conf_file = λ filename. ntp_conf;
}

abbrev start : State
start = record {
  server = record { settings = unset; report = new_report; cache_path = [] };
  packages = [];
  installed_packages = [];
  cache_loaded = false;
  cache_modified = false;
  written = [];
}

abbrev with_ntp : Host
with_ntp = host_with (codes "ntp" ∷ [])

on_process_watch-Refines_example :
    let (s', result) = on_process_watch with_ntp start in
    ((s'.server.report, result) ≡ specify_watch with_ntp (known with_ntp start) new_report)
    × (known with_ntp s' ≡ known with_ntp start)
on_process_watch-Refines_example = on_process_watch-Refines with_ntp start

is_package_installed_stale_example :
    let (s', status) = is_package_installed with_ntp (codes "ntp") start in
    (is_package_installed
      (host_with (codes "vim" ∷ []))
      (codes "ntp")
      (on_process_watch (host_with (codes "vim" ∷ [])) s').0).1
    ≡ status
is_package_installed_stale_example =
    is_package_installed_stale with_ntp (host_with (codes "vim" ∷ [])) (codes "ntp") start

load_packages-AllValid_example :
    all (is_valid false) (load_packages with_ntp start).0.packages ≡ true
unfolding text_eq
load_packages-AllValid_example = load_packages-AllValid false with_ntp start (λ file tested. tested)

abbrev two_statuses : List (Text × Bool)
two_statuses = (codes "ntp", true) ∷ (codes "ntpdate", false) ∷ []

load_content-cache_content_example : load_content (cache_content two_statuses) [] ≡ two_statuses
unfolding text_ltb
load_content-cache_content_example = load_content-cache_content two_statuses refl refl

load_lines-lines_example :
    load_lines 9 (codes "ntp=t\n\nx") [] ≡ some (add_lines (lines (codes "ntp=t\n\nx")) [])
load_lines-lines_example = load_lines-lines 9 (codes "ntp=t\n\nx") [] (omega arith)
