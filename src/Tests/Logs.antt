-- ===== src/Tests/Logs.antt =====
-- The theorems on plugins/sitter_log at one definition and one file.
use sitter.Base.{
  ◌*◌, ◌≢◌, ◌≡◌, refl, pos, true, false, Text, codes, text_eq, [], ◌∷◌, all, if◌then◌else◌, Option,
  none, some, ok, to_string,
}
use sitter.Report.Adds.{Gives}
use sitter.Plugins.Log.Mode.{parse_mode, is_digit, numeric_mode, read_octal}
use sitter.Plugins.Log.Mode.Laws.{parse_mode-digits}
use sitter.Plugins.Log.Mode.Letters.{parse_mode-letters, user}
use sitter.Plugins.Log.Definition.{Stat, Host, Config, Definition, load}
use sitter.Plugins.Log.Definition.Fields.{is_valid}
use sitter.Plugins.Log.Definition.Loading.{load-IsWellFormed, distinct}
use sitter.Plugins.Log.Check.{on_process_watch, size_message}
use sitter.Plugins.Log.Check.Outcome.{on_process_watch-Reports}
use sitter.Tests.Sample.{split, new_report}

parse_mode-digits_example :
    (parse_mode (codes "640") ≡ ok (0o640, 0o7777))
    × (parse_mode (codes "640/777") ≡ ok (0o640, 0o777))
unfolding is_digit
parse_mode-digits_example = parse_mode-digits b'6' (codes "40") (codes "777") refl refl refl

parse_mode-letters_example :
    (parse_mode (codes "u=rw") ≡ ok (7 * 0o600, 0o7777)) × (7 * 0o600 ≢ 0o600)
parse_mode-letters_example = parse_mode-letters user b'r' (codes "w") refl

abbrev log_file : Stat
log_file = record { size = 12; mode = 0o100644; uid = 0; gid = 4; mtime = pos 1000 }

abbrev host_with : (Text → Option Stat) → Host
host_with stat = record {
  is_true = λ text. text_eq text (codes "true");
  split_string = split;
  trim_string = λ text. text;
  convert_size = λ text. none;
  user_id = λ name. some 0;
  group_id = λ name. none;
  glob = λ pattern. pattern ∷ [];
  stat = stat;
}

abbrev one_log : Config
one_log = record {
  parameter = λ name.
      if text_eq name (codes "name")
      then some (codes "fluid")
      else if text_eq name (codes "mode")
      then some (codes "640")
      else none;
  sections = [];
}

abbrev fluid : Definition
fluid = record {
  name = codes "fluid";
  path = codes "/var/log";
  patterns = codes "*.log" ∷ [];
  max_size = 0;
  uid = 4294967295;
  gid = 4294967295;
  mode = 0o640;
  mode_mask = 0o7777;
  searches = [];
  mandatory = false;
  secure = false;
  first_pattern = true;
}

abbrev there : Host
there = host_with (λ name. some log_file)

abbrev nowhere : Host
nowhere = host_with (λ name. none)

load-IsWellFormed_example : (distinct (fluid ∷ []) ≡ true) × (all is_valid (fluid ∷ []) ≡ true)
unfolding load text_eq parse_mode numeric_mode is_digit read_octal
load-IsWellFormed_example = load-IsWellFormed there (one_log ∷ []) (fluid ∷ []) refl

on_process_watch-Reports_example :
    Gives (on_process_watch there (one_log ∷ [])) new_report (ok tt) (
      (size_message fluid (codes "/var/log/*.log") log_file, pos 73)
      ∷ (codes "log file mode mismatched fluid (/var/log/*.log), found 33188 expected 416", pos 64)
      ∷ [])
unfolding load text_eq parse_mode numeric_mode is_digit read_octal to_string
on_process_watch-Reports_example = on_process_watch-Reports there (one_log ∷ []) new_report
