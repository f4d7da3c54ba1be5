-- ===== src/Tests/Sample.antt =====
-- Small stand-ins for the libraries that the daemon calls: a number is its digits, a duration is its
-- seconds, and a text is split at each separator, with the empty pieces left out.
use sitter.Base.{
  ℕ, ◌+◌, ◌-◌, ◌*◌, ℤ, pos, Bool, true, false, ◌&&◌, if◌then◌else◌, ◌==◌, leb, Text, codes, text_eq,
  List, [], ◌∷◌, ◌++◌, Option, none, some, arith,
}
use sitter.Env.{Env}
use sitter.Report.{Report}
use sitter.Settings.Priorities.Ranges.{KeepsOnFailure}

abbrev number_from : Text → ℕ → Option ℕ
number_from [] n = some n
number_from (c ∷ cs) n =
    let rest = number_from cs (n * 10 + c - b'0') in if leb b'0' c && leb c b'9' then rest else none

abbrev number : Text → Option ℕ
number [] = none
number (c ∷ cs) = number_from (c ∷ cs) 0

abbrev pub read_integer : Text → ℤ → Bool × ℤ
read_integer text old = elim (number text) [ none ↦ (false, old) | some n ↦ (true, pos n) ]

abbrev read_duration : Text → Option ℤ
read_duration text = elim (number text) [ none ↦ none | some n ↦ some (pos n) ]

abbrev keep_piece : Text → List Text → List Text
keep_piece [] pieces = pieces
keep_piece (c ∷ cs) pieces = (c ∷ cs) ∷ pieces

abbrev split_from : ℕ → Text → Text → List Text
split_from separator [] piece = keep_piece piece []
split_from separator (c ∷ cs) piece =
    let next = split_from separator cs [] in
    let same = split_from separator cs (piece ++ c ∷ []) in
    if c == separator then keep_piece piece next else same

abbrev pub split : Text → Text → List Text
split text [] = keep_piece text []
split text (separator ∷ rest) = split_from separator text []

-- The libraries with the options given as a list.
abbrev option : List (Text × Text) → Text → Text
option [] name = []
option ((k, v) ∷ rest) name = if text_eq name k then v else option rest name

abbrev defined : List (Text × Text) → Text → Bool
defined [] name = false
defined ((k, v) ∷ rest) name = if text_eq name k then true else defined rest name

abbrev pub env_of : List (Text × Text) → Env
env_of options = record {
  is_defined = defined options;
  get_string = option options;
  split_string = split;
  convert_integer = read_integer;
  duration_seconds = read_duration;
}

pub keeps_on_failure : (options : List (Text × Text)) → KeepsOnFailure (env_of options)
keeps_on_failure options text v h = ground arith

abbrev pub sample_env : Env
sample_env = env_of (
    (codes "statistics_period", codes "5000")
    ∷ (codes "statistics_ttl", codes "use-period")
    ∷ (codes "error_report_low_priority", codes "20,100000")
    ∷ (codes "error_report_medium_priority", codes "95")
    ∷ (codes "error_report_critical_priority", codes "80,600")
    ∷ (codes "error_report_settle_time", codes "300")
    ∷ [])

abbrev pub new_report : Report
new_report = record { error_count = pos 0; max_error_priority = pos 0; log = []; doc = [] }
