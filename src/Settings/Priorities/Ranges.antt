-- ===== src/Settings/Priorities/Ranges.antt =====
-- The ranges of the report priorities and spans (sitter/sitter.cpp).
use sitter.Base.{
  ◌≡◌, ◌≢◌, ℤ, pos, ◌≤ℤ◌, ◌<ℤ◌, false, Text, codes, List, [], ◌∷◌, Result, ok, err, out_of_bounds,
  arith, ne-nil_of_is_empty, ◌≤◌, length,
}
use sitter.Env.{Env}
use sitter.Settings.{
  Settings, default_low_priority, default_medium_priority, default_critical_priority,
}
use sitter.Settings.Priorities.{
  get_error_report_low_priority, get_error_report_medium_priority,
  get_error_report_critical_priority, medium_priority_from, medium_span_from,
  critical_priority_from, critical_span_from, load_low, load_medium, load_critical,
  low_priority_from, low_span_from,
}

-- The integer validator leaves the value alone where it refuses the text.
abbrev pub KeepsOnFailure : Env → Type 0
KeepsOnFailure env =
    (text : Text) (v : ℤ)
    → (env.convert_integer text v).0 ≡ false
    → (env.convert_integer text v).1 ≡ v

-- The call answers with a priority and stores it; or the option is some text with no piece.
abbrev pub Loads :
    Env → Text → (Settings → ℤ) → (Settings → ℤ) → (ℤ → ℤ → Type 0) → Result (Settings × ℤ) → Type 0
Loads env name priority span P (ok (s', p)) = (priority s' ≡ p) × P p (span s')
Loads env name priority span P (err e) =
    (e ≡ out_of_bounds)
    × (env.get_string name ≢ [])
    × (env.split_string (env.get_string name) (codes ",") ≡ [])

load_low-Loads :
    (env : Env) (s : Settings) (pieces : List Text)
    → KeepsOnFailure env
    → env.get_string (codes "error_report_low_priority") ≢ []
    → env.split_string (env.get_string (codes "error_report_low_priority")) (codes ",") ≡ pieces
    → Loads env
        (codes "error_report_low_priority")
        (λ t. t.low_priority)
        (λ t. t.low_span)
        (λ p span. (pos 1 ≤ℤ p) × (p ≤ℤ pos 50) × (pos 86400 ≤ℤ span))
        (load_low env s pieces)
unfolding load_low low_priority_from low_span_from
load_low-Loads env s [] keeps ne e = ground arith
load_low-Loads env s (p ∷ []) keeps ne e = ground (arith, keeps p default_low_priority)
load_low-Loads env s (p ∷ span ∷ rest) keeps ne e = ground (arith, keeps p default_low_priority)

load_medium-Loads :
    (env : Env) (s : Settings) (pieces : List Text)
    → KeepsOnFailure env
    → env.get_string (codes "error_report_medium_priority") ≢ []
    → env.split_string (env.get_string (codes "error_report_medium_priority")) (codes ",") ≡ pieces
    → Loads env
        (codes "error_report_medium_priority")
        (λ t. t.medium_priority)
        (λ t. t.medium_span)
        (λ p span. (pos 10 ≤ℤ p) × (p ≤ℤ pos 90) × (pos 3600 ≤ℤ span))
        (load_medium env s pieces)
unfolding load_medium medium_priority_from medium_span_from
load_medium-Loads env s [] keeps ne e = ground arith
load_medium-Loads env s (p ∷ []) keeps ne e = ground (arith, keeps p default_medium_priority)
load_medium-Loads env s (p ∷ span ∷ rest) keeps ne e =
    ground (arith, keeps p default_medium_priority)

-- The low priority that an unset field is loaded with lies in 1 to 50, with a span of at least a day;
-- the medium one lies in 10 to 90, with a span of at least an hour. Both are stored. This holds for
-- every option text, given that the validator keeps the value where it refuses the text; where the
-- splitter finds no piece in a text that is not empty, the call reads out of bounds instead.
pub low_and_medium-Loads :
    (env : Env) (s : Settings)
    → KeepsOnFailure env
    → s.low_priority <ℤ pos 0
    → s.medium_priority <ℤ pos 0
    → Loads env
        (codes "error_report_low_priority")
        (λ t. t.low_priority)
        (λ t. t.low_span)
        (λ p span. (pos 1 ≤ℤ p) × (p ≤ℤ pos 50) × (pos 86400 ≤ℤ span))
        (get_error_report_low_priority env s)
      × Loads env
          (codes "error_report_medium_priority")
          (λ t. t.medium_priority)
          (λ t. t.medium_span)
          (λ p span. (pos 10 ≤ℤ p) × (p ≤ℤ pos 90) × (pos 3600 ≤ℤ span))
          (get_error_report_medium_priority env s)
unfolding get_error_report_low_priority get_error_report_medium_priority
low_and_medium-Loads env s keeps low medium =
    let low_text = env.get_string (codes "error_report_low_priority") in
    let medium_text = env.get_string (codes "error_report_medium_priority") in
    let low_pieces = env.split_string low_text (codes ",") in
    let medium_pieces = env.split_string medium_text (codes ",") in
    (
      ground (arith, ne-nil_of_is_empty low_text, load_low-Loads env s low_pieces keeps),
      ground (arith, ne-nil_of_is_empty medium_text, load_medium-Loads env s medium_pieces keeps),
    )

load_critical-Loads :
    (env : Env) (s : Settings) (pieces : List Text)
    → KeepsOnFailure env
    → length pieces ≤ 2
    → env.get_string (codes "error_report_critical_priority") ≢ []
    → env.split_string (env.get_string (codes "error_report_critical_priority")) (codes ",")
      ≡ pieces
    → Loads env
        (codes "error_report_critical_priority")
        (λ t. t.critical_priority)
        (λ t. t.critical_span)
        (λ p span. (pos 1 ≤ℤ p) × (p ≤ℤ pos 100) × (pos 300 ≤ℤ span))
        (load_critical env s pieces)
unfolding load_critical critical_priority_from critical_span_from
load_critical-Loads env s [] keeps few ne e = ground arith
load_critical-Loads env s (p ∷ []) keeps few ne e =
    ground (arith, keeps p default_critical_priority)
load_critical-Loads env s (p ∷ span ∷ []) keeps few ne e =
    ground (arith, keeps p default_critical_priority)
load_critical-Loads env s (p ∷ q ∷ r ∷ rest) keeps few ne e = absurd (omega arith)

-- With at most two pieces in the option, an unset critical priority is loaded in 1 to 100, with a span
-- of at least five minutes, and both are stored; no piece in a text that is not empty is a read out of
-- bounds. The validator must keep the value where it refuses the text.
critical-Loads :
    (env : Env) (s : Settings)
    → KeepsOnFailure env
    → s.critical_priority <ℤ pos 0
    → length
        (env.split_string (env.get_string (codes "error_report_critical_priority")) (codes ","))
      ≤ 2
    → Loads env
        (codes "error_report_critical_priority")
        (λ t. t.critical_priority)
        (λ t. t.critical_span)
        (λ p span. (pos 1 ≤ℤ p) × (p ≤ℤ pos 100) × (pos 300 ≤ℤ span))
        (get_error_report_critical_priority env s)
unfolding get_error_report_critical_priority
critical-Loads env s keeps unset few =
    let text = env.get_string (codes "error_report_critical_priority") in
    let pieces = env.split_string text (codes ",") in
    ground (arith, ne-nil_of_is_empty text, load_critical-Loads env s pieces keeps few)

-- With three pieces or more the first call returns 0 as the critical priority, so that every error is
-- critical, and every later call returns 90.
critical_extra_pieces :
    (env later : Env) (s : Settings) (p q r : Text) (rest : List Text)
    → s.critical_priority <ℤ pos 0
    → env.get_string (codes "error_report_critical_priority") ≢ []
    → env.split_string (env.get_string (codes "error_report_critical_priority")) (codes ",")
      ≡ p ∷ q ∷ r ∷ rest
    → (s' : Settings) × (get_error_report_critical_priority env s ≡ ok (s', pos 0))
      × (get_error_report_critical_priority later s' ≡ ok (s', pos 90))
unfolding get_error_report_critical_priority load_critical
critical_extra_pieces env later s p q r rest unset ne e =
    (record s { critical_priority = pos 90; critical_span = pos 86400 }, ground arith, ground arith)
