-- ===== src/Settings/Priorities.antt =====
-- The getters of sitter/sitter.cpp for the three priorities and spans of the error reports. The
-- option is "<priority>[,<span>]". The source reads `prio_span[0]` unchecked: where the splitter
-- returns no piece at all the model answers `err out_of_bounds`.
pub mod Ranges
use sitter.Base.{
  ℤ, pos, ltb_ℤ, leb_ℤ, if◌then◌else◌, Text, codes, is_empty, length, ltb, List, [], ◌∷◌, Option,
  none, some, Result, ok, err, out_of_bounds,
}
use sitter.Env.{Env}
use sitter.Settings.{
  Settings, default_low_priority, minimum_low_priority, maximum_low_priority, default_low_span,
  minimum_low_span, default_medium_priority, minimum_medium_priority, maximum_medium_priority,
  default_medium_span, minimum_medium_span, default_critical_priority, minimum_critical_priority,
  maximum_critical_priority, default_critical_span, minimum_critical_span,
}

-- The second piece of the option, if it is there and not empty.
abbrev second_piece : List Text → Option Text
second_piece (p ∷ span ∷ rest) = if is_empty span then none else some span
second_piece _ = none

-- The span that a piece asks for; `none` where there is none or it is no duration.
abbrev asked_span : Env → Option Text → Option ℤ
asked_span env none = none
asked_span env (some span) = env.duration_seconds span

-- LOW PRIORITY

pub low_priority_from : Env → Text → ℤ
low_priority_from env piece =
    let (valid, p) = env.convert_integer piece default_low_priority in
    if valid
    then (if ltb_ℤ p minimum_low_priority
        then minimum_low_priority
        else if ltb_ℤ maximum_low_priority p
        then maximum_low_priority
        else p)
    else p

pub low_span_from : Option ℤ → ℤ
low_span_from none = default_low_span
low_span_from (some d) =
    if leb_ℤ d (pos 0)
    then default_low_span
    else if ltb_ℤ d minimum_low_span
    then minimum_low_span
    else d

unfoldable pub load_low : Env → Settings → List Text → Result (Settings × ℤ)
load_low env s [] = err out_of_bounds
load_low env s (piece ∷ rest) =
    let p = low_priority_from env piece in
    ok (
      record s {
        low_priority = p;
        low_span = low_span_from (asked_span env (second_piece (piece ∷ rest)));
      },
      p,
    )

unfoldable pub get_error_report_low_priority : Env → Settings → Result (Settings × ℤ)
get_error_report_low_priority env s =
    let text = env.get_string (codes "error_report_low_priority") in
    let defaults = record s { low_priority = default_low_priority; low_span = default_low_span } in
    if ltb_ℤ s.low_priority (pos 0)
    then (if is_empty text
        then ok (defaults, default_low_priority)
        else load_low env s (env.split_string text (codes ",")))
    else ok (s, s.low_priority)

-- MEDIUM PRIORITY

pub medium_priority_from : Env → Text → ℤ
medium_priority_from env piece =
    let (valid, p) = env.convert_integer piece default_medium_priority in
    if valid
    then (if ltb_ℤ p minimum_medium_priority
        then minimum_medium_priority
        else if ltb_ℤ maximum_medium_priority p
        then maximum_medium_priority
        else p)
    else p

pub medium_span_from : Option ℤ → ℤ
medium_span_from none = default_medium_span
medium_span_from (some d) =
    if ltb_ℤ d (pos 0)
    then default_medium_span
    else if ltb_ℤ d minimum_medium_span
    then minimum_medium_span
    else d

unfoldable pub load_medium : Env → Settings → List Text → Result (Settings × ℤ)
load_medium env s [] = err out_of_bounds
load_medium env s (piece ∷ rest) =
    let p = medium_priority_from env piece in
    ok (
      record s {
        medium_priority = p;
        medium_span = medium_span_from (asked_span env (second_piece (piece ∷ rest)));
      },
      p,
    )

unfoldable pub get_error_report_medium_priority : Env → Settings → Result (Settings × ℤ)
get_error_report_medium_priority env s =
    let text = env.get_string (codes "error_report_medium_priority") in
    let defaults = record s {
      medium_priority = default_medium_priority;
      medium_span = default_medium_span;
    } in
    if ltb_ℤ s.medium_priority (pos 0)
    then (if is_empty text
        then ok (defaults, default_medium_priority)
        else load_medium env s (env.split_string text (codes ",")))
    else ok (s, s.medium_priority)

-- CRITICAL PRIORITY

pub critical_priority_from : Env → Text → ℤ
critical_priority_from env piece =
    let (valid, p) = env.convert_integer piece default_critical_priority in
    if valid
    then (if ltb_ℤ p minimum_critical_priority
        then default_critical_priority
        else if ltb_ℤ maximum_critical_priority p
        then default_critical_priority
        else p)
    else p

pub critical_span_from : Option ℤ → ℤ
critical_span_from none = default_critical_span
critical_span_from (some d) =
    if ltb_ℤ d (pos 0)
    then default_critical_span
    else if ltb_ℤ d minimum_critical_span
    then minimum_critical_span
    else d

-- More than two pieces: `return false`, that is 0, with the defaults already stored.
unfoldable pub load_critical : Env → Settings → List Text → Result (Settings × ℤ)
load_critical env s [] = err out_of_bounds
load_critical env s (piece ∷ rest) =
    let p = critical_priority_from env piece in
    let defaults = record s {
      critical_priority = default_critical_priority;
      critical_span = default_critical_span;
    } in
    if ltb 1 (length rest)
    then ok (defaults, pos 0)
    else ok (
      record s {
        critical_priority = p;
        critical_span = critical_span_from (asked_span env (second_piece (piece ∷ rest)));
      },
      p,
    )

unfoldable pub get_error_report_critical_priority : Env → Settings → Result (Settings × ℤ)
get_error_report_critical_priority env s =
    let text = env.get_string (codes "error_report_critical_priority") in
    let defaults = record s {
      critical_priority = default_critical_priority;
      critical_span = default_critical_span;
    } in
    if ltb_ℤ s.critical_priority (pos 0)
    then (if is_empty text
        then ok (defaults, default_critical_priority)
        else load_critical env s (env.split_string text (codes ",")))
    else ok (s, s.critical_priority)
