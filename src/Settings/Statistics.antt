-- ===== src/Settings/Statistics.antt =====
-- The getters of sitter/sitter.cpp for the statistics and the settle time. Each reads its option
-- when the cached field is unset and returns the field. What is logged is left out.
pub mod Bounds
use sitter.Base.{
  ℤ, pos, ◌+ℤ◌, ◌-ℤ◌, ◌*ℤ◌, ◌/ℤ◌, ltb_ℤ, leb_ℤ, max_ℤ, if◌then◌else◌, codes, text_eq, Option, none,
  some,
}
use sitter.Env.{Env}
use sitter.Settings.{
  Settings, minimum_statistics_frequency, default_statistics_frequency, minimum_statistics_period,
  default_statistics_period, round_statistics_period, minimum_statistics_ttl,
  default_statistics_ttl, default_settle_time, minimum_settle_time,
}

-- A negative frequency and an invalid one give the default.
statistics_frequency_from : Option ℤ → ℤ
statistics_frequency_from none = default_statistics_frequency
statistics_frequency_from (some d) = if ltb_ℤ d (pos 0) then default_statistics_frequency else d

unfoldable pub get_statistics_frequency : Env → Settings → Settings × ℤ
unfolding statistics_frequency_from
get_statistics_frequency env s =
    let duration = env.duration_seconds (env.get_string (codes "statistics_frequency")) in
    let frequency = max_ℤ minimum_statistics_frequency (statistics_frequency_from duration) in
    if leb_ℤ s.statistics_frequency (pos 0)
    then (record s { statistics_frequency = frequency }, frequency)
    else (s, s.statistics_frequency)

-- A negative period and an invalid one give the default.
statistics_period_from : Option ℤ → ℤ
statistics_period_from none = default_statistics_period
statistics_period_from (some d) = if ltb_ℤ d (pos 0) then default_statistics_period else d

pub round_up : ℤ → ℤ
round_up p =
    (p +ℤ (pos round_statistics_period -ℤ pos 1))
    /ℤ round_statistics_period
    *ℤ pos round_statistics_period

unfoldable pub get_statistics_period : Env → Settings → Settings × ℤ
unfolding statistics_period_from
get_statistics_period env s =
    let duration = env.duration_seconds (env.get_string (codes "statistics_period")) in
    let period = round_up (max_ℤ minimum_statistics_period (statistics_period_from duration)) in
    if leb_ℤ s.statistics_period (pos 0)
    then (record s { statistics_period = period }, period)
    else (s, s.statistics_period)

statistics_ttl_from : Option ℤ → ℤ
statistics_ttl_from none = default_statistics_ttl
statistics_ttl_from (some d) = if ltb_ℤ d (pos 0) then default_statistics_ttl else d

unfoldable pub load_statistics_ttl : Env → Settings → Settings
unfolding statistics_ttl_from
load_statistics_ttl env s =
    let text = env.get_string (codes "statistics_ttl") in
    let (s', period) = get_statistics_period env s in
    let ttl = max_ℤ minimum_statistics_ttl (statistics_ttl_from (env.duration_seconds text)) in
    if text_eq text (codes "off")
    then record s { statistics_ttl = pos 0 }
    else if text_eq text (codes "use-period")
    then record s' { statistics_ttl = period }
    else record s { statistics_ttl = ttl }

unfoldable pub get_statistics_ttl : Env → Settings → Settings × ℤ
get_statistics_ttl env s =
    let loaded = load_statistics_ttl env s in
    if ltb_ℤ s.statistics_ttl (pos 0)
    then (loaded, loaded.statistics_ttl)
    else (s, s.statistics_ttl)

-- An invalid duration leaves the field as it was.
unfoldable pub load_settle_time : Settings → Option ℤ → Settings
load_settle_time s none = s
load_settle_time s (some d) = record s {
  error_report_settle_time =
      max_ℤ minimum_settle_time (if ltb_ℤ d (pos 0) then default_settle_time else d);
}

unfoldable pub get_error_report_settle_time : Env → Settings → Settings × ℤ
unfolding load_settle_time
get_error_report_settle_time env s =
    let duration = env.duration_seconds (env.get_string (codes "error_report_settle_time")) in
    let loaded = load_settle_time s duration in
    if ltb_ℤ s.error_report_settle_time (pos 0)
    then (loaded, loaded.error_report_settle_time)
    else (s, s.error_report_settle_time)
