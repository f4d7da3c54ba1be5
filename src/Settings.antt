-- ===== src/Settings.antt =====
-- The cached settings of `sitter::server` (sitter/sitter.h, sitter/sitter.cpp): the ten fields that
-- the getters fill in on their first call, and the limits of sitter.h. A negative field is unset.
-- Child modules hold the getters, `clear_cache` and their theorems.
pub mod Statistics
pub mod Priorities
pub mod Cache
use sitter.Base.{ℕ, ℤ, pos, negsuc}

pub record Settings : Type 0 where
  pub statistics_frequency : ℤ
  pub statistics_period : ℤ
  pub statistics_ttl : ℤ
  pub error_report_settle_time : ℤ
  pub low_priority : ℤ
  pub low_span : ℤ
  pub medium_priority : ℤ
  pub medium_span : ℤ
  pub critical_priority : ℤ
  pub critical_span : ℤ

abbrev pub minus_one : ℤ
minus_one = negsuc 0

-- The initial values of the fields.
abbrev pub unset : Settings
unset = record {
  statistics_frequency = minus_one;
  statistics_period = minus_one;
  statistics_ttl = minus_one;
  error_report_settle_time = minus_one;
  low_priority = minus_one;
  low_span = minus_one;
  medium_priority = minus_one;
  medium_span = minus_one;
  critical_priority = minus_one;
  critical_span = minus_one;
}

abbrev pub minimum_statistics_frequency : ℤ
minimum_statistics_frequency = pos 60

abbrev pub default_statistics_frequency : ℤ
default_statistics_frequency = pos 60

abbrev pub minimum_statistics_period : ℤ
minimum_statistics_period = pos 3600

abbrev pub default_statistics_period : ℤ
default_statistics_period = pos 604800

abbrev pub round_statistics_period : ℕ
round_statistics_period = 3600

abbrev pub minimum_statistics_ttl : ℤ
minimum_statistics_ttl = pos 3600

abbrev pub default_statistics_ttl : ℤ
default_statistics_ttl = pos 604800

abbrev pub default_settle_time : ℤ
default_settle_time = pos 300

abbrev pub minimum_settle_time : ℤ
minimum_settle_time = pos 60

abbrev pub default_low_priority : ℤ
default_low_priority = pos 10

abbrev pub minimum_low_priority : ℤ
minimum_low_priority = pos 1

abbrev pub maximum_low_priority : ℤ
maximum_low_priority = pos 50

abbrev pub default_low_span : ℤ
default_low_span = pos 604800

abbrev pub minimum_low_span : ℤ
minimum_low_span = pos 86400

abbrev pub default_medium_priority : ℤ
default_medium_priority = pos 50

abbrev pub minimum_medium_priority : ℤ
minimum_medium_priority = pos 10

abbrev pub maximum_medium_priority : ℤ
maximum_medium_priority = pos 90

abbrev pub default_medium_span : ℤ
default_medium_span = pos 259200

abbrev pub minimum_medium_span : ℤ
minimum_medium_span = pos 3600

abbrev pub default_critical_priority : ℤ
default_critical_priority = pos 90

abbrev pub minimum_critical_priority : ℤ
minimum_critical_priority = pos 1

abbrev pub maximum_critical_priority : ℤ
maximum_critical_priority = pos 100

abbrev pub default_critical_span : ℤ
default_critical_span = pos 86400

abbrev pub minimum_critical_span : ℤ
minimum_critical_span = pos 300
