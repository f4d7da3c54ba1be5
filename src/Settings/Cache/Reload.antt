-- ===== src/Settings/Cache/Reload.antt =====
-- What the getters of sitter/sitter.cpp answer after `clear_cache`.
use sitter.Base.{◌≡◌, refl, ℤ, Text, codes, arith, Result, ok, err, List}
use sitter.Env.{Env}
use sitter.Settings.{Settings, unset, minus_one}
use sitter.Settings.Cache.{clear_cache}
use sitter.Settings.Priorities.{
  get_error_report_low_priority, get_error_report_medium_priority,
  get_error_report_critical_priority, load_low, load_medium, load_critical,
}
use sitter.Settings.Statistics.{
  get_statistics_frequency, get_statistics_period, get_statistics_ttl, load_statistics_ttl,
  get_error_report_settle_time, load_settle_time,
}

-- The value that a getter answers with.
abbrev pub answer : Result (Settings × ℤ) → Result ℤ
answer (ok (s, v)) = ok v
answer (err e) = err e

-- What a loader answers does not depend on the fields that it overwrites.
load_low-answer :
    (env : Env) (s t : Settings) (pieces : List Text)
    → answer (load_low env s pieces) ≡ answer (load_low env t pieces)
unfolding load_low
load_low-answer env s t pieces = ground arith

load_medium-answer :
    (env : Env) (s t : Settings) (pieces : List Text)
    → answer (load_medium env s pieces) ≡ answer (load_medium env t pieces)
unfolding load_medium
load_medium-answer env s t pieces = ground arith

load_critical-answer :
    (env : Env) (s t : Settings) (pieces : List Text)
    → answer (load_critical env s pieces) ≡ answer (load_critical env t pieces)
unfolding load_critical
load_critical-answer env s t pieces = ground arith

module _ (env : Env) (s : Settings) where
  -- Once the setting is cleared, its getter answers as on a server that has just started.
  abbrev pub Rereads : Text → (Env → Settings → Settings × ℤ) → Type 0
  Rereads name get = (get env (clear_cache name s)).1 ≡ (get env unset).1

  abbrev pub RereadsPriority : Text → (Env → Settings → Result (Settings × ℤ)) → Type 0
  RereadsPriority name get = answer (get env (clear_cache name s)) ≡ answer (get env unset)

  Rereads-frequency : Rereads (codes "statistics-frequency") get_statistics_frequency
  unfolding clear_cache get_statistics_frequency
  Rereads-frequency = refl

  Rereads-period : Rereads (codes "statistics-period") get_statistics_period
  unfolding clear_cache get_statistics_period
  Rereads-period = refl

  Rereads-ttl : Rereads (codes "statistics-period") get_statistics_ttl
  unfolding clear_cache get_statistics_ttl load_statistics_ttl get_statistics_period
  Rereads-ttl = let text = env.get_string (codes "statistics_ttl") in ground arith

  -- The time to live may be that of the period, which stays cached.
  abbrev pub RereadsTtl : Type 0
  RereadsTtl =
      (get_statistics_ttl env (clear_cache (codes "statistics-ttl") s)).1
      ≡ (get_statistics_ttl env (record unset { statistics_period = s.statistics_period })).1

  RereadsTtl-ttl : RereadsTtl
  unfolding clear_cache get_statistics_ttl load_statistics_ttl get_statistics_period
  RereadsTtl-ttl = let text = env.get_string (codes "statistics_ttl") in ground arith

  Rereads-settle_time : Rereads (codes "error-report-settle-time") get_error_report_settle_time
  unfolding clear_cache get_error_report_settle_time load_settle_time
  Rereads-settle_time = ground arith

  RereadsPriority-low :
      RereadsPriority (codes "error-report-low-priority") get_error_report_low_priority
  unfolding clear_cache get_error_report_low_priority
  RereadsPriority-low =
      let pieces =
        env.split_string (env.get_string (codes "error_report_low_priority")) (codes ",") in
      let cleared = record s { low_priority = minus_one; low_span = minus_one } in
      ground (arith, load_low-answer env cleared unset pieces)

  RereadsPriority-medium :
      RereadsPriority (codes "error-report-medium-priority") get_error_report_medium_priority
  unfolding clear_cache get_error_report_medium_priority
  RereadsPriority-medium =
      let pieces =
        env.split_string (env.get_string (codes "error_report_medium_priority")) (codes ",") in
      let cleared = record s { medium_priority = minus_one; medium_span = minus_one } in
      ground (arith, load_medium-answer env cleared unset pieces)

  RereadsPriority-critical :
      RereadsPriority (codes "error-report-critical-priority") get_error_report_critical_priority
  unfolding clear_cache get_error_report_critical_priority
  RereadsPriority-critical =
      let pieces =
        env.split_string (env.get_string (codes "error_report_critical_priority")) (codes ",") in
      let cleared = record s { critical_priority = minus_one; critical_span = minus_one } in
      ground (arith, load_critical-answer env cleared unset pieces)

-- A clear request for a setting makes its getter answer from the options again, whatever was cached
-- before; one for the period does so for the time to live too. One for the time to live makes its getter
-- answer from the options and from the period that is cached, which it keeps.
pub clear_cache-Rereads :
    (env : Env) (s : Settings)
    → Rereads env s (codes "statistics-frequency") get_statistics_frequency
      × Rereads env s (codes "statistics-period") get_statistics_period
      × Rereads env s (codes "statistics-period") get_statistics_ttl
      × RereadsTtl env s
      × Rereads env s (codes "error-report-settle-time") get_error_report_settle_time
      × RereadsPriority env s (codes "error-report-low-priority") get_error_report_low_priority
      × RereadsPriority env s
          (codes "error-report-medium-priority")
          get_error_report_medium_priority
      × RereadsPriority env s
          (codes "error-report-critical-priority")
          get_error_report_critical_priority
clear_cache-Rereads env s = (
  Rereads-frequency env s,
  Rereads-period env s,
  Rereads-ttl env s,
  RereadsTtl-ttl env s,
  Rereads-settle_time env s,
  RereadsPriority-low env s,
  RereadsPriority-medium env s,
  RereadsPriority-critical env s,
)
