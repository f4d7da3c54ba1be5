-- ===== src/Tests/Server.antt =====
-- The theorems on the settings and on the errors of sitter/sitter.cpp at concrete options.
use sitter.Base.{ℕ, ◌≡◌, ℤ, pos, ◌+ℤ◌, ◌≤ℤ◌, codes, List, [], ◌∷◌, arith, text_eq}
use sitter.Env.{Env}
use sitter.Json.{Key, ◌/+◌}
use sitter.Settings.{unset}
use sitter.Settings.Statistics.{
  get_statistics_frequency, get_statistics_period, get_statistics_ttl, get_error_report_settle_time,
}
use sitter.Settings.Statistics.Bounds.{get_statistics_period_rounds, IsRoundedUp}
use sitter.Settings.Priorities.{
  get_error_report_low_priority, get_error_report_medium_priority,
  get_error_report_critical_priority,
}
use sitter.Settings.Priorities.Ranges.{low_and_medium-Loads, Loads}
use sitter.Settings.Cache.Reload.{clear_cache-Rereads, Rereads, RereadsTtl, RereadsPriority}
use sitter.Report.Laws.{Finding, append_all, items, append_all-counts}
use sitter.Tests.Sample.{env_of, sample_env, keeps_on_failure, new_report}

get_statistics_period_rounds_example :
    let (s, p) = get_statistics_period sample_env unset in
    IsRoundedUp (pos 5000) p × (s ≡ record unset { statistics_period = p })
unfolding text_eq
get_statistics_period_rounds_example = get_statistics_period_rounds sample_env unset (omega arith)

abbrev sample_options : List (List ℕ × List ℕ)
sample_options =
    (codes "error_report_low_priority", codes "20,100000")
    ∷ (codes "error_report_medium_priority", codes "ninety")
    ∷ []

low_and_medium-Loads_example :
    Loads
      (env_of sample_options)
      (codes "error_report_low_priority")
      (λ t. t.low_priority)
      (λ t. t.low_span)
      (λ p span. (pos 1 ≤ℤ p) × (p ≤ℤ pos 50) × (pos 86400 ≤ℤ span))
      (get_error_report_low_priority (env_of sample_options) unset)
    × Loads
        (env_of sample_options)
        (codes "error_report_medium_priority")
        (λ t. t.medium_priority)
        (λ t. t.medium_span)
        (λ p span. (pos 10 ≤ℤ p) × (p ≤ℤ pos 90) × (pos 3600 ≤ℤ span))
        (get_error_report_medium_priority (env_of sample_options) unset)
low_and_medium-Loads_example =
    low_and_medium-Loads (env_of sample_options) unset (keeps_on_failure sample_options)
      (omega arith) (omega arith)

abbrev critical_options : List (List ℕ × List ℕ)
critical_options = (codes "error_report_critical_priority", codes "80,600") ∷ []

abbrev three_pieces : Env
three_pieces = env_of ((codes "error_report_critical_priority", codes "80,600,7") ∷ [])

clear_cache-Rereads_example :
    Rereads sample_env unset (codes "statistics-frequency") get_statistics_frequency
    × Rereads sample_env unset (codes "statistics-period") get_statistics_period
    × Rereads sample_env unset (codes "statistics-period") get_statistics_ttl
    × RereadsTtl sample_env unset
    × Rereads sample_env unset (codes "error-report-settle-time") get_error_report_settle_time
    × RereadsPriority sample_env unset
        (codes "error-report-low-priority")
        get_error_report_low_priority
    × RereadsPriority sample_env unset
        (codes "error-report-medium-priority")
        get_error_report_medium_priority
    × RereadsPriority sample_env unset
        (codes "error-report-critical-priority")
        get_error_report_critical_priority
clear_cache-Rereads_example = clear_cache-Rereads sample_env unset

abbrev errors : List Key
errors = [] /+ codes "cpu"

abbrev finding_of : ℤ → Finding
finding_of priority = record {
  ref = errors;
  plugin_name = codes "cpu";
  message = codes "high";
  priority = priority;
}

append_all-counts_example :
    let r = append_all (finding_of (pos 40) ∷ finding_of (pos 101) ∷ []) new_report in
    (r.error_count ≡ pos 0 +ℤ pos 2)
    × (r.max_error_priority ≡ pos 101)
    × (r.doc ≡ items (finding_of (pos 40) ∷ finding_of (pos 101) ∷ []))
append_all-counts_example =
    append_all-counts (finding_of (pos 40) ∷ finding_of (pos 101) ∷ []) new_report
