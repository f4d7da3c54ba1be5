-- ===== src/Tests/Certificates.antt =====
-- The theorems on plugins/sitter_certificate at a few domains.
use sitter.Base.{
  ◌≡◌, ◌≢◌, refl, ℤ, pos, true, if◌then◌else◌, ltb_ℤ, codes, text_eq, [], ◌∷◌, all, none, some, ◌⊎◌,
  ◌-ℤ◌,
}
use sitter.Env.{Env}
use sitter.Report.Adds.{Adds}
use sitter.Plugins.Certificate.{
  Delays, Domains, parse_delays, priority_for, check_certificate, on_process_watch, failure_of,
  config_pattern,
}
use sitter.Plugins.Certificate.Delays.{
  is_sorted, in_range, IsLeast, parse_delays-IsUsable, priority_for-IsLeast,
}
use sitter.Plugins.Certificate.Domain.{not_loaded, domain_problems, failures_then}
use sitter.Plugins.Certificate.Access.{
  certificates-Report, success_forgets_nothing, config_failures, config_problems,
}
use sitter.Tests.Sample.{env_of, new_report}

abbrev delay_options : Env
delay_options = env_of ((codes "certificate_warning_delays", codes "20/50,5/90,7/200") ∷ [])

parse_delays-IsUsable_example :
    (is_sorted (parse_delays delay_options) ≡ true)
    × (all in_range (parse_delays delay_options) ≡ true)
    × (parse_delays delay_options ≢ [])
parse_delays-IsUsable_example = parse_delays-IsUsable delay_options

abbrev two_delays : Delays
two_delays = (pos 5, pos 90) ∷ (pos 20, pos 50) ∷ []

priority_for-IsLeast_example :
    ((p : ℤ) × (d : ℤ) × (priority_for (pos 6) two_delays ≡ some p)
      × IsLeast (pos 6) two_delays d p)
    ⊎ ((priority_for (pos 6) two_delays ≡ none)
        × (all (λ entry. ltb_ℤ entry.0 (pos 6)) two_delays ≡ true))
priority_for-IsLeast_example = priority_for-IsLeast (pos 6) two_delays refl

-- One domain whose certificate ends on day 10, and one that cannot be loaded.
abbrev domains_at : ℤ → Domains
domains_at now = record {
  now = now;
  configs = λ path. some (codes "a.org") ∷ none ∷ some (codes "b.org") ∷ [];
  not_after = λ domain. if text_eq domain (codes "a.org") then some (some (pos 864000)) else none;
  date_text = λ date. codes "date";
}

certificates-Report_example :
    let cs = (domains_at (pos 432000)).configs (config_pattern delay_options) in
    Adds
      (on_process_watch delay_options (domains_at (pos 432000)) [])
      new_report
      (config_failures (domains_at (pos 432000)) cs [])
      (config_problems (domains_at (pos 432000)) (parse_delays delay_options) cs [])
certificates-Report_example =
    certificates-Report delay_options (domains_at (pos 432000)) [] new_report

success_forgets_nothing_example :
    let fs1 = failures_then (domains_at (pos 0)) (codes "b.org") [] none in
    let fs2 = failures_then (domains_at (pos 100)) (codes "b.org") fs1 (some (some (pos 864000))) in
    (failure_of (codes "b.org") fs2 ≡ some (pos 0))
    × Adds
        (check_certificate
          (domains_at (pos 100))
          two_delays
          []
          (codes "b.org")
          fs1
          (some (some (pos 864000))))
        new_report
        fs2
        (domain_problems
          (domains_at (pos 100))
          two_delays
          (codes "b.org")
          fs1
          (some (some (pos 864000))))
    × Adds
        (check_certificate (domains_at (pos 20000)) two_delays [] (codes "b.org") fs2 none)
        new_report
        (failures_then (domains_at (pos 20000)) (codes "b.org") fs2 none)
        (if ltb_ℤ (pos 18000) (pos 20000 -ℤ pos 0)
          then (not_loaded (codes "b.org"), pos 100) ∷ []
          else [])
unfolding failure_of
success_forgets_nothing_example =
    success_forgets_nothing (domains_at (pos 0)) (domains_at (pos 100)) (domains_at (pos 20000))
      two_delays [] (codes "b.org") [] (some (pos 864000)) new_report refl refl
