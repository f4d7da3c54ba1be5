-- ===== src/Plugins/Certificate/Access.antt =====
-- What the certificate plugin of plugins/sitter_certificate/certificate.cpp reports, and how it
-- remembers the domains that could not be loaded.
use sitter.Base.{
  ◌≡◌, refl, ℤ, pos, ◌-ℤ◌, ltb_ℤ, true, if◌then◌else◌, List, [], ◌∷◌, ◌++◌, all, Option, none, some,
  Text, codes, text_eq_refl, arith, ◌-ℤ◌,
}
use sitter.Env.{Env}
use sitter.Json.{Key, Value, put, ◌/+◌}
use sitter.Report.{Report}
use sitter.Report.Laws.{Issue}
use sitter.Report.Adds.{Adds, Adds-pure, Adds-write, Adds-bind, Adds-then, Adds-as}
use sitter.Action.{◌>>=◌, write}
use sitter.Plugins.Certificate.{
  Delays, Domains, Failures, parse_delays, failure_of, set_failure, check_certificate,
  check_configs, config_pattern, on_process_watch,
}
use sitter.Plugins.Certificate.Delays.{in_range, parse_delays-IsUsable}
use sitter.Plugins.Certificate.Domain.{
  not_loaded, domain_problems, failures_then, check_certificate-Adds,
}

failure_of-set :
    (domain : Text) (t : ℤ) (fs : Failures) → failure_of domain (set_failure domain t fs) ≡ some t
unfolding failure_of set_failure
failure_of-set domain t [] = rw (text_eq_refl domain) refl
failure_of-set domain t ((k, u) ∷ fs) =
    ground (arith, failure_of-set domain t fs, text_eq_refl domain)

abbrev pub config_problems : Domains → Delays → List (Option Text) → Failures → List Issue
config_problems host delays [] fs = []
config_problems host delays (none ∷ cs) fs = config_problems host delays cs fs
config_problems host delays (some domain ∷ cs) fs =
    domain_problems host delays domain fs (host.not_after domain)
    ++ config_problems host delays cs (failures_then host domain fs (host.not_after domain))

abbrev pub config_failures : Domains → List (Option Text) → Failures → Failures
config_failures host [] fs = fs
config_failures host (none ∷ cs) fs = config_failures host cs fs
config_failures host (some domain ∷ cs) fs =
    config_failures host cs (failures_then host domain fs (host.not_after domain))

check_configs-Adds :
    (host : Domains) (delays : Delays) (json : List Key) (cs : List (Option Text)) (fs : Failures)
    (r : Report)
    → all in_range delays ≡ true
    → Adds
        (check_configs host delays json cs fs)
        r
        (config_failures host cs fs)
        (config_problems host delays cs fs)
unfolding check_configs
check_configs-Adds host delays json [] fs r range = Adds-pure fs r
check_configs-Adds host delays json (none ∷ cs) fs r range =
    check_configs-Adds host delays json cs fs r range
check_configs-Adds host delays json (some domain ∷ cs) fs r range =
    let calls = put (json /+ codes "certificate" /+ codes "domain") (Value.text domain) ∷ [] in
    let answer = host.not_after domain in
    let after = failures_then host domain fs answer in
    let checked = check_certificate host delays json domain fs answer in
    let rest = check_configs host delays json cs in
    let ps = domain_problems host delays domain fs answer in
    let qs = config_problems host delays cs after in
    Adds-then (write calls) (checked >>= rest) (config_failures host cs after) [] (ps ++ qs)
      (Adds-write calls)
      (λ q.
        Adds-bind checked rest q after (config_failures host cs after) ps qs
          (check_certificate-Adds host delays json domain fs answer q range)
          (check_configs-Adds host delays json cs after (checked q).0 range))
      r

-- For every option text the certificate plugin throws nothing, and it adds exactly these errors, in the
-- order of the files that the pattern of the source selects, each with a message that names the domain:
-- 100 for a certificate that has ended, the priority of the delay for one that ends soon, 90 for one with
-- no end, and for one that cannot be loaded 75 the first time, 100 once more than five hours have passed
-- since the failure reported last, and nothing before.
pub certificates-Report :
    (env : Env) (host : Domains) (fs : Failures) (r : Report)
    → let cs = host.configs (config_pattern env) in
      Adds
        (on_process_watch env host fs)
        r
        (config_failures host cs fs)
        (config_problems host (parse_delays env) cs fs)
unfolding on_process_watch
certificates-Report env host fs r =
    check_configs-Adds host (parse_delays env) [] (host.configs (config_pattern env)) fs r
      (parse_delays-IsUsable env).1

-- With delays whose days and priorities are in range, the first failure of a domain is not forgotten by
-- a success: a later check of the domain whose certificate is loaded, with or without an end, leaves it
-- in place, and a failure after that is reported with priority 100 if more than five hours have passed
-- since the first one, and not at all otherwise.
pub success_forgets_nothing :
    (first middle last : Domains) (delays : Delays) (json : List Key) (domain : Text)
    (fs : Failures) (loaded : Option ℤ) (r : Report)
    → all in_range delays ≡ true
    → failure_of domain fs ≡ none
    → let fs1 = failures_then first domain fs none in
      let fs2 = failures_then middle domain fs1 (some loaded) in
      let late = ltb_ℤ (pos 18000) (last.now -ℤ first.now) in
      (failure_of domain fs2 ≡ some first.now)
      × Adds
          (check_certificate middle delays json domain fs1 (some loaded))
          r
          fs2
          (domain_problems middle delays domain fs1 (some loaded))
      × Adds
          (check_certificate last delays json domain fs2 none)
          r
          (failures_then last domain fs2 none)
          (if late then (not_loaded domain, pos 100) ∷ [] else [])
success_forgets_nothing first middle last delays json domain fs loaded r range new =
    let fs1 = failures_then first domain fs none in
    let kept : failure_of domain fs1 ≡ some first.now =
      rw new (failure_of-set domain first.now fs) in
    let again = check_certificate-Adds last delays json domain fs1 none r range in
    (
      kept,
      check_certificate-Adds middle delays json domain fs1 (some loaded) r range,
      Adds-as (check_certificate last delays json domain fs1 none) r
          (failures_then last domain fs1 none) (failures_then last domain fs1 none)
          (domain_problems last delays domain fs1 none)
          (if ltb_ℤ (pos 18000) (last.now -ℤ first.now)
            then (not_loaded domain, pos 100) ∷ []
            else [])
          refl (rw kept refl) again,
    )
