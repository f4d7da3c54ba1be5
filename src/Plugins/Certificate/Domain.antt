-- ===== src/Plugins/Certificate/Domain.antt =====
-- One domain in the certificate plugin of plugins/sitter_certificate/certificate.cpp: what its check
-- reports and remembers.
use sitter.Base.{
  ◌≡◌, refl, ℤ, pos, ◌-ℤ◌, ltb_ℤ, leb_ℤ, Bool, true, ◌&&◌, if◌then◌else◌, List, [], ◌∷◌, ◌++◌, all,
  Option, none, some, Text, codes, arith, append-nil, ◌∙◌, to_string, eqb_ℤ, ◌-ℤ◌, ◌/ℤ◌,
}
use sitter.Json.{Key}
use sitter.Report.{Report}
use sitter.Report.Laws.{InRange, Issue}
use sitter.Report.Adds.{Adds, Adds-pure, Adds-then, Adds-as, Adds-report}
use sitter.Action.{pure, ◌>>◌}
use sitter.Plugins.Certificate.{
  Delays, Domains, Failures, priority_for, report_some, end_message, end_priority, days_left,
  failures_after, failure_of, set_failure, failure_priority, check_end, check_failure,
  check_certificate, report, of_domain,
}
use sitter.Plugins.Certificate.Delays.{in_range}

abbrev is_priority : ℤ → Bool
is_priority p = leb_ℤ (pos 0) p && leb_ℤ p (pos 100)

priority_for-range :
    (diff : ℤ) (m : Delays) (p : ℤ)
    → all in_range m ≡ true
    → priority_for diff m ≡ some p
    → is_priority p ≡ true
unfolding priority_for
priority_for-range diff [] p range h = cc
priority_for-range diff ((d, q) ∷ m) p range h = ground (arith, priority_for-range diff m p)

is_priority-InRange : (p : ℤ) → is_priority p ≡ true → InRange p
is_priority-InRange p h = ground arith

-- A report of a priority in range adds that error.
report-Adds :
    (json : List Key) (message : Text) (p : ℤ) (r : Report)
    → is_priority p ≡ true
    → Adds (report json message p) r tt ((message, p) ∷ [])
report-Adds json message p r h =
    Adds-report true json (codes "certificate") message p r (is_priority-InRange p h)

abbrev listed : Text → Option ℤ → List Issue
listed message none = []
listed message (some p) = (message, p) ∷ []

-- Only priorities in range.
abbrev InRangeIfAny : Option ℤ → Type 0
InRangeIfAny o = (p : ℤ) → o ≡ some p → is_priority p ≡ true

report_some-Adds :
    (json : List Key) (message : Text) (o : Option ℤ) (r : Report)
    → InRangeIfAny o
    → Adds (report_some json message o) r tt (listed message o)
unfolding report_some
report_some-Adds json message none r range = Adds-pure tt r
report_some-Adds json message (some p) r range = report-Adds json message p r (range p refl)

end_priority-range :
    (diff : ℤ) (m : Delays) → all in_range m ≡ true → InRangeIfAny (end_priority diff m)
unfolding end_priority
end_priority-range diff m range p h = ground (arith, priority_for-range diff m p)

failure_priority-range : (now : ℤ) (o : Option ℤ) → InRangeIfAny (failure_priority now o)
unfolding failure_priority
failure_priority-range now none p h = ground arith
failure_priority-range now (some last) p h = ground arith

-- More than five hours after the failure reported last.
abbrev is_late : ℤ → ℤ → Bool
is_late now last = ltb_ℤ (pos 18000) (now -ℤ last)

abbrev pub not_loaded : Text → Text
not_loaded domain = of_domain (codes "Failed loading certificate of domain") domain (codes ".")

abbrev no_end : Text → Text
no_end domain =
    of_domain (codes "Failed getting the certificate notAfter date for domain") domain (codes ".")

-- What is said of a certificate that ends in so many days.
abbrev end_text : Domains → Text → ℤ → ℤ → Text
end_text host domain end diff =
    let days = codes " day" ++ (if eqb_ℤ diff (pos 1) then [] else codes "s") ++ codes ")." in
    if leb_ℤ diff (pos 0)
    then of_domain (codes "Certificate for domain") domain
        (codes " has expired on " ++ host.date_text end ++ codes ".")
    else of_domain (codes "Certificate for domain") domain
        (codes " will expire on " ++ host.date_text end ++ codes " (in " ++ to_string diff ++ days)

-- The errors for a failure, and the failures remembered after it, by the failure reported last.
abbrev failure_problems : Text → ℤ → Option ℤ → List Issue
failure_problems domain now none = (not_loaded domain, pos 75) ∷ []
failure_problems domain now (some last) =
    if is_late now last then (not_loaded domain, pos 100) ∷ [] else []

abbrev pub remembered : Text → ℤ → Failures → Option ℤ → Failures
remembered domain now fs none = set_failure domain now fs
remembered domain now fs (some last) = if is_late now last then set_failure domain now fs else fs

-- The errors for a certificate that ends in so many days.
abbrev end_problems : Text → ℤ → Delays → List Issue
end_problems message diff delays =
    if leb_ℤ diff (pos 0)
    then (message, pos 100) ∷ []
    else listed message (priority_for diff delays)

listed-failure_priority :
    (domain : Text) (now : ℤ) (o : Option ℤ)
    → listed (not_loaded domain) (failure_priority now o) ≡ failure_problems domain now o
unfolding failure_priority
listed-failure_priority domain now none = refl
listed-failure_priority domain now (some last) = ground arith

failures_after-failure_priority :
    (domain : Text) (now : ℤ) (fs : Failures) (o : Option ℤ)
    → failures_after (failure_priority now o) domain now fs ≡ remembered domain now fs o
unfolding failure_priority failures_after
failures_after-failure_priority domain now fs none = refl
failures_after-failure_priority domain now fs (some last) = ground arith

listed-end_priority :
    (message : Text) (diff : ℤ) (delays : Delays)
    → listed message (end_priority diff delays) ≡ end_problems message diff delays
unfolding end_priority
listed-end_priority message diff delays = ground arith

-- The errors of one domain and the failures remembered after it, by what its certificate answers.
abbrev pub domain_problems : Domains → Delays → Text → Failures → Option (Option ℤ) → List Issue
domain_problems host delays domain fs none = failure_problems domain host.now (failure_of domain fs)
domain_problems host delays domain fs (some none) = (no_end domain, pos 90) ∷ []
domain_problems host delays domain fs (some (some end)) =
    let diff = end /ℤ 86400 -ℤ host.now /ℤ 86400 in
    end_problems (end_text host domain end diff) diff delays

abbrev pub failures_then : Domains → Text → Failures → Option (Option ℤ) → Failures
failures_then host domain fs none = remembered domain host.now fs (failure_of domain fs)
failures_then host domain fs (some loaded) = fs

end_message-Is :
    (host : Domains) (domain : Text) (end : ℤ)
    → end_message host domain end ≡ end_text host domain end (days_left host end)
unfolding end_message
end_message-Is host domain end = refl

pub check_certificate-Adds :
    (host : Domains) (delays : Delays) (json : List Key) (domain : Text) (fs : Failures)
    (answer : Option (Option ℤ)) (r : Report)
    → all in_range delays ≡ true
    → Adds
        (check_certificate host delays json domain fs answer)
        r
        (failures_then host domain fs answer)
        (domain_problems host delays domain fs answer)
unfolding check_certificate check_failure check_end
check_certificate-Adds host delays json domain fs none r range =
    let o = failure_priority host.now (failure_of domain fs) in
    let message = of_domain (codes "Failed loading certificate of domain") domain (codes ".") in
    let after = failures_after o domain host.now fs in
    let last = failure_of domain fs in
    Adds-as (report_some json message o >> pure after) r after (remembered domain host.now fs last)
      (listed message o ++ []) (failure_problems domain host.now last)
      (failures_after-failure_priority domain host.now fs last)
      (append-nil (listed message o) ∙ listed-failure_priority domain host.now last)
      (Adds-then (report_some json message o) (pure after) after (listed message o) []
        (λ q.
          report_some-Adds json message o q
            (failure_priority-range host.now (failure_of domain fs)))
        (Adds-pure after) r)
check_certificate-Adds host delays json domain fs (some none) r range =
    let message =
      of_domain (codes "Failed getting the certificate notAfter date for domain") domain
        (codes ".") in
    Adds-then (report json message (pos 90)) (pure fs) fs ((message, pos 90) ∷ []) []
      (λ q. report-Adds json message (pos 90) q refl) (Adds-pure fs) r
check_certificate-Adds host delays json domain fs (some (some end)) r range =
    let o = end_priority (days_left host end) delays in
    let message = end_text host domain end (days_left host end) in
    rw (end_message-Is host domain end) (
      Adds-as (report_some json message o >> pure fs) r fs fs (listed message o ++ [])
        (end_problems message (days_left host end) delays) refl
        (append-nil (listed message o) ∙ listed-end_priority message (days_left host end) delays)
        (Adds-then (report_some json message o) (pure fs) fs (listed message o) []
          (λ q.
            report_some-Adds json message o q
              (end_priority-range (days_left host end) delays range))
          (Adds-pure fs) r))
