-- ===== src/Plugins/Apt/Reports.antt =====
-- When plugins/sitter_apt/apt.cpp reports an error, and when its priority calls for an email.
use sitter.Base.{
  ℤ, pos, ◌+ℤ◌, ◌-ℤ◌, ltb_ℤ, leb_ℤ, ◌≤◌, length, is_empty, ◌≡◌, refl, Bool, true, false, not, ◌&&◌,
  ◌||◌, Text, codes, text_eq, List, [], ◌∷◌, Option, none, some, arith, Bool-cases, inl, inr,
}
use sitter.Json.{Doc}
use sitter.Report.{Report}
use sitter.Report.Laws.{InRange, Issue}
use sitter.Report.Adds.{Adds, Adds-pure, Adds-write, Adds-bind, Adds-report}
use sitter.Action.{Action, write, ◌>>◌}
use sitter.Plugins.Apt.{
  Host, apt_check_output, count_of, apt_error, old_message, is_valid_on, report_updates,
  check_updates, check_age, check_counts, check_contents, check_apt_check, on_process_watch,
  apt_ref,
}

-- At most a day and an hour have passed since the date of the file.
abbrev is_fresh : Host → ℤ → Bool
is_fresh host date = not (ltb_ℤ (pos 90000) (host.now -ℤ date))

is_valid_on-Is : (host : Host) (date : ℤ) → is_valid_on host date ≡ is_fresh host date
unfolding is_valid_on ◌+ℤ◌ ◌-ℤ◌
is_valid_on-Is host date = ground arith

-- The file is fresh and says that nothing has to be upgraded.
abbrev counts_up_to_date : Host → List Text → Bool
counts_up_to_date host (date ∷ total ∷ security ∷ []) =
    is_fresh host (count_of host.env date) && text_eq total (codes "0")
counts_up_to_date host _ = false

abbrev file_up_to_date : Host → Option Text → Bool
file_up_to_date host none = false
file_up_to_date host (some text) =
    let contents = host.trim_string text in
    not (text_eq contents (codes "-1"))
    && counts_up_to_date host (host.env.split_string contents (codes ";"))

abbrev pub is_up_to_date : Host → Bool
is_up_to_date host = file_up_to_date host (host.read_all (apt_check_output host))

-- The command was not found, the file is out of date, or there are security updates.
abbrev counts_urgent : Host → List Text → Bool
counts_urgent host (date ∷ total ∷ security ∷ []) =
    not (is_fresh host (count_of host.env date))
    || not (text_eq total (codes "0")) && not (text_eq security (codes "0"))
counts_urgent host _ = false

abbrev file_urgent : Host → Option Text → Bool
file_urgent host none = false
file_urgent host (some text) =
    let contents = host.trim_string text in
    text_eq contents (codes "-1") || counts_urgent host (host.env.split_string contents (codes ";"))

abbrev pub is_urgent : Host → Bool
is_urgent host = file_urgent host (host.read_all (apt_check_output host))

abbrev any_urgent : List Issue → Bool
any_urgent [] = false
any_urgent (issue ∷ ps) = leb_ℤ (pos 50) issue.1 || any_urgent ps

-- From `r`, the action reports at most one error; none if and only if `quiet`, and one of priority 50 or
-- more if and only if `urgent`.
abbrev pub Says : Action (Unit {0}) → Report → Bool → Bool → Type 0
Says m r quiet urgent =
    (ps : List Issue) × Adds m r tt ps
    × (length ps ≤ 1)
    × (is_empty ps ≡ quiet)
    × (any_urgent ps ≡ urgent)

error-Says :
    (message : Text) (priority : ℤ) (r : Report)
    → InRange priority
    → Says (apt_error message priority) r false (leb_ℤ (pos 50) priority || false)
error-Says message priority r range = (
  (message, priority) ∷ [],
  Adds-report true apt_ref (codes "apt") message priority r range,
  omega arith,
  refl,
  refl,
)

write-Says :
    (calls : Doc) (m : Action (Unit {0})) (r : Report) (quiet urgent : Bool)
    → ((r : Report) → Says m r quiet urgent)
    → Says (write calls >> m) r quiet urgent
write-Says calls m r quiet urgent says =
    let (ps, adds, few, silent, loud) = says (write calls r).0 in
    (
      ps,
      Adds-bind (write calls) (λ _. m) r tt tt [] ps (Adds-write calls r) adds,
      few,
      silent,
      loud,
    )

report_updates-Says :
    (security : Text) (r : Report)
    → Says (report_updates security) r false (not (text_eq security (codes "0")))
unfolding report_updates
report_updates-Says security r = elim (Bool-cases (text_eq security (codes "0"))) [
  | inl none_needed ↦ rw none_needed (error-Says _ (pos 45) r (omega arith, omega arith))
  | inr needed ↦ rw needed (error-Says _ (pos 52) r (omega arith, omega arith))
]

check_updates-Says :
    (host : Host) (total security : Text) (r : Report)
    → Says
        (check_updates host total security)
        r
        (text_eq total (codes "0"))
        (not (text_eq total (codes "0")) && not (text_eq security (codes "0")))
unfolding check_updates
check_updates-Says host total security r = elim (Bool-cases (text_eq total (codes "0"))) [
  | inl nothing ↦ rw nothing ([], Adds-pure tt r, omega arith, refl, refl)
  | inr something ↦ rw something (
      write-Says _ (report_updates security) r false (not (text_eq security (codes "0")))
        (report_updates-Says security))
]

check_age-Says :
    (host : Host) (cached_on : ℤ) (total security : Text) (r : Report)
    → Says
        (check_age host cached_on total security)
        r
        (is_fresh host cached_on && text_eq total (codes "0"))
        (not (is_fresh host cached_on)
          || not (text_eq total (codes "0")) && not (text_eq security (codes "0")))
unfolding check_age
check_age-Says host cached_on total security r = elim (Bool-cases (is_fresh host cached_on)) [
  | inl fresh ↦
      rw (is_valid_on-Is host cached_on, fresh)
        (write-Says _ (check_updates host total security) r _ _
          (check_updates-Says host total security))
  | inr old ↦
      rw (is_valid_on-Is host cached_on, old)
        (write-Says _ (apt_error (old_message host) (pos 50)) r false true
          (λ r. error-Says (old_message host) (pos 50) r (omega arith, omega arith)))
]

check_counts-Says :
    (host : Host) (counts : List Text) (r : Report)
    → Says (check_counts host counts) r (counts_up_to_date host counts) (counts_urgent host counts)
unfolding check_counts
check_counts-Says host (date ∷ total ∷ security ∷ []) r =
    check_age-Says host (count_of host.env date) total security r
check_counts-Says host [] r = error-Says _ (pos 15) r (omega arith, omega arith)
check_counts-Says host (date ∷ []) r = error-Says _ (pos 15) r (omega arith, omega arith)
check_counts-Says host (date ∷ total ∷ []) r = error-Says _ (pos 15) r (omega arith, omega arith)
check_counts-Says host (date ∷ total ∷ security ∷ other ∷ rest) r =
    error-Says _ (pos 15) r (omega arith, omega arith)

check_apt_check-Says :
    (host : Host) (file : Option Text) (r : Report)
    → Says (check_apt_check host file) r (file_up_to_date host file) (file_urgent host file)
unfolding check_apt_check check_contents
check_apt_check-Says host none r = error-Says _ (pos 20) r (omega arith, omega arith)
check_apt_check-Says host (some text) r =
    elim (Bool-cases (text_eq (host.trim_string text) (codes "-1"))) [
      | inl missing ↦ rw missing (error-Says _ (pos 98) r (omega arith, omega arith))
      | inr present ↦ rw present (check_counts-Says host _ r)
    ]

-- A run never throws and reports at most one error. It reports none exactly when the file of the updates
-- is fresh, at most 90000 seconds old, and says that nothing has to be upgraded; and one of priority 50
-- or more exactly when the command was not found, the file is older, or there are security updates.
pub apt-Report :
    (host : Host) (r : Report)
    → Says (on_process_watch host) r (is_up_to_date host) (is_urgent host)
unfolding on_process_watch
apt-Report host r = check_apt_check-Says host (host.read_all (apt_check_output host)) r
