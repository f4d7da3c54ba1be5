-- ===== src/Plugins/Certificate/Delays.antt =====
-- What `parse_delays` of plugins/sitter_certificate/certificate.cpp promises, and the delay chosen.
use sitter.Base.{
  ◌≡◌, refl, ℤ, pos, ◌≤ℤ◌, ◌<ℤ◌, ltb_ℤ, leb_ℤ, eqb_ℤ, Bool, true, false, ◌&&◌, if◌then◌else◌, List,
  [], ◌∷◌, all, Option, none, some, Text, codes, arith, eq_of_parts, ◌≢◌, ◌||◌, Bool-cases, ◌⊎◌,
  inl, inr,
}
use sitter.Env.{Env}
use sitter.Server.{get_server_parameter}
use sitter.Plugins.Certificate.{
  Delays, set_delay, entry_from, add_entry, parse_entries, or_defaults, parse_delays, priority_for,
}

-- Delays of 1 to 3660 days and priorities of 0 to 100.
abbrev pub in_range : ℤ × ℤ → Bool
in_range (d, p) = (leb_ℤ (pos 1) d && leb_ℤ d (pos 3660)) && (leb_ℤ (pos 0) p && leb_ℤ p (pos 100))

abbrev is_after : ℤ → ℤ × ℤ → Bool
is_after d (e, q) = ltb_ℤ d e

-- By increasing days, no delay twice.
abbrev pub is_sorted : Delays → Bool
is_sorted [] = true
is_sorted ((d, p) ∷ m) = all (is_after d) m && is_sorted m

and_both : (a b : Bool) → (a && b) ≡ true → (a ≡ true) × (b ≡ true)
and_both a b h = ground arith

set_delay-all :
    (test : ℤ × ℤ → Bool) (d p : ℤ) (m : Delays)
    → test (d, p) ≡ true
    → all test m ≡ true
    → all test (set_delay d p m) ≡ true
unfolding set_delay
set_delay-all test d p [] new old = ground arith
set_delay-all test d p ((e, q) ∷ m) new old = ground (arith, set_delay-all test d p m)

all_after : (d e : ℤ) (m : Delays) → d <ℤ e → all (is_after e) m ≡ true → all (is_after d) m ≡ true
all_after d e [] less after = refl
all_after d e ((f, q) ∷ m) less after = ground (arith, all_after d e m)

set_delay-sorted : (d p : ℤ) (m : Delays) → is_sorted m ≡ true → is_sorted (set_delay d p m) ≡ true
unfolding set_delay
set_delay-sorted d p [] sorted = refl
set_delay-sorted d p ((e, q) ∷ m) sorted = ground (
  arith,
  eq_of_parts d e,
  set_delay-sorted d p m,
  set_delay-all (is_after e) d p m,
  all_after d e m,
)

entry_from-in_range :
    (env : Env) (pieces : List Text) (entry : ℤ × ℤ)
    → entry_from env pieces ≡ some entry
    → in_range entry ≡ true
unfolding entry_from
entry_from-in_range env [] entry h = ground arith
entry_from-in_range env (a ∷ []) entry h = ground arith
entry_from-in_range env (a ∷ b ∷ []) entry h = ground arith
entry_from-in_range env (a ∷ b ∷ c ∷ rest) entry h = ground arith

add_entry-good :
    (o : Option (ℤ × ℤ)) (m : Delays)
    → ((entry : ℤ × ℤ) → o ≡ some entry → in_range entry ≡ true)
    → all in_range m ≡ true
    → is_sorted m ≡ true
    → (all in_range (add_entry o m) ≡ true) × (is_sorted (add_entry o m) ≡ true)
unfolding add_entry
add_entry-good none m good range sorted = (range, sorted)
add_entry-good (some (d, p)) m good range sorted =
    (set_delay-all in_range d p m (good (d, p) refl) range, set_delay-sorted d p m sorted)

parse_entries-good :
    (env : Env) (ws : List Text) (m : Delays)
    → all in_range m ≡ true
    → is_sorted m ≡ true
    → (all in_range (parse_entries env ws m) ≡ true) × (is_sorted (parse_entries env ws m) ≡ true)
unfolding parse_entries
parse_entries-good env [] m range sorted = (range, sorted)
parse_entries-good env (w ∷ ws) m range sorted =
    let pieces = env.split_string w (codes "/") in
    let o = entry_from env pieces in
    let (more_range, more_sorted) =
      add_entry-good o m (entry_from-in_range env pieces) range sorted in
    parse_entries-good env ws (add_entry o m) more_range more_sorted

-- Whatever the administrator wrote, the delays that `parse_delays` leaves are increasing, of 1 to 3660
-- days, with priorities of 0 to 100, and there is at least one.
pub parse_delays-IsUsable :
    (env : Env)
    → (is_sorted (parse_delays env) ≡ true)
      × (all in_range (parse_delays env) ≡ true)
      × (parse_delays env ≢ [])
unfolding parse_delays or_defaults
parse_delays-IsUsable env =
    let text = get_server_parameter env (codes "certificate_warning_delays") in
    let pieces = env.split_string text (codes ",") in
    go (parse_entries env pieces []) (parse_entries-good env pieces [] refl refl)
  where
    go :
        (m : Delays)
        → (all in_range m ≡ true) × (is_sorted m ≡ true)
        → (is_sorted (or_defaults m) ≡ true)
          × (all in_range (or_defaults m) ≡ true)
          × (or_defaults m ≢ [])
    go [] good = (refl, refl, λ h. cc)
    go (entry ∷ m) (range, sorted) = (sorted, range, λ h. cc)

-- The priority of a delay.
abbrev priority_of : ℤ → Delays → Option ℤ
priority_of d [] = none
priority_of d ((e, q) ∷ m) = if eqb_ℤ d e then some q else priority_of d m

-- The delay `d` is in the list, with priority `p`; the days left do not exceed it, and they exceed every
-- delay before it.
abbrev pub IsLeast : ℤ → Delays → ℤ → ℤ → Type 0
IsLeast diff m d p =
    (priority_of d m ≡ some p)
    × (diff ≤ℤ d)
    × (all (λ entry. ltb_ℤ entry.0 diff || leb_ℤ d entry.0) m ≡ true)

all_later :
    (diff d : ℤ) (m : Delays)
    → all (is_after d) m ≡ true
    → all (λ entry. ltb_ℤ entry.0 diff || leb_ℤ d entry.0) m ≡ true
all_later diff d [] h = refl
all_later diff d ((e, q) ∷ m) h = ground (arith, all_later diff d m)

found_later :
    (d e q : ℤ) (m : Delays)
    → all (is_after d) m ≡ true
    → priority_of e m ≡ some q
    → eqb_ℤ e d ≡ false
found_later d e q [] after found = cc
found_later d e q ((f, r) ∷ m) after found = ground (arith, found_later d e q m)

-- On a sorted list the priority chosen is that of the least delay that the days left do not exceed; none
-- is chosen where every delay is less than the days left.
pub priority_for-IsLeast :
    (diff : ℤ) (m : Delays)
    → is_sorted m ≡ true
    → ((p : ℤ) × (d : ℤ) × (priority_for diff m ≡ some p) × IsLeast diff m d p)
      ⊎ ((priority_for diff m ≡ none) × (all (λ entry. ltb_ℤ entry.0 diff) m ≡ true))
unfolding priority_for
priority_for-IsLeast diff [] sorted = inr (refl, refl)
priority_for-IsLeast diff ((d, p) ∷ m) sorted =
    let (after, rest) = and_both (all (is_after d) m) (is_sorted m) sorted in
    elim (Bool-cases (leb_ℤ diff d)) [
      | inl here ↦
          inl (p, d, ground arith, (ground arith, ground arith, ground (arith, all_later diff d m)))
      | inr later ↦ elim (priority_for-IsLeast diff m rest) [
        | inl (q, e, chosen, (there, under, least)) ↦
            inl (q, e, ground arith, (ground (arith, found_later d e q m), under, ground arith))
        | inr (nothing, above) ↦ inr (ground arith, ground arith)
      ]
    ]
