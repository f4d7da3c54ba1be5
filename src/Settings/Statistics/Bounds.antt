-- ===== src/Settings/Statistics/Bounds.antt =====
-- The values that the getters of the statistics settings and of the settle time (sitter/sitter.cpp) load
-- and keep.
use sitter.Base.{
  ℕ, ◌+◌, ◌*◌, ◌/◌, ◌≤◌, ◌<◌, ◌≡◌, refl, ◌⊎◌, inl, inr, ℤ, pos, negsuc, pos_part, ◌+ℤ◌, ◌-ℤ◌, ◌*ℤ◌,
  ◌/ℤ◌, ◌≤ℤ◌, ◌<ℤ◌, max_ℤ, ltb_ℤ, if◌then◌else◌, arith, codes, text_eq_iff, ◌≢◌, none, some,
}
use sitter.Env.{Env}
use sitter.Settings.{Settings, minimum_statistics_period}
use sitter.Settings.Statistics.{
  round_up, get_statistics_frequency, get_statistics_period, get_statistics_ttl,
  load_statistics_ttl,
}

round_up_lem : (n : ℕ) → round_up (pos n) ≡ pos ((n + 3599) / 3600 * 3600)
unfolding round_up ◌+ℤ◌ ◌-ℤ◌ ◌*ℤ◌ ◌/ℤ◌
round_up_lem n = ground arith

-- The duration that the administrator asks for: a week if the text is no duration or a negative one.
abbrev asked_period : Env → ℤ
asked_period env = elim (env.duration_seconds (env.get_string (codes "statistics_period"))) [
  | none ↦ pos 604800
  | some d ↦ if ltb_ℤ d (pos 0) then pos 604800 else d
]

-- `p` is the least whole number of hours that is at least `asked`, and at least one hour.
abbrev pub IsRoundedUp : ℤ → ℤ → Type 0
IsRoundedUp asked p =
    (hours : ℕ) × (p ≡ pos (3600 * hours))
    × (1 ≤ hours)
    × (asked ≤ℤ p)
    × ((hours ≡ 1) ⊎ (pos_part p < pos_part asked + 3600))

rounds_from :
    (asked : ℤ) (n : ℕ)
    → 3600 ≤ n
    → asked ≤ℤ pos n
    → (n ≡ 3600) ⊎ (asked ≡ pos n)
    → IsRoundedUp asked (round_up (pos n))
rounds_from asked n low le (inl e) =
    rw (e, round_up_lem 3600) (1, refl, omega arith, omega arith, inl refl)
rounds_from asked n low le (inr e) =
    rw (round_up_lem n)
      ((n + 3599) / 3600, ground arith, omega arith, omega arith, inr (ground arith))

round_up-IsRoundedUp :
    (asked : ℤ) → IsRoundedUp asked (round_up (max_ℤ minimum_statistics_period asked))
round_up-IsRoundedUp (negsuc n) = ground (arith, rounds_from (negsuc n) 3600)
round_up-IsRoundedUp (pos n) = ground (arith, rounds_from (pos n) 3600, rounds_from (pos n) n)

-- An unset period becomes the duration asked for, rounded up to the least whole number of hours and to
-- at least one hour, and only the period's field changes.
pub get_statistics_period_rounds :
    (env : Env) (s : Settings)
    → s.statistics_period ≤ℤ pos 0
    → let (s', p) = get_statistics_period env s in
      IsRoundedUp (asked_period env) p × (s' ≡ record s { statistics_period = p })
unfolding get_statistics_period
get_statistics_period_rounds env s h = ground (arith, round_up-IsRoundedUp (asked_period env))

period-pos : (asked p : ℤ) → IsRoundedUp asked p → pos 3600 ≤ℤ p
period-pos asked p (hours, e, h, _, _) = rw e (omega arith)

-- A getter keeps what it has loaded: a second call, whatever the options have become, returns the
-- same value and changes nothing.
abbrev KeepsLoaded : (Env → Settings → Settings × ℤ) → Env → Env → Settings → Type 0
KeepsLoaded get env later s = let (s', v) = get env s in get later s' ≡ (s', v)

frequency-KeepsLoaded :
    (env later : Env) (s : Settings) → KeepsLoaded get_statistics_frequency env later s
unfolding get_statistics_frequency
frequency-KeepsLoaded env later s = ground arith

period-KeepsLoaded :
    (env later : Env) (s : Settings) → KeepsLoaded get_statistics_period env later s
unfolding get_statistics_period
period-KeepsLoaded env later s =
    let loaded = round_up (max_ℤ minimum_statistics_period (asked_period env)) in
    ground (arith, period-pos (asked_period env) loaded (round_up-IsRoundedUp (asked_period env)))

get_statistics_period_pos : (env : Env) (s : Settings) → pos 1 ≤ℤ (get_statistics_period env s).1
unfolding get_statistics_period
get_statistics_period_pos env s =
    let loaded = round_up (max_ℤ minimum_statistics_period (asked_period env)) in
    ground (arith, period-pos (asked_period env) loaded (round_up-IsRoundedUp (asked_period env)))

-- What a time to live may be: zero for "off", the period for "use-period", otherwise at least an hour.
abbrev IsTtl : Env → Settings → ℤ → Type 0
IsTtl env s ttl =
    let text = env.get_string (codes "statistics_ttl") in
    ((text ≡ codes "off") × (ttl ≡ pos 0))
    ⊎ ((text ≢ codes "off")
        × (((text ≡ codes "use-period") × (ttl ≡ (get_statistics_period env s).1))
            ⊎ ((text ≢ codes "use-period") × (pos 3600 ≤ℤ ttl))))

load_statistics_ttl-IsTtl :
    (env : Env) (s : Settings) → IsTtl env s (load_statistics_ttl env s).statistics_ttl
unfolding load_statistics_ttl
load_statistics_ttl-IsTtl env s =
    let text = env.get_string (codes "statistics_ttl") in
    ground (arith, text_eq_iff text (codes "off"), text_eq_iff text (codes "use-period"))

load_statistics_ttl-nonneg :
    (env : Env) (s : Settings) → pos 0 ≤ℤ (load_statistics_ttl env s).statistics_ttl
load_statistics_ttl-nonneg env s =
    ground (arith, load_statistics_ttl-IsTtl env s, get_statistics_period_pos env s)

ttl-KeepsLoaded : (env later : Env) (s : Settings) → KeepsLoaded get_statistics_ttl env later s
unfolding get_statistics_ttl
ttl-KeepsLoaded env later s = ground (arith, load_statistics_ttl-nonneg env s)

-- Once loaded, the frequency, the period and the time to live stay as they are until they are cleared,
-- whatever the options become.
statistics-KeepsLoaded :
    (env later : Env) (s : Settings)
    → KeepsLoaded get_statistics_frequency env later s
      × KeepsLoaded get_statistics_period env later s
      × KeepsLoaded get_statistics_ttl env later s
statistics-KeepsLoaded env later s =
    (frequency-KeepsLoaded env later s, period-KeepsLoaded env later s, ttl-KeepsLoaded env later s)

-- An unset time to live is loaded as zero exactly for "off", as the period for "use-period", and
-- otherwise as at least an hour.
get_statistics_ttl-IsTtl :
    (env : Env) (s : Settings)
    → s.statistics_ttl <ℤ pos 0
    → IsTtl env s (get_statistics_ttl env s).1
unfolding get_statistics_ttl
get_statistics_ttl-IsTtl env s h = ground (arith, load_statistics_ttl-IsTtl env s)
