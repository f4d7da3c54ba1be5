-- ===== src/Plugins/Log/Mode/Letters.antt =====
-- The modes in letters of plugins/sitter_log/definition.cpp, against what they ask for.
use Prim.Native.Nat.{bit_or}
use sitter.Base.{
  ℕ, zero, suc, ◌*◌, ◌≤◌, ◌<◌, ◌≡◌, ◌≢◌, refl, leb, Bool, true, false, ◌&&◌, ◌||◌, if◌then◌else◌,
  ◌==◌, Text, all, [], ◌∷◌, ok, arith,
}
use sitter.Plugins.Log.Mode.{
  is_digit, parse_mode, symbolic_mode, read_who, read_perms, spread, apply_operator, who_bits,
  perm_bits, upper_bits, is_operator,
}

-- One section of the permissions, by its letter.
pub data Who : Type 0 where
  user group other everyone : Who

abbrev pub letter : Who → ℕ
letter user = b'u'
letter group = b'g'
letter other = b'o'
letter everyone = b'a'

abbrev is_rwx : ℕ → Bool
is_rwx c = c == b'r' || c == b'w' || c == b'x'

-- What the letters ask for: the bits of one section, and these bits in each section named.
abbrev asked_bits : Text → ℕ → ℕ
asked_bits [] p = p
asked_bits (c ∷ cs) p =
    asked_bits cs (bit_or p (if c == b'r' then 4 else if c == b'w' then 2 else 1))

abbrev asked_mode : Who → ℕ → ℕ
asked_mode user p = p * 0o100
asked_mode group p = p * 0o010
asked_mode other p = p
asked_mode everyone p = p * 0o111

-- A test of each octal digit, and that it covers them all.
holds_to : (ℕ → Bool) → ℕ → Bool
holds_to test zero = test zero
holds_to test (suc last) = holds_to test last && test (suc last)

holds_to-covers :
    (test : ℕ → Bool) (last digit : ℕ)
    → digit ≤ last
    → holds_to test last ≡ true
    → test digit ≡ true
unfolding holds_to
holds_to-covers test zero digit bound every =
    let none_above : digit ≡ 0 = omega arith in rw none_above every
holds_to-covers test (suc last) digit bound every = ground (arith, holds_to-covers test last digit)

-- Adding a bit to three bits gives three bits, and not none.
adds_bit : ℕ → Bool
adds_bit p =
    leb (bit_or p 4) 7
    && leb 1 (bit_or p 4)
    && (leb (bit_or p 2) 7 && leb 1 (bit_or p 2))
    && (leb (bit_or p 1) 7 && leb 1 (bit_or p 1))

adds_bit-all : holds_to adds_bit 7 ≡ true
unfolding holds_to adds_bit
adds_bit-all = refl

asked_bits-bound :
    (cs : Text) (p : ℕ) → p < 8 → 1 ≤ p → (asked_bits cs p < 8) × (1 ≤ asked_bits cs p)
unfolding adds_bit
asked_bits-bound [] p small one = (small, one)
asked_bits-bound (c ∷ cs) p small one =
    let added = holds_to-covers adds_bit 7 p (omega arith) adds_bit-all in
    asked_bits-bound cs (bit_or p (if c == b'r' then 4 else if c == b'w' then 2 else 1))
      (ground arith) (ground arith)

read_perms-rwx :
    (cs : Text) (p : ℕ) → all is_rwx cs ≡ true → read_perms cs p 0 ≡ ok (asked_bits cs p, 0)
unfolding read_perms perm_bits upper_bits
read_perms-rwx [] p h = refl
read_perms-rwx (c ∷ cs) p h = ground (
  arith,
  read_perms-rwx cs (bit_or p 4),
  read_perms-rwx cs (bit_or p 2),
  read_perms-rwx cs (bit_or p 1),
)

-- The bits that the code spreads over a section, and seven times the bits asked for.
spreads_sevenfold : Who → ℕ → Bool
spreads_sevenfold w p = spread (who_bits (letter w)) p 0 == 7 * asked_mode w p

spreads_sevenfold-all : (w : Who) → holds_to (spreads_sevenfold w) 7 ≡ true
unfolding holds_to spreads_sevenfold spread who_bits
spreads_sevenfold-all user = refl
spreads_sevenfold-all group = refl
spreads_sevenfold-all other = refl
spreads_sevenfold-all everyone = refl

spread-sevenfold : (w : Who) (p : ℕ) → p < 8 → spread (who_bits (letter w)) p 0 ≡ 7 * asked_mode w p
unfolding spreads_sevenfold
spread-sevenfold w p small =
    let found = holds_to-covers (spreads_sevenfold w) 7 p (omega arith) (spreads_sevenfold-all w) in
    ground (arith, found)

asked_bits-first : (c : ℕ) (cs : Text) → (asked_bits (c ∷ cs) 0 < 8) × (1 ≤ asked_bits (c ∷ cs) 0)
asked_bits-first c cs =
    asked_bits-bound cs (bit_or 0 (if c == b'r' then 4 else if c == b'w' then 2 else 1))
      (ground arith) (ground arith)

who_digit : (w : Who) → is_digit (letter w) ≡ false
unfolding is_digit
who_digit user = refl
who_digit group = refl
who_digit other = refl
who_digit everyone = refl

read_who-one :
    (w : Who) (cs : Text) → read_who (letter w ∷ b'=' ∷ cs) 0 ≡ ok (who_bits (letter w), b'=', cs)
unfolding read_who who_bits is_operator
read_who-one user cs = refl
read_who-one group cs = refl
read_who-one other cs = refl
read_who-one everyone cs = refl

asked_mode-pos : (w : Who) (p : ℕ) → 1 ≤ p → 1 ≤ asked_mode w p
asked_mode-pos user p one = omega arith
asked_mode-pos group p one = omega arith
asked_mode-pos other p one = one
asked_mode-pos everyone p one = omega arith

-- A mode that sets one section, or all three, to some of "r", "w" and "x" is read as seven times the
-- mode that these letters ask for, all twelve bits compared; so it is never the mode asked for.
pub parse_mode-letters :
    (w : Who) (c : ℕ) (cs : Text)
    → all is_rwx (c ∷ cs) ≡ true
    → (parse_mode (letter w ∷ b'=' ∷ c ∷ cs)
        ≡ ok (7 * asked_mode w (asked_bits (c ∷ cs) 0), 0o7777))
      × (7 * asked_mode w (asked_bits (c ∷ cs) 0) ≢ asked_mode w (asked_bits (c ∷ cs) 0))
unfolding parse_mode symbolic_mode apply_operator
parse_mode-letters w c cs h =
    let (small, one) = asked_bits-first c cs in
    let positive = asked_mode-pos w (asked_bits (c ∷ cs) 0) one in
    (
      rw
          (
            who_digit w,
            read_who-one w (c ∷ cs),
            read_perms-rwx (c ∷ cs) 0 h,
            spread-sevenfold w (asked_bits (c ∷ cs) 0) small,
          )
          refl,
      λ same. omega arith,
    )
