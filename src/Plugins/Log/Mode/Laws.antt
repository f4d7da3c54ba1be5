-- ===== src/Plugins/Log/Mode/Laws.antt =====
-- What the mode language of plugins/sitter_log/definition.cpp means.
use native.Mathlib.Nat.{pow-suc, mod-add-div', add-mul-mod_self_right}
use sitter.Base.{
  ℕ, ◌+◌, ◌-◌, ◌*◌, ◌/◌, ◌%◌, ◌^◌, ◌≤◌, ◌<◌, ◌≡◌, ◌∙◌, sym, Bool, true, false, ◌&&◌, if◌then◌else◌,
  ◌==◌, Text, all, [], ◌∷◌, ◌++◌, length, Result, ok, >>=-eq-ok, arith, ap,
}
use sitter.Plugins.Log.Mode.{
  is_digit, read_octal, read_mask, numeric_mode, parse_mode, symbolic_mode,
}

-- The value of digits in base 8, the first digit counting most.
abbrev octal_value : Text → ℕ
octal_value [] = 0
octal_value (c ∷ cs) = (c - b'0') * 8 ^ length cs + octal_value cs

octal_step :
    (m d power rest : ℕ)
    → 48 ≤ d
    → (m * 8 + d - 48) * power + rest ≡ m * (power * 8) + ((d - 48) * power + rest)
octal_step m d power rest h =
    let e : m * 8 + d - 48 ≡ m * 8 + (d - 48) = omega arith in rw e (grind arith)

-- A remainder may be taken before the digits that follow.
mod-mul-add : (x p r k : ℕ) → (x % k * p + r) % k ≡ (x * p + r) % k
mod-mul-add x p r k =
    let whole : x * p + r ≡ (x % k * p + r) + x / k * p * k =
      ap (λ n. n * p + r) (sym (mod-add-div' x k)) ∙ grind arith in
    sym (ap (λ n. n % k) whole ∙ add-mul-mod_self_right (x % k * p + r) (x / k * p) k)

wrapped_step :
    (m d power rest : ℕ)
    → 48 ≤ d
    → ((m * 8 + d - 48) % 2 ^ 32 * power + rest) % 2 ^ 32
      ≡ (m * (power * 8) + ((d - 48) * power + rest)) % 2 ^ 32
wrapped_step m d power rest h =
    mod-mul-add (m * 8 + d - 48) power rest (2 ^ 32)
    ∙ ap (λ n. n % 2 ^ 32) (octal_step m d power rest h)

digit_low : (d : ℕ) → is_digit d ≡ true → 48 ≤ d
unfolding is_digit
digit_low d h = ground arith

and_both : (a b : Bool) → (a && b) ≡ true → (a ≡ true) × (b ≡ true)
and_both a b h = ground arith

and_intro : {a b : Bool} → a ≡ true → b ≡ true → (a && b) ≡ true
and_intro p q = ground arith

read_octal-digits :
    (ds rest : Text) (m : ℕ)
    → m < 2 ^ 32
    → all is_digit ds ≡ true
    → read_octal (ds ++ b'/' ∷ rest) m
      ≡ ((m * 8 ^ length ds + octal_value ds) % 2 ^ 32, b'/' ∷ rest)
unfolding read_octal
read_octal-digits [] rest m small h = unfold is_digit in ground arith
read_octal-digits (d ∷ ds) rest m small h =
    let (digit, digits) = and_both (is_digit d) (all is_digit ds) h in
    rw
      (
        digit,
        read_octal-digits ds rest ((m * 8 + d - b'0') % 2 ^ 32) (omega arith) digits,
        pow-suc 8 (length ds),
      )
      (ap (λ (n : ℕ). (n, b'/' ∷ rest))
        (wrapped_step m d (8 ^ length ds) (octal_value ds) (digit_low d digit)))

read_octal-all :
    (ds : Text) (m : ℕ)
    → m < 2 ^ 32
    → all is_digit ds ≡ true
    → read_octal ds m ≡ ((m * 8 ^ length ds + octal_value ds) % 2 ^ 32, [])
unfolding read_octal
read_octal-all [] m small h = ground arith
read_octal-all (d ∷ ds) m small h =
    let (digit, digits) = and_both (is_digit d) (all is_digit ds) h in
    rw
      (
        digit,
        read_octal-all ds ((m * 8 + d - b'0') % 2 ^ 32) (omega arith) digits,
        pow-suc 8 (length ds),
      )
      (ap (λ (n : ℕ). (n, []))
        (wrapped_step m d (8 ^ length ds) (octal_value ds) (digit_low d digit)))

read_mask-all :
    (ds : Text) (m : ℕ)
    → m < 2 ^ 32
    → all is_digit ds ≡ true
    → read_mask ds m ≡ ok ((m * 8 ^ length ds + octal_value ds) % 2 ^ 32)
unfolding read_mask
read_mask-all [] m small h = ground arith
read_mask-all (d ∷ ds) m small h =
    let (digit, digits) = and_both (is_digit d) (all is_digit ds) h in
    rw
      (
        digit,
        read_mask-all ds ((m * 8 + d - b'0') % 2 ^ 32) (omega arith) digits,
        pow-suc 8 (length ds),
      )
      (ap ok (wrapped_step m d (8 ^ length ds) (octal_value ds) (digit_low d digit)))

-- A mode that is read has a mask that compares something.
pub parse_mode-mask :
    (text : Text) (mode mask : ℕ) → parse_mode text ≡ ok (mode, mask) → (mask == 0) ≡ false
unfolding parse_mode
parse_mode-mask [] mode mask h = ground arith
parse_mode-mask (c ∷ cs) mode mask h =
    let keep : ℕ × ℕ → Result (ℕ × ℕ) =
      λ pair. ok (pair.0, if pair.1 == 0 then 0o7777 else pair.1) in
    let (pair, read, same) =
      >>=-eq-ok (if is_digit c then numeric_mode (c ∷ cs) else symbolic_mode (c ∷ cs)) keep h in
    ground arith

-- A mode written in digits "0" to "8", however many, has its value in base 8, of which 32 bits are kept,
-- and so has the mask behind a slash; with no mask, or a mask of value 0, all twelve bits are compared.
pub parse_mode-digits :
    (d : ℕ) (ds ms : Text)
    → is_digit d ≡ true
    → all is_digit ds ≡ true
    → all is_digit ms ≡ true
    → (parse_mode (d ∷ ds) ≡ ok (octal_value (d ∷ ds) % 2 ^ 32, 0o7777))
      × (parse_mode ((d ∷ ds) ++ b'/' ∷ ms)
          ≡ ok (
            octal_value (d ∷ ds) % 2 ^ 32,
            if octal_value ms % 2 ^ 32 == 0 then 0o7777 else octal_value ms % 2 ^ 32,
          ))
unfolding parse_mode numeric_mode
parse_mode-digits d ds ms digit digits mask =
    let every = and_intro digit digits in
    (
      rw (digit, read_octal-all (d ∷ ds) 0 (omega arith) every) (ground arith),
      rw
          (
            digit,
            read_octal-digits (d ∷ ds) ms 0 (omega arith) every,
            read_mask-all ms 0 (omega arith) mask,
          )
          (ground arith),
    )
