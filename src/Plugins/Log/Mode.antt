-- ===== src/Plugins/Log/Mode.antt =====
-- The "mode" parameter of a log definition, in `load_config` of plugins/sitter_log/definition.cpp: octal
-- digits with an optional mask, or letters as chmod has them. The `int` of the digits keeps its low 32 bits, as
-- the `mode_t` that it becomes.
pub mod Laws
pub mod Letters
use Prim.Native.Nat.{bit_and, bit_or, bit_xor}
use sitter.Base.{
  ℕ, ◌+◌, ◌-◌, ◌*◌, ◌%◌, ◌^◌, leb, Bool, ◌&&◌, ◌||◌, not, if◌then◌else◌, ◌==◌, Text, [], ◌∷◌,
  Result, ok, err, invalid_parameter, logic_error, ◌>>=◌,
}

-- `c >= '0' && c <= '8'`
unfoldable pub is_digit : ℕ → Bool
is_digit c = leb b'0' c && leb c b'8'

-- The digits at the head, and what follows them.
unfoldable pub read_octal : Text → ℕ → ℕ × Text
read_octal [] mode = (mode, [])
read_octal (c ∷ cs) mode =
    if is_digit c then read_octal cs ((mode * 8 + c - b'0') % 2 ^ 32) else (mode, c ∷ cs)

unfoldable pub read_mask : Text → ℕ → Result ℕ
read_mask [] mask = ok mask
read_mask (c ∷ cs) mask =
    if is_digit c then read_mask cs ((mask * 8 + c - b'0') % 2 ^ 32) else err invalid_parameter

unfoldable after_mode : ℕ → Text → Result (ℕ × ℕ)
after_mode mode [] = ok (mode, 0)
after_mode mode (c ∷ cs) =
    if c == b'/' then (do mask ← read_mask cs 0; ok (mode, mask)) else err invalid_parameter

unfoldable pub numeric_mode : Text → Result (ℕ × ℕ)
unfolding after_mode
numeric_mode text = let (mode, rest) = read_octal text 0 in after_mode mode rest

-- The bits that a letter before the operator adds; 0 for any other character.
unfoldable pub who_bits : ℕ → ℕ
who_bits c =
    if c == b'u'
    then 0o700
    else if c == b'g'
    then 0o070
    else if c == b'o'
    then 0o007
    else if c == b'a'
    then 0o777
    else 0

unfoldable pub is_operator : ℕ → Bool
is_operator c = c == b'+' || c == b'-' || c == b'='

-- The letters up to the operator: the flags, the operator (0 if the text ends first), what follows.
unfoldable pub read_who : Text → ℕ → Result (ℕ × ℕ × Text)
unfolding who_bits is_operator
read_who [] flags = ok (flags, 0, [])
read_who (c ∷ cs) flags =
    let rest = read_who cs (bit_or flags (who_bits c)) in
    if is_operator c
    then ok ((if flags == 0 then 0o777 else flags), c, cs)
    else if who_bits c == 0
    then err invalid_parameter
    else rest

unfoldable pub perm_bits : ℕ → ℕ
perm_bits c =
    if c == b'r' then 0o004 else if c == b'w' then 0o002 else if c == b'x' then 0o001 else 0

unfoldable pub upper_bits : ℕ → ℕ
upper_bits c = if c == b's' then 0o6000 else if c == b't' then 0o1000 else 0

-- The letters behind the operator.
unfoldable pub read_perms : Text → ℕ → ℕ → Result (ℕ × ℕ)
unfolding perm_bits upper_bits
read_perms [] mode upper = ok (mode, upper)
read_perms (c ∷ cs) mode upper =
    let rest = read_perms cs (bit_or mode (perm_bits c)) (bit_or upper (upper_bits c)) in
    if perm_bits c == 0 && upper_bits c == 0 then err invalid_parameter else rest

-- `mode *= flags`, and the bits of 's' and 't'.
unfoldable pub spread : ℕ → ℕ → ℕ → ℕ
spread flags mode upper =
    let sticky = if bit_and upper 0o1000 == 0 then 0 else 0o1000 in
    let user = if bit_and flags 0o700 == 0 then 0 else 0o4000 in
    let group = if bit_and flags 0o070 == 0 then 0 else 0o2000 in
    let ids = if bit_and upper 0o6000 == 0 then 0 else bit_or user group in
    bit_or (bit_or (mode * flags) sticky) ids

-- The mode and the mask by operator.
unfoldable pub apply_operator : ℕ → ℕ → Result (ℕ × ℕ)
apply_operator op mode =
    if op == b'+'
    then ok (mode, mode)
    else if op == b'-'
    then ok (bit_xor mode 0o777, mode)
    else if op == b'='
    then ok (mode, 0o7777)
    else err logic_error

unfoldable pub symbolic_mode : Text → Result (ℕ × ℕ)
symbolic_mode text = do
  (flags, op, perms) ← read_who text 0
  (mode, upper) ← read_perms perms 0 0
  apply_operator op (spread flags mode upper)

-- The arguments of `set_mode` and `set_mode_mask`, for the trimmed parameter.
unfoldable pub parse_mode : Text → Result (ℕ × ℕ)
parse_mode [] = ok (0, 0o7777)
parse_mode (c ∷ cs) = do
  (mode, mask) ← if is_digit c then numeric_mode (c ∷ cs) else symbolic_mode (c ∷ cs)
  ok (mode, if mask == 0 then 0o7777 else mask)
