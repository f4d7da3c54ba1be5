-- ===== src/Meminfo.antt =====
-- `meminfo_t` of sitter/meminfo.h and `get_meminfo` of sitter/meminfo.cpp: the sizes in /proc/meminfo.
-- Every member is a 64-bit number without a sign, and the code reaches them through pointers to members
-- only, so the structure is a function from its members.
pub mod Members
pub mod Fields
use sitter.Base.{
  not, ◌+◌, ℕ, zero, suc, ◌-◌, ◌*◌, ◌%◌, ◌^◌, leb, ltb, ◌&&◌, ◌==◌, ℤ, pos, negsuc, Bool, true,
  false, if◌then◌else◌, Text, codes, text_eq, List, [], ◌∷◌, length, is_empty, Option, none, some,
  Result, ok, err, ◌>>=◌, get_elem?,
}
use sitter.Meminfo.Members.{Member, mem_total, member_place, name_to_offset}

abbrev pub Meminfo : Type 0
Meminfo = Member → ℕ

-- `meminfo_t()`
abbrev pub empty_meminfo : Meminfo
empty_meminfo f = 0

unfoldable pub set_member : Member → ℕ → Meminfo → Meminfo
set_member f v info g = if member_place f == member_place g then v else info g

-- `name_to_offset.find(name)`
unfoldable pub find_member : Text → List (Text × Member) → Option Member
find_member name [] = none
find_member name ((k, f) ∷ table) = if text_eq name k then some f else find_member name table

-- `tolower` of an ASCII character, and of a text.
abbrev lower : ℕ → ℕ
lower c = if leb b'A' c && leb c b'Z' then c + 32 else c

unfoldable pub to_lower : Text → Text
to_lower [] = []
to_lower (c ∷ cs) = lower c ∷ to_lower cs

-- The conversion of a number with a sign to `uint64_t`.
unfoldable to_uint64 : ℤ → ℕ
to_uint64 (pos n) = n % 2 ^ 64
to_uint64 (negsuc n) = 2 ^ 64 - 1 - n % 2 ^ 64

-- What the code calls of snapdev and of the C++ library: `tokenize_string` with its delimiters and the
-- characters it trims, and `std::stoll`, which throws for a text that is no number.
pub record Library : Type 0 where
  pub tokenize_string : Text → Text → Text → List Text
  pub stoll : Text → Result ℤ

-- Three tokens or more with "kB" third multiply the value by 1,000, in 64 bits.
unfoldable scale : List Text → ℕ → ℕ
scale [] v = v
scale (unit ∷ rest) v = if text_eq unit (codes "kB") then v * 1000 % 2 ^ 64 else v

unfoldable pub read_value : Library → Text → List Text → Result ℕ
unfolding to_uint64 scale
read_value lib value units = do z ← lib.stoll value; ok (scale units (to_uint64 z))

unfoldable pub set_found : Option Member → Library → Text → List Text → Meminfo → Result Meminfo
unfolding read_value
set_found none lib value units info = ok info
set_found (some f) lib value units info = do
  v ← read_value lib value units
  ok (set_member f v info)

unfoldable pub read_tokens : Library → List Text → Meminfo → Result Meminfo
unfolding set_found
read_tokens lib (name ∷ value ∷ units) info =
    set_found (find_member (to_lower name) name_to_offset) lib value units info
read_tokens lib _ info = ok info

-- The text of a buffer ends at the first NUL.
unfoldable pub until_nul : Text → Text
until_nul [] = []
until_nul (c ∷ cs) = if c == 0 then [] else c ∷ until_nul cs

unfoldable pub read_line : Library → Text → Meminfo → Result Meminfo
unfolding read_tokens until_nul
read_line lib line info =
    read_tokens lib (lib.tokenize_string (until_nul line) (codes " \t") (codes ":")) info

abbrev onto_first : ℕ → List Text → List Text
onto_first c [] = (c ∷ []) ∷ []
onto_first c (line ∷ lines) = (c ∷ line) ∷ lines

-- What successive calls of `getline` read: the last line needs no end of line, and may not be empty.
unfoldable pub get_lines : Text → List Text
get_lines [] = []
get_lines (c ∷ cs) = if c == b'\n' then [] ∷ get_lines cs else onto_first c (get_lines cs)

-- The buffer holds 255 characters; a longer line makes the stream fail before its end.
unfoldable pub read_lines : Library → List Text → Meminfo → Result Meminfo
read_lines lib [] info = ok info
read_lines lib (line ∷ lines) info =
    if ltb 255 (length line)
    then ok empty_meminfo
    else (read_line lib line info >>= λ next. read_lines lib lines next)

-- The contents of /proc/meminfo, where it can be opened.
unfoldable pub get_meminfo : Library → Option Text → Result Meminfo
get_meminfo lib none = ok empty_meminfo
get_meminfo lib (some contents) = read_lines lib (get_lines contents) empty_meminfo

unfoldable pub is_valid : Meminfo → Bool
is_valid info = not (info mem_total == 0)
