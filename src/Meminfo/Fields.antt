-- ===== src/Meminfo/Fields.antt =====
-- What `get_meminfo` of sitter/meminfo.cpp makes of the lines of /proc/meminfo.
use mathlib.Core.Path.{fun_ext}
use sitter.Base.{
  ℕ, ◌≡◌, refl, ap, ◌∙◌, ltb, ◌==◌, if◌then◌else◌, Text, codes, List, [], ◌∷◌, length, Option, none,
  some, Result, ok, err, Error, ◌>>=◌, Bool-cases, inl, inr, arith, get_elem?, text_eq,
}
use sitter.Meminfo.Members.{Member, mem_total, member_place, name_to_offset}
use sitter.Meminfo.{
  Meminfo, Library, empty_meminfo, set_member, find_member, to_lower, read_value, set_found,
  read_tokens, until_nul, read_line, read_lines, get_lines, get_meminfo,
}

-- Every member is found by the name at its place of the table, which is in lower case.
find_member-name :
    (f : Member)
    → (name : Text) × (get_elem? name_to_offset (member_place f) ≡ some (name, f))
      × (find_member name name_to_offset ≡ some f)
      × (to_lower name ≡ name)
unfolding find_member to_lower text_eq
find_member-name mem_total = (codes "memtotal", refl, refl, refl)
find_member-name f = (_, refl, refl, refl)

-- What a line says: the member it names and the value, or the exception of its number.
unfoldable pub tokens_say : Library → List Text → Option (Member × Result ℕ)
tokens_say lib (name ∷ value ∷ units) = elim (find_member (to_lower name) name_to_offset) [
  | none ↦ none
  | some f ↦ some (f, read_value lib value units)
]
tokens_say lib _ = none

unfoldable pub line_says : Library → Text → Option (Member × Result ℕ)
line_says lib line = tokens_say lib (lib.tokenize_string (until_nul line) (codes " \t") (codes ":"))

abbrev value_for : Member → Option (Member × Result ℕ) → Option ℕ
value_for f none = none
value_for f (some (g, err e)) = none
value_for f (some (g, ok v)) = if member_place g == member_place f then some v else none

abbrev prefer : Option ℕ → Option ℕ → Option ℕ
prefer (some v) earlier = some v
prefer none earlier = earlier

-- The value of the last line that names the member, looked for from the end.
abbrev last_value : Library → Member → List Text → Option ℕ
last_value lib f [] = none
last_value lib f (line ∷ lines) = prefer (last_value lib f lines) (value_for f (line_says lib line))

abbrev or_else : ℕ → Option ℕ → ℕ
or_else v none = v
or_else v (some w) = w

-- What ends the reading first: a line that is too long, or a number that throws.
pub data Trouble : Type 0 where
  nothing too_long : Trouble
  thrown : Error → Trouble

abbrev trouble_with : Option (Member × Result ℕ) → Trouble → Trouble
trouble_with none later = later
trouble_with (some (f, ok v)) later = later
trouble_with (some (f, err e)) later = thrown e

abbrev trouble_in : Library → List Text → Trouble
trouble_in lib [] = nothing
trouble_in lib (line ∷ lines) =
    if ltb 255 (length line)
    then too_long
    else trouble_with (line_says lib line) (trouble_in lib lines)

abbrev ends : Trouble → Meminfo → Result Meminfo
ends nothing info = ok info
ends too_long info = ok empty_meminfo
ends (thrown e) info = err e

-- The reference: every member has the value of the last line that names it, or zero; one line that is too
-- long empties the structure, and a number that throws ends the call, whichever comes first.
abbrev pub reference : Library → Option Text → Result Meminfo
reference lib none = ok empty_meminfo
reference lib (some contents) =
    ends (trouble_in lib (get_lines contents))
      (λ f. or_else 0 (last_value lib f (get_lines contents)))

apply_says : Option (Member × Result ℕ) → Meminfo → Result Meminfo
apply_says none info = ok info
apply_says (some (f, ok v)) info = ok (set_member f v info)
apply_says (some (f, err e)) info = err e

set_found-says :
    (found : Option Member) (lib : Library) (value : Text) (units : List Text) (info : Meminfo)
    → set_found found lib value units info
      ≡ apply_says (elim found [ none ↦ none | some f ↦ some (f, read_value lib value units) ]) info
unfolding set_found apply_says
set_found-says none lib value units info = refl
set_found-says (some f) lib value units info =
    elim (read_value lib value units)
      as (λ m. (m >>= λ v. ok (set_member f v info)) ≡ apply_says (some (f, m)) info) [
        | ok v ↦ refl
        | err e ↦ refl
      ]

read_tokens-says :
    (lib : Library) (tokens : List Text) (info : Meminfo)
    → read_tokens lib tokens info ≡ apply_says (tokens_say lib tokens) info
unfolding read_tokens tokens_say apply_says
read_tokens-says lib [] info = refl
read_tokens-says lib (name ∷ []) info = refl
read_tokens-says lib (name ∷ value ∷ units) info =
    set_found-says (find_member (to_lower name) name_to_offset) lib value units info

or_else-prefer :
    (first next : ℕ) (mine last : Option ℕ)
    → next ≡ or_else first mine
    → or_else next last ≡ or_else first (prefer last mine)
or_else-prefer first next mine none same = same
or_else-prefer first next mine (some v) same = refl

set_member-value :
    (g f : Member) (v : ℕ) (info : Meminfo)
    → set_member g v info f ≡ or_else (info f) (value_for f (some (g, ok v)))
unfolding set_member
set_member-value g f v info = ground arith

line-then :
    (lib : Library) (says : Option (Member × Result ℕ)) (later : Trouble) (last : Member → Option ℕ)
    (info : Meminfo) (rest : Meminfo → Result Meminfo)
    → ((next : Meminfo) → rest next ≡ ends later (λ f. or_else (next f) (last f)))
    → (apply_says says info >>= rest)
      ≡ ends (trouble_with says later) (λ f. or_else (info f) (prefer (last f) (value_for f says)))
unfolding apply_says
line-then lib none later last info rest goes =
    goes info ∙ ap (ends later) (fun_ext (λ f. or_else-prefer (info f) (info f) none (last f) refl))
line-then lib (some (g, ok v)) later last info rest goes =
    goes (set_member g v info)
    ∙ ap (ends later) (
        fun_ext (λ f.
          or_else-prefer (info f) (set_member g v info f) (value_for f (some (g, ok v))) (last f)
            (set_member-value g f v info)))
line-then lib (some (g, err e)) later last info rest goes = refl

read_line-says :
    (lib : Library) (line : Text) (info : Meminfo)
    → read_line lib line info ≡ apply_says (line_says lib line) info
unfolding read_line line_says
read_line-says lib line info =
    read_tokens-says lib (lib.tokenize_string (until_nul line) (codes " \t") (codes ":")) info

read_lines-reference :
    (lib : Library) (lines : List Text) (info : Meminfo)
    → read_lines lib lines info
      ≡ ends (trouble_in lib lines) (λ f. or_else (info f) (last_value lib f lines))
unfolding read_lines
read_lines-reference lib [] info = refl
read_lines-reference lib (line ∷ lines) info = elim (Bool-cases (ltb 255 (length line))) [
  | inl long ↦ rw long refl
  | inr short ↦
      rw (short, read_line-says lib line info)
        (line-then lib (line_says lib line) (trouble_in lib lines) (λ f. last_value lib f lines)
          info (read_lines lib lines) (read_lines-reference lib lines))
]

-- For every contents of the file and every tokenizer and number reader, the loop computes the reference:
-- each member has the value of the last line that names it in any case of letters, times 1,000 if the line
-- says kB, or zero; a line of more than 255 characters gives the empty structure and a number that throws
-- ends the call, whichever comes first; and a file that cannot be opened gives the empty structure.
pub get_meminfo-Equals :
    (lib : Library) (file : Option Text) → get_meminfo lib file ≡ reference lib file
unfolding get_meminfo
get_meminfo-Equals lib none = refl
get_meminfo-Equals lib (some contents) = read_lines-reference lib (get_lines contents) empty_meminfo
