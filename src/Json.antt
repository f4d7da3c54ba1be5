-- ===== src/Json.antt =====
-- The JSON document that a run of the plugins builds through as2js, which is no part of this
-- repository. A document is the list of the calls made on it, oldest first: `ref[-1]` adds an item
-- to an array, and an assignment puts a value at a reference. A reference is its path from the root.
use sitter.Base.{ℤ, Bool, false, Text, text_eq, List, [], ◌∷◌, ◌++◌, ℕ, length, if◌then◌else◌, ◌||◌}

-- A step from a JSON value to a part of it; `last` is the newest item of an array.
pub data Key : Type 0 where
  key : Text → Key
  last : Key

-- `real` is a `double`, as the text that stands for it.
pub data Value : Type 0 where
  text : Text → Value
  number : ℤ → Value
  real : Text → Value
  boolean : Bool → Value

pub data Call : Type 0 where
  append_item : List Key → Call
  put : List Key → Value → Call

abbrev pub Doc : Type 0
Doc = List Call

-- `ref[name]`
infixl 68 ◌/+◌
abbrev pub ◌/+◌ : List Key → Text → List Key
ref /+ name = ref ++ key name ∷ []

-- `ref[-1]`, once the item is there
abbrev pub newest : List Key → List Key
newest ref = ref ++ last ∷ []

abbrev call_path : Call → List Key
call_path (append_item path) = path
call_path (put path v) = path

abbrev first_name : List Key → List Text
first_name (key name ∷ rest) = name ∷ []
first_name _ = []

contains : Text → List Text → Bool
contains t [] = false
contains t (x ∷ xs) = text_eq t x || contains t xs

add_name : List Text → List Text → List Text
add_name [] names = names
add_name (t ∷ ts) names = if contains t names then names else t ∷ names

member_names : Doc → List Text → List Text
member_names [] names = names
member_names (c ∷ cs) names = member_names cs (add_name (first_name (call_path c)) names)

-- `obj.size()` of the root object: the number of names at its top.
pub size : Doc → ℕ
unfolding contains add_name member_names
size doc = length (member_names doc [])
