-- ===== src/Plugins/Flags.antt =====
-- The flags plugin, plugins/sitter_flags/flags.cpp: the flags that are raised, which the communicator's
-- library loads, go to the document, and one error tells of all of them.
pub mod Reports
use sitter.Base.{
  ℕ, ℤ, pos, ◌==◌, max_ℤ, Bool, if◌then◌else◌, Text, codes, is_empty, length, to_string, List, [],
  ◌∷◌, ◌++◌,
}
use sitter.Json.{Key, Value, append_item, put, Doc, ◌/+◌, newest}
use sitter.Report.{append_error}
use sitter.Action.{Action, pure, ◌>>=◌, ◌>>◌, write}

-- What the getters of `communicator::flag` answer.
pub record Flag : Type 0 where
  pub unit : Text
  pub section : Text
  pub name : Text
  pub priority : ℤ
  pub manual_down : Bool
  pub date : ℤ
  pub modified : ℤ
  pub message : Text
  pub source_file : Text
  pub function : Text
  pub line : ℤ
  pub tags : List Text

abbrev pub flags_ref : List Key
flags_ref = [] /+ codes "flags"

unfoldable tag_items : List Key → List Text → Doc
tag_items e [] = []
tag_items e (t ∷ tags) =
    append_item (e /+ codes "tags")
    ∷ put (newest (e /+ codes "tags")) (Value.text t)
    ∷ tag_items e tags

unfoldable pub flag_item : Flag → Doc
unfolding tag_items
flag_item f =
    let e = newest (flags_ref /+ codes "flag") in
    append_item (flags_ref /+ codes "flag")
    ∷ put (e /+ codes "unit") (Value.text f.unit)
    ∷ put (e /+ codes "section") (Value.text f.section)
    ∷ put (e /+ codes "name") (Value.text f.name)
    ∷ put (e /+ codes "priority") (Value.number f.priority)
    ∷ put (e /+ codes "manual-down") (Value.boolean f.manual_down)
    ∷ put (e /+ codes "date") (Value.number f.date)
    ∷ put (e /+ codes "modified") (Value.number f.modified)
    ∷ put (e /+ codes "message") (Value.text f.message)
    ∷ put (e /+ codes "source-file") (Value.text f.source_file)
    ∷ put (e /+ codes "function") (Value.text f.function)
    ∷ put (e /+ codes "line") (Value.number f.line)
    ∷ tag_items e f.tags

unfoldable pub add_name : Text → Text → Text
add_name names name = (if is_empty names then [] else names ++ codes ", ") ++ name

-- The loop over the flags, with `max_priority` and `names`.
unfoldable pub add_flags : List Flag → ℤ → Text → Action (ℤ × Text)
unfolding flag_item add_name
add_flags [] max_priority names = pure (max_priority, names)
add_flags (f ∷ fs) max_priority names =
    write (flag_item f) >> add_flags fs (max_ℤ max_priority f.priority) (add_name names f.name)

abbrev pub raised_message : ℕ → Text → Text
raised_message size names =
    to_string (pos size)
    ++ codes " flag"
    ++ (if size == 1 then [] else codes "s")
    ++ codes " "
    ++ (if size == 1 then codes "is" else codes "are")
    ++ codes " raised -- "
    ++ names

unfoldable pub report_flags : ℕ → ℤ × Text → Action (Unit {0})
report_flags size (max_priority, names) =
    append_error flags_ref (codes "flags") (raised_message size names) max_priority

unfoldable pub on_process_watch : List Flag → Action (Unit {0})
unfolding add_flags report_flags
on_process_watch [] = pure tt
on_process_watch (f ∷ fs) = add_flags (f ∷ fs) (pos 5) [] >>= report_flags (length (f ∷ fs))
