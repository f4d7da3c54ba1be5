-- ===== src/Plugins/Processes/Registered.antt =====
-- Which process definitions the files of plugins/sitter_processes/processes.cpp leave, and when the
-- loading throws: a registry of the names, each with whether it allows duplicates.
use sitter.Base.{
  ◌≡◌, refl, ◌∙◌, sym, subst, ap, Bool, true, false, ◌&&◌, not, ◌||◌, if◌then◌else◌, Text, codes,
  text_eq, List, [], ◌∷◌, ◌++◌, map, Option, none, some, ok, Holds, Holds-bind, arith, Bool-cases,
  inl, inr,
}
use mathlib.Core.List.{map-append}
use sitter.Env.{ConfFile}
use sitter.Plugins.Processes.{
  Process, Host, new_process, set_mandatory, set_command, set_service, set_match,
}
use sitter.Plugins.Processes.Definitions.{
  command_from, service_from, match_from, keep_first, merge_duplicate, add_process, load_process,
  load_files, flag,
}

abbrev pub Entry : Type 0
Entry = Text × Bool

abbrev pub entry_of : Process → Entry
entry_of p = (p.name, p.allow_duplicates)

abbrev pub entries_of : List Process → List Entry
entries_of ps = map entry_of ps

abbrev behind : Entry → Option (List Entry) → Option (List Entry)
behind entry none = none
behind entry (some entries) = some (entry ∷ entries)

-- A new name goes to the end. A name that is there stays where it is if both definitions allow
-- duplicates, and is refused otherwise.
abbrev pub register : Text → Bool → List Entry → Option (List Entry)
register name allows [] = some ((name, allows) ∷ [])
register name allows ((n, a) ∷ entries) =
    if text_eq name n
    then (if allows && a then some ((n, a) ∷ entries) else none)
    else behind (n, a) (register name allows entries)

-- A file without a name counts for nothing.
abbrev pub register_file : Host → ConfFile → List Entry → Option (List Entry)
register_file host conf entries =
    if conf.has_parameter (codes "name")
    then register (conf.get_parameter (codes "name"))
        (if conf.has_parameter (codes "allow_duplicates")
          then host.is_true (conf.get_parameter (codes "allow_duplicates"))
          else false)
        entries
    else some entries

abbrev pub register_files : Host → List Text → List Entry → Option (List Entry)
register_files host [] entries = some entries
register_files host (file ∷ files) entries =
    elim (register_file host (host.conf_file file) entries) [
      | none ↦ none
      | some next ↦ register_files host files next
    ]

-- What the search for a duplicate answers is what the registry does.
abbrev after_search : Entry → List Process → Option (List Process) → List Entry
after_search entry ps none = entries_of ps ++ entry ∷ []
after_search entry ps (some merged) = entries_of merged

abbrev Found : Text → Bool → List Process → Option (List Process) → Type 0
Found name allows ps found =
    register name allows (entries_of ps) ≡ some (after_search (name, allows) ps found)

Found-keep_first :
    (name : Text) (allows : Bool) (p : Process) (ps : List Process) (found : Option (List Process))
    → text_eq name p.name ≡ false
    → Found name allows ps found
    → Found name allows (p ∷ ps) (keep_first p found)
unfolding keep_first
Found-keep_first name allows p ps none other rest = rw (other, rest) refl
Found-keep_first name allows p ps (some merged) other rest = rw (other, rest) refl

marked-entry :
    (mandatory : Bool) (p : Process) (ps : List Process)
    → entries_of ((if mandatory then set_mandatory true p else p) ∷ ps) ≡ entries_of (p ∷ ps)
unfolding set_mandatory
marked-entry true p ps = refl
marked-entry false p ps = refl

both_allow : (a b : Bool) → (not a || not b) ≡ false → (a && b) ≡ true
both_allow a b h = ground arith

register-present :
    (name n : Text) (allows a : Bool) (entries : List Entry)
    → text_eq name n ≡ true
    → (allows && a) ≡ true
    → register name allows ((n, a) ∷ entries) ≡ some ((n, a) ∷ entries)
register-present name n allows a entries same both = rw (same, both) refl

merge_duplicate-Found :
    (name : Text) (mandatory allows : Bool) (ps : List Process)
    → Holds (Found name allows ps) (merge_duplicate name mandatory allows ps)
unfolding merge_duplicate
merge_duplicate-Found name mandatory allows [] = refl
merge_duplicate-Found name mandatory allows (p ∷ ps) = elim (Bool-cases (text_eq name p.name)) [
  | inr other ↦ rw other (
      Holds-bind (Found name allows ps) (Found name allows (p ∷ ps))
        (merge_duplicate name mandatory allows ps) (λ found. ok (keep_first p found))
        (merge_duplicate-Found name mandatory allows ps)
        (λ found. Found-keep_first name allows p ps found other))
  | inl same ↦ elim (Bool-cases (not allows || not p.allow_duplicates)) [
    | inl refused ↦ rw (same, refused) tt
    | inr allowed ↦
        let both = both_allow allows p.allow_duplicates allowed in
        rw (same, allowed)
          (register-present name p.name allows p.allow_duplicates (entries_of ps) same both
            ∙ ap some (sym (marked-entry mandatory p ps)))
  ]
]

match_from-entry :
    (host : Host) (conf : ConfFile) (p : Process)
    → Holds (λ q. entry_of q ≡ entry_of p) (match_from host conf p)
unfolding match_from set_match
match_from-entry host conf p = elim (Bool-cases (conf.has_parameter (codes "match"))) [
  | inr unmatched ↦ rw unmatched refl
  | inl given ↦ elim (Bool-cases (host.is_regex (conf.get_parameter (codes "match")))) [
    | inl good ↦ rw (given, good) refl
    | inr bad ↦ rw (given, bad) tt
  ]
]

service_from-entry :
    (host : Host) (conf : ConfFile) (p : Process) → entry_of (service_from host conf p) ≡ entry_of p
unfolding service_from set_service
service_from-entry host conf p = ground arith

command_from-entry : (conf : ConfFile) (p : Process) → entry_of (command_from conf p) ≡ entry_of p
unfolding command_from set_command
command_from-entry conf p = ground arith

-- The files registered so far are those of the definitions loaded so far.
abbrev Registers : Option (List Entry) → List Process → Type 0
Registers registered ps = registered ≡ some (entries_of ps)

add_process-Registers :
    (host : Host) (conf : ConfFile) (wp : Process) (ps : List Process)
    (found : Option (List Process))
    → Found wp.name wp.allow_duplicates ps found
    → Holds
        (Registers (register wp.name wp.allow_duplicates (entries_of ps)))
        (add_process host conf wp ps found)
unfolding add_process
add_process-Registers host conf wp ps (some merged) same = same
add_process-Registers host conf wp ps none new =
    let p1 = command_from conf wp in
    let p2 = service_from host conf p1 in
    Holds-bind (λ q. entry_of q ≡ entry_of p2)
      (Registers (register wp.name wp.allow_duplicates (entries_of ps))) (match_from host conf p2)
      (λ p. ok (ps ++ p ∷ [])) (match_from-entry host conf p2)
      (λ p kept.
        let entry = kept ∙ service_from-entry host conf p1 ∙ command_from-entry conf wp in
        rw (new, map-append entry_of ps (p ∷ []))
          (ap (λ (e : Entry). some (entries_of ps ++ e ∷ [])) (sym entry)))

load_process-Registers :
    (host : Host) (conf : ConfFile) (ps : List Process)
    → Holds (Registers (register_file host conf (entries_of ps))) (load_process host conf ps)
unfolding load_process new_process flag
load_process-Registers host conf ps =
    let name = conf.get_parameter (codes "name") in
    let mandatory = flag host conf (codes "mandatory") in
    let allows = flag host conf (codes "allow_duplicates") in
    elim (Bool-cases (conf.has_parameter (codes "name"))) [
      | inr unnamed ↦ rw unnamed refl
      | inl named ↦ rw named (
          Holds-bind (Found name allows ps) (Registers (register name allows (entries_of ps)))
            (merge_duplicate name mandatory allows ps)
            (add_process host conf (new_process name mandatory allows) ps)
            (merge_duplicate-Found name mandatory allows ps)
            (λ found. add_process-Registers host conf (new_process name mandatory allows) ps found))
    ]

next_file :
    (host : Host) (files : List Text) (first : Option (List Entry)) (qs : List Process)
    → Registers first qs
    → elim first [ none ↦ none | some next ↦ register_files host files next ]
      ≡ register_files host files (entries_of qs)
next_file host files first qs same = rw same refl

pub load_files-Registers :
    (host : Host) (files : List Text) (ps : List Process)
    → Holds (Registers (register_files host files (entries_of ps))) (load_files host files ps)
unfolding load_files
load_files-Registers host [] ps = refl
load_files-Registers host (file ∷ files) ps =
    let first = register_file host (host.conf_file file) (entries_of ps) in
    Holds-bind (Registers first) (Registers (register_files host (file ∷ files) (entries_of ps)))
      (load_process host (host.conf_file file) ps) (load_files host files)
      (load_process-Registers host (host.conf_file file) ps)
      (λ qs same.
        subst (λ o. Holds (Registers o) (load_files host files qs))
          (sym (next_file host files first qs same)) (load_files-Registers host files qs))
