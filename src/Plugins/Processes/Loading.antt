-- ===== src/Plugins/Processes/Loading.antt =====
-- What loading the process definitions of plugins/sitter_processes/processes.cpp promises.
use sitter.Base.{
  ◌≡◌, refl, ◌∙◌, ap, Bool, true, false, not, ◌&&◌, ◌||◌, if◌then◌else◌, Text, codes, text_eq,
  text_eq_iff, is_empty, List, [], ◌∷◌, ◌++◌, Option, none, some, ok, Holds, Holds-bind, arith,
  subst, Bool-cases, inl, inr,
}
use sitter.Env.{ConfFile}
use sitter.Server.{get_server_parameter}
use sitter.Plugins.Processes.Registered.{register_files, entries_of, load_files-Registers}
use sitter.Plugins.Processes.{
  Process, Host, new_process, set_mandatory, set_command, set_service, set_match,
}
use sitter.Plugins.Processes.Definitions.{
  command_from, service_from, match_from, keep_first, merge_duplicate, add_process, load_process,
  load_files, load_processes, flag,
}

abbrev pub has_name : Text → List Process → Bool
has_name name [] = false
has_name name (p ∷ ps) = text_eq name p.name || has_name name ps

-- No name twice.
abbrev pub is_distinct : List Process → Bool
is_distinct [] = true
is_distinct (p ∷ ps) = not (has_name p.name ps) && is_distinct ps

-- A duplicate is merged into a list with the same names; otherwise the name is new.
abbrev Merged : Text → List Process → Option (List Process) → Type 0
Merged name ps none = has_name name ps ≡ false
Merged name ps (some merged) =
    (is_distinct merged ≡ is_distinct ps) × ((n : Text) → has_name n merged ≡ has_name n ps)

Merged-keep_first :
    (name : Text) (p : Process) (ps : List Process) (found : Option (List Process))
    → text_eq name p.name ≡ false
    → Merged name ps found
    → Merged name (p ∷ ps) (keep_first p found)
unfolding keep_first
Merged-keep_first name p ps none other new = ground (arith, other, new)
Merged-keep_first name p ps (some merged) other (distinct, names) =
    (ground (arith, distinct, names p.name), (λ n. ground (arith, names n)))

marked :
    (name : Text) (p : Process) (ps : List Process) (mandatory : Bool)
    → Merged name (p ∷ ps) (some ((if mandatory then set_mandatory true p else p) ∷ ps))
unfolding set_mandatory
marked name p ps true = (refl, (λ n. refl))
marked name p ps false = (refl, (λ n. refl))

merge_duplicate-Merged :
    (name : Text) (mandatory allow_duplicates : Bool) (ps : List Process)
    → Holds (Merged name ps) (merge_duplicate name mandatory allow_duplicates ps)
unfolding merge_duplicate set_mandatory
merge_duplicate-Merged name mandatory allow_duplicates [] = refl
merge_duplicate-Merged name mandatory allow_duplicates (p ∷ ps) =
    elim (Bool-cases (text_eq name p.name)) [
      | inr other ↦ rw other (
          Holds-bind (Merged name ps) (Merged name (p ∷ ps))
            (merge_duplicate name mandatory allow_duplicates ps) (λ found. ok (keep_first p found))
            (merge_duplicate-Merged name mandatory allow_duplicates ps)
            (λ found. Merged-keep_first name p ps found other))
      | inl same ↦ elim (Bool-cases (not allow_duplicates || not p.allow_duplicates)) [
        | inl refused ↦ rw (same, refused) tt
        | inr allowed ↦ rw (same, allowed) (marked name p ps mandatory)
      ]
    ]

set_match-name :
    (host : Host) (match : Text) (p : Process)
    → Holds (λ q. q.name ≡ p.name) (set_match host match p)
unfolding set_match
set_match-name host match p = elim (Bool-cases (host.is_regex match)) [
  | inl good ↦ rw good refl
  | inr bad ↦ rw bad tt
]

-- What the file says of a new definition leaves its name.
match_from-name :
    (host : Host) (conf : ConfFile) (p : Process)
    → Holds (λ q. q.name ≡ p.name) (match_from host conf p)
unfolding match_from
match_from-name host conf p = elim (Bool-cases (conf.has_parameter (codes "match"))) [
  | inl given ↦ rw given (set_match-name host (conf.get_parameter (codes "match")) p)
  | inr absent ↦ rw absent refl
]

service_from-name :
    (host : Host) (conf : ConfFile) (p : Process) → (service_from host conf p).name ≡ p.name
unfolding service_from set_service
service_from-name host conf p = ground arith

command_from-name : (conf : ConfFile) (p : Process) → (command_from conf p).name ≡ p.name
unfolding command_from set_command
command_from-name conf p = ground arith

has_name-append :
    (name : Text) (ps : List Process) (p : Process)
    → has_name name (ps ++ p ∷ []) ≡ (has_name name ps || text_eq name p.name)
has_name-append name [] p = ground arith
has_name-append name (q ∷ ps) p = ground (arith, has_name-append name ps p)

is_distinct-append :
    (ps : List Process) (p : Process)
    → is_distinct ps ≡ true
    → has_name p.name ps ≡ false
    → is_distinct (ps ++ p ∷ []) ≡ true
is_distinct-append [] p distinct new = refl
is_distinct-append (q ∷ ps) p distinct new = ground (
  arith,
  is_distinct-append ps p,
  has_name-append q.name ps p,
  text_eq_iff p.name q.name,
  text_eq_iff q.name p.name,
)

abbrev IsDistinct : List Process → Type 0
IsDistinct ps = is_distinct ps ≡ true

add_process-IsDistinct :
    (host : Host) (conf : ConfFile) (wp : Process) (ps : List Process)
    (found : Option (List Process))
    → IsDistinct ps
    → Merged wp.name ps found
    → Holds IsDistinct (add_process host conf wp ps found)
unfolding add_process
add_process-IsDistinct host conf wp ps (some merged) distinct (same, names) = same ∙ distinct
add_process-IsDistinct host conf wp ps none distinct new =
    let p1 = command_from conf wp in
    let p2 = service_from host conf p1 in
    Holds-bind (λ q. q.name ≡ p2.name) IsDistinct (match_from host conf p2) (λ p. ok (ps ++ p ∷ []))
      (match_from-name host conf p2)
      (λ p named. is_distinct-append ps p distinct (
        ap (λ n. has_name n ps) (named ∙ service_from-name host conf p1 ∙ command_from-name conf wp)
        ∙ new))

load_process-IsDistinct :
    (host : Host) (conf : ConfFile) (ps : List Process)
    → IsDistinct ps
    → Holds IsDistinct (load_process host conf ps)
unfolding load_process new_process
load_process-IsDistinct host conf ps distinct =
    let name = conf.get_parameter (codes "name") in
    let mandatory = flag host conf (codes "mandatory") in
    let allow = flag host conf (codes "allow_duplicates") in
    elim (Bool-cases (conf.has_parameter (codes "name"))) [
      | inr unnamed ↦ rw unnamed distinct
      | inl named ↦ rw named (
          Holds-bind (Merged name ps) IsDistinct (merge_duplicate name mandatory allow ps)
            (add_process host conf (new_process name mandatory allow) ps)
            (merge_duplicate-Merged name mandatory allow ps)
            (λ found.
              add_process-IsDistinct host conf (new_process name mandatory allow) ps found
                distinct))
    ]

load_files-IsDistinct :
    (host : Host) (files : List Text) (ps : List Process)
    → IsDistinct ps
    → Holds IsDistinct (load_files host files ps)
unfolding load_files
load_files-IsDistinct host [] ps distinct = distinct
load_files-IsDistinct host (file ∷ files) ps distinct =
    Holds-bind IsDistinct IsDistinct (load_process host (host.conf_file file) ps)
      (load_files host files) (load_process-IsDistinct host (host.conf_file file) ps distinct)
      (load_files-IsDistinct host files)

-- The files that the plugin looks for.
abbrev pub process_files : Host → List Text
process_files host =
    let asked = get_server_parameter host.env (codes "sitter_processes_path") in
    host.glob
      ((if is_empty asked then codes "/usr/share/sitter/processes" else asked) ++ codes "/*.conf")

-- When the definitions load, no two of them have the same name, and they are those of the registry: the
-- first definition of each name in the order of the files, with its own permission of duplicates. So the
-- loading does not return where a name comes again and not both definitions allow duplicates.
pub load_processes-IsDistinct :
    (host : Host) (ps : List Process)
    → load_processes host ≡ ok ps
    → (is_distinct ps ≡ true) × (register_files host (process_files host) [] ≡ some (entries_of ps))
unfolding load_processes
load_processes-IsDistinct host ps loaded = (
  subst (Holds IsDistinct) loaded (load_files-IsDistinct host (process_files host) [] refl),
  subst (Holds (λ qs. register_files host (process_files host) [] ≡ some (entries_of qs))) loaded
      (load_files-Registers host (process_files host) []),
)
