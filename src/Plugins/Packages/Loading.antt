-- ===== src/Plugins/Packages/Loading.antt =====
-- What loading the package definitions of plugins/sitter_packages/packages.cpp gives, whatever the
-- files hold.
use sitter.Base.{
  ◌≡◌, refl, Bool, true, false, not, ◌&&◌, ◌||◌, Text, codes, text_eq, text_eq_iff, is_empty, List,
  [], ◌∷◌, ◌++◌, all, all-append, Result, ok, err, Holds, Holds-any, Holds-bind, arith, Bool-cases,
  inl, inr,
}
use sitter.Env.{ConfFile}
use sitter.StdMap.{set_insert}
use sitter.Plugins.Packages.{
  Package, Host, State, load_packages, packages_path, Installation, new_package, set_description,
  add_conflict, add_conflicts, package_installation, package_conflicts, load_package, load_files,
}

abbrev set_has : Text → List Text → Bool
set_has t [] = false
set_has t (s ∷ rest) = text_eq t s || set_has t rest

abbrev is_optional : Installation → Bool
is_optional Installation.optional = true
is_optional _ = false

-- A package is in no conflict with itself, none was looked for yet, and it is optional unless
-- `demanding`.
abbrev pub is_valid : Bool → Package → Bool
is_valid demanding p =
    not (set_has p.name p.conflicts)
    && is_empty p.in_conflict
    && (demanding || is_optional p.installation)

set_has-set_insert :
    (t u : Text) (s : List Text) → set_has t (set_insert u s) ≡ (text_eq t u || set_has t s)
unfolding set_insert
set_has-set_insert t u [] = refl
set_has-set_insert t u (x ∷ s) =
    ground (arith, set_has-set_insert t u s, text_eq_iff u x, text_eq_iff t u, text_eq_iff t x)

abbrev IsValid : Bool → Package → Type 0
IsValid demanding p = is_valid demanding p ≡ true

add_conflict-IsValid :
    (demanding : Bool) (c : Text) (p : Package)
    → IsValid demanding p
    → Holds (IsValid demanding) (add_conflict c p)
unfolding add_conflict
add_conflict-IsValid demanding c p valid = elim (Bool-cases (text_eq c p.name)) [
  | inl itself ↦ rw itself tt
  | inr other ↦ rw other (
      ground (
        arith,
        valid,
        other,
        set_has-set_insert p.name c p.conflicts,
        text_eq_iff c p.name,
        text_eq_iff p.name c,
      ))
]

add_conflicts-IsValid :
    (demanding : Bool) (cs : List Text) (p : Package)
    → IsValid demanding p
    → Holds (IsValid demanding) (add_conflicts cs p)
unfolding add_conflicts
add_conflicts-IsValid demanding [] p valid = valid
add_conflicts-IsValid demanding (c ∷ cs) p valid =
    Holds-bind (IsValid demanding) (IsValid demanding) (add_conflict c p) (add_conflicts cs)
      (add_conflict-IsValid demanding c p valid) (add_conflicts-IsValid demanding cs)

abbrev AllValid : Bool → List Package → Type 0
AllValid demanding ps = all (is_valid demanding) ps ≡ true

-- A file makes a demand only if it has the parameter that is tested.
abbrev Demands : Bool → ConfFile → Type 0
Demands demanding conf = conf.has_parameter (codes "intallation") ≡ true → demanding ≡ true

package_installation-Demands :
    (demanding : Bool) (conf : ConfFile)
    → Demands demanding conf
    → Holds (λ i. (demanding || is_optional i) ≡ true) (package_installation conf)
unfolding package_installation
package_installation-Demands true conf demands = Holds-any _ (package_installation conf) (λ i. refl)
package_installation-Demands false conf demands =
    elim (Bool-cases (conf.has_parameter (codes "intallation"))) [
      | inl tested ↦ absurd (let h = demands tested in cc)
      | inr absent ↦ rw absent refl
    ]

load_package-AllValid :
    (demanding : Bool) (host : Host) (conf : ConfFile) (ps : List Package)
    → Demands demanding conf
    → AllValid demanding ps
    → Holds (AllValid demanding) (load_package host conf ps)
unfolding load_package new_package set_description
load_package-AllValid demanding host conf ps demands valid =
    elim (Bool-cases (conf.has_parameter (codes "name"))) [
      | inr unnamed ↦ rw unnamed valid
      | inl named ↦ rw named (
          Holds-bind (λ i. (demanding || is_optional i) ≡ true) (AllValid demanding)
            (package_installation conf) _ (package_installation-Demands demanding conf demands)
            (λ i fits.
              Holds-bind (IsValid demanding) (AllValid demanding) _ _
                (add_conflicts-IsValid demanding (package_conflicts host conf) _ fits)
                (λ p is. ground (arith, is, valid, all-append (is_valid demanding) ps (p ∷ [])))))
    ]

next-AllValid :
    (demanding : Bool) (m : Result (List Package)) (ps : List Package)
    (rest : List Package → List Package × Result (Unit {0}))
    → Holds (AllValid demanding) m
    → AllValid demanding ps
    → ((more : List Package) → AllValid demanding more → AllValid demanding (rest more).0)
    → let done : List Package × Result (Unit {0}) = elim m [
      | ok more ↦ rest more
      | err e ↦ (ps, err e)
    ] in
      AllValid demanding done.0
next-AllValid demanding (err e) ps rest holds valid next = valid
next-AllValid demanding (ok more) ps rest holds valid next = next more holds

load_files-AllValid :
    (demanding : Bool) (host : Host) (files : List Text) (ps : List Package)
    → ((file : Text) → Demands demanding (host.conf_file file))
    → AllValid demanding ps
    → AllValid demanding (load_files host files ps).0
unfolding load_files
load_files-AllValid demanding host [] ps demands valid = valid
load_files-AllValid demanding host (file ∷ files) ps demands valid =
    next-AllValid demanding (load_package host (host.conf_file file) ps) ps (load_files host files)
      (load_package-AllValid demanding host (host.conf_file file) ps (demands file) valid) valid
      (λ more. load_files-AllValid demanding host files more demands)

-- Whatever the files hold, and also when one of them throws, every package that is loaded is listed in
-- no conflict with itself and has no conflict found yet. When no file has a parameter spelled
-- `intallation` (take `demanding` false), every one is optional too, whatever the parameter
-- `installation` of its file says.
pub load_packages-AllValid :
    (demanding : Bool) (host : Host) (s : State)
    → ((file : Text)
        → (host.conf_file file).has_parameter (codes "intallation") ≡ true
        → demanding ≡ true)
    → all (is_valid demanding) (load_packages host s).0.packages ≡ true
unfolding load_packages
load_packages-AllValid demanding host s demands =
    load_files-AllValid demanding host (host.glob (packages_path host.env ++ codes "/*.conf")) []
      demands refl
