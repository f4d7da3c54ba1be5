-- ===== src/Plugins/Processes/Watch/Meaning.antt =====
-- Which process a definition stands for and which definition is expected to run, said without the code
-- of plugins/sitter_processes/processes.cpp.
use mathlib.Core.Path.{fun_ext}
use sitter.Base.{
  ◌≡◌, refl, ◌==◌, Bool, true, false, not, ◌&&◌, ◌||◌, if◌then◌else◌, Text, codes, text_eq,
  is_empty, List, [], ◌∷◌, ◌++◌, map, arith, sym, append-nil, append_assoc, ◌∙◌, Bool-cases, inl,
  inr,
}
use sitter.Report.{ProcessInfo}
use sitter.Plugins.Processes.{
  Process, Host, matches, contains, load_backends, is_backend_expected, is_process_expected_to_run,
}
use sitter.Plugins.Processes.Watch.{basename_from, basename, add_arguments, is_match}
use sitter.Plugins.Processes.Watch.Expected.{expected}

abbrev has_slash : Text → Bool
has_slash [] = false
has_slash (c ∷ cs) = c == b'/' || has_slash cs

-- The text behind the last slash, or the whole text.
abbrev base_of : Text → Text
base_of [] = []
base_of (c ∷ cs) = if has_slash cs then base_of cs else if c == b'/' then cs else c ∷ cs

-- Each argument that is not empty, behind a space.
abbrev spaced : List Text → Text
spaced [] = []
spaced (a ∷ rest) = (if is_empty a then [] else codes " " ++ a) ++ spaced rest

basename_from-Is :
    (best name : Text) → basename_from best name ≡ (if has_slash name then base_of name else best)
unfolding basename_from
basename_from-Is best [] = refl
basename_from-Is best (c ∷ cs) = ground (arith, basename_from-Is cs cs, basename_from-Is best cs)

base_of-plain : (name : Text) → has_slash name ≡ false → base_of name ≡ name
base_of-plain [] plain = refl
base_of-plain (c ∷ cs) plain = ground arith

basename-Is : (name : Text) → basename name ≡ base_of name
unfolding basename
basename-Is name = ground (arith, basename_from-Is name name, base_of-plain name)

add_arguments-Is : (line : Text) (args : List Text) → add_arguments line args ≡ line ++ spaced args
unfolding add_arguments
add_arguments-Is line [] = sym (append-nil line)
add_arguments-Is line (a ∷ rest) = elim (Bool-cases (is_empty a)) [
  | inl nothing ↦ rw nothing (add_arguments-Is line rest)
  | inr something ↦
      rw something (add_arguments-Is (line ++ codes " " ++ a) rest ∙ simp append_assoc)
]

-- A definition with a command, an expression or both is found by these; any other by its name.
abbrev pub fits : Host → ProcessInfo → Process → Bool
fits host info p =
    let base = base_of info.name in
    if is_empty p.command && not p.match_defined
    then text_eq p.name base
    else (is_empty p.command || text_eq p.command base)
      && (not p.match_defined || host.regex_match (info.name ++ spaced info.args) p.match)

is_match-Is :
    (host : Host) (info : ProcessInfo) (p : Process) → is_match host info p ≡ fits host info p
unfolding is_match matches
is_match-Is host info p =
    rw (basename-Is info.name, add_arguments-Is info.name info.args) (ground arith)

pub is_match-fits : (host : Host) → is_match host ≡ fits host
is_match-fits host = fun_ext (λ info. fun_ext (λ p. is_match-Is host info p))

abbrev is_listed : Text → List Text → Bool
is_listed t [] = false
is_listed t (x ∷ xs) = if text_eq t x then true else is_listed t xs

contains-Is : (t : Text) (xs : List Text) → contains t xs ≡ is_listed t xs
unfolding contains
contains-Is t [] = refl
contains-Is t (x ∷ xs) = ground (arith, contains-Is t xs)

-- The backends of the configuration, unless a list was read before.
abbrev backends_of : Host → List Text → List Text
backends_of host known =
    let conf = host.conf_file (codes "/etc/snapwebsites/snapserver.conf") in
    if is_empty known
    then map host.trim_string
        (host.env.split_string (conf.get_parameter (codes "backends")) (codes ","))
    else known

-- No service, a backend that is listed while the backends are not disabled, or a service that is enabled or
-- active.
abbrev pub should_run : Host → List Text → Process → Bool
should_run host known p =
    let conf = host.conf_file (codes "/etc/snapwebsites/snapserver.conf") in
    let status = conf.get_parameter (codes "backend_status") in
    is_empty p.service
    || (if p.service_is_backend
        then not (text_eq status (codes "disabled")) && is_listed p.service (backends_of host known)
        else p.service_is_enabled || p.service_is_active)

expected-Is :
    (host : Host) (known : List Text) (p : Process)
    → expected host known p ≡ should_run host known p
unfolding expected is_process_expected_to_run is_backend_expected load_backends
expected-Is host known p = ground (arith, contains-Is p.service (backends_of host known))

pub expected-should_run :
    (host : Host) (known : List Text) → expected host known ≡ should_run host known
expected-should_run host known = fun_ext (expected-Is host known)
