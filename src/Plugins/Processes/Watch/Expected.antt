-- ===== src/Plugins/Processes/Watch/Expected.antt =====
-- Which processes are expected to run, in plugins/sitter_processes/processes.cpp, and the static list of
-- the valid backends.
use sitter.Base.{
  ◌≡◌, refl, ◌∙◌, ap, Bool, Text, codes, is_empty, List, [], ◌∷◌, map, arith, Bool-cases, ◌⊎◌, inl,
  inr,
}
use mathlib.Core.Path.{fun_ext}
use sitter.Env.{ConfFile}
use sitter.Plugins.Processes.{
  Process, Host, is_process_expected_to_run, is_backend_expected, load_backends,
  server_configuration_filename,
}

-- Whether a process is expected, given the list of the valid backends that was loaded before.
unfoldable pub expected : Host → List Text → Process → Bool
expected host valid_backends p = (is_process_expected_to_run host p valid_backends).1

load_backends-again :
    (host : Host) (conf : ConfFile) (backends : List Text)
    → load_backends host conf (load_backends host conf backends) ≡ load_backends host conf backends
unfolding load_backends
load_backends-again host conf [] =
    elim (Bool-cases (
      is_empty (
        map host.trim_string
          (host.env.split_string (conf.get_parameter (codes "backends")) (codes ","))))) [
            | inl nothing ↦ rw nothing refl
            | inr something ↦ rw something refl
          ]
load_backends-again host conf (b ∷ backends) = refl

expected-load_backends :
    (host : Host) (backends : List Text) (q : Process)
    → expected host (load_backends host (host.conf_file server_configuration_filename) backends) q
      ≡ expected host backends q
unfolding expected is_process_expected_to_run is_backend_expected
expected-load_backends host backends q =
    let conf = host.conf_file server_configuration_filename in
    ground (arith, load_backends-again host conf backends)

loaded-or-not :
    (host : Host) (backends : List Text) (p : Process)
    → let after = (is_process_expected_to_run host p backends).0 in
      (after ≡ backends)
      ⊎ (after ≡ load_backends host (host.conf_file server_configuration_filename) backends)
unfolding is_process_expected_to_run is_backend_expected
loaded-or-not host backends p = ground arith

-- Asking loads the list at most once, so that the later answers are the same.
pub expected-again :
    (host : Host) (backends : List Text) (p : Process)
    → expected host (is_process_expected_to_run host p backends).0 ≡ expected host backends
expected-again host backends p = elim (loaded-or-not host backends p) [
  | inl same ↦ ap (expected host) same
  | inr loaded ↦
      fun_ext (λ q. ap (λ b. expected host b q) loaded ∙ expected-load_backends host backends q)
]
