-- ===== src/Plugins/Processes/Watch/Pairs.antt =====
-- Which definition each running process is taken for, in plugins/sitter_processes/processes.cpp.
use sitter.Base.{
  ℕ, ◌+◌, ◌≡◌, refl, Bool, true, false, not, if◌then◌else◌, List, [], ◌∷◌, all, Option, none, some,
  arith, Bool-cases, inl, inr,
}
use sitter.Report.{ProcessInfo}
use sitter.Plugins.Processes.{Process, Host}
use sitter.Plugins.Processes.Watch.{is_match, keep_other, take_first}

-- The running processes in turn: each one with the first definition left that it matches, and the
-- definitions left at the end.
pub record Pairing : Type 0 where
  pub pairs : List (ProcessInfo × Process)
  unpaired : List ProcessInfo
  pub left : List Process

abbrev add_pair : ProcessInfo → Process → Pairing → Pairing
add_pair info p found = record found { pairs = (info, p) ∷ found.pairs }

abbrev add_unpaired : ProcessInfo → Pairing → Pairing
add_unpaired info found = record found { unpaired = info ∷ found.unpaired }

abbrev pub pair_next :
    ProcessInfo
    → Option (Process × List Process)
    → (List Process → Pairing)
    → List Process
    → Pairing
pair_next info none rest ps = add_unpaired info (rest ps)
pair_next info (some (p, others)) rest ps = add_pair info p (rest others)

abbrev pub pair_up : Host → List ProcessInfo → List Process → Pairing
pair_up host [] ps = record { pairs = []; unpaired = []; left = ps }
pair_up host (info ∷ list) ps =
    pair_next info (take_first (is_match host info) ps) (pair_up host list) ps

-- How many elements of a list pass a test.
abbrev count {ℓ} : {A : Type ℓ} → (A → Bool) → List A → ℕ
count test [] = 0
count test (x ∷ xs) = (if test x then 1 else 0) + count test xs

-- The running processes and the definitions of the pairs.
abbrev processes_of : List (ProcessInfo × Process) → List ProcessInfo
processes_of [] = []
processes_of ((info, p) ∷ pairs) = info ∷ processes_of pairs

abbrev definitions_of : List (ProcessInfo × Process) → List Process
definitions_of [] = []
definitions_of ((info, p) ∷ pairs) = p ∷ definitions_of pairs

-- What `take_first` answers.
abbrev TakenFrom : (Process → Bool) → List Process → Option (Process × List Process) → Type 0
TakenFrom test ps none = all (λ p. not (test p)) ps ≡ true
TakenFrom test ps (some (p, others)) =
    (test p ≡ true)
    × ((t : Process → Bool) → count t ps ≡ (if t p then 1 else 0) + count t others)
    × ((t : Process → Bool) → all t ps ≡ true → all t others ≡ true)

TakenFrom-keep_other :
    (test : Process → Bool) (p : Process) (ps : List Process) (o : Option (Process × List Process))
    → test p ≡ false
    → TakenFrom test ps o
    → TakenFrom test (p ∷ ps) (keep_other p o)
unfolding keep_other
TakenFrom-keep_other test p ps none other taken = ground (arith, other, taken)
TakenFrom-keep_other test p ps (some (q, others)) other (matched, counted, kept) =
    (matched, (λ t. omega (arith, counted t)), (λ t h. ground (arith, h, kept t)))

take_first-TakenFrom :
    (test : Process → Bool) (ps : List Process) → TakenFrom test ps (take_first test ps)
unfolding take_first
take_first-TakenFrom test [] = refl
take_first-TakenFrom test (p ∷ ps) = elim (Bool-cases (test p)) [
  | inl picked ↦ rw picked (picked, (λ t. refl), (λ t h. ground (arith, h)))
  | inr other ↦
      rw other
        (TakenFrom-keep_other test p ps (take_first test ps) other (take_first-TakenFrom test ps))
]

-- Each pair matches; every running process is as often in the pairs and the unpaired together as in the
-- list, and every definition as often in the pairs and those left together as loaded, by every test; no
-- running process that is unpaired matches a definition that is left.
abbrev pub IsPairing :
    (ProcessInfo → Process → Bool) → List ProcessInfo → List Process → Pairing → Type 0
IsPairing fits list ps f =
    (all (λ pair. fits pair.0 pair.1) f.pairs ≡ true)
    × ((t : ProcessInfo → Bool)
        → count t list ≡ count t (processes_of f.pairs) + count t f.unpaired)
    × ((t : Process → Bool) → count t ps ≡ count t (definitions_of f.pairs) + count t f.left)
    × (all (λ info. all (λ p. not (fits info p)) f.left) f.unpaired ≡ true)
    × ((t : Process → Bool) → all t ps ≡ true → all t f.left ≡ true)

pair_next-IsPairing :
    (host : Host) (info : ProcessInfo) (list : List ProcessInfo) (ps : List Process)
    (o : Option (Process × List Process)) (rest : List Process → Pairing)
    → TakenFrom (is_match host info) ps o
    → ((qs : List Process) → IsPairing (is_match host) list qs (rest qs))
    → IsPairing (is_match host) (info ∷ list) ps (pair_next info o rest ps)
pair_next-IsPairing host info list ps none rest taken others =
    let (matching, both, counted, apart, kept) = others ps in
    (
      matching,
      (λ t. omega (arith, both t)),
      counted,
      ground (arith, apart, kept (λ p. not (is_match host info p)) taken),
      kept,
    )
pair_next-IsPairing host info list ps (some (p, qs)) rest (matched, counted, kept) others =
    let (matching, both, counted', apart, kept') = others qs in
    (
      ground (arith, matched, matching),
      (λ t. omega (arith, both t)),
      (λ t. omega (arith, counted t, counted' t)),
      apart,
      (λ t h. kept' t (kept t h)),
    )

-- The search of the source gives such a pairing: no definition is lost or found twice, and a definition
-- is reported missing only if no running process that was taken for nothing matches it.
pub pair_up-IsPairing :
    (host : Host) (list : List ProcessInfo) (ps : List Process)
    → IsPairing (is_match host) list ps (pair_up host list ps)
pair_up-IsPairing host [] ps = (refl, (λ t. omega arith), (λ t. omega arith), refl, (λ t h. h))
pair_up-IsPairing host (info ∷ list) ps =
    pair_next-IsPairing host info list ps (take_first (is_match host info) ps) (pair_up host list)
      (take_first-TakenFrom (is_match host info) ps) (pair_up-IsPairing host list)
