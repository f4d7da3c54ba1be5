-- ===== src/Plugins/Memory/Reports.antt =====
-- What plugins/sitter_memory/memory.cpp reports for the contents of /proc/meminfo.
use sitter.Base.{
  ℕ, zero, suc, ◌∙◌, ◌*◌, ◌^◌, ◌<◌, ◌≡◌, refl, pos, ltb, Bool, ◌&&◌, if◌then◌else◌, Text, codes,
  List, [], ◌∷◌, ◌++◌, Option, Result, ok, err, Holds, arith,
}
use sitter.Double.{Double}
use sitter.Double.Laws.{IsExact}
use sitter.Report.{Report, append_error}
use sitter.Report.Laws.{Issue}
use sitter.Report.Adds.{Adds, Adds-write, Adds-report, Adds-then}
use sitter.Action.{write, when, lift, ◌>>◌, ◌>>=◌}
use sitter.Meminfo.Members.{mem_total, mem_available, swap_total, swap_free}
use sitter.Meminfo.{Meminfo, Library}
use sitter.Meminfo.Fields.{reference, get_meminfo-Equals}
use sitter.Plugins.Memory.{
  memory_ref, memory_doc, high_memory_usage, high_swap_usage, check_memory, on_process_watch,
}

-- In whole numbers: 512 MiB or less are available, and less than a fifth of the memory.
abbrev memory_is_low : Meminfo → Bool
memory_is_low info =
    ltb (info mem_available) 536870913 && ltb (5 * info mem_available) (info mem_total)

-- Less than half of the swap is free.
abbrev swap_is_low : Meminfo → Bool
swap_is_low info = ltb (2 * info swap_free) (info swap_total)

abbrev memory_problems : Meminfo → List Issue
memory_problems info =
    (if memory_is_low info then (codes "High memory usage", pos 75) ∷ [] else [])
    ++ (if swap_is_low info then (codes "High swap usage", pos 65) ∷ [] else [])

-- The sizes that the plugin compares are below 2 ^ 48 bytes.
abbrev pub IsSmall : Meminfo → Type 0
IsSmall info =
    (info mem_total < 2 ^ 48)
    × (info mem_available < 2 ^ 48)
    × (info swap_total < 2 ^ 48)
    × (info swap_free < 2 ^ 48)

-- What a run of the plugin does, by what the file says.
abbrev pub Outcome : Result Meminfo → Report → Report × Result (Unit {0}) → Type 0
Outcome (ok info) r after = Adds (λ _. after) r tt (memory_problems info)
Outcome (err e) r after = after ≡ (r, err e)

module _ (D : Type 0) ⦃d : Double D⦄ (exact : IsExact D) where
  ratio-lt :
      (a b n : ℕ)
      → a < 2 ^ 48
      → b < 2 ^ 48
      → n < 10
      → d.lt (d.div (d.of_int (pos a)) (d.of_int (pos b))) (d.decimal n 1) ≡ ltb (a * 10) (n * b)
  ratio-lt a zero n ha hb hn = exact.lt-div-zero a n ∙ ground arith
  ratio-lt a (suc b) n ha hb hn = exact.lt-div a (suc b) n ha hb hn (omega arith)

  swap-Is : (info : Meminfo) → IsSmall info → high_swap_usage D info ≡ swap_is_low info
  unfolding high_swap_usage
  swap-Is info (mt, ma, st, sf) =
      ratio-lt (info swap_free) (info swap_total) 5 sf st (omega arith) ∙ ground arith

  enough-Is :
      d.mul (d.mul (d.of_int (pos 512)) (d.of_int (pos 1024))) (d.of_int (pos 1024))
      ≡ d.of_int (pos 536870912)
  enough-Is =
      rw (exact.mul-of_int 512 1024 (omega arith)) (exact.mul-of_int 524288 1024 (omega arith))

  memory-Is : (info : Meminfo) → IsSmall info → high_memory_usage D info ≡ memory_is_low info
  unfolding high_memory_usage
  memory-Is info (mt, ma, st, sf) =
      rw (enough-Is, exact.lt-of_int 536870912 (info mem_available) (omega arith))
        (rw (ratio-lt (info mem_available) (info mem_total) 2 ma mt (omega arith)) (ground arith))

  check_memory-Adds :
      (info : Meminfo) (r : Report)
      → IsSmall info
      → Adds (check_memory D info) r tt (memory_problems info)
  unfolding check_memory
  check_memory-Adds info r small =
      let memory =
        when (memory_is_low info)
          (append_error memory_ref (codes "memory") (codes "High memory usage") (pos 75)) in
      let swap =
        when (swap_is_low info)
          (append_error memory_ref (codes "memory") (codes "High swap usage") (pos 65)) in
      rw (memory-Is info small, swap-Is info small)
        (Adds-then (write (memory_doc info)) (memory >> swap) tt [] (memory_problems info)
          (Adds-write (memory_doc info))
          (Adds-then memory swap tt
            (if memory_is_low info then (codes "High memory usage", pos 75) ∷ [] else [])
            (if swap_is_low info then (codes "High swap usage", pos 65) ∷ [] else [])
            (λ q.
              Adds-report (memory_is_low info) memory_ref (codes "memory")
                (codes "High memory usage") (pos 75) q (omega arith, omega arith))
            (λ q.
              Adds-report (swap_is_low info) memory_ref (codes "memory") (codes "High swap usage")
                (pos 65) q (omega arith, omega arith)))
          r)

  -- For every contents of /proc/meminfo, let `info` be what the reference makes of it, with sizes below
  -- 2 ^ 48 bytes. If a number of the file throws, the run throws the same and reports nothing. Otherwise it
  -- reports exactly these errors, in this order: "High memory usage" of priority 75 if at most 512 MiB and
  -- less than a fifth of the memory are available, and "High swap usage" of priority 65 if less than half of
  -- the swap is free.
  pub memory-Report :
      (lib : Library) (file : Option Text) (r : Report)
      → Holds IsSmall (reference lib file)
      → Outcome (reference lib file) r (on_process_watch D lib file r)
  unfolding on_process_watch
  memory-Report lib file r small =
      rw (get_meminfo-Equals lib file) (by_outcome (reference lib file) small)
    where
      by_outcome :
          (m : Result Meminfo) → Holds IsSmall m → Outcome m r ((lift m >>= check_memory D) r)
      by_outcome (ok info) is_small = check_memory-Adds info r is_small
      by_outcome (err e) is_small = refl
