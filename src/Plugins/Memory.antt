-- ===== src/Plugins/Memory.antt =====
-- The memory plugin, plugins/sitter_memory/memory.cpp: the sizes of the memory, and errors when the memory
-- or the swap is nearly used up.
pub mod Reports
use sitter.Base.{
  ℕ, ℤ, pos, Bool, true, false, if◌then◌else◌, Text, codes, List, [], ◌∷◌, Option, Result,
}
use sitter.Double.{Double}
use sitter.Json.{Key, Value, put, Doc, ◌/+◌}
use sitter.Report.{append_error}
use sitter.Action.{Action, lift, write, when, ◌>>=◌, ◌>>◌}
use sitter.Meminfo.Members.{
  Member, mem_total, mem_free, mem_available, buffers, cached, swap_cached, swap_total, swap_free,
}
use sitter.Meminfo.{Meminfo, Library, get_meminfo}

abbrev pub memory_ref : List Key
memory_ref = [] /+ codes "memory"

abbrev pub memory_doc : Meminfo → Doc
memory_doc info =
    put (memory_ref /+ codes "mem_total") (Value.number (pos (info mem_total)))
    ∷ put (memory_ref /+ codes "mem_free") (Value.number (pos (info mem_free)))
    ∷ put (memory_ref /+ codes "mem_available") (Value.number (pos (info mem_available)))
    ∷ put (memory_ref /+ codes "mem_buffers") (Value.number (pos (info buffers)))
    ∷ put (memory_ref /+ codes "mem_cached") (Value.number (pos (info cached)))
    ∷ put (memory_ref /+ codes "swap_cached") (Value.number (pos (info swap_cached)))
    ∷ put (memory_ref /+ codes "swap_total") (Value.number (pos (info swap_total)))
    ∷ put (memory_ref /+ codes "swap_free") (Value.number (pos (info swap_free)))
    ∷ []

module _ (D : Type 0) ⦃d : Double D⦄ where
  abbrev from_uint64 : ℕ → D
  from_uint64 n = d.of_int (pos n)

  -- 512.0 * 1024.0 * 1024.0
  abbrev enough : D
  enough = d.mul (d.mul (from_uint64 512) (from_uint64 1024)) (from_uint64 1024)

  unfoldable pub high_memory_usage : Meminfo → Bool
  high_memory_usage info =
      if d.lt enough (from_uint64 (info mem_available))
      then false
      else d.lt (d.div (from_uint64 (info mem_available)) (from_uint64 (info mem_total)))
          (d.decimal 2 1)

  unfoldable pub high_swap_usage : Meminfo → Bool
  high_swap_usage info =
      d.lt (d.div (from_uint64 (info swap_free)) (from_uint64 (info swap_total))) (d.decimal 5 1)

  unfoldable pub check_memory : Meminfo → Action (Unit {0})
  unfolding high_memory_usage high_swap_usage
  check_memory info =
      write (memory_doc info)
      >> (when (high_memory_usage info)
            (append_error memory_ref (codes "memory") (codes "High memory usage") (pos 75))
          >> when (high_swap_usage info)
              (append_error memory_ref (codes "memory") (codes "High swap usage") (pos 65)))

  unfoldable pub on_process_watch : Library → Option Text → Action (Unit {0})
  unfolding check_memory
  on_process_watch lib file = lift (get_meminfo lib file) >>= check_memory
