-- ===== src/Meminfo/Members.antt =====
-- The members of `meminfo_t`, sitter/meminfo.h, and the names that sitter/meminfo.cpp finds them by.
use sitter.Base.{ℕ, Text, codes, List, [], ◌∷◌}

pub data Member : Type 0 where
  mem_total mem_free mem_available buffers cached swap_cached active inactive active_anon
        inactive_anon active_file inactive_file unevictable mlocked swap_total swap_free dirty
        writeback anon_pages mapped shmem slab sreclaimable sunreclaim kernel_stack page_tables
        nfs_unstable bounce writeback_tmp commit_limit committed_as vmalloc_total vmalloc_used
        vmalloc_chunk hardware_corrupted anon_huge_pages cma_total cma_free huge_pages_total
        huge_pages_free huge_pages_rsvd huge_pages_surp huge_page_size direct_map4k direct_map2m
        direct_map1g :
      Member

-- `name_to_offset`
abbrev pub name_to_offset : List (Text × Member)
name_to_offset =
    (codes "memtotal", mem_total)
    ∷ (codes "memfree", mem_free)
    ∷ (codes "memavailable", mem_available)
    ∷ (codes "buffers", buffers)
    ∷ (codes "cached", cached)
    ∷ (codes "swapcached", swap_cached)
    ∷ (codes "active", active)
    ∷ (codes "inactive", inactive)
    ∷ (codes "active(anon)", active_anon)
    ∷ (codes "inactive(anon)", inactive_anon)
    ∷ (codes "active(file)", active_file)
    ∷ (codes "inactive(file)", inactive_file)
    ∷ (codes "unevictable", unevictable)
    ∷ (codes "mlocked", mlocked)
    ∷ (codes "swaptotal", swap_total)
    ∷ (codes "swapfree", swap_free)
    ∷ (codes "dirty", dirty)
    ∷ (codes "writeback", writeback)
    ∷ (codes "anonpages", anon_pages)
    ∷ (codes "mapped", mapped)
    ∷ (codes "shmem", shmem)
    ∷ (codes "slab", slab)
    ∷ (codes "sreclaimable", sreclaimable)
    ∷ (codes "sunreclaim", sunreclaim)
    ∷ (codes "kernelstack", kernel_stack)
    ∷ (codes "pagetables", page_tables)
    ∷ (codes "nfs_unstable", nfs_unstable)
    ∷ (codes "bounce", bounce)
    ∷ (codes "writebacktmp", writeback_tmp)
    ∷ (codes "commitlimit", commit_limit)
    ∷ (codes "committed_as", committed_as)
    ∷ (codes "vmalloctotal", vmalloc_total)
    ∷ (codes "vmallocused", vmalloc_used)
    ∷ (codes "vmallocchunk", vmalloc_chunk)
    ∷ (codes "hardwarecorrupted", hardware_corrupted)
    ∷ (codes "anonhugepages", anon_huge_pages)
    ∷ (codes "cmatotal", cma_total)
    ∷ (codes "cmafree", cma_free)
    ∷ (codes "hugepages_total", huge_pages_total)
    ∷ (codes "hugepages_free", huge_pages_free)
    ∷ (codes "hugepages_rsvd", huge_pages_rsvd)
    ∷ (codes "hugepages_surp", huge_pages_surp)
    ∷ (codes "hugepagesize", huge_page_size)
    ∷ (codes "directmap4k", direct_map4k)
    ∷ (codes "directmap2m", direct_map2m)
    ∷ (codes "directmap1g", direct_map1g)
    ∷ []

-- Two pointers to members are the same when they stand at the same place of the structure.
abbrev pub member_place : Member → ℕ
member_place mem_total = 0
member_place mem_free = 1
member_place mem_available = 2
member_place buffers = 3
member_place cached = 4
member_place swap_cached = 5
member_place active = 6
member_place inactive = 7
member_place active_anon = 8
member_place inactive_anon = 9
member_place active_file = 10
member_place inactive_file = 11
member_place unevictable = 12
member_place mlocked = 13
member_place swap_total = 14
member_place swap_free = 15
member_place dirty = 16
member_place writeback = 17
member_place anon_pages = 18
member_place mapped = 19
member_place shmem = 20
member_place slab = 21
member_place sreclaimable = 22
member_place sunreclaim = 23
member_place kernel_stack = 24
member_place page_tables = 25
member_place nfs_unstable = 26
member_place bounce = 27
member_place writeback_tmp = 28
member_place commit_limit = 29
member_place committed_as = 30
member_place vmalloc_total = 31
member_place vmalloc_used = 32
member_place vmalloc_chunk = 33
member_place hardware_corrupted = 34
member_place anon_huge_pages = 35
member_place cma_total = 36
member_place cma_free = 37
member_place huge_pages_total = 38
member_place huge_pages_free = 39
member_place huge_pages_rsvd = 40
member_place huge_pages_surp = 41
member_place huge_page_size = 42
member_place direct_map4k = 43
member_place direct_map2m = 44
member_place direct_map1g = 45
