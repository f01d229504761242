-- ===== src/Paging/Tables.antt =====
-- `map_page`, `unmap_page` and `get_physaddr` on a well-formed address space.
use operating_system_concept.Base.{
  ℕ, ◌+◌, ◌*◌, ◌%◌, ◌^◌, ◌<◌, ◌≡◌, ◌≢◌, List, arith, ◌==◌, if◌then◌else◌,
}
use operating_system_concept.Base.Run.{ok, fault, panic, page_fault, Returns}
use operating_system_concept.Paging.{pd_index, page_of, map_page, unmap_page, get_physaddr}
use operating_system_concept.Paging.Memory.{Ram, load, store}
use operating_system_concept.Paging.FreeList.{IsFreeList}
use operating_system_concept.Paging.Translate.{
  table, entry, IsDir, Remapped, slot, after, write-Remapped,
}

module _ (r : Ram) (pdir v : ℕ) (free : List ℕ) (dir : IsDir r pdir free) (small : v < 2 ^ 32) where
  -- `get_physaddr` translates `v` by the word that maps it, is NULL where there is none, and
  -- writes nothing.
  pub get_physaddr-entry :
      get_physaddr v pdir r
      ≡ ok ((if entry r pdir v == 0 then 0 else (page_of (entry r pdir v) + v % 4096) % 2 ^ 32), r)
  unfolding get_physaddr load entry table
  get_physaddr-entry = ground (arith, dir.page, dir.tables (pd_index v))

  module _ (pages : IsFreeList r free) (present : r.word (pdir + 4 * pd_index v) ≢ 0) where
    pub map_present :
        (p flags : ℕ)
        → entry r pdir v ≡ 0
        → Returns
            (map_page pdir v p flags r)
            (λ (_, r'). Remapped r pdir v (page_of p + flags) free r')
    unfolding map_page load store entry table slot after
    map_present p flags none_yet = (
      (tt, after r pdir v (page_of p + flags) free pages dir small present),
      ground (arith, dir.page, dir.tables (pd_index v)),
      write-Remapped r pdir v (page_of p + flags) free pages dir small present,
    )

    -- `unmap_page` of an address whose table exists clears its entry and no other.
    pub unmap_page-Remapped : Returns (unmap_page pdir v r) (λ (_, r'). Remapped r pdir v 0 free r')
    unfolding unmap_page load store table slot after
    unmap_page-Remapped = (
      (tt, after r pdir v 0 free pages dir small present),
      ground (arith, dir.page, dir.tables (pd_index v)),
      write-Remapped r pdir v 0 free pages dir small present,
    )

    -- Mapping an address that is mapped is stopped by the assert.
    pub map_page-panic :
        (p flags : ℕ) → entry r pdir v ≢ 0 → map_page pdir v p flags r ≡ fault panic
    unfolding map_page load store entry table
    map_page-panic p flags busy = ground (arith, dir.page, dir.tables (pd_index v))

  -- `unmap_page` does not test for the table: where it is missing, it writes to the first page.
  pub unmap_page-fault : r.word (pdir + 4 * pd_index v) ≡ 0 → unmap_page pdir v r ≡ fault page_fault
  unfolding unmap_page load store
  unmap_page-fault missing = ground (arith, dir.page)
