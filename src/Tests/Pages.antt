-- ===== src/Tests/Pages.antt =====
-- kernel/freelist.c and kernel/mapping.c at a memory of three free pages and one directory.
use operating_system_concept.Base.{
  ℕ, ◌+◌, ◌%◌, ◌/◌, ◌^◌, ◌<◌, ◌≡◌, ◌≢◌, refl, [], ◌∷◌, arith, update,
}
use operating_system_concept.Base.Run.{ok, Returns}
use operating_system_concept.Paging.{
  page_alloc, init_page_list, map_page, unmap_page, get_physaddr, page_of,
}
use operating_system_concept.Paging.Memory.{Ram}
use operating_system_concept.Paging.FreeList.{
  IsFreeList, Allocated, pages, page_alloc-Allocated, init_page_list-pages,
}
use operating_system_concept.Paging.Translate.{IsDir, Remapped, entry, table}
use operating_system_concept.Paging.Tables.{unmap_page-Remapped}
use operating_system_concept.Paging.NewTable.{get_physaddr-map_page}

abbrev blank : Ram
blank = record { word = λ _. 0; freelist = 0 }

-- Pages 0x5000 and 0x6000 are free, and 0x4000 is a directory without tables.
abbrev small : Ram
small = record { word = update (λ _. 0) 0x5000 0x6000; freelist = 0x5000 }

small-IsFreeList : IsFreeList small (0x5000 ∷ 0x6000 ∷ [])
small-IsFreeList = record {
  chain = (refl, omega arith, (refl, omega arith, refl));
  distinct = (refl, (refl, tt));
}

small-IsDir : IsDir small 0x4000 (0x5000 ∷ 0x6000 ∷ [])
small-IsDir = record {
  page = omega arith;
  taken = refl;
  tables = λ i h n. absurd (n (ground arith));
  apart = λ i j hi hj n ni nj. absurd (ni (ground arith));
}

page_alloc-Allocated_example :
    Returns (page_alloc small) (λ (b, r'). (b ≡ 0x5000) × Allocated small 0x5000 (0x6000 ∷ []) r')
page_alloc-Allocated_example = page_alloc-Allocated small 0x5000 (0x6000 ∷ []) small-IsFreeList

init_page_list-pages_example :
    Returns (init_page_list 9 0x5000 0x8000 blank) (λ (_, r'). IsFreeList r' (pages 0x5000 3))
init_page_list-pages_example =
    init_page_list-pages 2 9 0x5000 0x8000 blank (omega arith) (omega arith) refl refl (omega arith)
      refl

get_physaddr-map_page_example : Returns (map_page 0x4000 0x4000_0000 0x9000 7 small) (λ (_, r').
    (get_physaddr 0x4000_0000 0x4000 r' ≡ ok (page_of 0x9000 + 0x4000_0000 % 4096, r'))
    × ((v' : ℕ)
        → v' < 2 ^ 32
        → v' / 4096 ≢ 0x4000_0000 / 4096
        → (a : ℕ) × (get_physaddr v' 0x4000 small ≡ ok (a, small))
          × (get_physaddr v' 0x4000 r' ≡ ok (a, r'))))
unfolding entry
get_physaddr-map_page_example =
    get_physaddr-map_page small 0x4000 0x4000_0000 0x9000 7 0x5000 (0x6000 ∷ []) small-IsFreeList
      small-IsDir (omega arith) (omega arith) (omega arith) (omega arith) refl

-- Directory entry 256 has the table at 0x5000.
abbrev one_table : Ram
one_table = record { word = update (λ _. 0) 0x4400 0x5007; freelist = 0x6000 }

one_table-IsFreeList : IsFreeList one_table (0x6000 ∷ [])
one_table-IsFreeList = record { chain = (refl, omega arith, refl); distinct = (refl, tt) }

one_table-IsDir : IsDir one_table 0x4000 (0x6000 ∷ [])
unfolding table
one_table-IsDir = record {
  page = omega arith;
  taken = refl;
  tables = λ i h n. ground arith;
  apart = λ i j hi hj n ni nj. ground arith;
}

unmap_page-Remapped_example :
    Returns
      (unmap_page 0x4000 0x4000_0000 one_table)
      (λ (_, r'). Remapped one_table 0x4000 0x4000_0000 0 (0x6000 ∷ []) r')
unmap_page-Remapped_example =
    unmap_page-Remapped one_table 0x4000 0x4000_0000 (0x6000 ∷ []) one_table-IsDir (omega arith)
      one_table-IsFreeList (omega arith)
