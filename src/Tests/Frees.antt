-- ===== src/Tests/Frees.antt =====
-- A page directory with one table, given back.
use mathlib.Core.Path.{subst}
use operating_system_concept.Base.{
  ℕ, ◌≡◌, refl, sym, false, List, [], ◌∷◌, arith, has, Distinct, update,
}
use operating_system_concept.Base.Run.{Returns}
use operating_system_concept.Paging.{libere_pages}
use operating_system_concept.Paging.Memory.{Ram}
use operating_system_concept.Paging.FreeList.{IsFreeList}
use operating_system_concept.Paging.Pushed.{push}
use operating_system_concept.Paging.Mapped.{mapped_pages, owned_pages, ArePages}
use operating_system_concept.Paging.Freed.{libere_pages-Freed}

-- The directory at 0x4000 has the table at 0x8000, which maps the pages at 0x9000 and 0xa000; the
-- pages at 0x5000 and 0x6000 are free.
abbrev ram : Ram
ram = record {
  word =
      update (update (update (update (λ _. 0) 0x4100 0x8007) 0x8000 0x9007) 0x800c 0xa007) 0x5000
        0x6000;
  freelist = 0x5000;
}

abbrev taken : List ℕ
taken = 0x9000 ∷ 0xa000 ∷ 0x8000 ∷ []

ram-owned : owned_pages ram.word 960 0x4000 64 ≡ taken
unfolding owned_pages mapped_pages
ram-owned = refl

taken-ArePages : ArePages taken
taken-ArePages x h = record {
  low = ground (arith, h);
  high = ground (arith, h);
  aligned = ground (arith, h);
}

ram-IsFreeList : IsFreeList ram (0x5000 ∷ 0x6000 ∷ [])
ram-IsFreeList = record {
  chain = (refl, omega arith, (refl, omega arith, refl));
  distinct = (refl, (refl, tt));
}

owned-Distinct :
    Distinct (0x4000 ∷ push (owned_pages ram.word 960 0x4000 64) (0x5000 ∷ 0x6000 ∷ []))
unfolding push owned_pages mapped_pages
owned-Distinct = (refl, (refl, (refl, (refl, (refl, (refl, tt))))))

libere_pages-Freed_example : Returns (libere_pages 0x4000 ram) (λ (_, r').
    IsFreeList r' (0x4000 ∷ push (owned_pages ram.word 960 0x4000 64) (0x5000 ∷ 0x6000 ∷ []))
    × ((a : ℕ)
        → has a (0x4000 ∷ push (owned_pages ram.word 960 0x4000 64) (0x5000 ∷ 0x6000 ∷ [])) ≡ false
        → r'.word a ≡ ram.word a))
libere_pages-Freed_example =
    libere_pages-Freed 0x4000 (0x5000 ∷ 0x6000 ∷ []) ram ram-IsFreeList (omega arith)
      (subst ArePages (sym ram-owned) taken-ArePages) owned-Distinct
