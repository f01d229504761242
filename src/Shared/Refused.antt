-- ===== src/Shared/Refused.antt =====
-- `shm_create` where it makes no page.
use operating_system_concept.Base.{
  ℕ, ◌≡◌, ◌≢◌, refl, ap, true, false, List, [], ◌∷◌, arith, ◌==◌, update,
}
use operating_system_concept.Base.Run.{ok, fault, page_fault, Returns}
use operating_system_concept.Kernel.{name_size}
use operating_system_concept.Paging.FreeList.{IsFreeList, page_alloc-Allocated, page_alloc-none}
use operating_system_concept.Hash.Names.{StringLib}
use operating_system_concept.Shared.{
  Shared, ensure_map, rename, store_name, shm_publish, shm_create,
}

-- Nothing but memory, the table's functions and the name in the new page has changed.
pub record Refused (s s' : Shared) (x : ℕ) (name : List ℕ) : Type 0 where
  pub none_left : IsFreeList s'.kernel.ram []
  pub values : s'.values ≡ s.values
  pub pages : s'.nb_shared_page ≡ s.nb_shared_page
  pub named : s'.names ≡ update s.names x name

-- `shm_create` of NULL gives NULL and makes the table only. Without a free page it writes the name
-- through NULL and faults. With just one free page it gives NULL, and that page, with the name in
-- it, is lost.
pub shm_create-Refused :
    (lib : StringLib) (rounds key cell x : ℕ) (s : Shared)
    → (key ≡ 0 → shm_create lib rounds key cell s ≡ ok (0, ensure_map lib s))
      × (key ≢ 0 → IsFreeList s.kernel.ram [] → shm_create lib rounds key cell s ≡ fault page_fault)
      × (key ≢ 0
          → IsFreeList s.kernel.ram (x ∷ [])
          → Returns
              (shm_create lib rounds key cell s)
              (λ (adr, s'). (adr ≡ 0) × Refused s s' x (lib.strncpy (s.names key) name_size)))
unfolding shm_create store_name shm_publish
shm_create-Refused lib rounds key cell x s = (
  λ null. let yes : (key == 0) ≡ true = ground arith in rw yes refl,
  λ there empty.
      let no : (key == 0) ≡ false = ground arith in
      rw no (rw (page_alloc-none s.kernel.ram empty) refl),
  λ there one.
      let no : (key == 0) ≡ false = ground arith in
      let ((b, r), run, (same, after)) = page_alloc-Allocated s.kernel.ram x [] one in
      let page : (b == 0) ≡ false = ground (arith, same, one.chain.1.low) in
      let name = lib.strncpy (s.names key) name_size in
      (
        (
          0,
          record s {
            kernel = record s.kernel { ram = r };
            map = rename lib (update s.names b name) (ensure_map lib s).map;
            names = update s.names b name;
          },
        ),
        rw no (rw run (rw page (rw (page_alloc-none r after.rest) refl))),
        (
          refl,
          record {
            none_left = after.rest;
            values = refl;
            pages = refl;
            named = ap (λ i. update s.names i name) same;
          },
        ),
      ),
)
