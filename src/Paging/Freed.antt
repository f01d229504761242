-- ===== src/Paging/Freed.antt =====
-- `libere_pages` gives back every page that a page directory maps in user space, its page tables,
-- and the directory.
use mathlib.Core.Path.{subst}
use operating_system_concept.Base.{
  ℕ, zero, suc, ◌+◌, ◌*◌, ◌≤◌, ◌≡◌, refl, sym, ◌∙◌, inl, inr, true, false, List, [], ◌∷◌, ◌++◌,
  arith, has, has-append, Distinct, ◌==◌, Bool-cases,
}
use operating_system_concept.Base.Run.{ok, Returns}
use operating_system_concept.Paging.{page_of, page_free, free_mapped, free_tables, libere_pages}
use operating_system_concept.Paging.Memory.{Ram, load}
use operating_system_concept.Paging.FreeList.{IsPage, IsFreeList}
use operating_system_concept.Paging.Pushed.{push, push-append, push-apart}
use operating_system_concept.Paging.Mapped.{
  mapped_pages, owned_pages, ArePages, Freed, runs_first, without, with_it, frees_page, reads_entry,
  table_apart, FreesMapped, frees_mapped,
}

module _ (word : ℕ → ℕ) where
  skips_table :
      (n i pdir : ℕ) (r : Ram)
      → load (pdir + 4 * i) r ≡ ok (word (pdir + 4 * i), r)
      → (word (pdir + 4 * i) == 0) ≡ true
      → free_tables (suc n) pdir i r ≡ free_tables n pdir (i + 1) r
  unfolding free_tables
  skips_table n i pdir r read e =
      runs_first (load (pdir + 4 * i)) _ r r (word (pdir + 4 * i)) read ∙ without _ _ _ r e

  frees_table :
      (n i pdir : ℕ) (r s t : Ram)
      → load (pdir + 4 * i) r ≡ ok (word (pdir + 4 * i), r)
      → (word (pdir + 4 * i) == 0) ≡ false
      → free_mapped 1024 (page_of (word (pdir + 4 * i))) 0 r ≡ ok (tt, s)
      → page_free (page_of (word (pdir + 4 * i))) s ≡ ok (tt, t)
      → free_tables (suc n) pdir i r ≡ free_tables n pdir (i + 1) t
  unfolding free_tables
  frees_table n i pdir r s t read e mapped freed =
      runs_first (load (pdir + 4 * i)) _ r r (word (pdir + 4 * i)) read
      ∙ with_it _ _ _ r t e
          (runs_first (free_mapped 1024 (page_of (word (pdir + 4 * i))) 0) _ r s tt mapped ∙ freed)

  owned_none :
      (n i pdir : ℕ)
      → (word (pdir + 4 * i) == 0) ≡ true
      → owned_pages word (suc n) pdir i ≡ owned_pages word n pdir (i + 1)
  unfolding owned_pages
  owned_none n i pdir e = rw e refl

  owned_some :
      (n i pdir : ℕ)
      → (word (pdir + 4 * i) == 0) ≡ false
      → owned_pages word (suc n) pdir i
        ≡ mapped_pages word 1024 (page_of (word (pdir + 4 * i))) 0
          ++ (page_of (word (pdir + 4 * i)) ∷ owned_pages word n pdir (i + 1))
  unfolding owned_pages
  owned_some n i pdir e = rw e refl

  abbrev FreesOwned : ℕ → ℕ → ℕ → List ℕ → Ram → List ℕ → Type 0
  FreesOwned n i pdir free r xs =
      ArePages xs
      → Distinct (pdir ∷ push xs free)
      → Returns (free_tables n pdir i r) (λ (_, r'). Freed word (push xs free) r')

  -- One table, and those behind it.
  frees_one :
      (n i pdir : ℕ) (free : List ℕ) (r : Ram) (xs ys : List ℕ)
      → i + suc n ≤ 1024
      → IsPage pdir
      → (word (pdir + 4 * i) == 0) ≡ false
      → xs ≡ mapped_pages word 1024 (page_of (word (pdir + 4 * i))) 0
      → Freed word free r
      → ((free' : List ℕ) (r' : Ram) → Freed word free' r' → FreesOwned n (i + 1) pdir free' r' ys)
      → FreesOwned (suc n) i pdir free r (xs ++ (page_of (word (pdir + 4 * i)) ∷ ys))
  unfolding push
  frees_one n i pdir free r xs ys inside page e xs_are f later pages distinct =
      let table = page_of (word (pdir + 4 * i)) in
      let joined = push-append xs (table ∷ ys) free in
      let apart : Distinct (pdir ∷ push ys (table ∷ push xs free)) =
        subst (λ l. Distinct (pdir ∷ l)) joined distinct in
      let table_page = pages table (ground (arith, has-append table xs (table ∷ ys))) in
      let read =
        reads_entry word pdir i free r page (omega arith)
          (table_apart word pdir (xs ++ (table ∷ ys)) (pdir ∷ []) free distinct (ground arith)) f in
      let (s, mapped, g) =
        subst (FreesMapped word 1024 0 table (table ∷ ys) free r) (sym xs_are)
          (frees_mapped word 1024 0 table (table ∷ ys) free r (omega arith) table_page
            (ground arith) f)
          (λ x h. pages x (ground (arith, h, has-append x xs (table ∷ ys)))) apart.1 in
      let (t, freed, k) =
        frees_page word table (push xs free) s.1 table_page
          (push-apart table (table ∷ ys) (push xs free) apart.1 (ground arith)) g in
      let (u, run, done) =
        later (table ∷ push xs free) t.1 k
          (λ x h. pages x (ground (arith, h, has-append x xs (table ∷ ys)))) apart in
      (
        u,
        frees_table n i pdir r s.1 t.1 read e mapped freed ∙ run,
        subst (λ l. Freed word l u.1) (sym joined) done,
      )

  frees_owned :
      (n i pdir : ℕ) (free : List ℕ) (r : Ram)
      → i + n ≤ 1024
      → IsPage pdir
      → Freed word free r
      → FreesOwned n i pdir free r (owned_pages word n pdir i)
  unfolding free_tables owned_pages push
  frees_owned zero i pdir free r inside page f = λ pages distinct. ((tt, r), refl, f)
  frees_owned (suc n) i pdir free r inside page f = elim (Bool-cases (word (pdir + 4 * i) == 0)) [
    | inl e ↦
        subst (FreesOwned (suc n) i pdir free r) (sym (owned_none n i pdir e)) (λ pages distinct.
          let xs = owned_pages word n pdir (i + 1) in
          let read =
            reads_entry word pdir i free r page (omega arith)
              (table_apart word pdir xs (pdir ∷ []) free distinct (ground arith)) f in
          let (s, run, done) =
            frees_owned n (i + 1) pdir free r (omega arith) page f pages distinct in
          (s, skips_table n i pdir r read e ∙ run, done))
    | inr e ↦ subst (FreesOwned (suc n) i pdir free r) (sym (owned_some n i pdir e)) (
        frees_one n i pdir free r (mapped_pages word 1024 (page_of (word (pdir + 4 * i))) 0)
          (owned_pages word n pdir (i + 1)) inside page e refl f
          (λ free' r' g. frees_owned n (i + 1) pdir free' r' (omega arith) page g))
  ]

-- A page directory in memory, none of whose pages is shared or free: `libere_pages` ends and puts
-- on the free list, once each, all pages that the directory maps from entry 64 on, their page
-- tables, and the directory. It writes no word outside of these pages.
pub libere_pages-Freed :
    (pdir : ℕ) (free : List ℕ) (r : Ram)
    → IsFreeList r free
    → IsPage pdir
    → ArePages (owned_pages r.word 960 pdir 64)
    → Distinct (pdir ∷ push (owned_pages r.word 960 pdir 64) free)
    → Returns (libere_pages pdir r) (λ (_, r').
      IsFreeList r' (pdir ∷ push (owned_pages r.word 960 pdir 64) free)
      × ((a : ℕ)
          → has a (pdir ∷ push (owned_pages r.word 960 pdir 64) free) ≡ false
          → r'.word a ≡ r.word a))
unfolding libere_pages
libere_pages-Freed pdir free r list page pages distinct =
    let owned = owned_pages r.word 960 pdir 64 in
    let f : Freed r.word free r = record { list = list; same = λ a n. refl } in
    let (s, run, g) = frees_owned r.word 960 64 pdir free r (omega arith) page f pages distinct in
    let (t, freed, h) = frees_page r.word pdir (push owned free) s.1 page distinct.0 g in
    (t, rw run freed, (h.list, h.same))
