-- ===== src/Paging/Mapped.antt =====
-- The pages that a page directory maps, and `free_mapped` on the entries of one page table.
use mathlib.Core.Path.{subst}
use operating_system_concept.Base.{
  ℕ, zero, suc, ◌+◌, ◌*◌, ◌≤◌, ◌<◌, ◌≡◌, refl, sym, ap, ◌∙◌, inl, inr, Bool, true, false, List, [],
  ◌∷◌, ◌++◌, arith, has, Distinct, ◌==◌, Bool-cases, if◌then◌else◌,
}
use operating_system_concept.Base.Run.{ok, Returns}
use operating_system_concept.Base.Cmd.{Cmd, pure, and_then, ◌>>=◌, ◌>>◌}
use operating_system_concept.Paging.{page_of, page_free, free_mapped}
use operating_system_concept.Paging.Memory.{Ram, load}
use operating_system_concept.Paging.FreeList.{IsPage, IsFreeList, page_free-cons}
use operating_system_concept.Paging.Pushed.{
  push, has-push, Distinct-push, push-apart, word_not_free,
}

-- The pages of `n` entries of a table, from entry `j` on.
unfoldable pub mapped_pages : (ℕ → ℕ) → ℕ → ℕ → ℕ → List ℕ
mapped_pages word zero table j = []
mapped_pages word (suc n) table j =
    let rest = mapped_pages word n table (j + 1) in
    let entry = word (table + 4 * j) in if entry == 0 then rest else page_of entry ∷ rest

-- Those of `n` tables of a directory, from entry `i` on, each followed by the table.
unfoldable pub owned_pages : (ℕ → ℕ) → ℕ → ℕ → ℕ → List ℕ
unfolding mapped_pages
owned_pages word zero pdir i = []
owned_pages word (suc n) pdir i =
    let rest = owned_pages word n pdir (i + 1) in
    let entry = word (pdir + 4 * i) in
    if entry == 0 then rest else mapped_pages word 1024 (page_of entry) 0 ++ (page_of entry ∷ rest)

abbrev pub ArePages : List ℕ → Type 0
ArePages xs = (x : ℕ) → has x xs ≡ true → IsPage x

-- The free list, and that the words of other pages are those of the start.
pub record Freed (word : ℕ → ℕ) (frees : List ℕ) (r : Ram) : Type 0 where
  pub list : IsFreeList r frees
  pub same : (a : ℕ) → has a frees ≡ false → r.word a ≡ word a

-- The first command of two.
pub runs_first :
    {A B : Type 0} (m : Cmd Ram A) (k : A → Cmd Ram B) (r s : Ram) (a : A)
    → m r ≡ ok (a, s)
    → (m >>= k) r ≡ k a s
runs_first m k r s a run = ap (λ o. and_then o k) run

pub without :
    (m rest : Cmd Ram (Unit {0})) (b : Bool) (r : Ram)
    → b ≡ true
    → ((if b then pure tt else m) >> rest) r ≡ rest r
without m rest b r e = rw e refl

pub with_it :
    (m rest : Cmd Ram (Unit {0})) (b : Bool) (r s : Ram)
    → b ≡ false
    → m r ≡ ok (tt, s)
    → ((if b then pure tt else m) >> rest) r ≡ rest s
with_it m rest b r s e run = rw e (rw run refl)

module _ (word : ℕ → ℕ) where
  -- A page that is not free yet.
  pub frees_page :
      (x : ℕ) (frees : List ℕ) (r : Ram)
      → IsPage x
      → has x frees ≡ false
      → Freed word frees r
      → Returns (page_free x r) (λ (_, r'). Freed word (x ∷ frees) r')
  frees_page x frees r page apart f =
      let (s, run, (list, same)) = page_free-cons r x frees f.list page apart in
      (
        s,
        run,
        record {
          list = list;
          same = λ a n. same a (ground (arith, n)) ∙ f.same a (ground (arith, n));
        },
      )

  -- An entry of a table that is not free yet reads as at the start.
  pub reads_entry :
      (table j : ℕ) (frees : List ℕ) (r : Ram)
      → IsPage table
      → j < 1024
      → has table frees ≡ false
      → Freed word frees r
      → load (table + 4 * j) r ≡ ok (word (table + 4 * j), r)
  unfolding load
  reads_entry table j frees r page inside apart f =
      let e : r.word (table + 4 * j) ≡ word (table + 4 * j) =
        f.same (table + 4 * j)
          (word_not_free r.word r.freelist frees table j f.list.chain page inside apart) in
      rw e (ground (arith, page, inside))

  -- The page that comes first is not free yet.
  pub first_apart :
      (x : ℕ) (xs rest frees : List ℕ)
      → Distinct (push rest (push (x ∷ xs) frees))
      → has x frees ≡ false
  first_apart x xs rest frees d =
      push-apart x (x ∷ xs) frees (Distinct-push rest (push (x ∷ xs) frees) d) (ground arith)

  pub table_apart :
      (table : ℕ) (xs rest frees : List ℕ)
      → Distinct (push rest (push xs frees))
      → has table rest ≡ true
      → has table frees ≡ false
  table_apart table xs rest frees d later =
      ground (arith, push-apart table rest (push xs frees) d later, has-push table xs frees)

  skips :
      (n j table : ℕ) (r : Ram)
      → load (table + 4 * j) r ≡ ok (word (table + 4 * j), r)
      → (word (table + 4 * j) == 0) ≡ true
      → free_mapped (suc n) table j r ≡ free_mapped n table (j + 1) r
  unfolding free_mapped
  skips n j table r read e = rw read (rw e refl)

  frees :
      (n j table : ℕ) (r s : Ram)
      → load (table + 4 * j) r ≡ ok (word (table + 4 * j), r)
      → (word (table + 4 * j) == 0) ≡ false
      → page_free (page_of (word (table + 4 * j))) r ≡ ok (tt, s)
      → free_mapped (suc n) table j r ≡ free_mapped n table (j + 1) s
  unfolding free_mapped
  frees n j table r s read e freed = rw read (rw e (rw freed refl))

  mapped_none :
      (n j table : ℕ)
      → (word (table + 4 * j) == 0) ≡ true
      → mapped_pages word (suc n) table j ≡ mapped_pages word n table (j + 1)
  unfolding mapped_pages
  mapped_none n j table e = rw e refl

  mapped_some :
      (n j table : ℕ)
      → (word (table + 4 * j) == 0) ≡ false
      → mapped_pages word (suc n) table j
        ≡ page_of (word (table + 4 * j)) ∷ mapped_pages word n table (j + 1)
  unfolding mapped_pages
  mapped_some n j table e = rw e refl

  abbrev pub FreesMapped : ℕ → ℕ → ℕ → List ℕ → List ℕ → Ram → List ℕ → Type 0
  FreesMapped n j table rest free r xs =
      ArePages xs
      → Distinct (push rest (push xs free))
      → Returns (free_mapped n table j r) (λ (_, r'). Freed word (push xs free) r')

  -- The loop over the entries of a table that is freed later.
  pub frees_mapped :
      (n j table : ℕ) (rest free : List ℕ) (r : Ram)
      → j + n ≤ 1024
      → IsPage table
      → has table rest ≡ true
      → Freed word free r
      → FreesMapped n j table rest free r (mapped_pages word n table j)
  unfolding free_mapped mapped_pages push
  frees_mapped zero j table rest free r inside page later f = λ pages distinct. ((tt, r), refl, f)
  frees_mapped (suc n) j table rest free r inside page later f =
      let entry = word (table + 4 * j) in
      elim (Bool-cases (entry == 0)) [
        | inl e ↦
            subst (FreesMapped (suc n) j table rest free r) (sym (mapped_none n j table e))
              (λ pages distinct.
                let xs = mapped_pages word n table (j + 1) in
                let read =
                  reads_entry table j free r page (omega arith)
                    (table_apart table xs rest free distinct later) f in
                let (s, run, done) =
                  frees_mapped n (j + 1) table rest free r (omega arith) page later f pages
                    distinct in
                (s, skips n j table r read e ∙ run, done))
        | inr e ↦
            subst (FreesMapped (suc n) j table rest free r) (sym (mapped_some n j table e))
              (λ pages distinct.
                let xs = mapped_pages word n table (j + 1) in
                let x = page_of entry in
                let read =
                  reads_entry table j free r page (omega arith)
                    (table_apart table (x ∷ xs) rest free distinct later) f in
                let (s, freed, g) =
                  frees_page x free r (pages x (ground arith)) (first_apart x xs rest free distinct)
                    f in
                let (s', run, done) =
                  frees_mapped n (j + 1) table rest (x ∷ free) s.1 (omega arith) page later g
                    (λ y h. pages y (ground (arith, h))) distinct in
                (s', frees n j table r s.1 read e freed ∙ run, done))
      ]
