-- ===== src/Paging/FreshTable.antt =====
-- The address space to which `map_page` has added a page table.
use operating_system_concept.Base.{
  ℕ, ◌+◌, ◌*◌, ◌^◌, ◌<◌, ◌≡◌, ◌≢◌, inl, inr, false, List, ◌∷◌, arith, ap, sym, ◌∙◌, ◌==◌,
  Bool-cases, ==_iff, update, update_self, has,
}
use operating_system_concept.Base.Run.{ok}
use operating_system_concept.Paging.{page_alloc, pd_index, pt_index, page_of, or_7, ensure_table}
use operating_system_concept.Paging.Memory.{Ram, load, store, in_page}
use operating_system_concept.Paging.FreeList.{IsPage, IsFreeList, FreePages-frame, Allocated}
use operating_system_concept.Paging.Translate.{table, entry, IsDir, slot_apart}

-- The address space with a table for directory entry `i`, and no new mapping.
pub record Ready (r : Ram) (pdir i : ℕ) (free : List ℕ) (r' : Ram) : Type 0 where
  pub pages : IsFreeList r' free
  pub dir : IsDir r' pdir free
  pub present : r'.word (pdir + 4 * i) ≢ 0
  pub same : (v : ℕ) → v < 2 ^ 32 → entry r' pdir v ≡ entry r pdir v

module _ (r r₁ : Ram) (pdir i x : ℕ) (xs : List ℕ) (pages : IsFreeList r (x ∷ xs))
    (dir : IsDir r pdir (x ∷ xs)) (a : Allocated r x xs r₁) (h : i < 1024)
    (missing : r.word (pdir + 4 * i) ≡ 0) where
  pub with_table : Ram
  with_table = record r₁ { word = update r₁.word (pdir + 4 * i) (or_7 x) }

  new-IsPage : IsPage x
  new-IsPage = pages.chain.1

  outside : (t j : ℕ) → IsPage t → t ≢ x → j < 1024 → in_page x (t + 4 * j) ≡ false
  outside t j p n hj = ground (arith, p, new-IsPage)

  dir_word : (j : ℕ) → j < 1024 → j ≢ i → with_table.word (pdir + 4 * j) ≡ r.word (pdir + 4 * j)
  unfolding with_table
  dir_word j hj n =
      ground (arith, a.same (pdir + 4 * j), outside pdir j dir.page (ground (arith, dir.taken)) hj)

  dir_new : with_table.word (pdir + 4 * i) ≡ or_7 x
  unfolding with_table
  dir_new = update_self r₁.word _ _

  table_new : table with_table pdir i ≡ x
  unfolding table
  table_new = rw dir_new (omega (arith, new-IsPage))

  table_word : (j : ℕ) → j < 1024 → j ≢ i → table with_table pdir j ≡ table r pdir j
  unfolding table
  table_word j hj n = ap page_of (dir_word j hj n)

  -- Words of the tables that were there, and first words of free pages, stay.
  page_word :
      (t j : ℕ)
      → IsPage t
      → t ≢ x
      → t ≢ pdir
      → j < 1024
      → with_table.word (t + 4 * j) ≡ r.word (t + 4 * j)
  unfolding with_table
  page_word t j p n m hj =
      ground
        (arith, a.same (t + 4 * j), outside t j p n hj, slot_apart t pdir j i p dir.page m hj h)

  with_table-pages : IsFreeList with_table xs
  unfolding with_table
  with_table-pages = record {
    chain =
        FreePages-frame r₁.word with_table.word r₁.freelist xs a.rest.chain
          (λ y p m. ground (arith, p, dir.page, dir.taken));
    distinct = a.rest.distinct;
  }

  old_entry :
      (j : ℕ) → j < 1024 → j ≢ i → with_table.word (pdir + 4 * j) ≢ 0 → r.word (pdir + 4 * j) ≢ 0
  old_entry j hj n nz z = nz (dir_word j hj n ∙ z)

  not_new : (j : ℕ) → j < 1024 → r.word (pdir + 4 * j) ≢ 0 → table r pdir j ≢ x
  not_new j hj n = ground (arith, dir.tables j hj n)

  x-ne-pdir : x ≢ pdir
  x-ne-pdir = ground (arith, dir.taken)

  cleared_word : (j : ℕ) → j < 1024 → with_table.word (x + 4 * j) ≡ 0
  unfolding with_table
  cleared_word j hj = ground (
    arith,
    a.cleared (x + 4 * j),
    new-IsPage,
    slot_apart x pdir j i new-IsPage dir.page x-ne-pdir hj h,
  )

  tables_after :
      (j : ℕ)
      → j < 1024
      → with_table.word (pdir + 4 * j) ≢ 0
      → IsPage (table with_table pdir j)
        × (table with_table pdir j ≢ pdir)
        × (has (table with_table pdir j) xs ≡ false)
  tables_after j hj n = elim (Bool-cases (j == i)) [
    | inl e ↦ rw ((==_iff j i).0 e, table_new) (new-IsPage, x-ne-pdir, pages.distinct.0)
    | inr e ↦
        let ne : j ≢ i = ground arith in
        let old = dir.tables j hj (old_entry j hj ne n) in
        rw (table_word j hj ne) (old.0, old.1, ground (arith, old))
  ]

  apart_after :
      (j k : ℕ)
      → j < 1024
      → k < 1024
      → j ≢ k
      → with_table.word (pdir + 4 * j) ≢ 0
      → with_table.word (pdir + 4 * k) ≢ 0
      → table with_table pdir j ≢ table with_table pdir k
  apart_after j k hj hk n nj nk = elim (Bool-cases (j == i)) [
    | inl e ↦
        let ne : k ≢ i = ground arith in
        rw ((==_iff j i).0 e, table_new, table_word k hk ne)
          (λ q. not_new k hk (old_entry k hk ne nk) (sym q))
    | inr e ↦
        let nj' : j ≢ i = ground arith in
        elim (Bool-cases (k == i)) [
          | inl f ↦
              rw ((==_iff k i).0 f, table_new, table_word j hj nj')
                (not_new j hj (old_entry j hj nj' nj))
          | inr f ↦
              let nk' : k ≢ i = ground arith in
              rw (table_word j hj nj', table_word k hk nk')
                (dir.apart j k hj hk n (old_entry j hj nj' nj) (old_entry k hk nk' nk))
        ]
  ]

  with_table-IsDir : IsDir with_table pdir xs
  with_table-IsDir = record {
    page = dir.page;
    taken = ground (arith, dir.taken);
    tables = tables_after;
    apart = apart_after;
  }

  same_new : (j : ℕ) → j < 1024 → with_table.word (table with_table pdir i + 4 * j) ≡ 0
  same_new j hj = rw table_new (cleared_word j hj)

  with_table-same : (v : ℕ) → v < 2 ^ 32 → entry with_table pdir v ≡ entry r pdir v
  unfolding entry
  with_table-same v s =
      let j = pd_index v in
      let hj : pd_index v < 1024 = omega arith in
      let hk : pt_index v < 1024 = omega arith in
      elim (Bool-cases (pd_index v == i)) [
        | inl e ↦
            rw ((==_iff (pd_index v) i).0 e, missing) (ground (arith, same_new (pt_index v) hk))
        | inr e ↦
            let ne : pd_index v ≢ i = ground arith in
            rw (dir_word (pd_index v) hj ne, table_word (pd_index v) hj ne)
              (elim (Bool-cases (r.word (pdir + 4 * pd_index v) == 0)) [
                | inl z ↦ ground arith
                | inr nz ↦
                    let nz' : r.word (pdir + 4 * pd_index v) ≢ 0 = ground arith in
                    let old = dir.tables (pd_index v) hj nz' in
                    ground (
                      arith,
                      page_word (table r pdir (pd_index v)) (pt_index v) old.0
                          (not_new (pd_index v) hj nz') old.1 hk,
                    )
              ])
      ]

  pub with_table-Ready : Ready r pdir i xs with_table
  with_table-Ready = record {
    pages = with_table-pages;
    dir = with_table-IsDir;
    present = rw dir_new (omega arith);
    same = with_table-same;
  }

  pub alloc_run :
      {b : ℕ} → page_alloc r ≡ ok (b, r₁) → b ≡ x → ensure_table pdir i r ≡ ok (tt, with_table)
  unfolding ensure_table load store with_table
  alloc_run run e = ground (arith, dir.page, run)
