-- ===== src/Paging/Translate.antt =====
-- Page tables of a process: what `map_page`, `unmap_page` and `get_physaddr` have to do with one
-- another.
use operating_system_concept.Base.{
  ℕ, ◌+◌, ◌*◌, ◌/◌, ◌^◌, ◌<◌, ◌≡◌, ◌≢◌, ◌⊎◌, inl, inr, true, false, List, arith, ap, ◌∙◌, ◌==◌,
  if◌then◌else◌, Bool-cases, ==_iff, update, update_self, has,
}
use operating_system_concept.Paging.{pd_index, pt_index, page_of}
use operating_system_concept.Paging.Memory.{Ram}
use operating_system_concept.Paging.FreeList.{IsPage, IsFreeList, FreePages-frame}

-- The table that a directory entry points to, and the word that maps `v`, or 0.
unfoldable pub table : Ram → ℕ → ℕ → ℕ
table r pdir i = page_of (r.word (pdir + 4 * i))

unfoldable pub entry : Ram → ℕ → ℕ → ℕ
entry r pdir v =
    if r.word (pdir + 4 * pd_index v) == 0
    then 0
    else r.word (table r pdir (pd_index v) + 4 * pt_index v)

-- The directory and its tables are distinct pages, none of which is free.
pub record IsDir (r : Ram) (pdir : ℕ) (free : List ℕ) : Type 0 where
  pub page : IsPage pdir
  pub taken : has pdir free ≡ false
  pub tables :
      (i : ℕ)
      → i < 1024
      → r.word (pdir + 4 * i) ≢ 0
      → IsPage (table r pdir i) × (table r pdir i ≢ pdir) × (has (table r pdir i) free ≡ false)
  pub apart :
      (i j : ℕ)
      → i < 1024
      → j < 1024
      → i ≢ j
      → r.word (pdir + 4 * i) ≢ 0
      → r.word (pdir + 4 * j) ≢ 0
      → table r pdir i ≢ table r pdir j

pub slot_apart :
    (t u i j : ℕ) → IsPage t → IsPage u → t ≢ u → i < 1024 → j < 1024 → t + 4 * i ≢ u + 4 * j
slot_apart t u i j p q n hi hj = omega (arith, p, q)

-- What a call leaves: an address space with the same entries but the one of `v`.
pub record Remapped (r : Ram) (pdir v e : ℕ) (free : List ℕ) (r' : Ram) : Type 0 where
  pub pages : IsFreeList r' free
  pub dir : IsDir r' pdir free
  pub mapped : entry r' pdir v ≡ e
  pub others : (v' : ℕ) → v' < 2 ^ 32 → v' / 4096 ≢ v / 4096 → entry r' pdir v' ≡ entry r pdir v'

-- A write into the table entry of `v`.
module _ (r : Ram) (pdir v e : ℕ) (free : List ℕ) (pages : IsFreeList r free)
    (dir : IsDir r pdir free) (small : v < 2 ^ 32)
    (present : r.word (pdir + 4 * pd_index v) ≢ 0) where
  unfoldable pub slot : ℕ
  slot = table r pdir (pd_index v) + 4 * pt_index v

  unfoldable pub after : Ram
  after = record r { word = update r.word slot e }

  mine :
      IsPage (table r pdir (pd_index v))
      × (table r pdir (pd_index v) ≢ pdir)
      × (has (table r pdir (pd_index v)) free ≡ false)
  mine = dir.tables (pd_index v) (omega arith) present

  dir_same : (i : ℕ) → i < 1024 → after.word (pdir + 4 * i) ≡ r.word (pdir + 4 * i)
  unfolding after slot
  dir_same i h =
      ground
        (arith, slot_apart (table r pdir (pd_index v)) pdir (pt_index v) i mine.0 dir.page mine.1)

  table_same : (i : ℕ) → i < 1024 → table after pdir i ≡ table r pdir i
  unfolding table
  table_same i h = ap page_of (dir_same i h)

  -- The first word of a free page is not the entry.
  free_same : (x : ℕ) → IsPage x → has x free ≡ true → after.word x ≡ r.word x
  unfolding after slot
  free_same x p m = ground (arith, p, mine)

  other_same :
      (i j : ℕ)
      → i < 1024
      → j < 1024
      → r.word (pdir + 4 * i) ≢ 0
      → (i ≢ pd_index v) ⊎ (j ≢ pt_index v)
      → after.word (table r pdir i + 4 * j) ≡ r.word (table r pdir i + 4 * j)
  unfolding after slot
  other_same i j hi hj n d = elim (Bool-cases (i == pd_index v)) [
    | inl h ↦ let e : i ≡ pd_index v = (==_iff i (pd_index v)).0 h in rw e (ground (arith, d))
    | inr h ↦ ground (
      arith,
      slot_apart (table r pdir i) (table r pdir (pd_index v)) j (pt_index v) (dir.tables i hi n).0
          mine.0 (dir.apart i (pd_index v) hi (omega arith) (ground arith) n present),
    )
  ]

  present_after : {i : ℕ} → i < 1024 → after.word (pdir + 4 * i) ≢ 0 → r.word (pdir + 4 * i) ≢ 0
  present_after {i} h n z = n (dir_same i h ∙ z)

  after-IsDir : IsDir after pdir free
  after-IsDir = record {
    page = dir.page;
    taken = dir.taken;
    tables = λ i h n. rw (table_same i h) (dir.tables i h (present_after h n));
    apart = λ i j hi hj n ni nj.
        rw (table_same i hi, table_same j hj)
          (dir.apart i j hi hj n (present_after hi ni) (present_after hj nj));
  }

  slot_write : after.word (table r pdir (pd_index v) + 4 * pt_index v) ≡ e
  unfolding after slot
  slot_write = update_self r.word _ e

  entry-after : entry after pdir v ≡ e
  unfolding entry
  entry-after =
      rw (dir_same (pd_index v) (omega arith), table_same (pd_index v) (omega arith))
        (ground (arith, slot_write))

  differ : (v' : ℕ) → v' / 4096 ≢ v / 4096 → (pd_index v' ≢ pd_index v) ⊎ (pt_index v' ≢ pt_index v)
  differ v' n = grind arith

  entry-others :
      (v' : ℕ) → v' < 2 ^ 32 → v' / 4096 ≢ v / 4096 → entry after pdir v' ≡ entry r pdir v'
  unfolding entry
  entry-others v' s n =
      rw (dir_same (pd_index v') (omega arith), table_same (pd_index v') (omega arith))
        (elim (Bool-cases (r.word (pdir + 4 * pd_index v') == 0)) [
          | inl z ↦ ground arith
          | inr nz ↦ ground (
            arith,
            other_same (pd_index v') (pt_index v') (omega arith) (omega arith) (ground arith)
                (differ v' n),
          )
        ])

  pub write-Remapped : Remapped r pdir v e free after
  unfolding after
  write-Remapped = record {
    pages = record {
      chain = FreePages-frame r.word after.word r.freelist free pages.chain free_same;
      distinct = pages.distinct;
    };
    dir = after-IsDir;
    mapped = entry-after;
    others = entry-others;
  }
