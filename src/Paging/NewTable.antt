-- ===== src/Paging/NewTable.antt =====
-- `map_page` where the page table has to be allocated.
use operating_system_concept.Base.{
  ℕ, ◌+◌, ◌*◌, ◌/◌, ◌%◌, ◌^◌, ◌<◌, ◌≡◌, ◌≢◌, ◌⊎◌, inl, inr, refl, List, ◌∷◌, arith, ap, ◌∙◌, ◌==◌,
  if◌then◌else◌, Bool-cases,
}
use operating_system_concept.Base.Run.{ok, Returns}
use operating_system_concept.Paging.{pd_index, page_of, ensure_table, map_page, get_physaddr}
use operating_system_concept.Paging.Memory.{Ram, load}
use operating_system_concept.Paging.FreeList.{IsPage, IsFreeList, page_alloc-Allocated}
use operating_system_concept.Paging.Tables.{map_present, get_physaddr-entry}
use operating_system_concept.Paging.Translate.{entry, IsDir, Remapped}
use operating_system_concept.Paging.FreshTable.{alloc_run, with_table-Ready, with_table, Ready}

-- With a free page at hand, or a table that is there, `ensure_table` leaves the table ready.
ensure_table-Ready :
    (r : Ram) (pdir i x : ℕ) (xs : List ℕ)
    → IsFreeList r (x ∷ xs)
    → IsDir r pdir (x ∷ xs)
    → i < 1024
    → r.word (pdir + 4 * i) ≡ 0
    → Returns (ensure_table pdir i r) (λ (_, r'). Ready r pdir i xs r')
ensure_table-Ready r pdir i x xs pages dir h missing =
    let (s, run, a) = page_alloc-Allocated r x xs pages in
    (
      (tt, with_table r s.1 pdir i x xs pages dir a.1 h missing),
      alloc_run r s.1 pdir i x xs pages dir a.1 h missing run a.0,
      with_table-Ready r s.1 pdir i x xs pages dir a.1 h missing,
    )

map_ready :
    (r r' : Ram) (pdir v p flags : ℕ)
    → IsPage pdir
    → ensure_table pdir (pd_index v) r ≡ ok (tt, r')
    → ensure_table pdir (pd_index v) r' ≡ ok (tt, r')
    → map_page pdir v p flags r ≡ map_page pdir v p flags r'
unfolding map_page
map_ready r r' pdir v p flags page e e' = rw (e, e')

table_there :
    (r : Ram) (pdir i : ℕ)
    → IsPage pdir
    → i < 1024
    → r.word (pdir + 4 * i) ≢ 0
    → ensure_table pdir i r ≡ ok (tt, r)
unfolding ensure_table load
table_there r pdir i page h n = ground (arith, page)

-- `map_page` of an address that is not mapped yet, where a free page is at hand, maps that address
-- to the page of `p` with the flags and keeps all other translations, whether the page table is
-- there or has to be allocated.
pub map_page-Remapped :
    (r : Ram) (pdir v p flags x : ℕ) (xs : List ℕ)
    → IsFreeList r (x ∷ xs)
    → IsDir r pdir (x ∷ xs)
    → v < 2 ^ 32
    → entry r pdir v ≡ 0
    → Returns (map_page pdir v p flags r) (λ (_, r').
      (free : List ℕ) × ((free ≡ x ∷ xs) ⊎ (free ≡ xs))
      × Remapped r pdir v (page_of p + flags) free r')
map_page-Remapped r pdir v p flags x xs pages dir small none_yet =
    elim (Bool-cases (r.word (pdir + 4 * pd_index v) == 0)) [
      | inl z ↦
          let (s, run, ready) =
            ensure_table-Ready r pdir (pd_index v) x xs pages dir (omega arith) (ground arith) in
          let (s', run', m) =
            map_present s.1 pdir v xs ready.dir small ready.pages ready.present p flags
              (ready.same v small ∙ none_yet) in
          (
            s',
            map_ready r s.1 pdir v p flags dir.page run
                  (table_there s.1 pdir (pd_index v) dir.page (omega arith) ready.present)
                ∙ run',
            (
              xs,
              inr refl,
              record {
                pages = m.pages;
                dir = m.dir;
                mapped = m.mapped;
                others = λ v' small' n. m.others v' small' n ∙ ready.same v' small';
              },
            ),
          )
      | inr nz ↦
          let (s', run', m) =
            map_present r pdir v (x ∷ xs) dir small pages (ground arith) p flags none_yet in
          (s', run', (x ∷ xs, inl refl, m))
    ]

-- What `get_physaddr` answers where the word `e` maps `v`.
abbrev pub translation : ℕ → ℕ → ℕ
translation e v = if e == 0 then 0 else (page_of e + v % 4096) % 2 ^ 32

translation-mapped :
    (p flags v : ℕ)
    → 0 < flags
    → flags < 4096
    → p < 2 ^ 32
    → translation (page_of p + flags) v ≡ page_of p + v % 4096
translation-mapped p flags v pos small hp = ground arith

-- After `map_page` of a free virtual page to a frame, `get_physaddr` answers the address in that
-- frame for the mapped page, and for an address of any other page what it answered before.
pub get_physaddr-map_page :
    (r : Ram) (pdir v p flags x : ℕ) (xs : List ℕ)
    → IsFreeList r (x ∷ xs)
    → IsDir r pdir (x ∷ xs)
    → v < 2 ^ 32
    → p < 2 ^ 32
    → 0 < flags
    → flags < 4096
    → entry r pdir v ≡ 0
    → Returns (map_page pdir v p flags r) (λ (_, r').
      (get_physaddr v pdir r' ≡ ok (page_of p + v % 4096, r'))
      × ((v' : ℕ)
          → v' < 2 ^ 32
          → v' / 4096 ≢ v / 4096
          → (a : ℕ) × (get_physaddr v' pdir r ≡ ok (a, r))
            × (get_physaddr v' pdir r' ≡ ok (a, r'))))
get_physaddr-map_page r pdir v p flags x xs pages dir small hp pos hf none_yet =
    let (s, run, m) = map_page-Remapped r pdir v p flags x xs pages dir small none_yet in
    (
      s,
      run,
      (
        get_physaddr-entry s.1 pdir v m.0 m.2.dir small
            ∙ ap (λ a. ok (a, s.1))
                (ap (λ e. translation e v) m.2.mapped ∙ translation-mapped p flags v pos hf hp),
        λ v' small' n. (
          translation (entry r pdir v') v',
          get_physaddr-entry r pdir v' (x ∷ xs) dir small',
          get_physaddr-entry s.1 pdir v' m.0 m.2.dir small'
              ∙ ap (λ e. ok (translation e v', s.1)) (m.2.others v' small' n),
        ),
      ),
    )
