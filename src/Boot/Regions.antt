-- ===== src/Boot/Regions.antt =====
-- The first page tables map each page to itself, with the flags of the last region that has it.
use mathlib.Core.Path.{subst}
use operating_system_concept.Base.{
  ℕ, zero, suc, ◌+◌, ◌-◌, ◌*◌, ◌/◌, ◌%◌, ◌^◌, ◌≤◌, ◌<◌, ◌≡◌, refl, sym, ap, ◌∙◌, inl, inr, Bool,
  true, false, ◌&&◌, List, [], ◌∷◌, arith, update, update_self, ltb, leb, ◌==◌, ==_iff, Bool-cases,
  if◌then◌else◌,
}
use operating_system_concept.Paging.{pd_index, pt_index, page_of}
use operating_system_concept.Boot.{
  Sections, Region, reference_tables, clear_entries, early_mm_fill_pgdir, map_address, map_pages,
  early_mm_map_region, kernel_regions, map_regions, clear_tables, early_mm_map_kernel,
}

-- The directory has its 64 tables behind each other from `pgtab` on.
pub record HasTables (pgdir pgtab : ℕ) (mem : ℕ → ℕ) : Type 0 where
  pub tables : (i : ℕ) → i < 64 → page_of (mem (pgdir + 4 * i)) ≡ pgtab + 4096 * i

-- Directory and tables are pages below 256 MB, and apart.
pub record Apart (pgdir pgtab : ℕ) : Type 0 where
  pub table_page : pgtab % 4096 ≡ 0
  pub inside : pgtab + 4096 * 64 ≤ 0x1000_0000
  pub before : pgdir + 4096 ≤ pgtab

-- The entry of page number `n`.
abbrev pub entry_of : ℕ → (ℕ → ℕ) → ℕ → ℕ
entry_of pgtab mem n = mem (pgtab + 4 * n)

-- The loop reaches the page: it starts at `first`, which may lie inside of a page, and goes on by
-- whole pages while it is below `last`.
abbrev pub in_region : Region → ℕ → Bool
in_region r n = leb (r.first / 4096) n && ltb (4096 * n + r.first % 4096) r.last

-- A region that the tables cover: it ends at 256 MB at most.
abbrev pub Fits : Region → Type 0
Fits r = r.last ≤ 0x1000_0000

-- The entry of page number `n`, once the regions have been mapped one behind the other: that of
-- the last one that has the page, or what was there.
abbrev pub entry_after : List Region → ℕ → ℕ → ℕ
entry_after [] n e = e
entry_after (r ∷ rs) n e = entry_after rs n (if in_region r n then 4096 * n + r.flags else e)

abbrev pub AllFit : List Region → Type 0
AllFit [] = Unit
AllFit (r ∷ rs) = Fits r × AllFit rs

module _ (pgdir pgtab : ℕ) (a : Apart pgdir pgtab) where
  map_address-HasTables :
      (n o flags : ℕ) (mem : ℕ → ℕ)
      → n < 65536
      → o < 4096
      → HasTables pgdir pgtab mem
      → (map_address pgdir (4096 * n + o) flags mem ≡ update mem (pgtab + 4 * n) (4096 * n + flags))
  map_address-HasTables n o flags mem small off h =
      let address : ℕ = 4096 * n + o in
      let at : page_of (mem (pgdir + 4 * pd_index address)) + 4 * pt_index address ≡ pgtab + 4 * n =
        omega (arith, h.tables (pd_index address) (omega (arith, off, small)), off, small) in
      let value : page_of address + flags ≡ 4096 * n + flags = omega (arith, off) in
      ap (λ i. update mem i (page_of address + flags)) at
      ∙ ap (λ v. update mem (pgtab + 4 * n) v) value

  -- A write to the entry of a page leaves the directory and the other entries.
  update-HasTables :
      (n v : ℕ) (mem : ℕ → ℕ)
      → HasTables pgdir pgtab mem
      → HasTables pgdir pgtab (update mem (pgtab + 4 * n) v)
  update-HasTables n v mem h = record {
    tables = λ i below.
        let other : ((pgdir + 4 * i) == (pgtab + 4 * n)) ≡ false = ground (arith, a.before) in
        rw other (h.tables i below);
  }

  update-entry :
      (n m v : ℕ) (mem : ℕ → ℕ)
      → entry_of pgtab (update mem (pgtab + 4 * n) v) m
        ≡ (if m == n then v else entry_of pgtab mem m)
  update-entry n m v mem = ground arith

  -- `rounds` pages from page number `f` on, those whose byte `o` lies before `last`.
  abbrev covers : ℕ → ℕ → ℕ → ℕ → ℕ → Bool
  covers rounds f o last n = leb f n && (ltb n (f + rounds) && ltb (4096 * n + o) last)

  record Mapped (mem mem' : ℕ → ℕ) (chosen : ℕ → Bool) (flags : ℕ) : Type 0 where
    has : HasTables pgdir pgtab mem'
    entries :
        (n : ℕ)
        → n < 65536
        → entry_of pgtab mem' n ≡ (if chosen n then 4096 * n + flags else entry_of pgtab mem n)

  one_more :
      (rounds f o last flags : ℕ) (mem : ℕ → ℕ) (n : ℕ)
      → ltb (4096 * f + o) last ≡ true
      → (if covers rounds (f + 1) o last n
          then 4096 * n + flags
          else entry_of pgtab (update mem (pgtab + 4 * f) (4096 * f + flags)) n)
        ≡ (if covers (suc rounds) f o last n then 4096 * n + flags else entry_of pgtab mem n)
  one_more rounds f o last flags mem n go = elim (Bool-cases (n == f)) [
    | inl e ↦
        let same : n ≡ f = (==_iff n f).0 e in
        let out : covers rounds (f + 1) o last n ≡ false = ground (arith, same) in
        let inside : covers (suc rounds) f o last n ≡ true = ground (arith, same, go) in
        rw (out, inside)
          (update-entry f n (4096 * f + flags) mem ∙ rw e (ap (λ m. 4096 * m + flags) (sym same)))
    | inr e ↦
        let same : covers rounds (f + 1) o last n ≡ covers (suc rounds) f o last n =
          ground (arith, e) in
        let kept : entry_of pgtab (update mem (pgtab + 4 * f) (4096 * f + flags)) n
            ≡ entry_of pgtab mem n =
          update-entry f n (4096 * f + flags) mem ∙ rw e refl in
        rw (same, kept) refl
  ]

  map_pages-Mapped :
      (rounds f o last flags : ℕ) (mem : ℕ → ℕ)
      → o < 4096
      → last ≤ 0x1000_0000
      → HasTables pgdir pgtab mem
      → Mapped mem
          (map_pages rounds pgdir (4096 * f + o) last flags mem)
          (covers rounds f o last)
          flags
  unfolding map_pages
  map_pages-Mapped zero f o last flags mem off low h = record {
    has = h;
    entries = λ n small. ground arith;
  }
  map_pages-Mapped (suc rounds) f o last flags mem off low h =
      elim (Bool-cases (ltb (4096 * f + o) last)) [
        | inl go ↦
            let here = map_address-HasTables f o flags mem (ground (arith, go)) off h in
            let next : 4096 * f + o + 4096 ≡ 4096 * (f + 1) + o = omega arith in
            let mem₁ = update mem (pgtab + 4 * f) (4096 * f + flags) in
            let later =
              map_pages-Mapped rounds (f + 1) o last flags mem₁ off low
                (update-HasTables f (4096 * f + flags) mem h) in
            rw (go, here, next)
              (record {
                has = later.has;
                entries =
                    λ n small. later.entries n small ∙ one_more rounds f o last flags mem n go;
              })
        | inr stop ↦ rw stop (record { has = h; entries = λ n small. ground (arith, stop) })
      ]

  map_region-Mapped :
      (r : Region) (mem : ℕ → ℕ)
      → Fits r
      → HasTables pgdir pgtab mem
      → Mapped mem (early_mm_map_region pgdir r.first r.last r.flags mem) (in_region r) r.flags
  unfolding early_mm_map_region
  map_region-Mapped r mem low h =
      let f = r.first / 4096 in
      let o = r.first % 4096 in
      let rounds = (r.last - r.first + 4095) / 4096 in
      let start : 4096 * f + o ≡ r.first = omega arith in
      let m = map_pages-Mapped rounds f o r.last r.flags mem (omega arith) low h in
      let same : (n : ℕ) → covers rounds f o r.last n ≡ in_region r n = λ n. ground arith in
      let at = λ (p : ℕ). map_pages rounds pgdir p r.last r.flags mem in
      record {
        has = subst (λ p. HasTables pgdir pgtab (at p)) start m.has;
        entries = λ n small.
            subst
              (λ p.
                entry_of pgtab (at p) n
                ≡ (if in_region r n then 4096 * n + r.flags else entry_of pgtab mem n))
              start (m.entries n small ∙ rw (same n) refl);
      }

  map_regions-entry :
      (rs : List Region) (mem : ℕ → ℕ) (n : ℕ)
      → AllFit rs
      → HasTables pgdir pgtab mem
      → n < 65536
      → entry_of pgtab (map_regions pgdir rs mem) n ≡ entry_after rs n (entry_of pgtab mem n)
  unfolding map_regions
  map_regions-entry [] mem n fit h small = refl
  map_regions-entry (r ∷ rs) mem n fit h small =
      let m = map_region-Mapped r mem fit.0 h in
      map_regions-entry rs (early_mm_map_region pgdir r.first r.last r.flags mem) n fit.1 m.has
        small
      ∙ ap (entry_after rs n) (m.entries n small)

  reference_tables-outside :
      (n i x : ℕ) (mem : ℕ → ℕ)
      → (pgdir + 4 * i ≤ x → pgdir + 4 * (i + n) ≤ x)
      → reference_tables n i pgdir pgtab mem x ≡ mem x
  unfolding reference_tables
  reference_tables-outside zero i x mem out = refl
  reference_tables-outside (suc n) i x mem out =
      reference_tables-outside n (suc i) x _ (λ h. omega (arith, out (omega arith)))
      ∙ ground (arith, out)

  reference_tables-inside :
      (n i j : ℕ) (mem : ℕ → ℕ)
      → i ≤ j
      → j < i + n
      → reference_tables n i pgdir pgtab mem (pgdir + 4 * j)
        ≡ (pgtab + j * 0x1000) % 2 ^ 32 - (pgtab + j * 0x1000) % 2 ^ 32 % 4 + 3
  unfolding reference_tables
  reference_tables-inside zero i j mem lo hi = absurd (omega arith)
  reference_tables-inside (suc n) i j mem lo hi = elim (Bool-cases (j == i)) [
    | inl e ↦
        let same : j ≡ i = (==_iff j i).0 e in
        reference_tables-outside n (suc i) (pgdir + 4 * j) _ (λ h. absurd (omega (arith, same)))
        ∙ subst
            (λ k.
              update mem (pgdir + 4 * i)
                ((pgtab + i * 0x1000) % 2 ^ 32 - (pgtab + i * 0x1000) % 2 ^ 32 % 4 + 3)
                (pgdir + 4 * k)
              ≡ (pgtab + k * 0x1000) % 2 ^ 32 - (pgtab + k * 0x1000) % 2 ^ 32 % 4 + 3)
            (sym same) (update_self mem (pgdir + 4 * i) _)
    | inr e ↦ reference_tables-inside n (suc i) j _ (ground (arith, e)) (omega arith)
  ]

  clear_entries-outside :
      (n i x : ℕ) (mem : ℕ → ℕ)
      → (pgdir + 4 * i ≤ x → pgdir + 4 * (i + n) ≤ x)
      → clear_entries n i pgdir mem x ≡ mem x
  unfolding clear_entries
  clear_entries-outside zero i x mem out = refl
  clear_entries-outside (suc n) i x mem out =
      clear_entries-outside n (suc i) x _ (λ h. omega (arith, out (omega arith)))
      ∙ ground (arith, out)

  -- The directory and the tables before the first region.
  abbrev prepared : (ℕ → ℕ) → ℕ → ℕ
  prepared mem = update (early_mm_fill_pgdir pgdir pgtab 64 (clear_tables pgtab mem)) pgtab 0

  prepared-HasTables : (mem : ℕ → ℕ) → HasTables pgdir pgtab (prepared mem)
  unfolding early_mm_fill_pgdir
  prepared-HasTables mem = record {
    tables = λ i below.
        let e = (pgtab + i * 0x1000) % 2 ^ 32 - (pgtab + i * 0x1000) % 2 ^ 32 % 4 + 3 in
        let other : ((pgdir + 4 * i) == pgtab) ≡ false = ground (arith, a.before) in
        let tables = reference_tables 64 0 pgdir pgtab (clear_tables pgtab mem) in
        let at : prepared mem (pgdir + 4 * i) ≡ e = rw other (
          clear_entries-outside 960 64 (pgdir + 4 * i) tables (λ h. absurd (omega arith))
          ∙ reference_tables-inside 64 0 i (clear_tables pgtab mem) (omega arith) below) in
        ap page_of at ∙ omega (arith, a.table_page, a.inside);
  }

  prepared-entry : (mem : ℕ → ℕ) (n : ℕ) → n < 65536 → entry_of pgtab (prepared mem) n ≡ 0
  unfolding early_mm_fill_pgdir
  prepared-entry mem n small = elim (Bool-cases (pgtab + 4 * n == pgtab)) [
    | inl e ↦ rw e refl
    | inr e ↦
        let tables = reference_tables 64 0 pgdir pgtab (clear_tables pgtab mem) in
        rw e (
          clear_entries-outside 960 64 (pgtab + 4 * n) tables (λ h. omega (arith, a.before))
          ∙ reference_tables-outside 64 0 (pgtab + 4 * n) (clear_tables pgtab mem)
              (λ h. omega (arith, a.before))
          ∙ ground arith)
  ]

  -- After `early_mm_map_kernel` each of the first 65536 pages is mapped to itself, with the flags
  -- of the last of the kernel's regions that has it, and is not mapped if none has it; the regions
  -- end at 256 MB at most, and may start inside of a page.
  pub early_mm_map_kernel-entry :
      (s : Sections) (mem : ℕ → ℕ) (n : ℕ)
      → AllFit (kernel_regions s)
      → n < 65536
      → entry_of pgtab (early_mm_map_kernel pgdir pgtab s mem) n
        ≡ entry_after (kernel_regions s) n 0
  unfolding early_mm_map_kernel
  early_mm_map_kernel-entry s mem n fit small =
      map_regions-entry (kernel_regions s) (prepared mem) n fit (prepared-HasTables mem) small
      ∙ ap (entry_after (kernel_regions s) n) (prepared-entry mem n small)
