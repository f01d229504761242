-- ===== src/Debugger/Paged.antt =====
-- What `phys_addr_lookup` finds: bytes that lie behind one another.
use mathlib.Core.Path.{subst}
use operating_system_concept.Base.{
  ℕ, ◌+◌, ◌-◌, ◌*◌, ◌/◌, ◌%◌, ◌^◌, ◌<◌, ◌≡◌, refl, sym, ap, ◌∙◌, inl, inr, true, false, Option,
  none, some, arith, Bool-cases,
}
use operating_system_concept.Debugger.Lookup.{
  Bytes, read_word, Client, Place, pfn, is_valid, is_superpage, paging_on, small_page, large_page,
  phys_addr_lookup,
}

-- The address of the byte at a virtual address.
abbrev pub translate : Client → Bytes → ℕ → Option ℕ
translate c mem v = (phys_addr_lookup c mem v).0

-- A place of `len` bytes, the next of which lie behind one another.
abbrev pub IsRun : Client → Bytes → ℕ → Place → Type 0
IsRun c mem v (none, len) = len ≡ 0
IsRun c mem v (some pa, len) =
    (0 < len) × ((i : ℕ) → i < len → translate c mem (v + i) ≡ some (pa + i))

module _ (c : Client) (mem : Bytes) where
  directory : ℕ → ℕ
  directory v = read_word mem (pfn c.cr3 + 4 * (v / 2 ^ 22 % 2 ^ 10))

  small_next :
      (pte v i : ℕ)
      → is_valid pte ≡ true
      → i < 2 ^ 12 - v % 2 ^ 12
      → (small_page pte (v + i)).0 ≡ some (pfn pte + v % 2 ^ 12 + i)
  unfolding small_page
  small_next pte v i valid inside =
      let next : (v + i) % 2 ^ 12 ≡ v % 2 ^ 12 + i = omega (arith, inside) in
      rw valid (ap (λ o. some (pfn pte + o)) next ∙ ap some (omega arith))

  large_next :
      (pde v i : ℕ)
      → i < 2 ^ 22 - v % 2 ^ 22
      → (large_page pde (v + i)).0 ≡ some (pde - pde % 2 ^ 22 + v % 2 ^ 22 + i)
  unfolding large_page
  large_next pde v i inside =
      let next : (v + i) % 2 ^ 22 ≡ v % 2 ^ 22 + i = omega (arith, inside) in
      ap (λ o. some (pde - pde % 2 ^ 22 + o)) next ∙ ap some (omega arith)

  page_entry : ℕ → ℕ
  page_entry v = read_word mem (pfn (directory v) + 4 * (v / 2 ^ 12 % 2 ^ 10))

  lookup_off : (v : ℕ) → paging_on c.cr0 ≡ false → phys_addr_lookup c mem v ≡ (some v, 0xffff_ffff)
  unfolding phys_addr_lookup
  lookup_off v off = rw off refl

  lookup_unmapped :
      (v : ℕ)
      → paging_on c.cr0 ≡ true
      → is_valid (directory v) ≡ false
      → phys_addr_lookup c mem v ≡ (none, 0)
  unfolding phys_addr_lookup directory
  lookup_unmapped v on n = rw (on, n) refl

  lookup_large :
      (v : ℕ)
      → paging_on c.cr0 ≡ true
      → is_valid (directory v) ≡ true
      → is_superpage (directory v) ≡ true
      → phys_addr_lookup c mem v ≡ large_page (directory v) v
  unfolding phys_addr_lookup directory
  lookup_large v on valid large = rw (on, valid, large) refl

  lookup_small :
      (v : ℕ)
      → paging_on c.cr0 ≡ true
      → is_valid (directory v) ≡ true
      → is_superpage (directory v) ≡ false
      → phys_addr_lookup c mem v ≡ small_page (page_entry v) v
  unfolding phys_addr_lookup directory page_entry
  lookup_small v on valid large = rw (on, valid, large) refl

  -- The entries of the next bytes of a page are the same.
  same_directory : (v i : ℕ) → i < 2 ^ 22 - v % 2 ^ 22 → directory (v + i) ≡ directory v
  unfolding directory
  same_directory v i inside = ap (λ k. read_word mem (pfn c.cr3 + 4 * k)) (omega (arith, inside))

  same_entry : (v i : ℕ) → i < 2 ^ 12 - v % 2 ^ 12 → page_entry (v + i) ≡ page_entry v
  unfolding page_entry
  same_entry v i inside =
      ap (λ d. read_word mem (pfn d + 4 * ((v + i) / 2 ^ 12 % 2 ^ 10)))
        (same_directory v i (omega (arith, inside)))
      ∙ ap (λ k. read_word mem (pfn (directory v) + 4 * k)) (omega (arith, inside))

  small-IsRun :
      (v : ℕ)
      → paging_on c.cr0 ≡ true
      → is_valid (directory v) ≡ true
      → is_superpage (directory v) ≡ false
      → IsRun c mem v (small_page (page_entry v) v)
  unfolding small_page
  small-IsRun v on valid small = elim (Bool-cases (is_valid (page_entry v))) [
    | inl e ↦ rw e (
      omega arith,
      λ i inside.
          let d = same_directory v i (omega (arith, inside)) in
          ap (λ p. p.0)
            (lookup_small (v + i) on (ap is_valid d ∙ valid) (ap is_superpage d ∙ small))
          ∙ ap (λ p. (small_page p (v + i)).0) (same_entry v i inside)
          ∙ small_next (page_entry v) v i e inside,
    )
    | inr n ↦ rw n refl
  ]

  large-IsRun :
      (v : ℕ)
      → paging_on c.cr0 ≡ true
      → is_valid (directory v) ≡ true
      → is_superpage (directory v) ≡ true
      → IsRun c mem v (large_page (directory v) v)
  unfolding large_page
  large-IsRun v on valid large = (
    omega arith,
    λ i inside.
        let d = same_directory v i inside in
        ap (λ p. p.0) (lookup_large (v + i) on (ap is_valid d ∙ valid) (ap is_superpage d ∙ large))
        ∙ ap (λ p. (large_page p (v + i)).0) d
        ∙ large_next (directory v) v i inside,
  )

  -- What the lookup gives is a run.
  pub lookup-IsRun : (v : ℕ) → IsRun c mem v (phys_addr_lookup c mem v)
  lookup-IsRun v = elim (Bool-cases (paging_on c.cr0)) [
    | inr off ↦
        subst (IsRun c mem v) (sym (lookup_off v off))
          (omega arith, λ i inside. ap (λ p. p.0) (lookup_off (v + i) off))
    | inl on ↦ elim (Bool-cases (is_valid (directory v))) [
      | inr n ↦ subst (IsRun c mem v) (sym (lookup_unmapped v on n)) refl
      | inl valid ↦ elim (Bool-cases (is_superpage (directory v))) [
        | inl large ↦
            subst (IsRun c mem v) (sym (lookup_large v on valid large))
              (large-IsRun v on valid large)
        | inr small ↦
            subst (IsRun c mem v) (sym (lookup_small v on valid small))
              (small-IsRun v on valid small)
      ]
    ]
  ]
