-- ===== src/Boot/Protect.antt =====
-- What the first page tables protect, with the sections in the order of kernel/build/kernel.lds.
use operating_system_concept.Base.{
  ℕ, zero, suc, ◌+◌, ◌*◌, ◌≤◌, ◌<◌, ◌≡◌, refl, ap, ◌∙◌, ◌⊎◌, inl, inr, true, false, List, [], ◌∷◌,
  arith, if◌then◌else◌, ltb, ◌/◌, ◌%◌, Bool-cases,
}
use operating_system_concept.Boot.{Sections, Region, kernel_regions, early_mm_map_kernel}
use operating_system_concept.Boot.Regions.{
  Apart, AllFit, in_region, entry_of, entry_after, early_mm_map_kernel-entry,
}

-- The sections as kernel/build/kernel.lds lays them out: each starts at a page, `_end` stands
-- where .bss ends, and `_bss_end` at the end of the last page of .bss.
pub record IsInOrder (s : Sections) : Type 0 where
  pub start : 4096 ≤ s.start
  pub crt0 : s.start ≤ s.text_start
  pub text : s.text_start ≤ s.text_end
  pub multiboot : s.text_end ≤ s.multiboot_start
  pub multiboot_size : s.multiboot_start ≤ s.multiboot_end
  pub stack : s.multiboot_end ≤ s.bootstrap_stack_start
  pub stack_size : s.bootstrap_stack_start ≤ s.bootstrap_stack_end
  pub rodata : s.bootstrap_stack_end ≤ s.rodata_start
  pub rodata_size : s.rodata_start ≤ s.rodata_end
  pub data_place : s.rodata_end ≤ s.data_start
  pub data_size : s.data_start ≤ s.data_end
  pub bss : s.data_end ≤ s.bss_start
  pub bss_size : s.bss_start ≤ s.kernel_end
  pub bss_page : s.kernel_end ≤ s.bss_end
  pub memory : s.bss_end ≤ s.mem_end
  pub start_page : s.start % 4096 ≡ 0
  pub text_page : s.text_start % 4096 ≡ 0
  pub multiboot_page : s.multiboot_start % 4096 ≡ 0
  pub stack_page : s.bootstrap_stack_start % 4096 ≡ 0
  pub rodata_page : s.rodata_start % 4096 ≡ 0
  pub data_page : s.data_start % 4096 ≡ 0
  pub bss_start_page : s.bss_start % 4096 ≡ 0
  pub memory_page : s.mem_end % 4096 ≡ 0

-- No region has the page.
abbrev AllMiss : List Region → ℕ → Type 0
AllMiss [] n = Unit
AllMiss (r ∷ rs) n = ((n < r.first / 4096) ⊎ (r.last ≤ 4096 * n + r.first % 4096)) × AllMiss rs n

-- The region behind the first `k` has the page, and none behind it.
abbrev HitAt : ℕ → List Region → ℕ → ℕ → Type 0
HitAt k [] n flags = ⊥
HitAt zero (r ∷ rs) n flags =
    (r.flags ≡ flags) × (r.first / 4096 ≤ n) × (4096 * n + r.first % 4096 < r.last) × AllMiss rs n
HitAt (suc k) (r ∷ rs) n flags = HitAt k rs n flags

in_region-miss :
    (r : Region) (n : ℕ)
    → ((n < r.first / 4096) ⊎ (r.last ≤ 4096 * n + r.first % 4096))
    → in_region r n ≡ false
in_region-miss r n (inl h) = ground arith
in_region-miss r n (inr h) = ground arith

entry_after-AllMiss : (rs : List Region) (n e : ℕ) → AllMiss rs n → entry_after rs n e ≡ e
entry_after-AllMiss [] n e m = refl
entry_after-AllMiss (r ∷ rs) n e m = rw (in_region-miss r n m.0) (entry_after-AllMiss rs n e m.1)

entry_after-HitAt :
    (k : ℕ) (rs : List Region) (n e flags : ℕ)
    → HitAt k rs n flags
    → entry_after rs n e ≡ 4096 * n + flags
entry_after-HitAt k [] n e flags h = absurd h
entry_after-HitAt zero (r ∷ rs) n e flags (same, lo, hi, miss) =
    let hit : in_region r n ≡ true = ground arith in
    rw hit (entry_after-AllMiss rs n (4096 * n + r.flags) miss ∙ ap (λ f. 4096 * n + f) same)
entry_after-HitAt (suc k) (r ∷ rs) n e flags h =
    entry_after-HitAt k rs n (if in_region r n then 4096 * n + r.flags else e) flags h

-- With the sections laid out as by kernel/build/kernel.lds and the memory that is managed ending at
-- 256 MB at most, the first page is not mapped, so an access through NULL faults; code and read-only
-- data are mapped read-only, and data, bss and the free memory read-write.
pub early_mm_map_kernel-protects :
    (pgdir pgtab : ℕ) (s : Sections) (mem : ℕ → ℕ) (n : ℕ)
    → Apart pgdir pgtab
    → AllFit (kernel_regions s)
    → IsInOrder s
    → n < 65536
    → let entry = entry_of pgtab (early_mm_map_kernel pgdir pgtab s mem) n in
      (n ≡ 0 → entry ≡ 0)
      × (s.text_start ≤ 4096 * n → 4096 * n < s.text_end → entry ≡ 4096 * n + 1)
      × (s.rodata_start ≤ 4096 * n → 4096 * n < s.rodata_end → entry ≡ 4096 * n + 1)
      × (s.data_start ≤ 4096 * n → 4096 * n < s.data_end → entry ≡ 4096 * n + 3)
      × (s.bss_start ≤ 4096 * n → 4096 * n < s.bss_end → entry ≡ 4096 * n + 3)
      × (s.kernel_end ≤ 4096 * n → 4096 * n < s.mem_end → entry ≡ 4096 * n + 3)
early_mm_map_kernel-protects pgdir pgtab s mem n a fit o small =
    let e = early_mm_map_kernel-entry pgdir pgtab a s mem n fit small in
    let regions = kernel_regions s in
    (
      λ null. e ∙ entry_after-AllMiss regions n 0 (omega (arith, null)),
      λ lo hi. e ∙ entry_after-HitAt 2 regions n 0 1 (omega arith),
      λ lo hi. e ∙ entry_after-HitAt 4 regions n 0 1 (omega arith),
      λ lo hi. e ∙ entry_after-HitAt 6 regions n 0 3 (omega arith),
      λ lo hi. elim (Bool-cases (ltb n (s.kernel_end / 4096))) [
        | inl before ↦ e ∙ entry_after-HitAt 7 regions n 0 3 (ground (arith, before))
        | inr behind ↦ e ∙ entry_after-HitAt 8 regions n 0 3 (ground (arith, behind))
      ],
      λ lo hi. e ∙ entry_after-HitAt 8 regions n 0 3 (omega arith),
    )
