-- ===== src/Boot.antt =====
-- kernel/boot/early_mm.c: the first page tables of the kernel, which paging starts with. Memory is
-- a function from the address of a word to that word: nothing faults as paging is still off.
pub mod Regions
pub mod Protect
use operating_system_concept.Base.{
  ℕ, zero, suc, ◌+◌, ◌-◌, ◌*◌, ◌/◌, ◌%◌, ◌^◌, Bool, ◌&&◌, not, List, [], ◌∷◌, update, ltb, leb,
  ◌==◌, if◌then◌else◌,
}
use operating_system_concept.Paging.{pd_index, pt_index, page_of}

-- The symbols of the linker's script.
pub record Sections : Type 0 where
  pub start : ℕ
  pub text_start : ℕ
  pub text_end : ℕ
  pub multiboot_start : ℕ
  pub multiboot_end : ℕ
  pub bootstrap_stack_start : ℕ
  pub bootstrap_stack_end : ℕ
  pub rodata_start : ℕ
  pub rodata_end : ℕ
  pub data_start : ℕ
  pub data_end : ℕ
  pub bss_start : ℕ
  pub bss_end : ℕ
  pub kernel_end : ℕ
  pub mem_end : ℕ

abbrev pub is_aligned : ℕ → Bool
is_aligned symbol = page_of symbol == symbol

-- `(long) end - (long) start < 4096` is false, for symbols below 2 GB.
abbrev pub is_consistent : ℕ → ℕ → Bool
is_consistent first last = leb (first + 4096) last

-- Where this is false the kernel halts. The last three tests are the code's own for `.bss`.
unfoldable pub early_mm_check : Sections → Bool
early_mm_check s =
    is_aligned s.start
    && (is_aligned s.text_start && is_aligned s.text_end && is_consistent s.text_start s.text_end)
    && (is_aligned s.multiboot_start
        && is_aligned s.multiboot_end
        && is_consistent s.multiboot_start s.multiboot_end)
    && (is_aligned s.bootstrap_stack_start
        && is_aligned s.bootstrap_stack_end
        && is_consistent s.bootstrap_stack_start s.bootstrap_stack_end)
    && (is_aligned s.rodata_start
        && is_aligned s.rodata_end
        && is_consistent s.rodata_start s.rodata_end)
    && (is_aligned s.data_start && is_aligned s.data_end && is_consistent s.data_start s.data_end)
    && (is_aligned s.data_start && is_aligned s.data_end && is_consistent s.data_start s.data_end)
    && is_consistent s.start s.kernel_end

abbrev pub page_table_ro : ℕ
page_table_ro = 1

abbrev pub page_table_rw : ℕ
page_table_rw = 3

-- The first loop of `early_mm_fill_pgdir`, from entry `i` on.
unfoldable pub reference_tables : ℕ → ℕ → ℕ → ℕ → (ℕ → ℕ) → ℕ → ℕ
reference_tables zero i pagedir pagetab mem = mem
reference_tables (suc n) i pagedir pagetab mem =
    let entry = (pagetab + i * 0x1000) % 2 ^ 32 in
    reference_tables n (suc i) pagedir pagetab
      (update mem (pagedir + 4 * i) (entry - entry % 4 + 3))

-- The second loop.
unfoldable pub clear_entries : ℕ → ℕ → ℕ → (ℕ → ℕ) → ℕ → ℕ
clear_entries zero i pagedir mem = mem
clear_entries (suc n) i pagedir mem =
    clear_entries n (suc i) pagedir (update mem (pagedir + 4 * i) 0)

unfoldable pub early_mm_fill_pgdir : ℕ → ℕ → ℕ → (ℕ → ℕ) → ℕ → ℕ
unfolding reference_tables clear_entries
early_mm_fill_pgdir pagedir pagetab count mem =
    clear_entries (1024 - count) count pagedir (reference_tables count 0 pagedir pagetab mem)

-- The flags lie below 4096, so `|` adds them.
abbrev pub map_address : ℕ → ℕ → ℕ → (ℕ → ℕ) → ℕ → ℕ
map_address pdir address flags mem =
    update mem (page_of (mem (pdir + 4 * pd_index address)) + 4 * pt_index address)
      (page_of address + flags)

-- The loop of `early_mm_map_region`, for at most `rounds` pages.
unfoldable pub map_pages : ℕ → ℕ → ℕ → ℕ → ℕ → (ℕ → ℕ) → ℕ → ℕ
map_pages zero pdir address last flags mem = mem
map_pages (suc rounds) pdir address last flags mem =
    let rest =
      map_pages rounds pdir (address + 4096) last flags (map_address pdir address flags mem) in
    if ltb address last then rest else mem

-- As many rounds as there are pages.
unfoldable pub early_mm_map_region : ℕ → ℕ → ℕ → ℕ → (ℕ → ℕ) → ℕ → ℕ
unfolding map_pages
early_mm_map_region pdir first last flags mem =
    map_pages ((last - first + 4095) / 4096) pdir first last flags mem

pub record Region : Type 0 where
  pub first : ℕ
  pub last : ℕ
  pub flags : ℕ

-- The calls of `early_mm_map_kernel`, in their order.
abbrev pub kernel_regions : Sections → List Region
kernel_regions s =
    record { first = 4096; last = s.start; flags = page_table_rw }
    ∷ record { first = s.start; last = s.text_start; flags = page_table_rw }
    ∷ record { first = s.text_start; last = s.text_end; flags = page_table_ro }
    ∷ record { first = s.multiboot_start; last = s.multiboot_end; flags = page_table_ro }
    ∷ record { first = s.rodata_start; last = s.rodata_end; flags = page_table_ro }
    ∷ record {
      first = s.bootstrap_stack_start;
      last = s.bootstrap_stack_end;
      flags = page_table_rw;
    }
    ∷ record { first = s.data_start; last = s.data_end; flags = page_table_rw }
    ∷ record { first = s.bss_start; last = s.bss_end; flags = page_table_rw }
    ∷ record { first = s.kernel_end; last = s.mem_end; flags = page_table_rw }
    ∷ []

unfoldable pub map_regions : ℕ → List Region → (ℕ → ℕ) → ℕ → ℕ
unfolding early_mm_map_region
map_regions pdir [] mem = mem
map_regions pdir (r ∷ rs) mem =
    map_regions pdir rs (early_mm_map_region pdir r.first r.last r.flags mem)

-- `memset(pgtab, 0, 4096*64)`.
abbrev pub clear_tables : ℕ → (ℕ → ℕ) → ℕ → ℕ
clear_tables pgtab mem a = if leb pgtab a && ltb a (pgtab + 4096 * 64) then 0 else mem a

unfoldable pub early_mm_map_kernel : ℕ → ℕ → Sections → (ℕ → ℕ) → ℕ → ℕ
unfolding early_mm_fill_pgdir map_regions
early_mm_map_kernel pgdir pgtab s mem =
    map_regions pgdir (kernel_regions s)
      (update (early_mm_fill_pgdir pgdir pgtab 64 (clear_tables pgtab mem)) pgtab 0)
