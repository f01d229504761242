-- ===== src/Tests/Boots.antt =====
-- The first page tables of a small kernel, and lines that are typed into the shell.
use operating_system_concept.Base.{
  ℕ, ◌+◌, ◌*◌, ◌≤◌, ◌<◌, ◌≡◌, refl, true, some, [], ◌∷◌, arith, equal,
}
use operating_system_concept.Base.Run.{ok, fault, page_fault}
use operating_system_concept.Boot.{Sections, kernel_regions, early_mm_check, early_mm_map_kernel}
use operating_system_concept.Boot.Regions.{
  Apart, AllFit, entry_of, entry_after, early_mm_map_kernel-entry,
}
use operating_system_concept.Boot.Protect.{IsInOrder, early_mm_map_kernel-protects}
use operating_system_concept.Shell.{
  skip_blanks, skip_word, argument, clear_text, copy_word, cmp_chaine_shell, cmp_arg, get_arg,
  command_of, print_processes, ps_word, on_word,
}
use operating_system_concept.Shell.Words.{IsLine, cmp_chaine_shell-equal, command_of-named}

abbrev small_kernel : Sections
small_kernel = record {
  start = 0x10_0000;
  text_start = 0x10_1000;
  text_end = 0x10_3000;
  multiboot_start = 0x10_3000;
  multiboot_end = 0x10_4000;
  bootstrap_stack_start = 0x10_4000;
  bootstrap_stack_end = 0x10_5000;
  rodata_start = 0x10_5000;
  rodata_end = 0x10_7000;
  data_start = 0x10_7000;
  data_end = 0x10_8000;
  bss_start = 0x10_8000;
  bss_end = 0x20_0000;
  kernel_end = 0x1f_f01c;
  mem_end = 0x1000_0000;
}

small_kernel-passes : early_mm_check small_kernel ≡ true
unfolding early_mm_check
small_kernel-passes = refl

small_kernel-Apart : Apart 0x10_9000 0x11_0000
small_kernel-Apart = record { table_page = refl; inside = omega arith; before = omega arith }

small_kernel-AllFit : AllFit (kernel_regions small_kernel)
small_kernel-AllFit = omega arith

small_kernel-IsInOrder : IsInOrder small_kernel
small_kernel-IsInOrder = omega arith

-- The second page of the code.
early_mm_map_kernel-entry_example :
    entry_of 0x11_0000 (early_mm_map_kernel 0x10_9000 0x11_0000 small_kernel (λ _. 0)) 0x102
    ≡ entry_after (kernel_regions small_kernel) 0x102 0
early_mm_map_kernel-entry_example =
    early_mm_map_kernel-entry 0x10_9000 0x11_0000 small_kernel-Apart small_kernel (λ _. 0) 0x102
      small_kernel-AllFit (omega arith)

early_mm_map_kernel-protects_example :
    let s = small_kernel in
    let n : ℕ = 0x102 in
    let entry = entry_of 0x11_0000 (early_mm_map_kernel 0x10_9000 0x11_0000 s (λ _. 0)) n in
    (n ≡ 0 → entry ≡ 0)
    × (s.text_start ≤ 4096 * n → 4096 * n < s.text_end → entry ≡ 4096 * n + 1)
    × (s.rodata_start ≤ 4096 * n → 4096 * n < s.rodata_end → entry ≡ 4096 * n + 1)
    × (s.data_start ≤ 4096 * n → 4096 * n < s.data_end → entry ≡ 4096 * n + 3)
    × (s.bss_start ≤ 4096 * n → 4096 * n < s.bss_end → entry ≡ 4096 * n + 3)
    × (s.kernel_end ≤ 4096 * n → 4096 * n < s.mem_end → entry ≡ 4096 * n + 3)
early_mm_map_kernel-protects_example =
    early_mm_map_kernel-protects 0x10_9000 0x11_0000 small_kernel (λ _. 0) 0x102 small_kernel-Apart
      small_kernel-AllFit small_kernel-IsInOrder (omega arith)

-- " ps", and the end of the string.
ps_typed-IsLine : IsLine (32 ∷ []) ps_word 0
ps_typed-IsLine = record { blank = refl; word = refl; ended = refl; no_word = λ e. refl }

cmp_chaine_shell-equal_example :
    cmp_chaine_shell (some (32 ∷ b'p' ∷ b's' ∷ 0 ∷ [])) (some ps_word) ≡ ok (equal ps_word ps_word)
cmp_chaine_shell-equal_example =
    cmp_chaine_shell-equal (32 ∷ []) ps_word 0 [] ps_word ps_typed-IsLine refl

command_of-named_example : command_of (32 ∷ b'p' ∷ b's' ∷ 0 ∷ []) (0 ∷ []) ≡ ok print_processes
unfolding equal
command_of-named_example =
    command_of-named (32 ∷ []) ps_word 0 [] ps_typed-IsLine (0 ∷ []) refl refl

-- "echo" alone in its array: the search for the argument runs out of it.
echo_alone :
    cmp_arg (some (b'e' ∷ b'c' ∷ b'h' ∷ b'o' ∷ 0 ∷ 0 ∷ [])) (some on_word) ≡ fault page_fault
unfolding cmp_arg argument skip_blanks skip_word
echo_alone = refl

-- "sleep 12" gives the text "12".
sleep_argument :
    get_arg (b's' ∷ b'l' ∷ b'e' ∷ b'e' ∷ b'p' ∷ 32 ∷ 49 ∷ 50 ∷ 0 ∷ []) (7 ∷ 0 ∷ 0 ∷ 0 ∷ [])
    ≡ ok (49 ∷ 50 ∷ 0 ∷ 0 ∷ [])
unfolding get_arg argument skip_blanks skip_word clear_text copy_word
sleep_argument = refl
