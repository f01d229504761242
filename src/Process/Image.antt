-- ===== src/Process/Image.antt =====
-- The memory image of a user process: `copier_code`, `allouer_pile` and `exit_code` of
-- kernel/process.c. Words are little-endian.
use operating_system_concept.Base.{
  ℕ, zero, suc, ◌+◌, ◌-◌, ◌*◌, ◌/◌, ◌%◌, ◌^◌, Option, List, ltb, if◌then◌else◌,
}
use operating_system_concept.Base.Cmd.{Cmd, pure, ◌>>=◌, ◌>>◌}
use operating_system_concept.Kernel.{finish_user}
use operating_system_concept.Paging.{page_alloc, map_page}
use operating_system_concept.Paging.Memory.{Ram, load, store}

-- What the linker and the build provide: addresses of the assembly code and of the boot page
-- directory, and the range of the binary of an application, as `hash_get` finds it in `tab_sym`.
pub record Linked : Type 0 where
  pub finish_handler : ℕ
  pub demare_proc : ℕ
  pub pgdir : ℕ
  pub find_app : List ℕ → Option (ℕ × ℕ)

unfoldable pub load_byte : ℕ → Cmd Ram ℕ
load_byte a = do w ← load (a - a % 4); pure (w / 2 ^ (8 * (a % 4)) % 256)

unfoldable pub store_byte : ℕ → ℕ → Cmd Ram (Unit {0})
store_byte a b = do
  w ← load (a - a % 4)
  let unit : ℕ = 2 ^ (8 * (a % 4))
  store (a - a % 4) (w - w / unit % 256 * unit + b * unit)

unfoldable pub copy_bytes : ℕ → ℕ → ℕ → Cmd Ram (Unit {0})
unfolding load_byte store_byte
copy_bytes zero dst src = pure tt
copy_bytes (suc n) dst src = do
  b ← load_byte src
  store_byte dst b
  copy_bytes n (dst + 1) (src + 1)

abbrev pub user_rw : ℕ
user_rw = 7

unfoldable pub copy_pages : ℕ → ℕ → ℕ → ℕ → Cmd Ram (Unit {0})
unfolding copy_bytes
copy_pages zero pgdir v src = pure tt
copy_pages (suc n) pgdir v src = do
  bloc ← page_alloc
  map_page pgdir v bloc user_rw
  copy_bytes 4096 bloc src
  copy_pages n pgdir (v + 4096) (src + 4096)

unfoldable pub copier_code : ℕ → ℕ → ℕ → Cmd Ram (Unit {0})
unfolding copy_pages
copier_code start end pgdir = do
  let l = (end - start) / 4096
  copy_pages l pgdir 0x4000_0000 start
  bloc ← page_alloc
  map_page pgdir (0x4000_0000 + l * 4096) bloc user_rw
  copy_bytes ((end - start) % 4096) bloc (start + l * 4096)

-- `n` pages of stack from `v` on; the result is the last one, or `bloc` if there is none.
unfoldable pub stack_pages : ℕ → ℕ → ℕ → ℕ → Cmd Ram ℕ
stack_pages zero pgdir v bloc = pure bloc
stack_pages (suc n) pgdir v bloc = do
  b ← page_alloc
  map_page pgdir v b user_rw
  stack_pages n pgdir (v + 4096) b

-- A partial page counts as one more page. `ssize` is not 0.
unfoldable pub allouer_pile : ℕ → ℕ → ℕ → Cmd Ram ℕ
unfolding stack_pages
allouer_pile ssize pgdir arg = do
  let n = ssize / 4096 + (if ltb 0 (ssize % 4096) then 1 else 0)
  bloc ← stack_pages n pgdir 0x8000_0000 0
  store (bloc + 4 * 1023) arg
  store (bloc + 4 * 1022) finish_user
  store (bloc + 4 * 1019) arg
  pure (0x8000_0000 + n * 4096 - 8)

unfoldable pub exit_code : ℕ → Cmd Ram (Unit {0})
unfolding store_byte
exit_code pgdir = do
  bloc ← page_alloc
  map_page pgdir finish_user bloc user_rw
  store_byte bloc 0x89
  store_byte (bloc + 1) 0xc3
  store_byte (bloc + 2) 0xb8
  store_byte (bloc + 3) 0x06
  store_byte (bloc + 7) 0xcd
  store_byte (bloc + 8) 0x31
  store_byte (bloc + 9) 0xc3
