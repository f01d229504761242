-- ===== src/Paging.antt =====
-- kernel/freelist.c and kernel/mapping.c: the list of free 4 KB pages, which is kept in the pages
-- themselves, and the two-level page tables of a process.
-- Memory is a function from the address of a word, in bytes, to that word. An access below the
-- first page or past the 256 MB that the kernel maps faults.
pub mod Memory
pub mod FreeList
pub mod Translate
pub mod Tables
pub mod FreshTable
pub mod NewTable
pub mod Pushed
pub mod Mapped
pub mod Freed
use operating_system_concept.Base.{
  ℕ, zero, suc, ◌+◌, ◌-◌, ◌*◌, ◌/◌, ◌%◌, ◌^◌, Bool, true, false, ◌&&◌, update, ltb, leb, ◌==◌,
  if◌then◌else◌,
}
use operating_system_concept.Base.Run.{Fault, panic, ok}
use operating_system_concept.Base.Cmd.{Cmd, pure, stop, ◌>>=◌, ◌>>◌}
use Memory.{Ram, load, store, zero_page, get_freelist, set_freelist}

-- The loop of `initPageList`: `rounds` pages get the address of the page behind them.
unfoldable pub link_pages : ℕ → ℕ → ℕ → Cmd Ram (Unit {0})
link_pages zero ptr end = pure tt
link_pages (suc rounds) ptr end =
    let rest = link_pages rounds (ptr + 4096) end in
    if ltb (ptr + 4096) end then (do store ptr (ptr + 4096); rest) else pure tt

unfoldable pub init_page_list : ℕ → ℕ → ℕ → Cmd Ram (Unit {0})
unfolding link_pages
init_page_list rounds start end = do link_pages rounds start end; set_freelist start

unfoldable pub page_alloc : Cmd Ram ℕ
page_alloc = do
  block ← get_freelist
  if block == 0
      then pure 0
      else do next ← load block; set_freelist next; zero_page block; pure block

unfoldable pub page_free : ℕ → Cmd Ram (Unit {0})
page_free block =
    if block % 4096 == 0
    then (if block == 0
        then pure tt
        else do next ← get_freelist; store block next; set_freelist block)
    else stop panic

abbrev pub pd_index : ℕ → ℕ
pd_index v = v / 2 ^ 22

abbrev pub pt_index : ℕ → ℕ
pt_index v = v / 2 ^ 12 % 1024

-- `x & 0xFFFFF000` of a 32-bit word, and `x | 7`.
abbrev pub page_of : ℕ → ℕ
page_of x = x - x % 4096

abbrev pub or_7 : ℕ → ℕ
or_7 x = x - x % 8 + 7

-- `map_page` allocates the page table if there is none.
unfoldable pub ensure_table : ℕ → ℕ → Cmd Ram (Unit {0})
ensure_table pdir i = do
  entry ← load (pdir + 4 * i)
  if entry == 0 then (do page ← page_alloc; store (pdir + 4 * i) (or_7 page)) else pure tt

-- The flags lie below 4096, so `|` adds them.
unfoldable pub map_page : ℕ → ℕ → ℕ → ℕ → Cmd Ram (Unit {0})
unfolding ensure_table
map_page pdir v p flags = do
  ensure_table pdir (pd_index v)
  entry ← load (pdir + 4 * pd_index v)
  let slot = page_of entry + 4 * pt_index v
  old ← load slot
  if old == 0 then store slot (page_of p + flags) else stop panic

unfoldable pub unmap_page : ℕ → ℕ → Cmd Ram (Unit {0})
unmap_page pdir v = do
  entry ← load (pdir + 4 * pd_index v)
  store (page_of entry + 4 * pt_index v) 0

-- NULL is 0.
unfoldable pub get_physaddr : ℕ → ℕ → Cmd Ram ℕ
get_physaddr v pdir = do
  entry ← load (pdir + 4 * pd_index v)
  if entry == 0 then pure 0 else do
    page ← load (page_of entry + 4 * pt_index v)
    if page == 0 then pure 0 else pure ((page_of page + v % 4096) % 2 ^ 32)

-- `map_kernel` from entry `i` on: `kernel` is the boot page directory.
unfoldable pub copy_entries : ℕ → ℕ → ℕ → ℕ → Cmd Ram (Unit {0})
copy_entries zero kernel pdir i = pure tt
copy_entries (suc n) kernel pdir i = do
  entry ← (if ltb i 64 then load (kernel + 4 * i) else pure 0)
  store (pdir + 4 * i) entry
  copy_entries n kernel pdir (i + 1)

unfoldable pub create_pgdir : ℕ → Cmd Ram ℕ
unfolding copy_entries
create_pgdir kernel = do pdir ← page_alloc; copy_entries 1024 kernel pdir 0; pure pdir

unfoldable pub free_mapped : ℕ → ℕ → ℕ → Cmd Ram (Unit {0})
unfolding page_free
free_mapped zero table j = pure tt
free_mapped (suc n) table j = do
  entry ← load (table + 4 * j)
  (if entry == 0 then pure tt else page_free (page_of entry))
  free_mapped n table (j + 1)

unfoldable pub free_tables : ℕ → ℕ → ℕ → Cmd Ram (Unit {0})
unfolding free_mapped
free_tables zero pdir i = pure tt
free_tables (suc n) pdir i = do
  entry ← load (pdir + 4 * i)
  (if entry == 0 then pure tt else do free_mapped 1024 (page_of entry) 0; page_free (page_of entry))
  free_tables n pdir (i + 1)

unfoldable pub libere_pages : ℕ → Cmd Ram (Unit {0})
unfolding free_tables
libere_pages pdir = do free_tables 960 pdir 64; page_free pdir
