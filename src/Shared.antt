-- ===== src/Shared.antt =====
-- The shared pages of kernel/process.c: `shm_create`, `shm_acquire` and `shm_release`.
-- `map`, `nb_shared_page` and the cells of type `_val` are globals of the kernel; `names` gives the
-- string at an address. `mem_alloc` is taken to succeed: it gives the cell whose address is an
-- argument of `shm_create`. `rounds` bounds the probes of one search of the table.
pub mod Access
pub mod Refused
use operating_system_concept.Base.{
  ℕ, ◌+◌, ◌-◌, ◌*◌, ◌%◌, ◌^◌, Bool, true, false, Option, none, some, List, [], ◌∷◌, update, ◌==◌,
  if◌then◌else◌,
}
use operating_system_concept.Base.Run.{Run, ok, fault, page_fault, ◌>>=◌}
use operating_system_concept.Kernel.{Kernel, name_size, get_proc}
use operating_system_concept.Paging.{page_alloc, page_free, map_page, unmap_page, get_physaddr}
use operating_system_concept.Process.Image.{user_rw}
use operating_system_concept.Process.Start.{on_ram}
use operating_system_concept.Hash.{HashMap, empty_slot, hash_get, hash_set, hash_del}
use operating_system_concept.Hash.Names.{StringLib, over_names, hash_init_string}

pub record Val : Type 0 where
  pub adr_phys : ℕ
  pub adr_virt : ℕ
  pub nb_proc : ℕ

pub record Shared : Type 0 where
  pub kernel : Kernel
  pub map : Option HashMap
  pub nb_shared_page : ℕ
  pub values : ℕ → Val
  pub names : ℕ → List ℕ

abbrev pub no_slots : HashMap
no_slots = record {
  fill = 0;
  count = 0;
  mask = 0;
  table = λ _. empty_slot;
  hfunc = λ _. 0;
  cmp = λ _ _. false;
}

-- The table, made at the first call.
abbrev pub table_of : StringLib → (ℕ → List ℕ) → Option HashMap → HashMap
table_of lib names none = hash_init_string lib names no_slots
table_of lib names (some map) = map

abbrev pub ensure_map : StringLib → Shared → Shared
ensure_map lib s = record s { map = some (table_of lib s.names s.map) }

-- The keys of the table are compared as strings, so it sees the new one.
abbrev pub rename : StringLib → (ℕ → List ℕ) → Option HashMap → Option HashMap
rename lib names none = none
rename lib names (some map) = some (over_names lib names map)

-- `strncpy(cle, key, NAME_SIZE)` into a cleared page.
unfoldable pub store_name : StringLib → ℕ → ℕ → Shared → Run Shared
store_name lib cle key s =
    let names = update s.names cle (lib.strncpy (s.names key) name_size) in
    if cle == 0
    then fault page_fault
    else ok (record s { names = names; map = rename lib names s.map })

abbrev pub shared_address : Shared → ℕ
shared_address s = (0xc000_0000 + s.nb_shared_page * 0x1000) % 2 ^ 32

abbrev pub new_value : ℕ → Shared → Val
new_value page s = record { adr_phys = page; adr_virt = shared_address s; nb_proc = 1 }

-- The page goes into the cell, the address space of the active process, and the table.
unfoldable pub shm_publish : ℕ → ℕ → ℕ → ℕ → Shared → Run (ℕ × Shared)
shm_publish rounds cle cell page s = if page == 0 then ok (0, s) else do
  let value = new_value page s
  p ← get_proc s.kernel.running s.kernel
  (_, k) ← on_ram (map_page p.page_directory value.adr_virt page user_rw) s.kernel
  (done, map) ← hash_set rounds s.map cle cell
  ok (
    if done then value.adr_virt else 0,
    record s {
      kernel = k;
      map = map;
      nb_shared_page = (s.nb_shared_page + 1) % 2 ^ 32;
      values = update s.values cell value;
    },
  )

-- The address of the page, or NULL, which is 0.
unfoldable pub shm_create : StringLib → ℕ → ℕ → ℕ → Shared → Run (ℕ × Shared)
unfolding store_name shm_publish
shm_create lib rounds key cell s = if key == 0 then ok (0, ensure_map lib s) else do
  let s₁ = ensure_map lib s
  (cle, k₁) ← on_ram page_alloc s₁.kernel
  s₂ ← store_name lib cle key (record s₁ { kernel = k₁ })
  (page, k₂) ← on_ram page_alloc s₂.kernel
  shm_publish rounds cle cell page (record s₂ { kernel = k₂ })

-- `hash_get(map, key, NULL)`: the hash of a key that is NULL reads through it.
unfoldable pub shm_find : ℕ → ℕ → Option HashMap → Run ℕ
shm_find rounds key none = ok 0
shm_find rounds key (some map) =
    if key == 0 then fault page_fault else hash_get rounds (some map) key 0

unfoldable pub shm_acquire : ℕ → ℕ → Shared → Run (ℕ × Shared)
unfolding shm_find
shm_acquire rounds key s = do
  cell ← shm_find rounds key s.map
  let old = s.values cell
  let value = record old { nb_proc = (old.nb_proc + 1) % 2 ^ 32 }
  if cell == 0 then ok (0, s) else (do
    p ← get_proc s.kernel.running s.kernel
    (_, k) ← on_ram (map_page p.page_directory value.adr_virt value.adr_phys user_rw) s.kernel
    ok (value.adr_virt, record s { kernel = k; values = update s.values cell value }))

-- The page leaves the address space of the active process, if it is there.
unfoldable pub shm_leave : ℕ → Shared → Run Shared
shm_leave cell s = do
  let old = s.values cell
  p ← get_proc s.kernel.running s.kernel
  (physical, _) ← on_ram (get_physaddr old.adr_virt p.page_directory) s.kernel
  let value = record old { nb_proc = (old.nb_proc + (2 ^ 32 - 1)) % 2 ^ 32 }
  if physical == 0 then ok s else (do
    (_, k) ← on_ram (unmap_page p.page_directory old.adr_virt) s.kernel
    ok (record s { kernel = k; values = update s.values cell value }))

-- A page that no process has is given back.
unfoldable pub shm_drop : ℕ → ℕ → ℕ → Shared → Run Shared
shm_drop rounds key cell s =
    if (s.values cell).nb_proc == 0
    then (do
      (_, map) ← hash_del rounds s.map key
      (_, k) ← on_ram (page_free (s.values cell).adr_phys) s.kernel
      ok (record s { kernel = k; map = map }))
    else ok s

unfoldable pub shm_release : ℕ → ℕ → Shared → Run Shared
unfolding shm_find shm_leave shm_drop
shm_release rounds key s = do
  cell ← shm_find rounds key s.map
  if cell == 0 then ok s else (do s₁ ← shm_leave cell s; shm_drop rounds key cell s₁)

-- The loop of `init_tab_sym` over the table of the linked programs, which the build generates:
-- the addresses of a name and of its entry.
unfoldable pub add_symbols : ℕ → List (ℕ × ℕ) → Option HashMap → Run (Option HashMap)
add_symbols rounds [] map = ok map
add_symbols rounds ((name, symbol) ∷ rest) map =
    hash_set rounds map name symbol >>= λ (_, map'). add_symbols rounds rest map'

unfoldable pub init_tab_sym : StringLib → ℕ → (ℕ → List ℕ) → List (ℕ × ℕ) → Run (Option HashMap)
unfolding add_symbols
init_tab_sym lib rounds names symbols =
    add_symbols rounds symbols (some (hash_init_string lib names no_slots))
