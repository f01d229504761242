-- ===== src/Shared/Access.antt =====
-- A page that one process shares under a name is the page that another one gets under that name.
use mathlib.Core.Path.{subst}
use operating_system_concept.Base.{
  ℕ, ◌+◌, ◌%◌, ◌^◌, ◌≡◌, ◌≢◌, refl, sym, ap, ◌∙◌, false, some, arith, update, update_self, ◌==◌,
}
use operating_system_concept.Base.Run.{ok}
use operating_system_concept.Kernel.{Proc, Kernel, get_proc}
use operating_system_concept.Paging.{map_page}
use operating_system_concept.Paging.Memory.{Ram}
use operating_system_concept.Process.Image.{user_rw}
use operating_system_concept.Hash.{HashMap, hash_get}
use operating_system_concept.Hash.Aside.{IsCompare}
use operating_system_concept.Hash.Names.{
  StringLib, hash_string_hfunc, hash_string_cmp, over_names, hash_string_hfunc-word,
  hash_string_cmp-IsCompare,
}
use operating_system_concept.Hash.Writes.{IsRoomy, IsSized, IsHashed}
use operating_system_concept.Hash.Stored.{hash_get-hash_set}
use operating_system_concept.Hash.SameKey.{hash_get-SameKey}
use operating_system_concept.Shared.{
  Val, Shared, new_value, shared_address, shm_publish, shm_find, shm_acquire,
}

-- The page can be mapped into the address space of the active process, which leaves memory `r`.
pub record CanMap (k : Kernel) (v p : ℕ) (r : Ram) : Type 0 where
  pub proc : Proc
  pub present : get_proc k.running k ≡ ok proc
  pub maps : map_page proc.page_directory v p user_rw k.ram ≡ ok (tt, r)

-- The table of a state with room for one more name.
pub record HasTable (lib : StringLib) (rounds : ℕ) (s : Shared) : Type 0 where
  pub table : HashMap
  pub is_map : s.map ≡ some (over_names lib s.names table)
  pub roomy : IsRoomy (over_names lib s.names table) rounds
  pub sized : IsSized (over_names lib s.names table) (table.fill + 1) (table.count + 1)
  pub hashed : IsHashed (over_names lib s.names table)

-- What an acquisition leaves.
pub record Acquired (cell v : ℕ) (r : Ram) (count : ℕ) (s' : Shared) : Type 0 where
  pub memory : s'.kernel.ram ≡ r
  pub users : (s'.values cell).nb_proc ≡ count
  pub place : (s'.values cell).adr_virt ≡ v

-- `shm_acquire` of a name that is in the table.
acquire_cell :
    (rounds key cell : ℕ) (s : Shared) (value : Val) (r : Ram)
    → shm_find rounds key s.map ≡ ok cell
    → cell ≢ 0
    → s.values cell ≡ value
    → CanMap s.kernel value.adr_virt value.adr_phys r
    → (s' : Shared) × (shm_acquire rounds key s ≡ ok (value.adr_virt, s'))
      × Acquired cell value.adr_virt r ((value.nb_proc + 1) % 2 ^ 32) s'
unfolding shm_acquire
acquire_cell rounds key cell s value r found there held c =
    let none_such : (cell == 0) ≡ false = ground arith in
    let next = record value { nb_proc = (value.nb_proc + 1) % 2 ^ 32 } in
    let self = update_self s.values cell next in
    (
      record s { kernel = record s.kernel { ram = r }; values = update s.values cell next },
      rw (found, none_such, held) (rw (c.present, c.maps) refl),
      record { memory = refl; users = ap (λ v. v.nb_proc) self; place = ap (λ v. v.adr_virt) self },
    )

-- Where the table of names has room and the page can be mapped, a page put under a name gets the
-- next address. A process that asks for that name directly afterwards, through whatever pointer, and
-- can map the page, gets the same page at the same address, and the cell counts two processes. In
-- between only the kernel may have changed: the table of names, the cells and the names are as the
-- first call left them.
pub shm_acquire-shm_publish :
    (lib : StringLib) (rounds cle cell page key : ℕ) (s : Shared) (r : Ram)
    → HasTable lib rounds s
    → CanMap s.kernel (shared_address s) page r
    → cell ≢ 0
    → page ≢ 0
    → key ≢ 0
    → s.names key ≡ s.names cle
    → (s' : Shared) × (shm_publish rounds cle cell page s ≡ ok (shared_address s, s'))
      × ((k : Kernel) (r' : Ram)
          → CanMap k (shared_address s) page r'
          → (s'' : Shared) × (shm_acquire rounds key (record s' { kernel = k })
              ≡ ok (shared_address s, s''))
            × Acquired cell (shared_address s) r' 2 s'')
unfolding shm_publish shm_find
shm_acquire-shm_publish lib rounds cle cell page key s r t c cell_there page_there key_there same =
    let map = over_names lib s.names t.table in
    let (map', stored, hashed, hfunc, cmp, gets, others) =
      hash_get-hash_set map cle cell rounds (hash_string_cmp-IsCompare lib s.names) t.roomy
        (hash_string_hfunc-word (s.names cle)) t.sized in
    let s' = record s {
      kernel = record s.kernel { ram = r };
      map = some map';
      nb_shared_page = (s.nb_shared_page + 1) % 2 ^ 32;
      values = update s.values cell (new_value page s);
    } in
    let here : (page == 0) ≡ false = ground arith in
    let found : hash_get rounds (some map') key 0 ≡ ok cell =
      hash_get-SameKey map' cle key
        (subst IsCompare (sym cmp) (hash_string_cmp-IsCompare lib s.names))
        (record {
          hash = ap (λ f. f key) hfunc ∙ ap hash_string_hfunc same ∙ sym (ap (λ f. f cle) hfunc);
          alike = λ x.
              ap (λ f. f x key) cmp
              ∙ ap (λ name. hash_string_cmp lib (s.names x) name) same
              ∙ sym (ap (λ f. f x cle) cmp);
        })
        (hashed t.hashed) rounds 0
      ∙ gets 0 in
    (
      s',
      rw here (rw (c.present, c.maps, t.is_map) (rw stored refl)),
      λ k r' m.
          acquire_cell rounds key cell (record s' { kernel = k }) (new_value page s) r'
            (let no_null : (key == 0) ≡ false = ground arith in rw no_null found) cell_there
            (update_self s.values cell (new_value page s)) m,
    )
