-- ===== src/Tests/Shares.antt =====
-- Hash tables and shared pages at concrete states: a table of strings with nothing in it, and a
-- kernel whose process 1 has a page table for the shared addresses.
use operating_system_concept.Base.{
  ◌≢◌, ℕ, ◌≡◌, refl, sym, ap, ◌∙◌, ◌↔◌, ◌<◌, ◌||◌, inl, inr, true, some, List, [], ◌∷◌, arith, ◌==◌,
  Bool-cases, update, if◌then◌else◌, equal,
}
use operating_system_concept.Base.Int.{ℤ, pos}
use operating_system_concept.Base.Run.{fault, page_fault, ok, Returns}
use operating_system_concept.Kernel.{Kernel, get_proc}
use operating_system_concept.Paging.{map_page, ensure_table}
use operating_system_concept.Paging.Memory.{Ram, load, store}
use operating_system_concept.Hash.{HashMap, size, hash_lookup, initialized}
use operating_system_concept.Hash.Search.{hash_lookup-ends}
use operating_system_concept.Hash.Names.{
  StringLib, is_zero, hash_init_string, over_names, hash_init_string-IsRoomy,
  hash_string_hfunc-word,
}
use operating_system_concept.Shared.{
  shm_create, ensure_map, Shared, no_slots, shm_publish, shm_acquire, shared_address,
}
use operating_system_concept.Shared.Access.{CanMap, HasTable, Acquired, shm_acquire-shm_publish}
use operating_system_concept.Shared.Refused.{Refused, shm_create-Refused}
use operating_system_concept.Paging.FreeList.{IsFreeList}
use operating_system_concept.Tests.Schedules.{three, parent}

equal_refl : (xs : List ℕ) → equal xs xs ≡ true
unfolding equal
equal_refl [] = refl
equal_refl (x ∷ xs) = ground (arith, equal_refl xs)

equal-same : (xs ys : List ℕ) → equal xs ys ≡ true → xs ≡ ys
unfolding equal
equal-same [] [] e = refl
equal-same [] (y ∷ ys) e = absurd (cc)
equal-same (x ∷ xs) [] e = absurd (cc)
equal-same (x ∷ xs) (y ∷ ys) e = ground (arith, e, equal-same xs ys)

abbrev pub compare_chars : List ℕ → List ℕ → ℤ
compare_chars a b = if equal a b then pos 0 else pos 1

pub compare-equal : (a b : List ℕ) → (is_zero (compare_chars a b) ≡ true) ↔ (a ≡ b)
compare-equal a b = (
  λ z. elim (Bool-cases (equal a b)) [ inl e ↦ equal-same a b e | inr n ↦ absurd (cc (rw n at z)) ],
  λ e. rw (ap (equal a) (sym e) ∙ equal_refl a) refl,
)

abbrev pub lib : StringLib
lib = record {
  strcmp = compare_chars;
  strncpy = λ a n. a;
  strcmp-equal = compare-equal;
  strncpy-short = λ a n h. refl;
}

-- The string "a" stands at two addresses.
abbrev pub names : ℕ → List ℕ
names a = if a == 0x9000 || a == 0x9100 then 97 ∷ [] else []

abbrev table : HashMap
table = hash_init_string lib names no_slots

hash_lookup-ends_example :
    Returns (hash_lookup 15 table 0x9000 (table.hfunc 0x9000)) (λ at. at < size table)
unfolding hash_init_string initialized
hash_lookup-ends_example =
    hash_lookup-ends table 0x9000 (table.hfunc 0x9000) 3 0 15 (omega arith) refl
      (hash_string_hfunc-word (names 0x9000)) (omega arith) refl (omega arith)

-- Memory with a page directory at 0x4000 and a table for the shared addresses at 0x5000.
abbrev ram : Ram
ram = record { word = update (λ _. 0) 0x4c00 0x5007; freelist = 0 }

abbrev mapped : ℕ → ℕ → Ram
mapped at e = record ram { word = update ram.word at e }

abbrev kernel : Kernel
kernel = record three {
  procs = update three.procs 1 (some (record parent { page_directory = 0x4000 }));
  ram = ram;
}

abbrev state : Shared
state = record {
  kernel = kernel;
  map = some (over_names lib names table);
  nb_shared_page = 0;
  values = λ _. record { adr_phys = 0; adr_virt = 0; nb_proc = 0 };
  names = names;
}

state-HasTable : HasTable lib 15 state
unfolding hash_init_string initialized
state-HasTable = record {
  table = table;
  is_map = refl;
  roomy = (hash_init_string-IsRoomy lib names no_slots 15 (omega arith)).0;
  sized = (hash_init_string-IsRoomy lib names no_slots 15 (omega arith)).1;
  hashed = λ i a. absurd (cc);
}

kernel-CanMap : CanMap kernel 0xc000_0000 0x7000 (mapped 0x5000 0x7007)
unfolding map_page ensure_table load store get_proc
kernel-CanMap = record {
  proc = record parent { page_directory = 0x4000 };
  present = refl;
  maps = refl;
}

shm_acquire-shm_publish_example :
    (s' : Shared) × (shm_publish 15 0x9000 0x8000 0x7000 state ≡ ok (shared_address state, s'))
    × ((k : Kernel) (r' : Ram)
        → CanMap k (shared_address state) 0x7000 r'
        → (s'' : Shared) × (shm_acquire 15 0x9100 (record s' { kernel = k })
            ≡ ok (shared_address state, s''))
          × Acquired 0x8000 (shared_address state) r' 2 s'')
shm_acquire-shm_publish_example =
    shm_acquire-shm_publish lib 15 0x9000 0x8000 0x7000 0x9100 state (mapped 0x5000 0x7007)
      state-HasTable kernel-CanMap (omega arith) (omega arith) (omega arith) refl

-- One page, at 0x6000, is free.
abbrev one_page : Shared
one_page = record state {
  kernel = record three { ram = record { word = λ _. 0; freelist = 0x6000 } };
}

one_page-IsFreeList : IsFreeList one_page.kernel.ram (0x6000 ∷ [])
one_page-IsFreeList = record {
  chain = (refl, record { low = omega arith; high = omega arith; aligned = refl }, refl);
  distinct = (refl, tt);
}

abbrev name_at : ℕ
name_at = 0x9000

shm_create-Refused_example :
    (name_at ≡ 0 → shm_create lib 15 name_at 0x8000 one_page ≡ ok (0, ensure_map lib one_page))
    × (name_at ≢ 0
        → IsFreeList one_page.kernel.ram []
        → shm_create lib 15 name_at 0x8000 one_page ≡ fault page_fault)
    × (name_at ≢ 0
        → IsFreeList one_page.kernel.ram (0x6000 ∷ [])
        → Returns
            (shm_create lib 15 name_at 0x8000 one_page)
            (λ (adr, s'). (adr ≡ 0) × Refused one_page s' 0x6000 (97 ∷ [])))
shm_create-Refused_example = shm_create-Refused lib 15 name_at 0x8000 0x6000 one_page

-- So the page is lost.
last_page_lost :
    Returns
      (shm_create lib 15 name_at 0x8000 one_page)
      (λ (adr, s'). (adr ≡ 0) × Refused one_page s' 0x6000 (97 ∷ []))
last_page_lost =
    (shm_create-Refused lib 15 name_at 0x8000 0x6000 one_page).2 (omega arith) one_page-IsFreeList
