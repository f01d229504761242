-- ===== src/Hash.antt =====
-- kernel/hash.c: the hash table with open addressing. Keys, values and hash codes are 32-bit words.
-- The number of slots is a power of two, so `index & mask` is a remainder. `mem_alloc` is taken to
-- succeed. `rounds` bounds the probes of one search.
pub mod Names
pub mod Cycle
pub mod Probe
pub mod Search
pub mod Aside
pub mod Writes
pub mod Stored
pub mod SameKey
pub mod Tally
pub mod Sound
pub mod Answers
pub mod Copied
pub mod Copy
pub mod Resize
pub mod Change
pub mod Stores
pub mod Refine
use operating_system_concept.Base.{
  ℕ, zero, suc, ◌+◌, ◌-◌, ◌*◌, ◌/◌, ◌%◌, ◌^◌, Bool, true, false, ◌&&◌, ◌||◌, Option, none, some,
  update, ltb, leb, ◌==◌, if◌then◌else◌,
}
use operating_system_concept.Base.Run.{Run, ok, fault, page_fault, out_of_fuel, ◌>>=◌}

abbrev pub hash_minsize : ℕ
hash_minsize = 8

pub data SlotMode : Type 0 where
  sl_empty sl_active sl_deleted : SlotMode

abbrev pub is_sl_empty : SlotMode → Bool
is_sl_empty sl_empty = true
is_sl_empty _ = false

abbrev pub is_sl_active : SlotMode → Bool
is_sl_active sl_active = true
is_sl_active _ = false

abbrev pub is_sl_deleted : SlotMode → Bool
is_sl_deleted sl_deleted = true
is_sl_deleted _ = false

pub record HashSlot : Type 0 where
  pub key : ℕ
  pub value : ℕ
  pub hash : ℕ
  pub mode : SlotMode

pub record HashMap : Type 0 where
  pub fill : ℕ
  pub count : ℕ
  pub mask : ℕ
  pub table : ℕ → HashSlot
  pub hfunc : ℕ → ℕ
  pub cmp : ℕ → ℕ → Bool

abbrev pub empty_slot : HashSlot
empty_slot = record { key = 0; value = 0; hash = 0; mode = sl_empty }

abbrev pub size : HashMap → ℕ
size map = map.mask + 1

-- `sizeof(hash_slot_t)`.
abbrev pub slot_size : ℕ
slot_size = 16

-- A table of empty slots.
unfoldable pub initialized : HashMap → ℕ → HashMap
initialized map slots = record map {
  fill = 0;
  count = 0;
  mask = slots - 1;
  table = λ _. empty_slot;
}

-- The size in bytes is a 32-bit word: from 2 ^ 28 slots on the block is too small, and the loop
-- writes behind it.
unfoldable pub hash_initialize : HashMap → ℕ → Run HashMap
hash_initialize map slots =
    if leb (2 ^ 32) (slots * slot_size) then fault page_fault else ok (initialized map slots)

-- The slot holds the key.
abbrev pub matches : HashMap → ℕ → ℕ → HashSlot → Bool
matches map key hash slot =
    is_sl_active slot.mode && (slot.key == key || (slot.hash == hash && map.cmp slot.key key))

abbrev pub or_else : Option ℕ → ℕ → ℕ
or_else none at = at
or_else (some free) at = free

-- The first deleted slot on the way.
abbrev pub note_free : Option ℕ → ℕ → HashSlot → Option ℕ
note_free none at slot = if is_sl_deleted slot.mode then some at else none
note_free (some free) at slot = some free

-- The loop of `hash_lookup`, at a slot of the table.
unfoldable pub probe : ℕ → HashMap → ℕ → ℕ → ℕ → ℕ → Option ℕ → Run ℕ
probe zero map key hash index perturb free = fault out_of_fuel
probe (suc rounds) map key hash index perturb free =
    let at = index % size map in
    let slot = map.table at in
    let rest =
      probe rounds map key hash ((5 * index + perturb + 1) % 2 ^ 32) (perturb / 2 ^ 5)
        (note_free free at slot) in
    if is_sl_empty slot.mode
    then ok (or_else free at)
    else (if matches map key hash slot then ok at else rest)

unfoldable pub hash_lookup : ℕ → HashMap → ℕ → ℕ → Run ℕ
unfolding probe
hash_lookup rounds map key hash = probe rounds map key hash (hash % size map) hash none

abbrev pub put_slot : ℕ → HashSlot → HashMap → HashMap
put_slot at slot map = record map { table = update map.table at slot }

-- One active slot of the old table goes to the new one.
unfoldable pub copy_slot : ℕ → HashSlot → HashMap → Run HashMap
copy_slot rounds old map = hash_lookup rounds map old.key (map.hfunc old.key) >>= λ at.
    ok (record (put_slot at (record old { mode = sl_active }) map) {
      fill = map.fill + 1;
      count = map.count + 1;
    })

-- The loop of `hash_copy` over `n` slots from `i` on.
unfoldable pub hash_copy : ℕ → ℕ → ℕ → (ℕ → HashSlot) → HashMap → Run HashMap
unfolding copy_slot
hash_copy rounds zero i oldtable map = ok map
hash_copy rounds (suc n) i oldtable map =
    (if is_sl_active (oldtable i).mode then copy_slot rounds (oldtable i) map else ok map)
    >>= λ map'. hash_copy rounds n (suc i) oldtable map'

abbrev pub resize : ℕ → ℕ → HashMap → Run (Bool × HashMap)
resize rounds slots map = hash_initialize map slots >>= λ fresh.
    (hash_copy rounds (size map) 0 map.table fresh >>= λ map'. ok (true, map'))

-- `<=` and `<` of two 32-bit words as signed numbers, which is what a `long` that wraps compares.
unfoldable pub long_leb : ℕ → ℕ → Bool
long_leb a b = leb ((a + 2 ^ 31) % 2 ^ 32) ((b + 2 ^ 31) % 2 ^ 32)

unfoldable pub long_ltb : ℕ → ℕ → Bool
long_ltb a b = ltb ((a + 2 ^ 31) % 2 ^ 32) ((b + 2 ^ 31) % 2 ^ 32)

-- `true` is 0, and `false` is -1.
unfoldable pub hash_update : ℕ → HashMap → Run (Bool × HashMap)
unfolding long_leb long_ltb
hash_update rounds map =
    if long_leb (2 * size map) (3 * map.fill)
    then (if long_ltb (2 * size map) (size map)
        then ok (false, map)
        else resize rounds (2 * size map) map)
    else (if long_ltb hash_minsize (size map) && long_leb (4 * map.count) (size map)
        then resize rounds (size map / 2) map
        else ok (true, map))

-- `hash_initialize` of the smallest size succeeds: its 128 bytes fit.
unfoldable pub hash_init : HashMap → (ℕ → ℕ) → (ℕ → ℕ → Bool) → HashMap
hash_init map hfunc cmp = record (initialized map hash_minsize) { hfunc = hfunc; cmp = cmp }

-- A map that is NULL is `none`.
unfoldable pub hash_isset : ℕ → Option HashMap → ℕ → Run Bool
hash_isset rounds none key = ok false
hash_isset rounds (some map) key =
    hash_lookup rounds map key (map.hfunc key) >>= λ at. ok (is_sl_active (map.table at).mode)

unfoldable pub hash_get : ℕ → Option HashMap → ℕ → ℕ → Run ℕ
hash_get rounds none key default_value = ok default_value
hash_get rounds (some map) key default_value = hash_lookup rounds map key (map.hfunc key) >>= λ at.
    ok (if is_sl_active (map.table at).mode then (map.table at).value else default_value)

-- A new key in the slot `at`.
abbrev pub occupy : ℕ → ℕ → ℕ → ℕ → HashMap → HashMap
occupy at key value hash map =
    record (put_slot at (record { key = key; value = value; hash = hash; mode = sl_active }) map) {
      count = map.count + 1;
      fill = map.fill + (if is_sl_empty (map.table at).mode then 1 else 0);
    }

unfoldable pub hash_set_at : ℕ → ℕ → ℕ → ℕ → ℕ → HashMap → Run (Bool × HashMap)
hash_set_at rounds at key value hash map =
    if is_sl_active (map.table at).mode
    then ok (true, put_slot at (record (map.table at) { value = value }) map)
    else hash_update rounds (occupy at key value hash map)

unfoldable pub hash_set : ℕ → Option HashMap → ℕ → ℕ → Run (Bool × Option HashMap)
unfolding hash_set_at
hash_set rounds none key value = ok (false, none)
hash_set rounds (some map) key value = hash_lookup rounds map key (map.hfunc key) >>= λ at.
    hash_set_at rounds at key value (map.hfunc key) map >>= λ (done, map'). ok (done, some map')

-- The slot is marked, and the number of used slots stays.
abbrev pub vacate : ℕ → HashMap → HashMap
vacate at map =
    record (put_slot at (record { key = 0; value = 0; hash = 0; mode = sl_deleted }) map) {
      count = map.count - 1;
    }

unfoldable pub hash_del : ℕ → Option HashMap → ℕ → Run (Bool × Option HashMap)
hash_del rounds none key = ok (false, none)
hash_del rounds (some map) key = hash_lookup rounds map key (map.hfunc key) >>= λ at.
    if is_sl_active (map.table at).mode
    then (hash_update rounds (vacate at map) >>= λ (done, map'). ok (done, some map'))
    else ok (true, some map)

abbrev pub hash_direct_cmp : ℕ → ℕ → Bool
hash_direct_cmp key1 key2 = key1 == key2

abbrev pub hash_direct_hfunc : ℕ → ℕ
hash_direct_hfunc key = key

unfoldable pub hash_init_direct : HashMap → HashMap
unfolding hash_init
hash_init_direct map = hash_init map hash_direct_hfunc hash_direct_cmp
