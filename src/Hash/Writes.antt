-- ===== src/Hash/Writes.antt =====
-- A write to the slot where a search of the hash table ended.
use mathlib.Core.Path.{subst}
use operating_system_concept.Base.{
  ℕ, ◌+◌, ◌*◌, ◌%◌, ◌^◌, ◌≤◌, ◌<◌, ◌≡◌, refl, ap, ◌∙◌, inl, inr, true, false, ◌&&◌, none, arith,
  ◌==◌, ltb, leb, Bool-cases, update_self, update_at, update_elsewhere,
}
use operating_system_concept.Base.Run.{ok, Returns}
use operating_system_concept.Hash.{
  HashMap, HashSlot, is_sl_empty, is_sl_active, size, matches, hash_lookup, hash_set_at,
  hash_update, hash_minsize, occupy, put_slot, long_leb, long_ltb,
}
use operating_system_concept.Hash.Probe.{Written}
use operating_system_concept.Hash.Search.{hash_lookup-ends}
use operating_system_concept.Hash.Aside.{IsCompare, probe-active}

-- A table in which searches end.
pub record IsRoomy (map : HashMap) (rounds : ℕ) : Type 0 where
  pub bits : ℕ
  pub empty : ℕ
  pub small : bits ≤ 32
  pub power : size map ≡ 2 ^ bits
  pub inside : empty < size map
  pub unused : is_sl_empty (map.table empty).mode ≡ true
  pub enough : 7 + size map ≤ rounds

-- With this many keys and used slots, the table keeps its size, which is below 2 ^ 30.
abbrev pub IsSized : HashMap → ℕ → ℕ → Type 0
IsSized map fill count =
    (3 * fill < 2 * size map)
    × (hash_minsize < size map → size map < 4 * count)
    × (size map < 2 ^ 30)
    × (4 * count < 2 ^ 31)

-- Numbers below 2 ^ 31 are compared as they are.
pub long_leb-small : (a b : ℕ) → a < 2 ^ 31 → b < 2 ^ 31 → long_leb a b ≡ leb a b
unfolding long_leb
long_leb-small a b low low' = ground (arith, low, low')

pub long_ltb-small : (a b : ℕ) → a < 2 ^ 31 → b < 2 ^ 31 → long_ltb a b ≡ ltb a b
unfolding long_ltb
long_ltb-small a b low low' = ground (arith, low, low')

pub hash_update-stays :
    (rounds : ℕ) (map : HashMap)
    → IsSized map map.fill map.count
    → hash_update rounds map ≡ ok (true, map)
unfolding hash_update
hash_update-stays rounds map (few, many, short, keys) =
    let full : long_leb (2 * size map) (3 * map.fill) ≡ false =
      long_leb-small (2 * size map) (3 * map.fill) (omega arith) (omega arith) ∙ ground arith in
    let sparse : (long_ltb hash_minsize (size map) && long_leb (4 * map.count) (size map)) ≡ false =
      rw
        (
          long_ltb-small hash_minsize (size map) (omega arith) (omega arith),
          long_leb-small (4 * map.count) (size map) (omega arith) (omega arith),
        )
        (ground (arith, many)) in
    rw (full, sparse) refl

pub lookup_ends :
    (map : HashMap) (key rounds : ℕ)
    → IsRoomy map rounds
    → map.hfunc key < 2 ^ 32
    → Returns (hash_lookup rounds map key (map.hfunc key)) (λ at. at < size map)
lookup_ends map key rounds r word =
    hash_lookup-ends map key (map.hfunc key) r.bits r.empty rounds r.small r.power word r.inside
      r.unused r.enough

-- Each slot has the hash of its key.
abbrev pub IsHashed : HashMap → Type 0
IsHashed map =
    (i : ℕ)
    → is_sl_active (map.table i).mode ≡ true
    → (map.table i).hash ≡ map.hfunc (map.table i).key

-- What a write of `value` under `key` leaves, at the slot that the search found.
pub record Put (map map' : HashMap) (key value hash at : ℕ) : Type 0 where
  pub written : Written map map' key hash at
  pub holds : (map'.table at).value ≡ value
  pub hfunc : map'.hfunc ≡ map.hfunc
  pub hashed : IsHashed map → IsHashed map'

-- A slot of a table with the right hash stands among slots of which that is known.
pub update-IsHashed :
    (map : HashMap) (at : ℕ) (slot : HashSlot)
    → (is_sl_active slot.mode ≡ true → slot.hash ≡ map.hfunc slot.key)
    → IsHashed map
    → IsHashed (put_slot at slot map)
update-IsHashed map at slot e h i a = elim (Bool-cases (i == at)) [
  | inl m ↦ rw m (e (subst (λ s. is_sl_active s.mode ≡ true) (update_at map.table at slot i m) a))
  | inr n ↦
      rw n
        (h i (subst (λ s. is_sl_active s.mode ≡ true) (update_elsewhere map.table at slot i n) a))
]

module _ (map : HashMap) (key value at rounds : ℕ) (c : IsCompare map.cmp)
    (run : hash_lookup rounds map key (map.hfunc key) ≡ ok at) where
  pub hash : ℕ
  hash = map.hfunc key

  pub was_found :
      is_sl_active (map.table at).mode ≡ true
      → matches map key (map.hfunc key) (map.table at) ≡ true
  unfolding hash_lookup
  was_found a =
      probe-active map key (map.hfunc key) at rounds (map.hfunc key % size map) (map.hfunc key) none
        (λ f e. absurd (cc)) a run

  replaced : HashMap
  replaced = put_slot at (record (map.table at) { value = value }) map

  replaced-Put :
      is_sl_active (map.table at).mode ≡ true → Put map replaced key value (map.hfunc key) at
  unfolding replaced
  replaced-Put a = record {
    written = record {
      mask = refl;
      same = λ i n. rw n refl;
      cmp = refl;
      here = ap (matches replaced key (map.hfunc key)) (update_self map.table at _) ∙ was_found a;
    };
    holds = ap (λ s. s.value) (update_self map.table at _);
    hfunc = refl;
    hashed = λ h. update-IsHashed map at _ (λ active. h at a) h;
  }

  added : HashMap
  added = occupy at key value (map.hfunc key) map

  added-Put : Put map added key value (map.hfunc key) at
  unfolding added
  added-Put = record {
    written = record {
      mask = refl;
      same = λ i n. rw n refl;
      cmp = refl;
      here = ap (matches added key (map.hfunc key)) (update_self map.table at _) ∙ ground arith;
    };
    holds = ap (λ s. s.value) (update_self map.table at _);
    hfunc = refl;
    hashed = λ h. update-IsHashed map at _ (λ active. refl) h;
  }

  pub sets :
      IsSized map (map.fill + 1) (map.count + 1)
      → Returns
          (hash_set_at rounds at key value (map.hfunc key) map)
          (λ (done, map'). (done ≡ true) × Put map map' key value (map.hfunc key) at)
  unfolding hash_set_at replaced added
  sets (few, many, short, keys) = elim (Bool-cases (is_sl_active (map.table at).mode)) [
    | inl a ↦ ((true, replaced), rw a refl, (refl, replaced-Put a))
    | inr n ↦ (
      (true, added),
      rw n (hash_update-stays rounds added (ground (arith, few), many, short, keys)),
      (refl, added-Put),
    )
  ]
