-- ===== src/Hash/SameKey.antt =====
-- Two pointers to equal keys are the same key of a hash table.
use mathlib.Core.Path.{subst}
use operating_system_concept.Base.{
  ℕ, zero, suc, ◌+◌, ◌*◌, ◌/◌, ◌%◌, ◌^◌, ◌≡◌, refl, sym, ap, ◌∙◌, inl, inr, true, ◌&&◌, ◌||◌,
  Option, none, some, ◌==◌, ==_iff, Bool-cases, if◌then◌else◌,
}
use operating_system_concept.Base.Run.{ok, ◌>>=◌}
use operating_system_concept.Hash.{
  HashMap, HashSlot, is_sl_empty, is_sl_active, size, matches, or_else, note_free, probe,
  hash_lookup, hash_get,
}
use operating_system_concept.Hash.Aside.{IsCompare}
use operating_system_concept.Hash.Writes.{IsHashed}

pub record SameKey (map : HashMap) (key other : ℕ) : Type 0 where
  pub hash : map.hfunc other ≡ map.hfunc key
  pub alike : (x : ℕ) → map.cmp x other ≡ map.cmp x key

-- In a slot with the hash of its key, the comparison alone decides.
by_compare :
    (map : HashMap) (key : ℕ) (slot : HashSlot)
    → IsCompare map.cmp
    → slot.hash ≡ map.hfunc slot.key
    → (slot.key == key || (slot.hash == map.hfunc key && map.cmp slot.key key))
      ≡ (slot.hash == map.hfunc key && map.cmp slot.key key)
by_compare map key slot c h = elim (Bool-cases (slot.key == key)) [
  | inl e ↦
      let same : slot.key ≡ key = (==_iff slot.key key).0 e in
      let hashes : (slot.hash == map.hfunc key) ≡ true =
        (==_iff slot.hash (map.hfunc key)).1 (h ∙ ap map.hfunc same) in
      let equal : map.cmp slot.key key ≡ true =
        subst (λ x. map.cmp slot.key x ≡ true) same (c.reflexive slot.key) in
      rw (e, hashes, equal) refl
  | inr n ↦ rw n refl
]

matches-SameKey :
    (map : HashMap) (key other : ℕ) (slot : HashSlot)
    → IsCompare map.cmp
    → SameKey map key other
    → (is_sl_active slot.mode ≡ true → slot.hash ≡ map.hfunc slot.key)
    → matches map other (map.hfunc other) slot ≡ matches map key (map.hfunc key) slot
matches-SameKey map key other slot c s h = elim (Bool-cases (is_sl_active slot.mode)) [
  | inl a ↦
      ap (λ b. is_sl_active slot.mode && b)
        (by_compare map other slot c (h a)
          ∙ ap (λ k. slot.hash == k && map.cmp slot.key other) s.hash
          ∙ ap (λ b. slot.hash == map.hfunc key && b) (s.alike slot.key)
          ∙ sym (by_compare map key slot c (h a)))
  | inr n ↦ rw n refl
]

module _ (map : HashMap) (key other : ℕ) (c : IsCompare map.cmp) (s : SameKey map key other)
    (h : IsHashed map) where
  probe-SameKey :
      (rounds index perturb : ℕ) (free : Option ℕ)
      → probe rounds map other (map.hfunc other) index perturb free
        ≡ probe rounds map key (map.hfunc key) index perturb free
  unfolding probe
  probe-SameKey zero index perturb free = refl
  probe-SameKey (suc rounds) index perturb free =
      let at = index % size map in
      let rest = λ (k : ℕ).
        probe rounds map k (map.hfunc k) ((5 * index + perturb + 1) % 2 ^ 32) (perturb / 2 ^ 5)
          (note_free free at (map.table at)) in
      ap
        (λ b.
          if is_sl_empty (map.table at).mode
          then ok (or_else free at)
          else (if b then ok at else rest other))
        (matches-SameKey map key other (map.table at) c s (h at))
      ∙ ap
          (λ r.
            if is_sl_empty (map.table at).mode
            then ok (or_else free at)
            else (if matches map key (map.hfunc key) (map.table at) then ok at else r))
          (probe-SameKey rounds ((5 * index + perturb + 1) % 2 ^ 32) (perturb / 2 ^ 5)
            (note_free free at (map.table at)))

  -- The searches for both end at the same slot.
  pub hash_lookup-SameKey :
      (rounds : ℕ)
      → hash_lookup rounds map other (map.hfunc other) ≡ hash_lookup rounds map key (map.hfunc key)
  unfolding hash_lookup
  hash_lookup-SameKey rounds =
      ap (λ k. probe rounds map other (map.hfunc other) (k % size map) k none) s.hash
      ∙ probe-SameKey rounds (map.hfunc key % size map) (map.hfunc key) none

  -- `hash_get` gives the same for both.
  pub hash_get-SameKey :
      (rounds default_value : ℕ)
      → hash_get rounds (some map) other default_value
        ≡ hash_get rounds (some map) key default_value
  unfolding hash_get
  hash_get-SameKey rounds default_value =
      ap
        (λ lookup. lookup >>= λ at.
          ok (if is_sl_active (map.table at).mode then (map.table at).value else default_value))
        (hash_lookup-SameKey rounds)
