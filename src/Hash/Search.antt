-- ===== src/Hash/Search.antt =====
-- A search of `hash_lookup` ends as long as one slot of the table is empty.
use mathlib.Core.Path.{subst}
use native.Mathlib.Nat.{mod-eq_of_lt}
use operating_system_concept.Base.{
  ℕ, zero, suc, ◌+◌, ◌*◌, ◌/◌, ◌%◌, ◌^◌, ◌≤◌, ◌<◌, ◌≡◌, sym, ap, ◌∙◌, inl, inr, true, false, Option,
  none, some, arith, Bool-cases,
}
use operating_system_concept.Base.Run.{Returns}
use operating_system_concept.Hash.{
  HashMap, HashSlot, is_sl_empty, size, matches, or_else, note_free, probe, hash_lookup,
}
use operating_system_concept.Hash.Cycle.{stride, stride-covers, stride-cut, Congruent-mod}
use operating_system_concept.Hash.Probe.{probe-here, probe-past, probe-empty}

abbrev InTable : HashMap → Option ℕ → Type 0
InTable map none = Unit
InTable map (some f) = f < size map

or_else-in :
    (map : HashMap) (free : Option ℕ) (at : ℕ)
    → InTable map free
    → at < size map
    → or_else free at < size map
or_else-in map none at i h = h
or_else-in map (some f) at i h = i

note_free-in :
    (map : HashMap) (free : Option ℕ) (at : ℕ) (slot : HashSlot)
    → InTable map free
    → at < size map
    → InTable map (note_free free at slot)
note_free-in map none at slot i h = ground arith
note_free-in map (some f) at slot i h = i

module _ (map : HashMap) (key hash bits : ℕ) (small : bits ≤ 32) (power : size map ≡ 2 ^ bits) where
  abbrev EndsAt : ℕ → ℕ → ℕ → Option ℕ → Type 0
  EndsAt rounds index perturb free =
      Returns (probe rounds map key hash index perturb free) (λ at. at < size map)

  -- A search ends if it ends from the next slot on.
  search_step :
      (rounds index perturb : ℕ) (free : Option ℕ)
      → InTable map free
      → (is_sl_empty (map.table (index % size map)).mode ≡ false
          → (noted : Option ℕ) → InTable map noted
          → EndsAt rounds ((5 * index + perturb + 1) % 2 ^ 32) (perturb / 2 ^ 5) noted)
      → EndsAt (suc rounds) index perturb free
  search_step rounds index perturb free known later =
      let at = index % size map in
      let inside : at < size map = omega arith in
      elim (Bool-cases (is_sl_empty (map.table at).mode)) [
        | inl e ↦ (
          or_else free at,
          probe-empty rounds map key hash index perturb free e,
          or_else-in map free at known inside,
        )
        | inr e ↦ elim (Bool-cases (matches map key hash (map.table at))) [
          | inl m ↦ (at, probe-here rounds map key hash index perturb free m, inside)
          | inr m ↦
              let noted = note_free free at (map.table at) in
              let (found, run, p) =
                later e noted (note_free-in map free at (map.table at) known inside) in
              (found, probe-past rounds map key hash index perturb free e m ∙ run, p)
        ]
      ]

  same :
      (k index : ℕ)
      → stride k ((5 * index + 0 + 1) % 2 ^ 32) % size map ≡ stride k (5 * index + 1) % size map
  same k index =
      let plain : 5 * index + 0 + 1 ≡ 5 * index + 1 = omega arith in
      ap (λ m. stride k ((5 * index + 0 + 1) % 2 ^ 32) % m) power
      ∙ stride-cut bits k (5 * index + 0 + 1) small
      ∙ ap (λ x. stride k x % 2 ^ bits) plain
      ∙ ap (λ m. stride k (5 * index + 1) % m) (sym power)

  -- Without a perturbation: `k` steps lead to an empty slot.
  steady :
      (k rounds index : ℕ) (free : Option ℕ)
      → InTable map free
      → is_sl_empty (map.table (stride k index % size map)).mode ≡ true
      → k < rounds
      → EndsAt rounds index 0 free
  unfolding stride
  steady k zero index free known e enough = absurd (omega arith)
  steady zero (suc rounds) index free known e enough =
      search_step rounds index 0 free known (λ n noted i. absurd (cc))
  steady (suc k) (suc rounds) index free known e enough =
      search_step rounds index 0 free known λ n noted i.
        steady k rounds ((5 * index + 0 + 1) % 2 ^ 32) noted i
          (subst (λ t. is_sl_empty (map.table t).mode ≡ true) (sym (same k index)) e) (omega arith)

  -- From an index where the perturbation has died out, within as many probes as there are slots.
  steady_anywhere :
      (empty rounds index : ℕ) (free : Option ℕ)
      → InTable map free
      → empty < size map
      → is_sl_empty (map.table empty).mode ≡ true
      → 2 ^ bits ≤ rounds
      → EndsAt rounds index 0 free
  steady_anywhere empty rounds index free known inside e enough =
      let (k, below, c) = stride-covers bits index empty in
      let there : stride k index % size map ≡ empty =
        ap (λ m. stride k index % m) power
        ∙ Congruent-mod c
        ∙ ap (λ m. empty % m) (sym power)
        ∙ mod-eq_of_lt inside in
      steady k rounds index free known
        (subst (λ i. is_sl_empty (map.table i).mode ≡ true) (sym there) e) (omega arith)

  -- Each probe takes five bits from the perturbation.
  settles :
      (s empty rounds index perturb : ℕ) (free : Option ℕ)
      → InTable map free
      → empty < size map
      → is_sl_empty (map.table empty).mode ≡ true
      → perturb < 32 ^ s
      → s + 2 ^ bits ≤ rounds
      → EndsAt rounds index perturb free
  settles zero empty rounds index perturb free known inside e p enough =
      let gone : perturb ≡ 0 = omega arith in
      subst (λ t. EndsAt rounds index t free) (sym gone)
        (steady_anywhere empty rounds index free known inside e (omega arith))
  settles (suc s) empty zero index perturb free known inside e p enough = absurd (omega arith)
  settles (suc s) empty (suc rounds) index perturb free known inside e p enough =
      search_step rounds index perturb free known λ n noted i.
        settles s empty rounds ((5 * index + perturb + 1) % 2 ^ 32) (perturb / 2 ^ 5) noted i inside
          e (omega arith) (omega arith)

-- With a table of 2 ^ bits slots, one of them empty, a search ends within seven probes more than
-- the table has slots, at a slot of the table.
pub hash_lookup-ends :
    (map : HashMap) (key hash bits empty rounds : ℕ)
    → bits ≤ 32
    → size map ≡ 2 ^ bits
    → hash < 2 ^ 32
    → empty < size map
    → is_sl_empty (map.table empty).mode ≡ true
    → 7 + size map ≤ rounds
    → Returns (hash_lookup rounds map key hash) (λ at. at < size map)
unfolding hash_lookup
hash_lookup-ends map key hash bits empty rounds small power word inside e enough =
    settles map key hash bits small power 7 empty rounds (hash % size map) hash none tt inside e
      (omega arith) (omega arith)
