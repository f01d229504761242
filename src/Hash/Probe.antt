-- ===== src/Hash/Probe.antt =====
-- Where a search of the hash table ends, before and after a write to the slot that it found.
use operating_system_concept.Base.{
  ℕ, zero, suc, ◌+◌, ◌*◌, ◌/◌, ◌%◌, ◌^◌, ◌≡◌, ◌≢◌, refl, sym, ap, ◌∙◌, inl, inr, true, false,
  Option, none, some, arith, ◌==◌, ==_iff, Bool-cases,
}
use operating_system_concept.Base.Run.{ok}
use operating_system_concept.Hash.{
  HashMap, HashSlot, is_sl_empty, size, matches, or_else, note_free, probe,
}

-- The second table is the first but for slot `at`, which has the key.
pub record Written (map map' : HashMap) (key hash at : ℕ) : Type 0 where
  pub mask : map'.mask ≡ map.mask
  pub same : (i : ℕ) → (i == at) ≡ false → map'.table i ≡ map.table i
  pub cmp : map'.cmp ≡ map.cmp
  pub here : matches map' key hash (map'.table at) ≡ true

matches-not_empty :
    (map : HashMap) (key hash : ℕ) (slot : HashSlot)
    → matches map key hash slot ≡ true
    → is_sl_empty slot.mode ≡ false
matches-not_empty map key hash slot m = ground (arith, m)

-- One step of a search at a slot that has the key.
pub probe-here :
    (rounds : ℕ) (map : HashMap) (key hash index perturb : ℕ) (free : Option ℕ)
    → matches map key hash (map.table (index % size map)) ≡ true
    → probe (suc rounds) map key hash index perturb free ≡ ok (index % size map)
unfolding probe
probe-here rounds map key hash index perturb free m =
    rw (matches-not_empty map key hash (map.table (index % size map)) m) (rw m refl)

-- A slot of the path that is neither empty nor has the key.
pub probe-past :
    (rounds : ℕ) (map : HashMap) (key hash index perturb : ℕ) (free : Option ℕ)
    → is_sl_empty (map.table (index % size map)).mode ≡ false
    → matches map key hash (map.table (index % size map)) ≡ false
    → probe (suc rounds) map key hash index perturb free
      ≡ probe rounds map key hash
          ((5 * index + perturb + 1) % 2 ^ 32)
          (perturb / 2 ^ 5)
          (note_free free (index % size map) (map.table (index % size map)))
unfolding probe
probe-past rounds map key hash index perturb free e m = rw (e, m) refl

pub probe-empty :
    (rounds : ℕ) (map : HashMap) (key hash index perturb : ℕ) (free : Option ℕ)
    → is_sl_empty (map.table (index % size map)).mode ≡ true
    → probe (suc rounds) map key hash index perturb free ≡ ok (or_else free (index % size map))
unfolding probe
probe-empty rounds map key hash index perturb free e = rw e refl

pub ok-injective : (a b : ℕ) → ok a ≡ ok b → a ≡ b
ok-injective a b e = cc

pub probe-zero :
    (map : HashMap) (key hash index perturb : ℕ) (free : Option ℕ) (at : ℕ)
    → probe zero map key hash index perturb free ≡ ok at
    → ⊥
unfolding probe
probe-zero map key hash index perturb free at run = cc

-- Neither a noted slot nor another one is `at`.
elsewhere :
    {at : ℕ} (free : Option ℕ) (a : ℕ)
    → ((f : ℕ) → free ≡ some f → f ≢ at)
    → (a == at) ≡ false
    → or_else free a ≡ at
    → ⊥
elsewhere {at} none a apart n e = ground (arith, e, n)
elsewhere (some f) a apart n e = apart f refl e

noted :
    {at : ℕ} (free : Option ℕ) (a : ℕ) (slot : HashSlot)
    → ((f : ℕ) → free ≡ some f → f ≢ at)
    → (a == at) ≡ false
    → (f : ℕ) → note_free free a slot ≡ some f
    → f ≢ at
noted {at} none a slot apart n f e = ground (arith, e, n)
noted (some g) a slot apart n f e = apart f e

module _ (map map' : HashMap) (key hash at : ℕ) (w : Written map map' key hash at) where
  same_place : (i : ℕ) → i % size map' ≡ i % size map
  same_place i = ap (λ m. i % (m + 1)) w.mask

  -- The search in the new table stops at `at` when it comes there.
  arrives :
      (rounds index perturb : ℕ) (free : Option ℕ)
      → index % size map ≡ at
      → probe (suc rounds) map' key hash index perturb free ≡ ok at
  arrives rounds index perturb free e =
      let place = same_place index ∙ e in
      probe-here rounds map' key hash index perturb free
        (ap (λ i. matches map' key hash (map'.table i)) place ∙ w.here)
      ∙ ap ok place

  -- At another slot it goes on as in the old one.
  passes :
      (rounds index perturb : ℕ) (free : Option ℕ)
      → (index % size map == at) ≡ false
      → is_sl_empty (map.table (index % size map)).mode ≡ false
      → matches map key hash (map.table (index % size map)) ≡ false
      → probe (suc rounds) map' key hash index perturb free
        ≡ probe rounds map' key hash
            ((5 * index + perturb + 1) % 2 ^ 32)
            (perturb / 2 ^ 5)
            (note_free free (index % size map) (map.table (index % size map)))
  passes rounds index perturb free n e m =
      let place = same_place index in
      let slot = ap map'.table place ∙ w.same (index % size map) n in
      probe-past rounds map' key hash index perturb free (ap (λ s. is_sl_empty s.mode) slot ∙ e) (
        ap (matches map' key hash) slot
        ∙ ap (λ c. matches (record map { cmp = c }) key hash (map.table (index % size map))) w.cmp
        ∙ m)
      ∙ ap
          (λ (i, s).
            probe rounds map' key hash ((5 * index + perturb + 1) % 2 ^ 32) (perturb / 2 ^ 5)
              (note_free free i s))
          (λ j. (place j, slot j))

  -- The search that found `at` finds it again once it has the key.
  pub probe-Written :
      (rounds index perturb : ℕ) (free : Option ℕ)
      → ((f : ℕ) → free ≡ some f → f ≢ at)
      → probe rounds map key hash index perturb free ≡ ok at
      → probe rounds map' key hash index perturb free ≡ ok at
  probe-Written zero index perturb free apart run =
      absurd (probe-zero map key hash index perturb free at run)
  probe-Written (suc rounds) index perturb free apart run =
      elim (Bool-cases (index % size map == at)) [
        | inl here ↦ arrives rounds index perturb free ((==_iff (index % size map) at).0 here)
        | inr n ↦ elim (Bool-cases (is_sl_empty (map.table (index % size map)).mode)) [
          | inl e ↦ absurd (
              elsewhere free (index % size map) apart n (
                ok-injective (or_else free (index % size map)) at
                  (sym (probe-empty rounds map key hash index perturb free e) ∙ run)))
          | inr e ↦ elim (Bool-cases (matches map key hash (map.table (index % size map)))) [
            | inl m ↦ absurd (
                ground (
                  arith,
                  n,
                  ok-injective (index % size map) at
                      (sym (probe-here rounds map key hash index perturb free m) ∙ run),
                ))
            | inr m ↦
                passes rounds index perturb free n e m
                ∙ probe-Written rounds ((5 * index + perturb + 1) % 2 ^ 32) (perturb / 2 ^ 5)
                    (note_free free (index % size map) (map.table (index % size map)))
                    (noted free (index % size map) (map.table (index % size map)) apart n)
                    (sym (probe-past rounds map key hash index perturb free e m) ∙ run)
          ]
        ]
      ]
