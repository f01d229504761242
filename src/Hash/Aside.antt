-- ===== src/Hash/Aside.antt =====
-- Where searches for other keys end, behind a change to one slot of the hash table.
use mathlib.Core.Path.{subst}
use operating_system_concept.Base.{
  ℕ, zero, suc, ◌+◌, ◌*◌, ◌/◌, ◌%◌, ◌^◌, ◌≡◌, refl, sym, ap, ◌∙◌, inl, inr, Bool, true, false,
  Option, none, some, arith, ◌==◌, ==_iff, Bool-cases,
}
use operating_system_concept.Base.Run.{ok}
use operating_system_concept.Hash.{
  HashMap, HashSlot, is_sl_empty, is_sl_active, size, matches, or_else, note_free, probe,
}
use operating_system_concept.Hash.Probe.{
  probe-here, probe-past, probe-empty, probe-zero, ok-injective,
}

-- A comparison that says which keys are the same.
pub record IsCompare (cmp : ℕ → ℕ → Bool) : Type 0 where
  pub reflexive : (a : ℕ) → cmp a a ≡ true
  pub euclidean : (a b c : ℕ) → cmp a b ≡ true → cmp a c ≡ true → cmp b c ≡ true

pub matches-cmp :
    (map : HashMap) (key hash : ℕ) (slot : HashSlot)
    → IsCompare map.cmp
    → matches map key hash slot ≡ true
    → map.cmp slot.key key ≡ true
matches-cmp map key hash slot c m = elim (Bool-cases (slot.key == key)) [
  | inl e ↦
      subst (λ x. map.cmp slot.key x ≡ true) ((==_iff slot.key key).0 e) (c.reflexive slot.key)
  | inr e ↦ ground (arith, m, e)
]

-- A slot with one key has no other.
pub matches-apart :
    (map : HashMap) (key other hash hash' : ℕ) (slot : HashSlot)
    → IsCompare map.cmp
    → map.cmp key other ≡ false
    → matches map key hash slot ≡ true
    → matches map other hash' slot ≡ false
matches-apart map key other hash hash' slot c n m =
    elim (Bool-cases (matches map other hash' slot)) [
      | inl h ↦ absurd (
          ground (
            arith,
            n,
            c.euclidean slot.key key other (matches-cmp map key hash slot c m)
                (matches-cmp map other hash' slot c h),
          ))
      | inr h ↦ h
    ]

-- The second table is the first but for slot `at`, which has another key in both, or none.
pub record Aside (map map' : HashMap) (key hash at : ℕ) : Type 0 where
  pub mask : map'.mask ≡ map.mask
  pub same : (i : ℕ) → (i == at) ≡ false → map'.table i ≡ map.table i
  pub cmp : map'.cmp ≡ map.cmp
  pub before : matches map key hash (map.table at) ≡ false
  pub after : matches map' key hash (map'.table at) ≡ false
  pub filled : is_sl_empty (map'.table at).mode ≡ false

module _ (map map' : HashMap) (key hash at found : ℕ) (w : Aside map map' key hash at)
    (is_there : matches map key hash (map.table found) ≡ true) where
  same_matches :
      (i : ℕ)
      → (i == at) ≡ false
      → matches map' key hash (map'.table i) ≡ matches map key hash (map.table i)
  same_matches i n =
      ap (matches map' key hash) (w.same i n)
      ∙ ap (λ c. matches (record map { cmp = c }) key hash (map.table i)) w.cmp

  same_place : (i : ℕ) → i % size map' ≡ i % size map
  same_place i = ap (λ m. i % (m + 1)) w.mask

  nothing_noted :
      (free : Option ℕ) (i : ℕ)
      → ((f : ℕ) → free ≡ some f → matches map key hash (map.table f) ≡ false)
      → is_sl_empty (map.table i).mode ≡ true
      → or_else free i ≡ found
      → ⊥
  nothing_noted none i apart e here = ground (arith, e, is_there, here)
  nothing_noted (some f) i apart e here = ground (arith, is_there, here, apart f refl)

  still_apart :
      (free : Option ℕ) (i : ℕ)
      → ((f : ℕ) → free ≡ some f → matches map key hash (map.table f) ≡ false)
      → matches map key hash (map.table i) ≡ false
      → (f : ℕ) → note_free free i (map.table i) ≡ some f
      → matches map key hash (map.table f) ≡ false
  still_apart none i apart m f e = ground (arith, e, m)
  still_apart (some g) i apart m f e = apart f e

  not_empty :
      (i : ℕ) → is_sl_empty (map.table i).mode ≡ false → is_sl_empty (map'.table i).mode ≡ false
  not_empty i e = elim (Bool-cases (i == at)) [
    | inl h ↦
        subst (λ j. is_sl_empty (map'.table j).mode ≡ false) (sym ((==_iff i at).0 h)) w.filled
    | inr n ↦ ap (λ s. is_sl_empty s.mode) (w.same i n) ∙ e
  ]

  not_here :
      (i : ℕ)
      → matches map key hash (map.table i) ≡ false
      → matches map' key hash (map'.table i) ≡ false
  not_here i m = elim (Bool-cases (i == at)) [
    | inl h ↦
        subst (λ j. matches map' key hash (map'.table j) ≡ false) (sym ((==_iff i at).0 h)) w.after
    | inr n ↦ same_matches i n ∙ m
  ]

  pub found_aside : (found == at) ≡ false
  found_aside = elim (Bool-cases (found == at)) [
    | inl h ↦ absurd (
        ground (
          arith,
          is_there,
          w.before,
          ap (λ j. matches map key hash (map.table j)) ((==_iff found at).0 h),
        ))
    | inr n ↦ n
  ]

  pub at_found : matches map' key hash (map'.table found) ≡ true
  at_found = same_matches found found_aside ∙ is_there

  -- A search that found the key elsewhere finds it there again.
  pub probe-Aside :
      (rounds index perturb : ℕ) (free free' : Option ℕ)
      → ((f : ℕ) → free ≡ some f → matches map key hash (map.table f) ≡ false)
      → probe rounds map key hash index perturb free ≡ ok found
      → probe rounds map' key hash index perturb free' ≡ ok found
  probe-Aside zero index perturb free free' apart run =
      absurd (probe-zero map key hash index perturb free found run)
  probe-Aside (suc rounds) index perturb free free' apart run =
      let i = index % size map in
      let place = same_place index in
      elim (Bool-cases (is_sl_empty (map.table i).mode)) [
        | inl e ↦ absurd (
            nothing_noted free i apart e (
              ok-injective (or_else free i) found
                (sym (probe-empty rounds map key hash index perturb free e) ∙ run)))
        | inr e ↦ elim (Bool-cases (matches map key hash (map.table i))) [
          | inl m ↦
              let here : index % size map' ≡ found =
                place
                ∙ ok-injective i found
                    (sym (probe-here rounds map key hash index perturb free m) ∙ run) in
              probe-here rounds map' key hash index perturb free'
                (ap (λ j. matches map' key hash (map'.table j)) here ∙ at_found)
              ∙ ap ok here
          | inr m ↦
              probe-past rounds map' key hash index perturb free'
                (ap (λ j. is_sl_empty (map'.table j).mode) place ∙ not_empty i e)
                (ap (λ j. matches map' key hash (map'.table j)) place ∙ not_here i m)
              ∙ probe-Aside rounds ((5 * index + perturb + 1) % 2 ^ 32) (perturb / 2 ^ 5)
                  (note_free free i (map.table i))
                  (note_free free' (index % size map') (map'.table (index % size map')))
                  (still_apart free i apart m)
                  (sym (probe-past rounds map key hash index perturb free e m) ∙ run)
        ]
      ]

-- A search that ends at an active slot has found the key.
pub probe-active :
    (map : HashMap) (key hash found rounds index perturb : ℕ) (free : Option ℕ)
    → ((f : ℕ) → free ≡ some f → is_sl_active (map.table f).mode ≡ false)
    → is_sl_active (map.table found).mode ≡ true
    → probe rounds map key hash index perturb free ≡ ok found
    → matches map key hash (map.table found) ≡ true
probe-active map key hash found zero index perturb free apart a run =
    absurd (probe-zero map key hash index perturb free found run)
probe-active map key hash found (suc rounds) index perturb free apart a run =
    let i = index % size map in
    elim (Bool-cases (is_sl_empty (map.table i).mode)) [
      | inl e ↦ absurd (
          idle free apart e (
            ok-injective (or_else free i) found
              (sym (probe-empty rounds map key hash index perturb free e) ∙ run)))
      | inr e ↦ elim (Bool-cases (matches map key hash (map.table i))) [
        | inl m ↦
            subst (λ j. matches map key hash (map.table j) ≡ true)
              (ok-injective i found
                (sym (probe-here rounds map key hash index perturb free m) ∙ run))
              m
        | inr m ↦
            probe-active map key hash found rounds ((5 * index + perturb + 1) % 2 ^ 32)
              (perturb / 2 ^ 5) (note_free free i (map.table i)) (idle_too free apart) a
              (sym (probe-past rounds map key hash index perturb free e m) ∙ run)
      ]
    ]
  where
    idle :
        (free : Option ℕ)
        → ((f : ℕ) → free ≡ some f → is_sl_active (map.table f).mode ≡ false)
        → is_sl_empty (map.table (index % size map)).mode ≡ true
        → or_else free (index % size map) ≡ found
        → ⊥
    idle none apart e here = ground (arith, e, a, here)
    idle (some f) apart e here = ground (arith, a, here, apart f refl)

    idle_too :
        (free : Option ℕ)
        → ((f : ℕ) → free ≡ some f → is_sl_active (map.table f).mode ≡ false)
        → (f : ℕ) → note_free free (index % size map) (map.table (index % size map)) ≡ some f
        → is_sl_active (map.table f).mode ≡ false
    idle_too none apart f e = ground (arith, e)
    idle_too (some g) apart f e = apart f e
