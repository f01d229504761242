-- ===== src/Hash/Sound.antt =====
-- A table of kernel/hash.c in which a search for the key of an active slot ends at that slot.
use mathlib.Core.Path.{subst}
use operating_system_concept.Base.{
  ℕ, ◌%◌, ◌^◌, ◌<◌, ◌≡◌, refl, sym, ap, ◌∙◌, inl, inr, Bool, true, false, ◌&&◌, none, arith, ◌==◌,
  ==_iff, Bool-cases, update_self, update_at, update_elsewhere,
}
use operating_system_concept.Base.Run.{ok, ok-injective}
use operating_system_concept.Hash.{
  HashMap, HashSlot, is_sl_empty, is_sl_active, size, matches, hash_lookup, put_slot,
}
use operating_system_concept.Hash.Probe.{probe-Written}
use operating_system_concept.Hash.Aside.{IsCompare, matches-cmp, probe-Aside, probe-active}
use operating_system_concept.Hash.Writes.{IsHashed, update-IsHashed}
use operating_system_concept.Hash.SameKey.{SameKey, hash_lookup-SameKey}

-- A comparison, and a hash function that gives equal keys the same 32-bit word.
pub record IsHashing (hfunc : ℕ → ℕ) (cmp : ℕ → ℕ → Bool) : Type 0 where
  pub compares : IsCompare cmp
  pub respects : (a b : ℕ) → cmp a b ≡ true → hfunc a ≡ hfunc b
  pub word : (key : ℕ) → hfunc key < 2 ^ 32

-- The slot has the key.
abbrev pub hit : (ℕ → ℕ → Bool) → ℕ → HashSlot → Bool
hit cmp key slot = is_sl_active slot.mode && cmp slot.key key

pub record IsSound (rounds : ℕ) (map : HashMap) : Type 0 where
  pub inside : (i : ℕ) → is_sl_active (map.table i).mode ≡ true → i < size map
  pub hashed : IsHashed map
  pub reached :
      (i : ℕ)
      → is_sl_active (map.table i).mode ≡ true
      → hash_lookup rounds map (map.table i).key (map.hfunc (map.table i).key) ≡ ok i

-- The write of one slot, with new numbers of used slots and of keys.
abbrev pub rewrite : ℕ → HashSlot → ℕ → ℕ → HashMap → HashMap
rewrite at slot fill count map = record (put_slot at slot map) { fill = fill; count = count }

pub cmp-sym : {cmp : ℕ → ℕ → Bool} (a b : ℕ) → IsCompare cmp → cmp a b ≡ true → cmp b a ≡ true
cmp-sym a b c e = c.euclidean a b a e (c.reflexive a)

module _ (rounds : ℕ) (map : HashMap) (hashing : IsHashing map.hfunc map.cmp) where
  pub SameKey-cmp : (key other : ℕ) → map.cmp key other ≡ true → SameKey map key other
  SameKey-cmp key other e = record {
    hash = sym (hashing.respects key other e);
    alike = λ x. elim (Bool-cases (map.cmp x key)) [
      | inl h ↦ let c = hashing.compares in c.euclidean key x other (cmp-sym x key c h) e ∙ sym h
      | inr n ↦ elim (Bool-cases (map.cmp x other)) [
        | inl h ↦ absurd (ground (arith, n, back x h))
        | inr h ↦ h ∙ sym n
      ]
    ];
  }
    where
      back : (x : ℕ) → map.cmp x other ≡ true → map.cmp x key ≡ true
      back x h =
          let c = hashing.compares in
          c.euclidean other x key (cmp-sym x other c h) (cmp-sym key other c e)

  -- A slot with the key is where the search for it ends.
  pub lookup-hit :
      (key i : ℕ)
      → IsSound rounds map
      → hit map.cmp key (map.table i) ≡ true
      → hash_lookup rounds map key (map.hfunc key) ≡ ok i
  lookup-hit key i s h =
      hash_lookup-SameKey map (map.table i).key key hashing.compares
        (SameKey-cmp (map.table i).key key (ground (arith, h))) s.hashed rounds
      ∙ s.reached i (ground (arith, h))

  pub one_slot :
      (key i j : ℕ)
      → IsSound rounds map
      → hit map.cmp key (map.table i) ≡ true
      → hit map.cmp key (map.table j) ≡ true
      → i ≡ j
  one_slot key i j s h h' = ok-injective i j (sym (lookup-hit key i s h) ∙ lookup-hit key j s h')

  -- Where the search ends at an active slot, it has the key.
  pub lookup-active :
      (key at : ℕ)
      → IsSound rounds map
      → hash_lookup rounds map key (map.hfunc key) ≡ ok at
      → is_sl_active (map.table at).mode ≡ true
      → hit map.cmp key (map.table at) ≡ true
  unfolding hash_lookup
  lookup-active key at s run a = ground (
    arith,
    a,
    matches-cmp map key (map.hfunc key) (map.table at) hashing.compares (
        probe-active map key (map.hfunc key) at rounds (map.hfunc key % size map) (map.hfunc key)
          none (λ f e. absurd (cc)) a run),
  )

  -- A write to a slot, of a key for which the search ends there, or of no key.
  module _ (at : ℕ) (slot : HashSlot) (fill count : ℕ) (s : IsSound rounds map)
      (known : at < size map) (filled : is_sl_empty slot.mode ≡ false)
      (hash : is_sl_active slot.mode ≡ true → slot.hash ≡ map.hfunc slot.key)
      (place : is_sl_active slot.mode ≡ true
        → hash_lookup rounds map slot.key (map.hfunc slot.key) ≡ ok at) where
    own_key :
        (slot : HashSlot) (h : ℕ)
        → is_sl_active slot.mode ≡ true
        → matches map slot.key h slot ≡ true
    own_key slot h a = ground (arith, a, (==_iff slot.key slot.key).1 refl)

    -- A key that another slot has is not in the slot, neither before nor after.
    before_write :
        (i : ℕ)
        → (i == at) ≡ false
        → is_sl_active (map.table i).mode ≡ true
        → matches map (map.table i).key (map.hfunc (map.table i).key) (map.table at) ≡ false
    before_write i n a =
        let key = (map.table i).key in
        elim (Bool-cases (matches map key (map.hfunc key) (map.table at))) [
          | inl m ↦
              let alike = matches-cmp map key (map.hfunc key) (map.table at) hashing.compares m in
              let both : i ≡ at =
                one_slot key i at s (ground (arith, a, hashing.compares.reflexive key))
                  (ground (arith, m, alike)) in
              absurd (ground (arith, n, both))
          | inr m ↦ m
        ]

    after_write :
        (i : ℕ)
        → (i == at) ≡ false
        → is_sl_active (map.table i).mode ≡ true
        → matches map (map.table i).key (map.hfunc (map.table i).key) slot ≡ false
    after_write i n a =
        let key = (map.table i).key in
        elim (Bool-cases (matches map key (map.hfunc key) slot)) [
          | inl m ↦
              let alike = matches-cmp map key (map.hfunc key) slot hashing.compares m in
              let both : i ≡ at = ok-injective i at (
                sym (s.reached i a)
                ∙ hash_lookup-SameKey map slot.key key hashing.compares
                    (SameKey-cmp slot.key key alike) s.hashed rounds
                ∙ place (ground (arith, m))) in
              absurd (ground (arith, n, both))
          | inr m ↦ m
        ]

    after : HashMap
    after = rewrite at slot fill count map

    -- At its own place.
    reached_here :
        is_sl_active slot.mode ≡ true
        → hash_lookup rounds after slot.key (map.hfunc slot.key) ≡ ok at
    unfolding after hash_lookup
    reached_here a =
        probe-Written map after slot.key (map.hfunc slot.key) at
          (record {
            mask = refl;
            same = λ i n. rw n refl;
            cmp = refl;
            here =
                ap (matches map slot.key (map.hfunc slot.key)) (update_self map.table at slot)
                ∙ own_key slot (map.hfunc slot.key) a;
          })
          rounds (map.hfunc slot.key % size map) (map.hfunc slot.key) none (λ f e. absurd (cc))
          (place a)

    reached_there :
        (i : ℕ)
        → (i == at) ≡ false
        → is_sl_active (map.table i).mode ≡ true
        → hash_lookup rounds after (map.table i).key (map.hfunc (map.table i).key) ≡ ok i
    unfolding after hash_lookup
    reached_there i n a =
        let key = (map.table i).key in
        let h = map.hfunc key in
        probe-Aside map after key h at i
          (record {
            mask = refl;
            same = λ i n. rw n refl;
            cmp = refl;
            before = before_write i n a;
            after = ap (matches map key h) (update_self map.table at slot) ∙ after_write i n a;
            filled = ap (λ s. is_sl_empty s.mode) (update_self map.table at slot) ∙ filled;
          })
          (own_key (map.table i) h a) rounds (h % size map) h none none (λ f e. absurd (cc))
          (s.reached i a)

    pub rewrite-IsSound : IsSound rounds (rewrite at slot fill count map)
    unfolding after
    rewrite-IsSound = record {
      inside = λ i a. elim (Bool-cases (i == at)) [
        | inl e ↦ ground (arith, e, known)
        | inr n ↦
            s.inside i
              (subst (λ s. is_sl_active s.mode ≡ true) (update_elsewhere map.table at slot i n) a)
      ];
      hashed = update-IsHashed map at slot hash s.hashed;
      reached = λ i a. elim (Bool-cases (i == at)) [
        | inl e ↦
            let to = update_at map.table at slot i e in
            subst (λ s. hash_lookup rounds after s.key (map.hfunc s.key) ≡ ok i) (sym to)
              (reached_here (subst (λ s. is_sl_active s.mode ≡ true) to a)
                ∙ ap ok (sym ((==_iff i at).0 e)))
        | inr n ↦
            let to = update_elsewhere map.table at slot i n in
            subst (λ s. hash_lookup rounds after s.key (map.hfunc s.key) ≡ ok i) (sym to)
              (reached_there i n (subst (λ s. is_sl_active s.mode ≡ true) to a))
      ];
    }
