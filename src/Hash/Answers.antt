-- ===== src/Hash/Answers.antt =====
-- What the slots of a hash table say about a key, and what `hash_isset` and `hash_get` read.
use operating_system_concept.Base.{
  ℕ, ◌<◌, ◌≡◌, refl, sym, ap, ◌∙◌, inl, inr, Bool, true, false, Option, none, some, arith, ◌==◌,
  ==_iff, Bool-cases, update, update_self, update_at, update_elsewhere,
}
use operating_system_concept.Base.Run.{ok, ok-injective}
use operating_system_concept.Hash.{
  HashMap, HashSlot, is_sl_active, size, hash_lookup, hash_get, hash_isset,
}
use operating_system_concept.Hash.Writes.{IsRoomy, lookup_ends}
use operating_system_concept.Hash.Sound.{
  IsHashing, IsSound, hit, lookup-hit, one_slot, lookup-active,
}

-- Among the first `n` slots the key is absent, or one of them has it with the value.
abbrev pub Among : ℕ → (ℕ → HashSlot) → (ℕ → ℕ → Bool) → ℕ → Option ℕ → Type 0
Among n table cmp key none = (i : ℕ) → i < n → hit cmp key (table i) ≡ false
Among n table cmp key (some value) =
    (i : ℕ) × (i < n) × (hit cmp key (table i) ≡ true) × ((table i).value ≡ value)

abbrev pub Answers : HashMap → ℕ → Option ℕ → Type 0
Answers map = Among (size map) map.table map.cmp

abbrev pub is_some : Option ℕ → Bool
is_some none = false
is_some (some value) = true

abbrev pub or_default : Option ℕ → ℕ → ℕ
or_default none default_value = default_value
or_default (some value) default_value = value

module _ (n : ℕ) (table : ℕ → HashSlot) (cmp : ℕ → ℕ → Bool) (key at : ℕ) (slot : HashSlot) where
  -- A write to a slot that does not have the key, neither before nor after.
  pub Among-aside :
      (answer : Option ℕ)
      → hit cmp key (table at) ≡ false
      → hit cmp key slot ≡ false
      → Among n table cmp key answer
      → Among n (update table at slot) cmp key answer
  Among-aside none before after known = λ i inside. elim (Bool-cases (i == at)) [
    | inl e ↦ ap (hit cmp key) (update_at table at slot i e) ∙ after
    | inr e ↦ ap (hit cmp key) (update_elsewhere table at slot i e) ∙ known i inside
  ]
  Among-aside (some value) before after (i, inside, h, v) = elim (Bool-cases (i == at)) [
    | inl e ↦
        absurd (ground (arith, before, h, ap (λ j. hit cmp key (table j)) ((==_iff i at).0 e)))
    | inr e ↦
        let same = update_elsewhere table at slot i e in
        (i, inside, ap (hit cmp key) same ∙ h, ap (λ s. s.value) same ∙ v)
  ]

  pub Among-written :
      at < n → hit cmp key slot ≡ true → Among n (update table at slot) cmp key (some slot.value)
  Among-written inside h =
      let same = update_self table at slot in
      (at, inside, ap (hit cmp key) same ∙ h, ap (λ s. s.value) same)

module _ (rounds : ℕ) (map : HashMap) (hashing : IsHashing map.hfunc map.cmp)
    (sound : IsSound rounds map) (key : ℕ) where
  -- A search that ends at a slot that is not active: the key is absent.
  pub lookup-absent :
      (at : ℕ)
      → hash_lookup rounds map key (map.hfunc key) ≡ ok at
      → is_sl_active (map.table at).mode ≡ false
      → Answers map key none
  lookup-absent at run a i inside = elim (Bool-cases (hit map.cmp key (map.table i))) [
    | inl h ↦
        let there : i ≡ at =
          ok-injective i at (sym (lookup-hit rounds map hashing key i sound h) ∙ run) in
        absurd (ground (arith, a, h, ap (λ j. is_sl_active (map.table j).mode) there))
    | inr h ↦ h
  ]

  pub removed-Among :
      (at : ℕ) (slot : HashSlot)
      → hit map.cmp key (map.table at) ≡ true
      → is_sl_active slot.mode ≡ false
      → Among (size map) (update map.table at slot) map.cmp key none
  removed-Among at slot h a i inside = elim (Bool-cases (i == at)) [
    | inl e ↦ ap (hit map.cmp key) (update_at map.table at slot i e) ∙ ground (arith, a)
    | inr e ↦ elim (Bool-cases (hit map.cmp key (map.table i))) [
      | inl h' ↦ absurd (ground (arith, e, one_slot rounds map hashing key i at sound h' h))
      | inr n ↦ ap (hit map.cmp key) (update_elsewhere map.table at slot i e) ∙ n
    ]
  ]

  -- What is known of the key is what is read.
  pub reads :
      (answer : Option ℕ)
      → IsRoomy map rounds
      → Answers map key answer
      → (hash_isset rounds (some map) key ≡ ok (is_some answer))
        × ((default_value : ℕ)
            → hash_get rounds (some map) key default_value ≡ ok (or_default answer default_value))
  unfolding hash_isset hash_get
  reads none r known =
      let (at, run, inside) = lookup_ends map key rounds r (hashing.word key) in
      let a : is_sl_active (map.table at).mode ≡ false =
        elim (Bool-cases (is_sl_active (map.table at).mode)) [
          | inl a ↦
              absurd (
                ground
                  (arith, known at inside, lookup-active rounds map hashing key at sound run a))
          | inr a ↦ a
        ] in
      (rw run (ap ok a), λ default_value. rw run (rw a refl))
  reads (some value) r (i, inside, h, v) =
      let run = lookup-hit rounds map hashing key i sound h in
      let a : is_sl_active (map.table i).mode ≡ true = ground (arith, h) in
      (rw run (ap ok a), λ default_value. rw run (rw (a, v) refl))
