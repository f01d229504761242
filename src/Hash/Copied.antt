-- ===== src/Hash/Copied.antt =====
-- `hash_copy` moves every key of the old table to the new one.
use mathlib.Core.Path.{subst}
use operating_system_concept.Base.{
  ℕ, suc, ◌+◌, ◌<◌, ◌≡◌, refl, ap, ◌∙◌, inl, inr, Bool, true, false, Option, none, some, arith,
  ◌==◌, ==_iff, Bool-cases, update, update_at, update_elsewhere,
}
use operating_system_concept.Base.Run.{ok}
use operating_system_concept.Hash.{
  HashMap, HashSlot, sl_active, is_sl_active, is_sl_deleted, hash_lookup,
}
use operating_system_concept.Hash.Tally.{tally, one_if, tally-update}
use operating_system_concept.Hash.Sound.{IsHashing, IsSound, hit, one_slot, rewrite-IsSound}
use operating_system_concept.Hash.Answers.{Among, Among-aside, Among-written}

abbrev pub has_key : HashSlot → Bool
has_key slot = is_sl_active slot.mode

-- The table in the making, with as many used slots as keys.
abbrev pub copy_of : HashMap → ℕ → ℕ → (ℕ → HashSlot) → HashMap
copy_of map mask used table = record map { fill = used; count = used; mask = mask; table = table }

abbrev pub active_slot : HashSlot → HashSlot
active_slot slot = record slot { mode = sl_active }

-- The table has the keys of the first `i` slots of the old one.
pub record IsCopied (rounds : ℕ) (old : HashMap) (mask i : ℕ) (table : ℕ → HashSlot) : Type 0 where
  pub sound : (used : ℕ) → IsSound rounds (copy_of old mask used table)
  pub known :
      (key : ℕ) (answer : Option ℕ)
      → Among i old.table old.cmp key answer
      → Among (mask + 1) table old.cmp key answer
  pub clean : (j : ℕ) → is_sl_deleted (table j).mode ≡ false
  pub counted : tally (mask + 1) has_key table ≡ tally i has_key old.table

module _ (rounds : ℕ) (old : HashMap) (hashing : IsHashing old.hfunc old.cmp)
    (was_sound : IsSound rounds old) (mask : ℕ) where
  -- The slot `i` of the old table does not have the key.
  slot_without :
      (i key : ℕ) (answer : Option ℕ)
      → hit old.cmp key (old.table i) ≡ false
      → Among (suc i) old.table old.cmp key answer
      → Among i old.table old.cmp key answer
  slot_without i key none n known = λ j inside. known j (omega arith)
  slot_without i key (some value) n (j, inside, h, v) =
      let apart : (j == i) ≡ false = elim (Bool-cases (j == i)) [
        | inl e ↦
            absurd
              (ground (arith, n, h, ap (λ k. hit old.cmp key (old.table k)) ((==_iff j i).0 e)))
        | inr e ↦ e
      ] in
      (j, ground (arith, apart), h, v)

  -- It has the key.
  slot_with :
      (i key : ℕ) (answer : Option ℕ)
      → hit old.cmp key (old.table i) ≡ true
      → Among (suc i) old.table old.cmp key answer
      → some (old.table i).value ≡ answer
  slot_with i key none h known = absurd (ground (arith, h, known i (omega arith)))
  slot_with i key (some value) h (j, inside, h', v) =
      let same : i ≡ j = one_slot rounds old hashing key i j was_sound h h' in
      ap (λ k. some (old.table k).value) same ∙ ap (λ v. some v) v

  -- A slot that is not active is passed by.
  pub skipped :
      (i : ℕ) (table : ℕ → HashSlot)
      → has_key (old.table i) ≡ false
      → IsCopied rounds old mask i table
      → IsCopied rounds old mask (suc i) table
  unfolding tally
  skipped i table n c = record {
    sound = c.sound;
    known = λ key answer a. c.known key answer (slot_without i key answer (ground (arith, n)) a);
    clean = c.clean;
    counted = ground (arith, n, c.counted);
  }

  -- An active one is in none of the slots before it.
  pub absent_before :
      (i : ℕ) (table : ℕ → HashSlot)
      → has_key (old.table i) ≡ true
      → IsCopied rounds old mask i table
      → Among (mask + 1) table old.cmp (old.table i).key none
  absent_before i table a c = c.known (old.table i).key none λ j inside.
      elim (Bool-cases (hit old.cmp (old.table i).key (old.table j))) [
        | inl h ↦
            let same : j ≡ i =
              one_slot rounds old hashing (old.table i).key j i was_sound h
                (ground (arith, a, hashing.compares.reflexive (old.table i).key)) in
            absurd (omega (arith, same))
        | inr n ↦ n
      ]

  pub copied :
      (i at : ℕ) (table : ℕ → HashSlot) (used : ℕ)
      → has_key (old.table i) ≡ true
      → at < mask + 1
      → has_key (table at) ≡ false
      → hash_lookup rounds
          (copy_of old mask used table)
          (old.table i).key
          (old.hfunc (old.table i).key)
        ≡ ok at
      → IsCopied rounds old mask i table
      → IsCopied rounds old mask (suc i) (update table at (active_slot (old.table i)))
  unfolding tally
  copied i at table used a inside free run c =
      let slot = active_slot (old.table i) in
      record {
        sound = λ used'.
            rewrite-IsSound rounds (copy_of old mask used table) hashing at slot used' used'
              (c.sound used) inside refl (λ _. was_sound.hashed i a) (λ _. run);
        known = λ key answer among. elim (Bool-cases (hit old.cmp key (old.table i))) [
          | inl h ↦
              subst (Among (mask + 1) (update table at slot) old.cmp key)
                (slot_with i key answer h among)
                (Among-written (mask + 1) table old.cmp key at slot inside (ground (arith, h)))
          | inr n ↦
              Among-aside (mask + 1) table old.cmp key at slot answer (ground (arith, free))
                (ground (arith, n, a)) (c.known key answer (slot_without i key answer n among))
        ];
        clean = λ j. elim (Bool-cases (j == at)) [
          | inl e ↦ ap (λ s. is_sl_deleted s.mode) (update_at table at slot j e)
          | inr n ↦ ap (λ s. is_sl_deleted s.mode) (update_elsewhere table at slot j n) ∙ c.clean j
        ];
        counted = omega (
          arith,
          tally-update has_key table (mask + 1) at slot inside,
          c.counted,
          ap one_if free,
          ap one_if a,
        );
      }
