-- ===== src/Hash/Change.antt =====
-- A write to the slot of a hash table at which the search for a key ended.
use operating_system_concept.Base.{
  ℕ, ◌+◌, ◌-◌, ◌<◌, ◌≡◌, sym, ap, ◌∙◌, inl, inr, Bool, true, false, not, Option, arith, Bool-cases,
}
use operating_system_concept.Base.Run.{ok}
use operating_system_concept.Hash.{HashMap, HashSlot, is_sl_empty, size, hash_lookup}
use operating_system_concept.Hash.Tally.{one_if, tally-update}
use operating_system_concept.Hash.Aside.{IsCompare}
use operating_system_concept.Hash.SameKey.{hash_lookup-SameKey}
use operating_system_concept.Hash.Sound.{
  IsHashing, hit, rewrite, lookup-active, rewrite-IsSound, SameKey-cmp,
}
use operating_system_concept.Hash.Answers.{Answers, Among-aside}
use operating_system_concept.Hash.Copied.{has_key}
use operating_system_concept.Hash.Resize.{IsTable, is_used}

-- Slots that have one key have no other.
hit-apart :
    (cmp : ℕ → ℕ → Bool) (key other : ℕ) (slot : HashSlot)
    → IsCompare cmp
    → cmp key other ≡ false
    → (has_key slot ≡ true → hit cmp key slot ≡ true)
    → hit cmp other slot ≡ false
hit-apart cmp key other slot c n mine = elim (Bool-cases (hit cmp other slot)) [
  | inl h ↦ absurd (
      ground (
        arith,
        n,
        c.euclidean slot.key key other (ground (arith, mine (ground (arith, h))))
            (ground (arith, h)),
      ))
  | inr n ↦ n
]

-- The key now has the answer, and every other key has the one from before.
abbrev pub Changed : HashMap → HashMap → ℕ → Option ℕ → Type 0
Changed map map' key answer =
    Answers map' key answer
    × ((other : ℕ) (known : Option ℕ)
        → map.cmp key other ≡ false
        → Answers map other known
        → Answers map' other known)

module _ (rounds limit : ℕ) (map : HashMap) (hashing : IsHashing map.hfunc map.cmp)
    (t : IsTable rounds limit map) (key at : ℕ) (inside : at < size map)
    (run : hash_lookup rounds map key (map.hfunc key) ≡ ok at) where
  -- The new slot has the key, or none.
  pub rewrite-IsTable :
      (slot : HashSlot) (fill count : ℕ)
      → is_sl_empty slot.mode ≡ false
      → (has_key slot ≡ true → hit map.cmp key slot ≡ true)
      → (has_key slot ≡ true → slot.hash ≡ map.hfunc slot.key)
      → fill ≡ map.fill + 1 - one_if (is_used (map.table at))
      → count ≡ map.count + one_if (has_key slot) - one_if (has_key (map.table at))
      → IsTable rounds limit (rewrite at slot fill count map)
  rewrite-IsTable slot fill count filled mine hash fills counts = record {
    bits = t.bits;
    low = t.low;
    power = t.power;
    bounded = t.bounded;
    sound = rewrite-IsSound rounds map hashing at slot fill count t.sound inside filled hash (λ a.
        sym (
          hash_lookup-SameKey map slot.key key hashing.compares
            (SameKey-cmp rounds map hashing slot.key key (ground (arith, mine a))) t.sound.hashed
            rounds)
        ∙ run);
    filled = omega (
      arith,
      t.filled,
      fills,
      tally-update is_used map.table (size map) at slot inside,
      ap (λ b. one_if (not b)) filled,
    );
    counted =
        omega (arith, t.counted, counts, tally-update has_key map.table (size map) at slot inside);
  }

  pub rewrite-others :
      (slot : HashSlot) (fill count : ℕ)
      → (has_key slot ≡ true → hit map.cmp key slot ≡ true)
      → (other : ℕ) (known : Option ℕ) → map.cmp key other ≡ false
      → Answers map other known
      → Answers (rewrite at slot fill count map) other known
  rewrite-others slot fill count mine other known n a =
      Among-aside (size map) map.table map.cmp other at slot known
        (hit-apart map.cmp key other (map.table at) hashing.compares n
          (lookup-active rounds map hashing key at t.sound run))
        (hit-apart map.cmp key other slot hashing.compares n mine) a
