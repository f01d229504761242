-- ===== src/Hash/Resize.antt =====
-- How `hash_update` changes the number of slots of a hash table.
use native.Mathlib.Nat.{pow-le-pow_right}
use operating_system_concept.Base.{
  ℕ, zero, suc, ◌+◌, ◌-◌, ◌*◌, ◌/◌, ◌^◌, ◌≤◌, ◌<◌, ◌≡◌, refl, sym, ap, ◌∙◌, inl, inr, Bool, true,
  false, not, ◌&&◌, Option, arith, Bool-cases, leb, ltb,
}
use operating_system_concept.Base.Run.{ok, ◌>>=◌}
use operating_system_concept.Hash.{
  HashMap, HashSlot, is_sl_empty, size, hash_minsize, initialized, hash_initialize, hash_copy,
  hash_update, empty_slot, resize, long_leb, long_ltb,
}
use operating_system_concept.Hash.Tally.{tally, tally-gap, tally-le, tally-below, tally-alike}
use operating_system_concept.Hash.Writes.{IsRoomy, long_leb-small, long_ltb-small}
use operating_system_concept.Hash.Sound.{IsHashing, IsSound}
use operating_system_concept.Hash.Answers.{Answers}
use operating_system_concept.Hash.Copied.{has_key, copy_of}
use operating_system_concept.Hash.Copy.{copies, fresh}

abbrev pub is_used : HashSlot → Bool
is_used slot = not (is_sl_empty slot.mode)

-- A table of 2 ^ bits slots, at least eight and at most `limit`, that counts its used slots and its
-- keys.
pub record IsTable (rounds limit : ℕ) (map : HashMap) : Type 0 where
  pub bits : ℕ
  pub low : 3 ≤ bits
  pub power : size map ≡ 2 ^ bits
  pub bounded : size map ≤ limit
  pub sound : IsSound rounds map
  pub filled : map.fill ≡ tally (size map) is_used map.table
  pub counted : map.count ≡ tally (size map) has_key map.table

-- Fewer than two thirds of the slots are used.
abbrev pub IsSpare : HashMap → Type 0
IsSpare map = 3 * map.fill < 2 * size map

-- The table with other slots.
abbrev pub with_slots : HashMap → ℕ → ℕ → ℕ → (ℕ → HashSlot) → HashMap
with_slots map fill count mask table = record map {
  fill = fill;
  count = count;
  mask = mask;
  table = table;
}

-- A table that says the same of every key, with as many used slots at most.
abbrev pub Resized : ℕ → ℕ → HashMap → HashMap → Type 0
Resized rounds limit map map' =
    IsTable rounds limit map'
    × IsSpare map'
    × (map'.fill ≤ map.fill)
    × ((key : ℕ) (answer : Option ℕ) → Answers map key answer → Answers map' key answer)

module _ (rounds limit : ℕ) (short : limit < 2 ^ 28) (enough : 7 + limit ≤ rounds) where
  small_bits : (bits : ℕ) → 2 ^ bits ≤ limit → bits ≤ 32
  small_bits bits le = elim (Bool-cases (leb bits 32)) [
    | inl e ↦ ground (arith, e)
    | inr n ↦
        let big = pow-le-pow_right {n = 2} (omega arith) {i = 33} {j = bits} (ground (arith, n)) in
        absurd (omega (arith, big, le, short))
  ]

  pub Table-IsRoomy : (map : HashMap) → IsTable rounds limit map → IsSpare map → IsRoomy map rounds
  Table-IsRoomy map t spare =
      let (e, inside, free) =
        tally-gap is_used map.table (size map) (omega (arith, t.filled, spare)) in
      record {
        bits = t.bits;
        empty = e;
        small = small_bits t.bits (omega (arith, t.power, t.bounded));
        power = t.power;
        inside = inside;
        unused = ground (arith, free);
        enough = omega (arith, t.bounded);
      }

  pub keys_used :
      (map : HashMap) → IsTable rounds limit map → (map.count ≤ map.fill) × (map.fill ≤ size map)
  keys_used map t = (
    omega (
      arith,
      t.filled,
      t.counted,
      tally-le has_key is_used map.table (size map) (λ s h. ground (arith, h)),
    ),
    omega (arith, t.filled, tally-below is_used map.table (size map)),
  )

  halves :
      (bits slots : ℕ)
      → slots ≡ 2 ^ bits
      → 8 < slots
      → (b : ℕ) × (3 ≤ b) × (slots / 2 ≡ 2 ^ b) × (2 * (slots / 2) ≡ slots)
  halves zero slots power more = absurd (omega arith)
  halves (suc b) slots power more = elim (Bool-cases (leb 3 b)) [
    | inl e ↦ (b, ground (arith, e), omega arith, omega arith)
    | inr n ↦
        let few = pow-le-pow_right {n = 2} (omega arith) {i = suc b} {j = 3} (ground (arith, n)) in
        absurd (omega (arith, few))
  ]

  module _ (map : HashMap) (hashing : IsHashing map.hfunc map.cmp)
      (t : IsTable rounds limit map) where
    -- A new table with `slots` slots.
    moves :
        (slots bits : ℕ)
        → slots ≡ 2 ^ bits
        → 3 ≤ bits
        → slots ≤ limit
        → 3 * map.count < 2 * slots
        → (table : ℕ → HashSlot) × (hash_copy rounds (size map) 0 map.table (initialized map slots)
            ≡ ok (copy_of map (slots - 1) map.count table))
          × Resized rounds limit map (copy_of map (slots - 1) map.count table)
    unfolding initialized hash_copy tally
    moves slots bits power low bounded spare =
        let slots_mask : (slots - 1) + 1 ≡ slots = omega (arith, spare) in
        let (table, run, c) =
          copies rounds map hashing t.sound (slots - 1) bits
            (small_bits bits (omega (arith, power))) (slots_mask ∙ power)
            (omega (arith, slots_mask)) (size map) 0 (size map) (λ _. empty_slot) (omega arith)
            (fresh rounds map hashing t.sound (slots - 1) bits
              (small_bits bits (omega (arith, power))) (slots_mask ∙ power)
              (omega (arith, slots_mask)))
            (omega (arith, t.counted, slots_mask, spare)) in
        let full : tally (size map) has_key map.table ≡ map.count = sym t.counted in
        let counted : map.count ≡ tally (slots - 1 + 1) has_key table = t.counted ∙ sym c.counted in
        (
          table,
          run ∙ ap (λ used. ok (copy_of map (slots - 1) used table)) full,
          (
            record {
              bits = bits;
              low = low;
              power = slots_mask ∙ power;
              bounded = omega (arith, slots_mask);
              sound = c.sound map.count;
              filled =
                  counted
                  ∙ tally-alike has_key is_used table (slots - 1 + 1)
                      (λ i. ground (arith, c.clean i));
              counted = counted;
            },
            omega (arith, slots_mask, spare),
            (keys_used map t).0,
            c.known,
          ),
        )

    -- The slots of a table within the limit have an allocation of their size.
    resize-runs :
        (slots : ℕ)
        → slots ≤ limit
        → resize rounds slots map ≡ (
            hash_copy rounds (size map) 0 map.table (initialized map slots) >>= λ map'.
            ok (true, map'))
    unfolding hash_initialize
    resize-runs slots le =
        let fits : leb (2 ^ 32) (slots * 16) ≡ false = ground (arith, short, le) in rw fits refl

    full-test :
        3 * map.fill ≤ limit
        → long_leb (2 * size map) (3 * map.fill) ≡ leb (2 * size map) (3 * map.fill)
    full-test bound =
        long_leb-small (2 * size map) (3 * map.fill) (omega (arith, t.bounded, short))
          (omega (arith, bound, short))

    sparse-test :
        (long_ltb hash_minsize (size map) && long_leb (4 * map.count) (size map))
        ≡ (ltb hash_minsize (size map) && leb (4 * map.count) (size map))
    sparse-test =
        let (fewer, inside) = keys_used map t in
        rw
          (
            long_ltb-small hash_minsize (size map) (omega arith) (omega (arith, t.bounded, short)),
            long_leb-small (4 * map.count) (size map)
                (omega (arith, t.bounded, short, fewer, inside)) (omega (arith, t.bounded, short)),
          )
          refl

    grows : long_ltb (2 * size map) (size map) ≡ false
    grows =
        long_ltb-small (2 * size map) (size map) (omega (arith, t.bounded, short))
          (omega (arith, t.bounded, short))
        ∙ ground arith

    pub hash_update-Resized :
        3 * map.fill ≤ limit
        → (fill : ℕ) × (count : ℕ) × (mask : ℕ) × (table : ℕ → HashSlot) × (hash_update rounds map
            ≡ ok (true, with_slots map fill count mask table))
          × Resized rounds limit map (with_slots map fill count mask table)
    unfolding hash_update
    hash_update-Resized bound = elim (Bool-cases (leb (2 * size map) (3 * map.fill))) [
      | inl full ↦
          let (fewer, inside) = keys_used map t in
          let double : 2 * size map ≤ limit = ground (arith, full, bound) in
          let (table, run, moved) =
            moves (2 * size map) (suc t.bits) (omega (arith, t.power)) (omega (arith, t.low)) double
              (omega (arith, fewer, inside)) in
          (
            _,
            _,
            _,
            _,
            rw (full-test bound ∙ full, grows) (resize-runs (2 * size map) double ∙ rw run refl),
            moved,
          )
      | inr spare ↦
          elim (Bool-cases (ltb hash_minsize (size map) && leb (4 * map.count) (size map))) [
            | inl sparse ↦
                let more : 8 < size map = ground (arith, sparse) in
                let (b, low, power, twice) = halves t.bits (size map) t.power more in
                let half : size map / 2 ≤ limit = omega (arith, t.bounded) in
                let (table, run, moved) =
                  moves (size map / 2) b power low half (ground (arith, sparse, twice)) in
                (
                  _,
                  _,
                  _,
                  _,
                  rw (full-test bound ∙ spare, sparse-test ∙ sparse)
                      (resize-runs (size map / 2) half ∙ rw run refl),
                  moved,
                )
            | inr kept ↦ (
              _,
              _,
              _,
              _,
              rw (full-test bound ∙ spare, sparse-test ∙ kept) refl,
              (t, ground (arith, spare), omega arith, λ key answer a. a),
            )
          ]
    ]
