-- ===== src/Hash/Stores.antt =====
-- What `hash_set` and `hash_del` leave in a hash table, the change of its number of slots included.
use operating_system_concept.Base.{
  ℕ, ◌+◌, ◌-◌, ◌*◌, ◌^◌, ◌≤◌, ◌<◌, ◌≡◌, refl, ◌∙◌, inl, inr, Bool, true, false, Option, none, some,
  arith, Bool-cases, if◌then◌else◌,
}
use operating_system_concept.Base.Run.{Run, ok}
use operating_system_concept.Hash.{
  HashMap, HashSlot, sl_active, sl_deleted, is_sl_empty, is_sl_active, size, hash_lookup, hash_set,
  hash_set_at, hash_del, hash_update, occupy, vacate,
}
use operating_system_concept.Hash.Writes.{lookup_ends}
use operating_system_concept.Hash.Sound.{IsHashing, hit, rewrite, lookup-active}
use operating_system_concept.Hash.Answers.{Among-written, lookup-absent, removed-Among}
use operating_system_concept.Hash.Resize.{
  IsTable, IsSpare, with_slots, Table-IsRoomy, hash_update-Resized,
}
use operating_system_concept.Hash.Change.{Changed, rewrite-IsTable, rewrite-others}

module _ (rounds limit : ℕ) (short : limit < 2 ^ 28) (enough : 7 + limit ≤ rounds) (map : HashMap)
    (hashing : IsHashing map.hfunc map.cmp) (t : IsTable rounds limit map) (spare : IsSpare map)
    (bound : 3 * (map.fill + 1) ≤ limit) (key : ℕ) where
  -- A table with other slots, that has the answer for the key, and one used slot more at most.
  abbrev pub Gives : Option ℕ → HashMap → Type 0
  Gives answer map' =
      IsTable rounds limit map'
      × IsSpare map'
      × (map'.fill ≤ map.fill + 1)
      × Changed map map' key answer

  abbrev Leaves : Option ℕ → Run (Bool × HashMap) → Type 0
  Leaves answer change =
      (fill : ℕ) × (count : ℕ) × (mask : ℕ) × (table : ℕ → HashSlot) × (change
        ≡ ok (true, with_slots map fill count mask table))
      × Gives answer (with_slots map fill count mask table)

  -- A write, and the change of size behind it.
  updated :
      (answer : Option ℕ) (at : ℕ) (slot : HashSlot) (fill count : ℕ)
      → IsTable rounds limit (rewrite at slot fill count map)
      → fill ≤ map.fill + 1
      → Changed map (rewrite at slot fill count map) key answer
      → Leaves answer (hash_update rounds (rewrite at slot fill count map))
  updated answer at slot fill count t' more (given, others) =
      let (fill', count', mask, table, run, (t'', spare', fewer, same)) =
        hash_update-Resized rounds limit short enough (rewrite at slot fill count map) hashing t'
          (omega (arith, bound, more)) in
      (
        fill',
        count',
        mask,
        table,
        run,
        (
          t'',
          spare',
          omega (arith, fewer, more),
          (same key answer given, λ other known n a. same other known (others other known n a)),
        ),
      )

  module _ (at : ℕ) (inside : at < size map)
      (run : hash_lookup rounds map key (map.hfunc key) ≡ ok at) where
    found : is_sl_active (map.table at).mode ≡ true → hit map.cmp key (map.table at) ≡ true
    found a = lookup-active rounds map hashing key at t.sound run a

    occupies :
        (value : ℕ)
        → is_sl_active (map.table at).mode ≡ false
        → hash_set_at rounds at key value (map.hfunc key) map
          ≡ hash_update rounds (occupy at key value (map.hfunc key) map)
    unfolding hash_set_at
    occupies value n = rw n refl

    hash_set_at-Leaves :
        (value : ℕ) → Leaves (some value) (hash_set_at rounds at key value (map.hfunc key) map)
    unfolding hash_set_at
    hash_set_at-Leaves value = elim (Bool-cases (is_sl_active (map.table at).mode)) [
      | inl a ↦
          let slot : HashSlot = record (map.table at) { value = value } in
          let mine : hit map.cmp key slot ≡ true = ground (arith, found a) in
          (
            _,
            _,
            _,
            _,
            rw a refl,
            (
              rewrite-IsTable rounds limit map hashing t key at inside run slot map.fill map.count
                  (ground (arith, a)) (λ _. mine) (λ _. t.sound.hashed at a) (ground (arith, a))
                  (ground (arith, a)),
              spare,
              omega arith,
              (
                Among-written (size map) map.table map.cmp key at slot inside mine,
                rewrite-others rounds limit map hashing t key at inside run slot map.fill map.count
                    (λ _. mine),
              ),
            ),
          )
      | inr n ↦
          let slot : HashSlot = record {
            key = key;
            value = value;
            hash = map.hfunc key;
            mode = sl_active;
          } in
          let mine : hit map.cmp key slot ≡ true = hashing.compares.reflexive key in
          let fill = map.fill + (if is_sl_empty (map.table at).mode then 1 else 0) in
          let (fill', count', mask, table, run', gives) =
            updated (some value) at slot fill (map.count + 1)
              (rewrite-IsTable rounds limit map hashing t key at inside run slot fill
                (map.count + 1) refl (λ _. mine) (λ _. refl) (ground arith) (ground (arith, n)))
              (ground arith)
              (
                Among-written (size map) map.table map.cmp key at slot inside mine,
                rewrite-others rounds limit map hashing t key at inside run slot fill
                    (map.count + 1) (λ _. mine),
              ) in
          (fill', count', mask, table, occupies value n ∙ run', gives)
    ]

    vacate-Leaves :
        is_sl_active (map.table at).mode ≡ true → Leaves none (hash_update rounds (vacate at map))
    vacate-Leaves a =
        let slot : HashSlot = record { key = 0; value = 0; hash = 0; mode = sl_deleted } in
        updated none at slot map.fill (map.count - 1)
          (rewrite-IsTable rounds limit map hashing t key at inside run slot map.fill
            (map.count - 1) refl (λ h. absurd (cc)) (λ h. absurd (cc)) (ground (arith, a))
            (ground (arith, a)))
          (omega arith)
          (
            removed-Among rounds map hashing t.sound key at slot (found a) refl,
            rewrite-others rounds limit map hashing t key at inside run slot map.fill
                (map.count - 1) (λ h. absurd (cc)),
          )

  -- `hash_set` puts the value under the key.
  pub hash_set-Gives :
      (value : ℕ)
      → (fill : ℕ) × (count : ℕ) × (mask : ℕ) × (table : ℕ → HashSlot) × (hash_set rounds
            (some map)
            key
            value
          ≡ ok (true, some (with_slots map fill count mask table)))
        × Gives (some value) (with_slots map fill count mask table)
  unfolding hash_set
  hash_set-Gives value =
      let (at, run, inside) =
        lookup_ends map key rounds (Table-IsRoomy rounds limit short enough map t spare)
          (hashing.word key) in
      let (fill, count, mask, table, run', gives) = hash_set_at-Leaves at inside run value in
      (fill, count, mask, table, rw run (rw run' refl), gives)

  -- `hash_del` takes it away.
  pub hash_del-Gives :
      (fill : ℕ) × (count : ℕ) × (mask : ℕ) × (table : ℕ → HashSlot) × (hash_del rounds
          (some map)
          key
        ≡ ok (true, some (with_slots map fill count mask table)))
      × Gives none (with_slots map fill count mask table)
  unfolding hash_del
  hash_del-Gives =
      let (at, run, inside) =
        lookup_ends map key rounds (Table-IsRoomy rounds limit short enough map t spare)
          (hashing.word key) in
      elim (Bool-cases (is_sl_active (map.table at).mode)) [
        | inl a ↦
            let (fill, count, mask, table, run', gives) = vacate-Leaves at inside run a in
            (fill, count, mask, table, rw (run, a) (rw run' refl), gives)
        | inr n ↦ (
          _,
          _,
          _,
          _,
          rw (run, n) refl,
          (
            t,
            spare,
            omega arith,
            (lookup-absent rounds map hashing t.sound key at run n, λ other known apart a. a),
          ),
        )
      ]
