-- ===== src/Hash/Copy.antt =====
-- The loop of `hash_copy` ends, with every key of the old table in the new one.
use mathlib.Core.Path.{subst}
use operating_system_concept.Base.{
  ℕ, zero, suc, ◌+◌, ◌^◌, ◌≤◌, ◌<◌, ◌≡◌, refl, sym, ap, ◌∙◌, inl, inr, true, false, Option, none,
  some, arith, Bool-cases,
}
use operating_system_concept.Base.Run.{ok}
use operating_system_concept.Hash.{HashMap, HashSlot, empty_slot, copy_slot, hash_copy}
use operating_system_concept.Hash.Tally.{tally, one_if, tally-gap, tally_mono, tally-none}
use operating_system_concept.Hash.Writes.{IsRoomy, lookup_ends}
use operating_system_concept.Hash.Sound.{IsHashing, IsSound, lookup-active}
use operating_system_concept.Hash.Answers.{Among}
use operating_system_concept.Hash.Copied.{
  has_key, copy_of, IsCopied, skipped, absent_before, copied,
}

module _ (rounds : ℕ) (old : HashMap) (hashing : IsHashing old.hfunc old.cmp)
    (was_sound : IsSound rounds old) (mask bits : ℕ) (small : bits ≤ 32)
    (power : mask + 1 ≡ 2 ^ bits) (enough : 7 + (mask + 1) ≤ rounds) where
  -- While there are fewer keys than slots, a slot of the new table is empty.
  has_room :
      (i used : ℕ) (table : ℕ → HashSlot)
      → IsCopied rounds old mask i table
      → tally i has_key old.table < mask + 1
      → IsRoomy (copy_of old mask used table) rounds
  has_room i used table c few =
      let (e, inside, free) = tally-gap has_key table (mask + 1) (omega (arith, c.counted)) in
      record {
        bits = bits;
        empty = e;
        small = small;
        power = power;
        inside = inside;
        unused = ground (arith, free, c.clean e);
        enough = enough;
      }

  -- One active slot.
  copies_slot :
      (i : ℕ) (table : ℕ → HashSlot)
      → has_key (old.table i) ≡ true
      → IsCopied rounds old mask i table
      → tally i has_key old.table < mask + 1
      → (table' : ℕ → HashSlot) × (copy_slot rounds
            (old.table i)
            (copy_of old mask (tally i has_key old.table) table)
          ≡ ok (copy_of old mask (tally (suc i) has_key old.table) table'))
        × IsCopied rounds old mask (suc i) table'
  unfolding copy_slot tally
  copies_slot i table a c few =
      let used = tally i has_key old.table in
      let key = (old.table i).key in
      let now = copy_of old mask used table in
      let (at, run, inside) =
        lookup_ends now key rounds (has_room i used table c few) (hashing.word key) in
      let free : has_key (table at) ≡ false = elim (Bool-cases (has_key (table at))) [
        | inl h ↦ absurd (
            ground (
              arith,
              absent_before rounds old hashing was_sound mask i table a c at inside,
              lookup-active rounds now hashing key at (c.sound used) run h,
            ))
        | inr n ↦ n
      ] in
      (
        _,
        rw (run, a) refl,
        copied rounds old hashing was_sound mask i at table used a inside free run c,
      )

  not_counted :
      (i : ℕ)
      → has_key (old.table i) ≡ false
      → tally (suc i) has_key old.table ≡ tally i has_key old.table
  unfolding tally
  not_counted i f = omega (arith, ap one_if f)

  -- `n` slots from `i` on.
  pub copies :
      (n i end : ℕ) (table : ℕ → HashSlot)
      → i + n ≡ end
      → IsCopied rounds old mask i table
      → tally end has_key old.table < mask + 1
      → (table' : ℕ → HashSlot) × (hash_copy rounds n i old.table
            (copy_of old mask (tally i has_key old.table) table)
          ≡ ok (copy_of old mask (tally end has_key old.table) table'))
        × IsCopied rounds old mask end table'
  unfolding hash_copy
  copies zero i end table total c few =
      let same : i ≡ end = omega arith in
      (
        table,
        ap (λ k. ok (copy_of old mask (tally k has_key old.table) table)) same,
        subst (λ k. IsCopied rounds old mask k table) same c,
      )
  copies (suc n) i end table total c few = elim (Bool-cases (has_key (old.table i))) [
    | inl a ↦
        let below = tally_mono has_key old.table i end (omega arith) in
        let (next, step, c') = copies_slot i table a c (omega arith) in
        let (table', run, done) = copies n (suc i) end next (omega arith) c' few in
        (table', rw a (rw step run), done)
    | inr f ↦
        let same : tally (suc i) has_key old.table ≡ tally i has_key old.table = not_counted i f in
        let (table', run, done) =
          copies n (suc i) end table (omega arith)
            (skipped rounds old hashing was_sound mask i table f c) few in
        (
          table',
          rw f (
              ap (λ used. hash_copy rounds n (suc i) old.table (copy_of old mask used table))
                (sym same)
              ∙ run),
          done,
        )
  ]

  nothing :
      (key : ℕ) (answer : Option ℕ)
      → Among 0 old.table old.cmp key answer
      → Among (mask + 1) (λ _. empty_slot) old.cmp key answer
  nothing key none known = λ i inside. refl
  nothing key (some value) (i, inside, h, v) = absurd (omega arith)

  pub fresh : IsCopied rounds old mask 0 (λ _. empty_slot)
  unfolding tally
  fresh = record {
    sound = λ used. record {
      inside = λ i a. absurd (cc);
      hashed = λ i a. absurd (cc);
      reached = λ i a. absurd (cc);
    };
    known = λ key answer. nothing key answer;
    clean = λ j. refl;
    counted = tally-none has_key (λ _. empty_slot) (mask + 1) (λ i. refl);
  }
