-- ===== src/Hash/Tally.antt =====
-- The number of slots, among the first ones of a table, that pass a test.
use operating_system_concept.Base.{
  ℕ, zero, suc, ◌+◌, ◌≤◌, ◌<◌, ◌≡◌, refl, ap, inl, inr, Bool, true, false, arith, ◌==◌, ==_iff,
  Bool-cases, update, if◌then◌else◌,
}
use operating_system_concept.Hash.{HashSlot}

abbrev pub one_if : Bool → ℕ
one_if b = if b then 1 else 0

unfoldable pub tally : ℕ → (HashSlot → Bool) → (ℕ → HashSlot) → ℕ
tally zero test table = 0
tally (suc n) test table = tally n test table + one_if (test (table n))

module _ (test : HashSlot → Bool) (table : ℕ → HashSlot) where
  -- A write behind the first `n` slots does not count.
  tally-outside :
      (n at : ℕ) (slot : HashSlot)
      → n ≤ at
      → tally n test (update table at slot) ≡ tally n test table
  unfolding tally
  tally-outside zero at slot out = refl
  tally-outside (suc n) at slot out =
      let other : (n == at) ≡ false = ground arith in
      rw other (omega (arith, tally-outside n at slot (omega arith)))

  pub tally-update :
      (n at : ℕ) (slot : HashSlot)
      → at < n
      → tally n test (update table at slot) + one_if (test (table at))
        ≡ tally n test table + one_if (test slot)
  unfolding tally
  tally-update zero at slot inside = absurd (omega arith)
  tally-update (suc n) at slot inside = elim (Bool-cases (n == at)) [
    | inl e ↦
        let same : n ≡ at = (==_iff n at).0 e in
        let outside = tally-outside n at slot (omega (arith, same)) in
        let here : one_if (test (table n)) ≡ one_if (test (table at)) =
          ap (λ i. one_if (test (table i))) same in
        rw e (omega (arith, outside, here))
    | inr e ↦ rw e (omega (arith, tally-update n at slot (ground (arith, e))))
  ]

  -- Fewer than all: one of them fails the test.
  pub tally-gap : (n : ℕ) → tally n test table < n → (e : ℕ) × (e < n) × (test (table e) ≡ false)
  unfolding tally
  tally-gap zero few = absurd (omega arith)
  tally-gap (suc n) few = elim (Bool-cases (test (table n))) [
    | inl yes_one ↦
        let (e, below, fails) = tally-gap n (ground (arith, yes_one)) in (e, omega arith, fails)
    | inr fails ↦ (n, omega arith, fails)
  ]

  pub tally-none : (n : ℕ) → ((i : ℕ) → test (table i) ≡ false) → tally n test table ≡ 0
  unfolding tally
  tally-none zero all = refl
  tally-none (suc n) all = ground (arith, all n, tally-none n all)

  pub tally_mono : (n m : ℕ) → n ≤ m → tally n test table ≤ tally m test table
  unfolding tally
  tally_mono n zero le = ground arith
  tally_mono n (suc m) le = elim (Bool-cases (n == suc m)) [
    | inl e ↦ omega (arith, ap (λ k. tally k test table) ((==_iff n (suc m)).0 e))
    | inr e ↦ omega (arith, tally_mono n m (ground (arith, e)))
  ]

  pub tally-below : (n : ℕ) → tally n test table ≤ n
  unfolding tally
  tally-below zero = omega arith
  tally-below (suc n) = ground (arith, tally-below n)

-- A test that is stronger counts fewer.
pub tally-le :
    (strong weak : HashSlot → Bool) (table : ℕ → HashSlot) (n : ℕ)
    → ((s : HashSlot) → strong s ≡ true → weak s ≡ true)
    → tally n strong table ≤ tally n weak table
unfolding tally
tally-le strong weak table zero imp = omega arith
tally-le strong weak table (suc n) imp =
    ground (arith, tally-le strong weak table n imp, imp (table n))

pub tally-alike :
    (test test' : HashSlot → Bool) (table : ℕ → HashSlot) (n : ℕ)
    → ((i : ℕ) → test (table i) ≡ test' (table i))
    → tally n test table ≡ tally n test' table
unfolding tally
tally-alike test test' table zero same = refl
tally-alike test test' table (suc n) same =
    omega (arith, tally-alike test test' table n same, ap one_if (same n))
