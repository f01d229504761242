-- ===== src/Msgq/Create.antt =====
-- `pcreate` of kernel/msgq.c, and its search for an unused queue.
use mathlib.Core.Path.{subst}
use operating_system_concept.Base.{
  ℕ, zero, suc, ◌+◌, ◌≤◌, ◌<◌, ◌≡◌, refl, false, some, arith, ltb, leb, ◌==◌, ==_iff, sym, inl, inr,
  Bool-cases,
}
use operating_system_concept.Base.Int.{pos}
use operating_system_concept.Kernel.{Kernel, nbqueue, maxcount}
use operating_system_concept.Msgq.Cells.{free_fid, fresh_queue, put_queue, valid_fid, pcreate}

-- The search finds the first unused queue.
pub record FirstUnused (k : Kernel) (from found : ℕ) : Type 0 where
  pub unused : (k.msg_queues found).max_count ≡ 0
  pub not_before : from ≤ found
  pub first : (j : ℕ) → from ≤ j → j < found → ((k.msg_queues j).max_count == 0) ≡ false

free_fid-FirstUnused :
    (n i : ℕ) (k : Kernel) (f : ℕ) → free_fid n i k ≡ some f → FirstUnused k i f × (f < i + n)
unfolding free_fid
free_fid-FirstUnused zero i k f e = absurd (cc)
free_fid-FirstUnused (suc n) i k f e = elim (Bool-cases ((k.msg_queues i).max_count == 0)) [
  | inl z ↦
      let same : i ≡ f = ground (arith, e) in
      (
        record {
          unused = subst (λ j. (k.msg_queues j).max_count ≡ 0) same ((==_iff _ 0).0 z);
          not_before = omega (arith, same);
          first = λ j lo hi. absurd (omega (arith, same));
        },
        omega (arith, same),
      )
  | inr z ↦
      let (r, hi) = free_fid-FirstUnused n (suc i) k f (ground (arith, e)) in
      (
        record {
          unused = r.unused;
          not_before = omega (arith, r.not_before);
          first = λ j lo h. elim (Bool-cases (j == i)) [
            | inl s ↦
                subst (λ x. ((k.msg_queues x).max_count == 0) ≡ false) (sym ((==_iff j i).0 s)) z
            | inr s ↦ r.first j (ground (arith)) h
          ];
        },
        omega (arith, hi),
      )
]

free_fid-found :
    (n i j : ℕ) (k : Kernel)
    → i ≤ j
    → j < i + n
    → (k.msg_queues j).max_count ≡ 0
    → (f : ℕ) × (free_fid n i k ≡ some f)
unfolding free_fid
free_fid-found zero i j k lo hi z = absurd (omega arith)
free_fid-found (suc n) i j k lo hi z = elim (Bool-cases ((k.msg_queues i).max_count == 0)) [
  | inl e ↦ (i, rw e refl)
  | inr e ↦
      let (f, found) = free_fid-found n (suc i) j k (ground arith) (omega arith) z in
      (f, rw e found)
]

-- With an unused queue, `pcreate` of a capacity in range gives the first one: it is in use
-- afterwards, empty and with that capacity, and the other queues stay.
pub pcreate-fresh :
    (count j : ℕ) (k : Kernel)
    → 1 ≤ count
    → count ≤ maxcount
    → j < nbqueue
    → (k.msg_queues j).max_count ≡ 0
    → (f : ℕ) × (k' : Kernel) × (pcreate (pos count) k ≡ (pos f, k'))
      × FirstUnused k 0 f
      × (valid_fid (pos f) k' ≡ some f)
      × (k'.msg_queues f ≡ fresh_queue f count)
      × ((x : ℕ) → (x == f) ≡ false → k'.msg_queues x ≡ k.msg_queues x)
unfolding pcreate valid_fid
pcreate-fresh count j k lo hi inside unused =
    let positive : leb count 0 ≡ false = ground arith in
    let small : ltb maxcount count ≡ false = ground arith in
    let (f, found) = free_fid-found nbqueue 0 j k (omega arith) (omega arith) unused in
    let (r, below) = free_fid-FirstUnused nbqueue 0 k f found in
    (
      f,
      put_queue f (fresh_queue f count) k,
      rw (positive, small) (rw found refl),
      r,
      ground (arith, below),
      ground arith,
      λ x n. rw n refl,
    )
