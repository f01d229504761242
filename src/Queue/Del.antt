-- ===== src/Queue/Del.antt =====
-- `queue_del`, `queue_out`, `queue_top` and `queue_bottom` of shared/queue.h, against the list that
-- the links stand for.
use operating_system_concept.Base.{
  ℕ, ◌≡◌, true, false, ◌||◌, none, some, List, [], ◌∷◌, arith, ◌==◌, Bool-cases, inl, inr, has,
  Distinct, last?, last_or, remove, has-remove, Distinct-remove,
}
use mathlib.Core.List.{head?}
use operating_system_concept.Base.Run.{Returns}
use operating_system_concept.Queue.{Links, unlink, queue_del, queue_out, queue_top, queue_bottom}
use operating_system_concept.Queue.Ring.{
  Chain, Chain-frame, Chain-last, IsQueue, IsQueue-frame, has-last_or,
}

module _ (l : Links) (head e : ℕ) where
  -- The neighbours of `e` in a chain from `a` to the head, and the chain without `e`.
  record Unlinked (a : ℕ) (xs : List ℕ) : Type 0 where
    removed : Chain (unlink e l) a (remove e xs) head
    before : has (l.prev e) (a ∷ xs) ≡ true
    behind : (l.next e == head || has (l.next e) xs) ≡ true

  unlink-first :
      (a x : ℕ) (xs : List ℕ)
      → (x == e) ≡ true
      → Chain l a (x ∷ xs) head
      → Distinct (x ∷ xs)
      → has a (x ∷ xs) ≡ false
      → has head (x ∷ xs) ≡ false
      → Unlinked a (x ∷ xs)
  unfolding unlink remove
  unlink-first a x [] h c d na nh = record {
    removed = rw h (ground arith, ground arith);
    before = ground arith;
    behind = ground arith;
  }
  unlink-first a x (y ∷ ys) h c d na nh = record {
    removed = rw h (
      ground arith,
      ground arith,
      Chain-frame l (unlink e l) y ys head c.2.2 (λ z m. ground arith) (λ z m. ground arith),
    );
    before = ground arith;
    behind = ground arith;
  }

  unlink-next :
      (a x : ℕ) (xs : List ℕ)
      → Chain l a (x ∷ xs) head
      → Distinct (x ∷ xs)
      → has a (x ∷ xs) ≡ false
      → has head (x ∷ xs) ≡ false
      → (x == e) ≡ false
      → Unlinked x xs
      → Unlinked a (x ∷ xs)
  unfolding unlink remove
  unlink-next a x xs c d na nh later u = record {
    removed =
        rw later
          (ground (arith, u.before, u.behind), ground (arith, u.before, u.behind), u.removed);
    before = ground (arith, u.before);
    behind = ground (arith, u.behind);
  }

  unlink-Unlinked :
      (a : ℕ) (xs : List ℕ)
      → Chain l a xs head
      → Distinct xs
      → has a xs ≡ false
      → has head xs ≡ false
      → has e xs ≡ true
      → Unlinked a xs
  unfolding unlink remove
  unlink-Unlinked a [] c d na nh i = absurd (cc)
  unlink-Unlinked a (x ∷ xs) c d na nh i = elim (Bool-cases (x == e)) [
    | inl here ↦ unlink-first a x xs here c d na nh
    | inr later ↦
        unlink-next a x xs c d na nh later
          (unlink-Unlinked x xs c.2 d.1 d.0 (ground arith) (ground arith))
  ]

  unlink-IsQueue :
      (xs : List ℕ) → IsQueue l head xs → has e xs ≡ true → IsQueue (unlink e l) head (remove e xs)
  unlink-IsQueue xs q i = record {
    ring = (unlink-Unlinked head xs q.ring q.distinct q.apart q.apart i).removed;
    distinct = Distinct-remove e xs q.distinct;
    apart = has-remove e head xs q.apart;
    not_null = has-remove e 0 xs q.not_null;
    head_not_null = q.head_not_null;
  }

  -- `queue_del` of an element of the queue passes its assert, removes that element and no other,
  -- and clears its links.
  pub queue_del-remove :
      (xs : List ℕ)
      → IsQueue l head xs
      → has e xs ≡ true
      → Returns
          (queue_del e l)
          (λ l'. IsQueue l' head (remove e xs) × (l'.next e ≡ 0) × (l'.prev e ≡ 0))
  unfolding queue_del
  queue_del-remove xs q i =
      let u = unlink-Unlinked head xs q.ring q.distinct q.apart q.apart i in
      (
        unlink e l,
        ground (arith, u.before, u.behind, q.not_null, q.head_not_null),
        (unlink-IsQueue xs q i, ground arith, ground arith),
      )

-- `queue_top` and `queue_out` find the last element, `queue_bottom` the first, and all say NULL
-- exactly for the empty queue.
module _ (l : Links) (head : ℕ) where
  pub queue_top-last? : (xs : List ℕ) → IsQueue l head xs → queue_top head l ≡ last? xs
  unfolding queue_top
  queue_top-last? [] q = ground (arith, q.ring)
  queue_top-last? (x ∷ xs) q = ground (arith, Chain-last l head (x ∷ xs) head q.ring, q.apart)

  pub queue_bottom-head? : (xs : List ℕ) → IsQueue l head xs → queue_bottom head l ≡ head? xs
  unfolding queue_bottom
  queue_bottom-head? [] q = ground (arith, q.ring)
  queue_bottom-head? (x ∷ xs) q = ground (arith, q.ring, q.apart)

  out-unlink :
      (x : ℕ) (xs : List ℕ)
      → IsQueue l head (x ∷ xs)
      → ((y : ℕ) → (queue_out head l).1.next y ≡ (unlink (last_or x xs) l).next y)
        × ((y : ℕ) → (queue_out head l).1.prev y ≡ (unlink (last_or x xs) l).prev y)
  unfolding queue_out unlink
  out-unlink x xs q =
      let e = Chain-last l head (x ∷ xs) head q.ring in
      (λ y. ground (arith, e, q.ring, q.apart), λ y. ground (arith, e, q.ring, q.apart))

  out-last :
      (x : ℕ) (xs : List ℕ) → IsQueue l head (x ∷ xs) → (queue_out head l).0 ≡ some (last_or x xs)
  unfolding queue_out
  out-last x xs q = ground (arith, Chain-last l head (x ∷ xs) head q.ring, q.apart)

  pub queue_out-none : IsQueue l head [] → queue_out head l ≡ (none, l)
  unfolding queue_out
  queue_out-none q = ground (arith, q.ring)

  -- `queue_out` of a queue that is not empty returns its last element and removes it.
  pub queue_out-last :
      (x : ℕ) (xs : List ℕ)
      → IsQueue l head (x ∷ xs)
      → ((queue_out head l).0 ≡ some (last_or x xs))
        × IsQueue (queue_out head l).1 head (remove (last_or x xs) (x ∷ xs))
  queue_out-last x xs q =
      let same = out-unlink x xs q in
      (
        out-last x xs q,
        IsQueue-frame (unlink (last_or x xs) l) (queue_out head l).1 head _
            (unlink-IsQueue l head (last_or x xs) (x ∷ xs) q (has-last_or x xs)) same.0 same.1,
      )
