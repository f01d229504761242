-- ===== src/Queue/Add.antt =====
-- `queue_add` of shared/queue.h, against the list that the links stand for.
use operating_system_concept.Base.{
  ℕ, zero, suc, ◌<◌, ◌≡◌, ◌≢◌, inl, inr, true, false, ◌||◌, List, [], ◌∷◌, arith, ltb, ◌==◌,
  Bool-cases, has, Distinct, length, refl,
}
use operating_system_concept.Base.Run.{Returns}
use operating_system_concept.Queue.{Links, place, link_before, queue_add}
use operating_system_concept.Queue.Order.{insert, has-insert, Distinct-insert}
use operating_system_concept.Queue.Ring.{Chain, Chain-frame, IsQueue}

module _ (l : Links) (priority : ℕ → ℕ) (head e : ℕ) where
  -- The writes before `c` make `e` the successor of the node that stood before `c`.
  record Placed (a : ℕ) (xs : List ℕ) (c : ℕ) : Type 0 where
    inserted : Chain (link_before e c l) a (insert priority e xs) head
    before : has (l.prev c) (a ∷ xs) ≡ true
    behind : (c == head || has c xs) ≡ true

  place-first :
      (a x : ℕ) (xs : List ℕ)
      → Chain l a (x ∷ xs) head
      → ltb (priority x) (priority e) ≡ false
      → Distinct (x ∷ xs)
      → has a (x ∷ xs) ≡ false
      → has head (x ∷ xs) ≡ false
      → has e (head ∷ a ∷ x ∷ xs) ≡ false
      → Placed a (x ∷ xs) x
  unfolding link_before insert
  place-first a x xs c ge d na nh ne = record {
    inserted = rw ge (
      ground arith,
      ground arith,
      (
        ground arith,
        ground arith,
        Chain-frame l (link_before e x l) x xs head c.2 (λ y h. ground arith) (λ y h. ground arith),
      ),
    );
    before = ground arith;
    behind = ground arith;
  }

  place-next :
      (a x c : ℕ) (xs : List ℕ)
      → Chain l a (x ∷ xs) head
      → ltb (priority x) (priority e) ≡ true
      → Distinct (x ∷ xs)
      → has a (x ∷ xs) ≡ false
      → has head (x ∷ xs) ≡ false
      → has e (head ∷ a ∷ x ∷ xs) ≡ false
      → Placed x xs c
      → Placed a (x ∷ xs) c
  unfolding link_before insert
  place-next a x c xs ch lower d na nh ne p = record {
    inserted =
        rw lower
          (ground (arith, p.before, p.behind), ground (arith, p.before, p.behind), p.inserted);
    before = ground (arith, p.before);
    behind = ground (arith, p.behind);
  }

  place-Placed :
      (fuel a : ℕ) (xs : List ℕ)
      → length xs < fuel
      → Chain l a xs head
      → Distinct xs
      → has a xs ≡ false
      → has head xs ≡ false
      → has e (head ∷ a ∷ xs) ≡ false
      → Returns (place fuel l priority head (priority e) a) (Placed a xs)
  unfolding place link_before insert
  place-Placed zero a xs f c d na nh ne = absurd (omega arith)
  place-Placed (suc fuel) a [] f c d na nh ne = (
    head,
    ground arith,
    record { inserted = ground arith; before = ground arith; behind = ground arith },
  )
  place-Placed (suc fuel) a (x ∷ xs) f c d na nh ne =
      elim (Bool-cases (ltb (priority x) (priority e))) [
        | inl lower ↦
            let (c', found, placed) =
              place-Placed fuel x xs (omega arith) c.2 d.1 d.0 (ground arith) (ground arith) in
            (c', ground (arith, found), place-next a x c' xs c lower d na nh ne placed)
        | inr ge ↦ (x, ground arith, place-first a x xs c ge d na nh ne)
      ]

  -- With enough rounds `queue_add` of an element with cleared links inserts it.
  pub queue_add-insert :
      (fuel : ℕ) (xs : List ℕ)
      → length xs < fuel
      → IsQueue l head xs
      → l.next e ≡ 0
      → l.prev e ≡ 0
      → e ≢ 0
      → has e (head ∷ xs) ≡ false
      → Returns (queue_add fuel priority head e l) (λ l'. IsQueue l' head (insert priority e xs))
  unfolding queue_add
  queue_add-insert fuel xs f q n p nz ne =
      let (c, found, placed) =
        place-Placed fuel head xs f q.ring q.distinct q.apart q.apart (ground arith) in
      (
        link_before e c l,
        rw (n, p, found) refl,
        record {
          ring = placed.inserted;
          distinct = Distinct-insert priority e xs q.distinct (ground arith);
          apart = ground (arith, has-insert priority head e xs, q.apart);
          not_null = ground (arith, has-insert priority 0 e xs, q.not_null);
          head_not_null = q.head_not_null;
        },
      )
