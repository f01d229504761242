-- ===== src/Queue/Order.antt =====
-- The queue as a list of its elements, from the head's `next` on: in increasing order of priority,
-- and of two elements of one priority the one that was added first stands last.
use operating_system_concept.Base.{
  ℕ, ◌≤◌, ◌<◌, ◌≡◌, refl, sym, false, ◌||◌, List, [], ◌∷◌, ◌++◌, arith, ltb, ◌==◌, if◌then◌else◌,
  has, Distinct, remove,
}

module _ (priority : ℕ → ℕ) where
  -- Where `queue_add` puts an element.
  unfoldable pub insert : ℕ → List ℕ → List ℕ
  insert e [] = e ∷ []
  insert e (x ∷ xs) = if ltb (priority x) (priority e) then x ∷ insert e xs else e ∷ x ∷ xs

  abbrev pub AllBelow : ℕ → List ℕ → Type 0
  AllBelow p [] = Unit
  AllBelow p (x ∷ xs) = (priority x < p) × AllBelow p xs

  abbrev pub AllFrom : ℕ → List ℕ → Type 0
  AllFrom p [] = Unit
  AllFrom p (x ∷ xs) = (p ≤ priority x) × AllFrom p xs

  abbrev pub IsSorted : List ℕ → Type 0
  IsSorted [] = Unit
  IsSorted (x ∷ xs) = AllFrom (priority x) xs × IsSorted xs

  AllFrom-mono : (p q : ℕ) (xs : List ℕ) → p ≤ q → AllFrom q xs → AllFrom p xs
  AllFrom-mono p q [] h a = tt
  AllFrom-mono p q (x ∷ xs) h a = (omega arith, AllFrom-mono p q xs h a.1)

  AllFrom-insert : (p e : ℕ) (xs : List ℕ) → p ≤ priority e → AllFrom p xs → AllFrom p (insert e xs)
  unfolding insert
  AllFrom-insert p e [] h a = (h, tt)
  AllFrom-insert p e (x ∷ xs) h a = ground (arith, AllFrom-insert p e xs)

  pub insert-IsSorted : (e : ℕ) (xs : List ℕ) → IsSorted xs → IsSorted (insert e xs)
  unfolding insert
  insert-IsSorted e [] s = (tt, tt)
  insert-IsSorted e (x ∷ xs) s = ground (
    arith,
    insert-IsSorted e xs,
    AllFrom-insert (priority x) e xs,
    AllFrom-mono (priority e) (priority x) xs,
  )

  -- The elements in front of a new one, and those behind it.
  unfoldable pub below : ℕ → List ℕ → List ℕ
  below p [] = []
  below p (x ∷ xs) = if ltb (priority x) p then x ∷ below p xs else []

  unfoldable pub from : ℕ → List ℕ → List ℕ
  from p [] = []
  from p (x ∷ xs) = if ltb (priority x) p then from p xs else x ∷ xs

  below-append-from : (p : ℕ) (xs : List ℕ) → below p xs ++ from p xs ≡ xs
  unfolding below from
  below-append-from p [] = refl
  below-append-from p (x ∷ xs) = ground (arith, below-append-from p xs)

  insert-append :
      (e : ℕ) (xs : List ℕ) → insert e xs ≡ below (priority e) xs ++ (e ∷ from (priority e) xs)
  unfolding insert below from
  insert-append e [] = refl
  insert-append e (x ∷ xs) = ground (arith, insert-append e xs)

  AllBelow-below : (p : ℕ) (xs : List ℕ) → AllBelow p (below p xs)
  unfolding below
  AllBelow-below p [] = tt
  AllBelow-below p (x ∷ xs) = ground (arith, AllBelow-below p xs)

  AllFrom-from : (p : ℕ) (xs : List ℕ) → IsSorted xs → AllFrom p (from p xs)
  unfolding from
  AllFrom-from p [] s = tt
  AllFrom-from p (x ∷ xs) s = ground (arith, AllFrom-from p xs, AllFrom-mono p (priority x) xs)

  -- A new element stands behind all that have a lower priority and before all the others.
  pub insert-split :
      (e : ℕ) (xs : List ℕ)
      → IsSorted xs
      → (front : List ℕ) × (back : List ℕ) × (xs ≡ front ++ back)
        × (insert e xs ≡ front ++ (e ∷ back))
        × AllBelow (priority e) front
        × AllFrom (priority e) back
  insert-split e xs s = (
    below (priority e) xs,
    from (priority e) xs,
    sym (below-append-from (priority e) xs),
    insert-append e xs,
    AllBelow-below (priority e) xs,
    AllFrom-from (priority e) xs s,
  )

  pub has-insert : (a e : ℕ) (xs : List ℕ) → has a (insert e xs) ≡ ((a == e) || has a xs)
  unfolding insert
  has-insert a e [] = refl
  has-insert a e (x ∷ xs) = ground (arith, has-insert a e xs)

  pub Distinct-insert :
      (e : ℕ) (xs : List ℕ) → Distinct xs → has e xs ≡ false → Distinct (insert e xs)
  unfolding insert
  Distinct-insert e [] d h = (refl, tt)
  Distinct-insert e (x ∷ xs) d h = ground (arith, Distinct-insert e xs, has-insert x e xs)

  AllFrom-remove : (p a : ℕ) (xs : List ℕ) → AllFrom p xs → AllFrom p (remove a xs)
  unfolding remove
  AllFrom-remove p a [] h = tt
  AllFrom-remove p a (x ∷ xs) h = ground (arith, AllFrom-remove p a xs)

  pub IsSorted-remove : (a : ℕ) (xs : List ℕ) → IsSorted xs → IsSorted (remove a xs)
  unfolding remove
  IsSorted-remove a [] s = tt
  IsSorted-remove a (x ∷ xs) s =
      ground (arith, IsSorted-remove a xs, AllFrom-remove (priority x) a xs)
