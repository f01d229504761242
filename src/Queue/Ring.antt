-- ===== src/Queue/Ring.antt =====
-- When the links of a head stand for a list.
use operating_system_concept.Base.{
  ℕ, ◌≡◌, ◌≢◌, true, false, List, [], ◌∷◌, arith, has, Distinct, last_or,
}
use operating_system_concept.Queue.{Links}

-- From `a` the links lead through `xs` to `b`, and back.
abbrev pub Chain : Links → ℕ → List ℕ → ℕ → Type 0
Chain l a [] b = (l.next a ≡ b) × (l.prev b ≡ a)
Chain l a (x ∷ xs) b = (l.next a ≡ x) × (l.prev x ≡ a) × Chain l x xs b

pub record IsQueue (l : Links) (head : ℕ) (xs : List ℕ) : Type 0 where
  pub ring : Chain l head xs head
  pub distinct : Distinct xs
  pub apart : has head xs ≡ false
  pub not_null : has 0 xs ≡ false
  pub head_not_null : head ≢ 0

-- A chain survives the writes to the links of others.
pub Chain-frame :
    (l l' : Links) (a : ℕ) (xs : List ℕ) (b : ℕ)
    → Chain l a xs b
    → ((y : ℕ) → has y (a ∷ xs) ≡ true → l'.next y ≡ l.next y)
    → ((y : ℕ) → has y (b ∷ xs) ≡ true → l'.prev y ≡ l.prev y)
    → Chain l' a xs b
Chain-frame l l' a [] b c n p = ground (arith, n a, p b)
Chain-frame l l' a (x ∷ xs) b c n p = (
  ground (arith, n a),
  ground (arith, p x),
  Chain-frame l l' x xs b c.2 (λ y h. n y (ground arith)) (λ y h. p y (ground arith)),
)

-- Both directions meet at the last element.
pub Chain-last :
    (l : Links) (a : ℕ) (xs : List ℕ) (b : ℕ)
    → Chain l a xs b
    → (l.prev b ≡ last_or a xs) × (l.next (last_or a xs) ≡ b)
Chain-last l a [] b c = (c.1, c.0)
Chain-last l a (x ∷ xs) b c = Chain-last l x xs b c.2

pub has-last_or : (a : ℕ) (xs : List ℕ) → has (last_or a xs) (a ∷ xs) ≡ true
has-last_or a [] = ground arith
has-last_or a (x ∷ xs) = ground (arith, has-last_or x xs)

pub IsQueue-frame :
    (l l' : Links) (head : ℕ) (xs : List ℕ)
    → IsQueue l head xs
    → ((y : ℕ) → l'.next y ≡ l.next y)
    → ((y : ℕ) → l'.prev y ≡ l.prev y)
    → IsQueue l' head xs
IsQueue-frame l l' head xs q n p = record {
  ring = Chain-frame l l' head xs head q.ring (λ y h. n y) (λ y h. p y);
  distinct = q.distinct;
  apart = q.apart;
  not_null = q.not_null;
  head_not_null = q.head_not_null;
}
