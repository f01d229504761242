-- ===== src/Queue/Walk.antt =====
-- `queue_for_each` and `queue_for_each_prev` of shared/queue.h.
use mathlib.Core.List.{reverse, reverse-append}
use operating_system_concept.Base.{
  ℕ, zero, suc, ◌<◌, ◌≡◌, refl, false, List, [], ◌∷◌, ◌++◌, arith, has, has-append, length,
}
use operating_system_concept.Base.Run.{ok}
use operating_system_concept.Queue.{Links, walk, queue_for_each, queue_for_each_prev}
use operating_system_concept.Queue.Ring.{Chain, IsQueue}

-- From `a` the function `step` leads through `xs` to `b`.
abbrev Follows : (ℕ → ℕ) → ℕ → List ℕ → ℕ → Type 0
Follows step a [] b = step a ≡ b
Follows step a (x ∷ xs) b = (step a ≡ x) × Follows step x xs b

walk-Follows :
    (step : ℕ → ℕ) (fuel head a : ℕ) (xs : List ℕ)
    → length xs < fuel
    → Follows step a xs head
    → has head xs ≡ false
    → walk step fuel head (step a) ≡ ok xs
unfolding walk
walk-Follows step zero head a xs f c h = absurd (omega arith)
walk-Follows step (suc fuel) head a [] f c h = ground arith
walk-Follows step (suc fuel) head a (x ∷ xs) f c h =
    ground (arith, walk-Follows step fuel head x xs)

Follows-snoc :
    (step : ℕ → ℕ) (a : ℕ) (xs : List ℕ) (y b : ℕ)
    → Follows step a xs y
    → step y ≡ b
    → Follows step a (xs ++ (y ∷ [])) b
Follows-snoc step a [] y b c e = (c, e)
Follows-snoc step a (x ∷ xs) y b c e = (c.0, Follows-snoc step x xs y b c.1 e)

next-Follows : (l : Links) (a : ℕ) (xs : List ℕ) (b : ℕ) → Chain l a xs b → Follows l.next a xs b
next-Follows l a [] b c = c.0
next-Follows l a (x ∷ xs) b c = (c.0, next-Follows l x xs b c.2)

prev-Follows :
    (l : Links) (a : ℕ) (xs : List ℕ) (b : ℕ) → Chain l a xs b → Follows l.prev b (reverse xs) a
prev-Follows l a [] b c = c.1
prev-Follows l a (x ∷ xs) b c =
    rw (reverse-append (x ∷ []) xs)
      (Follows-snoc l.prev b (reverse xs) x a (prev-Follows l x xs b c.2) c.1)

has-reverse : (a : ℕ) (xs : List ℕ) → has a xs ≡ false → has a (reverse xs) ≡ false
has-reverse a [] h = refl
has-reverse a (x ∷ xs) h =
    rw (reverse-append (x ∷ []) xs)
      (ground (arith, has-append a (reverse xs) (x ∷ []), has-reverse a xs))

length-snoc : (xs : List ℕ) (y : ℕ) → length (xs ++ (y ∷ [])) ≡ suc (length xs)
length-snoc [] y = refl
length-snoc (x ∷ xs) y = omega (arith, length-snoc xs y)

length-reverse : (xs : List ℕ) → length (reverse xs) ≡ length xs
length-reverse [] = refl
length-reverse (x ∷ xs) =
    rw (reverse-append (x ∷ []) xs) (omega (arith, length-snoc (reverse xs) x, length-reverse xs))

-- `queue_for_each` visits each element once, from the first, and ends; `queue_for_each_prev` visits
-- them in the opposite order.
pub for_each-visits :
    (l : Links) (fuel head : ℕ) (xs : List ℕ)
    → length xs < fuel
    → IsQueue l head xs
    → (queue_for_each fuel head l ≡ ok xs) × (queue_for_each_prev fuel head l ≡ ok (reverse xs))
unfolding queue_for_each queue_for_each_prev
for_each-visits l fuel head xs f q = (
  walk-Follows l.next fuel head head xs f (next-Follows l head xs head q.ring) q.apart,
  walk-Follows l.prev fuel head head (reverse xs) (omega (arith, length-reverse xs))
      (prev-Follows l head xs head q.ring) (has-reverse head xs q.apart),
)
