-- ===== src/Paging/Pushed.antt =====
-- Pages that are put on a free list, one after the other.
use mathlib.Core.Path.{subst}
use operating_system_concept.Base.{
  ℕ, ◌+◌, ◌*◌, ◌<◌, ◌≡◌, refl, sym, ap, inl, inr, true, false, ◌||◌, List, [], ◌∷◌, ◌++◌, arith,
  has, Distinct, ◌==◌, ==_iff, Bool-cases,
}
use operating_system_concept.Paging.FreeList.{IsPage, FreePages}

unfoldable pub push : List ℕ → List ℕ → List ℕ
push [] frees = frees
push (x ∷ xs) frees = push xs (x ∷ frees)

pub push-append : (xs ys frees : List ℕ) → push (xs ++ ys) frees ≡ push ys (push xs frees)
unfolding push
push-append [] ys frees = refl
push-append (x ∷ xs) ys frees = push-append xs ys (x ∷ frees)

pub has-push : (a : ℕ) (xs frees : List ℕ) → has a (push xs frees) ≡ (has a xs || has a frees)
unfolding push
has-push a [] frees = refl
has-push a (x ∷ xs) frees = ground (arith, has-push a xs (x ∷ frees))

pub Distinct-push : (xs frees : List ℕ) → Distinct (push xs frees) → Distinct frees
unfolding push
Distinct-push [] frees d = d
Distinct-push (x ∷ xs) frees d = (Distinct-push xs (x ∷ frees) d).1

-- What is still to be pushed is not free yet.
pub push-apart :
    (a : ℕ) (xs frees : List ℕ) → Distinct (push xs frees) → has a xs ≡ true → has a frees ≡ false
unfolding push
push-apart a [] frees d h = absurd (cc)
push-apart a (x ∷ xs) frees d h = elim (Bool-cases (has a xs)) [
  | inl later ↦ ground (arith, push-apart a xs (x ∷ frees) d later)
  | inr n ↦ ground (arith, h, n, Distinct-push xs (x ∷ frees) d)
]

pub FreePages-IsPage :
    (word : ℕ → ℕ) (p : ℕ) (xs : List ℕ) (a : ℕ) → FreePages word p xs → has a xs ≡ true → IsPage a
FreePages-IsPage word p [] a f h = absurd (cc)
FreePages-IsPage word p (x ∷ xs) a (e, page, rest) h = elim (Bool-cases (a == x)) [
  | inl same ↦ subst IsPage (sym ((==_iff a x).0 same)) page
  | inr n ↦ FreePages-IsPage word (word x) xs a rest (ground (arith, n, h))
]

-- A word of a page that is not free is no page that is free.
pub word_not_free :
    (word : ℕ → ℕ) (p : ℕ) (frees : List ℕ) (page j : ℕ)
    → FreePages word p frees
    → IsPage page
    → j < 1024
    → has page frees ≡ false
    → has (page + 4 * j) frees ≡ false
word_not_free word p frees page j f is inside apart = elim (Bool-cases (has (page + 4 * j) frees)) [
  | inl h ↦
      let aligned = (FreePages-IsPage word p frees (page + 4 * j) f h).aligned in
      let first : page + 4 * j ≡ page = omega (arith, aligned, is.aligned, inside) in
      absurd (ground (arith, h, apart, ap (λ a. has a frees) first))
  | inr n ↦ n
]
