-- ===== src/Base/Run.antt =====
-- Runs of C code that may fault, and total correctness of a run.
use mathlib.Core.Path.{◌≡◌, sym, ap, ◌∙◌, subst}
use mathlib.Core.Bool.{Bool, true, false}
use mathlib.Core.Option.{Option, none, some}

-- `panic` is a failed assert; `page_fault` an access through NULL or outside of an array;
-- `bad_link` the use of a queue link that belongs to no process, or a switch to a process that does
-- not switch back as its partner expects;
-- `out_of_fuel` is no behaviour of the code: it says that the model gave a loop too few rounds.
pub data Fault : Type 0 where
  panic page_fault bad_link out_of_fuel : Fault

pub data Run {ℓ} (A : Type ℓ) : Type ℓ where
  fault : Fault → Run A
  ok : A → Run A

infixl 5 ◌>>=◌ ◌>>◌
abbrev pub ◌>>=◌ {ℓ κ} : {A : Type ℓ} {B : Type κ} → Run A → (A → Run B) → Run B
fault why >>= next = fault why
ok result >>= next = next result

abbrev pub ◌>>◌ {ℓ} : {B : Type ℓ} → Run (Unit {0}) → Run B → Run B
m >> k = m >>= λ _. k

abbrev pub assert : Bool → Run (Unit {0})
assert true = ok tt
assert false = fault panic

-- A pointer that must not be NULL.
abbrev pub deref {ℓ} : {A : Type ℓ} → Option A → Run A
deref none = fault page_fault
deref (some a) = ok a

-- The run ends without a fault, in a value that satisfies `P`.
abbrev pub Returns {ℓ κ} : {A : Type ℓ} → Run A → (A → Type κ) → Type (ℓ ⊔ κ)
Returns {A} run P = (result : A) × (run ≡ ok result) × P result

-- A run that ends well, cut behind its first step.
pub data Ends {ℓ κ} {A : Type ℓ} {B : Type κ} (m : Run A) (next : A → Run B) (b : B)
    : Type (ℓ ⊔ κ) where
  ends : (a : A) → m ≡ ok a → next a ≡ ok b → Ends m next b

pub first_step {ℓ κ} :
    {A : Type ℓ} {B : Type κ} (m : Run A) (next : A → Run B) (b : B)
    → (m >>= next) ≡ ok b
    → Ends m next b
first_step (fault why) next b done = absurd (cc)
first_step (ok a) next b done = ends a (λ i. ok a) done

-- A run ends in one way.
pub Returns-at {ℓ κ} :
    {A : Type ℓ} (m : Run A) (P : A → Type κ) (a : A) → Returns m P → m ≡ ok a → P a
Returns-at {A = A} m P a (b, run, p) done = subst P same p
  where
    value : A → Run A → A
    value other (fault why) = other
    value other (ok a) = a

    same : b ≡ a
    same = ap (value b) (sym run ∙ done)

pub ok-injective {ℓ} : {A : Type ℓ} (a b : A) → ok a ≡ ok b → a ≡ b
ok-injective a b e = cc

pub fault-ne-ok {ℓ} : {A : Type ℓ} (why : Fault) (a : A) → fault why ≡ ok a → ⊥
fault-ne-ok why a e = cc
