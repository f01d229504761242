-- ===== src/Process/Family.antt =====
-- The father and the children in `kill` and `exit` of kernel/process.c, and what a death leaves alone.
use operating_system_concept.Base.{
  ℕ, zero, suc, ◌≤◌, ◌≡◌, refl, sym, ◌∙◌, inl, inr, Bool, false, Option, none, some, List, [], ◌∷◌,
  arith, ◌==◌, ==_iff, Bool-cases, length, if◌then◌else◌,
}
use operating_system_concept.Base.Int.{ℤ}
use mathlib.Core.Path.{subst}
use operating_system_concept.Base.Run.{Returns}
use operating_system_concept.Kernel.{
  Proc, ready, Kernel, nbproc, put_proc, set_state, is_active, is_child_block,
}
use operating_system_concept.Process.Invariant.{is_queued, get_proc-some}
use operating_system_concept.Process.Life.{orphan, release_children, wake_father, set_exit_status}

-- A process before and after, as far as the queue is concerned. `gone` says that it died.
abbrev pub Kin : Bool → Option Proc → Option Proc → Type 0
Kin gone none none = Unit
Kin gone none (some q) = ⊥
Kin gone (some p) none = ⊥
Kin gone (some p) (some q) =
    (q.pid ≡ p.pid)
    × (q.priority ≡ p.priority)
    × (q.brother_pid ≡ p.brother_pid)
    × (is_queued q.state ≡ (if gone then false else is_queued p.state))
    × (is_active q.state ≡ (if gone then false else is_active p.state))
    × (gone ≡ false → p.state ≡ ready → q.state ≡ ready)

-- The death of `e` as it is under way: the others stay in the queue or out of it.
pub record Dying (k k' : Kernel) (e : ℕ → Bool) : Type 0 where
  pub kin : (x : ℕ) → Kin (e x) (k.procs x) (k'.procs x)
  pub queue : k'.queue ≡ k.queue
  pub running : k'.running ≡ k.running

abbrev pub nobody : ℕ → Bool
nobody x = false

Kin-refl : (o : Option Proc) → Kin false o o
Kin-refl none = tt
Kin-refl (some p) = (refl, refl, refl, refl, refl, λ g e. e)

Kin-trans : (g : Bool) (o o' o'' : Option Proc) → Kin g o o' → Kin false o' o'' → Kin g o o''
Kin-trans g none none none a b = tt
Kin-trans g none none (some r) a b = b
Kin-trans g none (some q) o'' a b = absurd a
Kin-trans g (some p) none o'' a b = absurd a
Kin-trans g (some p) (some q) none a b = b
Kin-trans g (some p) (some q) (some r) a b =
    (b.0 ∙ a.0, b.1 ∙ a.1, b.2 ∙ a.2, b.3 ∙ a.3, b.4 ∙ a.4, λ n e. b.5 refl (a.5 n e))

pub Dying-refl : (k : Kernel) → Dying k k nobody
Dying-refl k = record { kin = λ x. Kin-refl (k.procs x); queue = refl; running = refl }

pub Dying-trans : {k l m : Kernel} {e : ℕ → Bool} → Dying k l e → Dying l m nobody → Dying k m e
Dying-trans {k} {l} {m} {e} a b = record {
  kin = λ x. Kin-trans (e x) (k.procs x) (l.procs x) (m.procs x) (a.kin x) (b.kin x);
  queue = b.queue ∙ a.queue;
  running = b.running ∙ a.running;
}

-- A write to one process.
pub Dying-put :
    (k : Kernel) (i : ℕ) (p q : Proc) (gone : Bool)
    → k.procs i ≡ some p
    → Kin gone (some p) (some q)
    → Dying k (put_proc i q k) (λ x. if x == i then gone else false)
Dying-put k i p q gone here kin = record {
  kin = λ x. elim (Bool-cases (x == i)) [
    | inl e ↦ rw (e, (==_iff x i).0 e, here) kin
    | inr e ↦ rw e (Kin-refl (k.procs x))
  ];
  queue = refl;
  running = refl;
}

-- The same, where the process does not die.
pub Dying-put_alive :
    (k : Kernel) (i : ℕ) (p q : Proc)
    → k.procs i ≡ some p
    → Kin false (some p) (some q)
    → Dying k (put_proc i q k) nobody
Dying-put_alive k i p q here kin = record {
  kin = λ x. elim (Bool-cases (x == i)) [
    | inl e ↦ rw (e, (==_iff x i).0 e, here) kin
    | inr e ↦ rw e (Kin-refl (k.procs x))
  ];
  queue = refl;
  running = refl;
}

abbrev pub Bounded : Kernel → Type 0
Bounded k = (i : ℕ) → nbproc ≤ i → k.procs i ≡ none

pub Dying-Bounded : {k k' : Kernel} {e : ℕ → Bool} → Dying k k' e → Bounded k → Bounded k'
Dying-Bounded {k} {k'} {e} d b i h = missing (e i) (k.procs i) (k'.procs i) (d.kin i) (b i h)
  where
    missing : (g : Bool) (o o' : Option Proc) → Kin g o o' → o ≡ none → o' ≡ none
    missing g none none a z = refl
    missing g none (some q) a z = absurd a
    missing g (some p) none a z = refl
    missing g (some p) (some q) a z = absurd (cc)

-- A process that is there stays there.
pub Dying-some :
    {k k' : Kernel} {e : ℕ → Bool} (x : ℕ) (p : Proc)
    → Dying k k' e
    → k.procs x ≡ some p
    → (q : Proc) × (k'.procs x ≡ some q) × Kin (e x) (some p) (some q)
Dying-some {k} {k'} {e} x p d here = there (e x) (k.procs x) (k'.procs x) (d.kin x) here refl
  where
    there :
        (g : Bool) (o o' : Option Proc)
        → Kin g o o'
        → o ≡ some p
        → k'.procs x ≡ o'
        → (q : Proc) × (k'.procs x ≡ some q) × Kin g (some p) (some q)
    there g none o' a z y = absurd (cc)
    there g (some p') none a z y = absurd a
    there g (some p') (some q) a z y = (q, y, subst (λ o. Kin g o (some q)) z a)

-- The children from `o` on are the processes `xs`, one the brother of the other.
abbrev pub Brothers : (ℕ → Option Proc) → Option ℕ → List ℕ → Type 0
Brothers procs o [] = o ≡ none
Brothers procs o (x ∷ xs) =
    (o ≡ some x) × ((c : Proc) × (procs x ≡ some c) × Brothers procs c.brother_pid xs)

pub Brothers-frame :
    {k k' : Kernel} {e : ℕ → Bool} (o : Option ℕ) (xs : List ℕ)
    → Dying k k' e
    → Brothers k.procs o xs
    → Brothers k'.procs o xs
Brothers-frame o [] d b = b
Brothers-frame {k} {k'} o (x ∷ xs) d (first, (c, here, rest)) =
    let (q, there, kin) = Dying-some x c d here in
    (
      first,
      (
        q,
        there,
        subst (λ b. Brothers k'.procs b xs) (sym kin.2) (Brothers-frame c.brother_pid xs d rest),
      ),
    )

pub orphan-Kin : (c : Proc) → Kin false (some c) (some (orphan c))
orphan-Kin c = ground arith

-- The loop over the children ends, and no child enters or leaves the queue.
pub release_children-Dying :
    (fuel : ℕ) (k : Kernel) (o : Option ℕ) (xs : List ℕ)
    → length xs ≤ fuel
    → Bounded k
    → Brothers k.procs o xs
    → Returns (release_children fuel o k) (λ k'. Dying k k' nobody)
unfolding release_children
release_children-Dying fuel k o [] f b z = rw z (k, refl, Dying-refl k)
release_children-Dying zero k o (x ∷ xs) f b z = absurd (omega arith)
release_children-Dying (suc fuel) k o (x ∷ xs) f b (first, (c, here, rest)) =
    let step = Dying-put_alive k x c (orphan c) here (orphan-Kin c) in
    let (k', run, d) =
      release_children-Dying fuel (put_proc x (orphan c) k) c.brother_pid xs (omega arith)
        (Dying-Bounded step b) (Brothers-frame c.brother_pid xs step rest) in
    (k', rw (first, get_proc-some k x c b here) run, Dying-trans step d)

pub wake_father-Dying :
    (d : ℕ) (k : Kernel) (dad : Proc)
    → Bounded k
    → k.procs d ≡ some dad
    → Returns (wake_father d k) (λ k'. Dying k k' nobody)
unfolding wake_father
wake_father-Dying d k dad b here = elim (Bool-cases (is_child_block dad.state)) [
  | inl e ↦ (
    put_proc d (set_state ready dad) k,
    rw (get_proc-some k d dad b here, e) refl,
    Dying-put_alive k d dad (set_state ready dad) here (ground (arith, e)),
  )
  | inr e ↦ (k, rw (get_proc-some k d dad b here, e) refl, Dying-refl k)
]

pub set_exit_status-Dying :
    (i : ℕ) (status : ℤ) (k : Kernel) (p : Proc)
    → Bounded k
    → k.procs i ≡ some p
    → Returns (set_exit_status i status k) (λ k'. Dying k k' nobody)
unfolding set_exit_status
set_exit_status-Dying i status k p b here = (
  put_proc i (record p { exit_status = status }) k,
  rw (get_proc-some k i p b here) refl,
  Dying-put_alive k i p (record p { exit_status = status }) here
      (refl, refl, refl, refl, refl, λ g e. e),
)
