-- ===== src/Process/Invariant.antt =====
-- What holds of the process table, the queue and the active process between two system calls, and
-- while the scheduler is at work.
use operating_system_concept.Base.{
  ℕ, ◌≤◌, ◌≡◌, refl, sym, ap, ◌∙◌, ◌⊎◌, inl, inr, Bool, true, false, Option, none, some, List, [],
  ◌∷◌, arith, ◌==◌, ==_iff, Bool-cases, update, has, Distinct,
}
use operating_system_concept.Base.Run.{ok}
use operating_system_concept.Queue.Order.{IsSorted, AllFrom}
use operating_system_concept.Kernel.{
  Proc, ProcState, active, ready, zombie, dead, Kernel, nbproc, get_proc, set_state, priority_of,
  priority_field, is_active,
}

-- The states whose process waits in the queue.
abbrev pub is_queued : ProcState → Bool
is_queued active = false
is_queued zombie = false
is_queued dead = false
is_queued _ = true

-- A slot of the table: its process knows its index, stands in the queue exactly when its state
-- says so, and is ACTIVE exactly when it is `running`.
abbrev pub Occupied : Proc → List ℕ → Option ℕ → ℕ → Type 0
Occupied p queue running i =
    (p.pid ≡ i)
    × (has i queue ≡ is_queued p.state)
    × (is_active p.state ≡ (elim running [ none ↦ false | some r ↦ i == r ]))

abbrev pub SlotFits : Option Proc → List ℕ → Option ℕ → ℕ → Type 0
SlotFits none queue running i = has i queue ≡ false
SlotFits (some p) queue running i = Occupied p queue running i

-- The table and the queue fit at every slot but those of `except`.
pub record Fits (k : Kernel) (running : Option ℕ) (except : ℕ → Bool) : Type 0 where
  pub distinct : Distinct k.queue
  pub sorted : IsSorted (priority_of k.procs) k.queue
  pub bounded : (i : ℕ) → nbproc ≤ i → k.procs i ≡ none
  pub slots : (i : ℕ) → except i ≡ false → SlotFits (k.procs i) k.queue running i

-- Process 0, the idle loop, can always run.
abbrev pub Idle : (ℕ → Option Proc) → Type 0
Idle procs = (p : Proc) × (procs 0 ≡ some p) × ((p.state ≡ active) ⊎ (p.state ≡ ready))

pub record IsValid (k : Kernel) : Type 0 where
  pub fits : Fits k (some k.running) (λ _. false)
  pub current : (p : Proc) × (k.procs k.running ≡ some p) × (p.state ≡ active)
  pub idle : Idle k.procs

-- While the scheduler chooses: nobody is active.
pub record IsWaiting (k : Kernel) : Type 0 where
  pub fits : Fits k none (λ _. false)
  pub idle : (p : Proc) × (k.procs 0 ≡ some p) × (p.state ≡ ready)

-- The order looks at the priorities of the elements only.
pub IsSorted-congr :
    (f g : ℕ → ℕ) (xs : List ℕ)
    → ((x : ℕ) → has x xs ≡ true → f x ≡ g x)
    → IsSorted f xs
    → IsSorted g xs
IsSorted-congr f g [] e s = tt
IsSorted-congr f g (x ∷ xs) e s = (
  from x xs (e x (ground arith)) (λ y h. e y (ground arith)) s.0,
  IsSorted-congr f g xs (λ y h. e y (ground arith)) s.1,
)
  where
    from :
        (x : ℕ) (ys : List ℕ)
        → f x ≡ g x
        → ((y : ℕ) → has y ys ≡ true → f y ≡ g y)
        → AllFrom f (f x) ys
        → AllFrom g (g x) ys
    from x [] q r a = tt
    from x (y ∷ ys) q r a = (ground (arith, r y), from x ys q (λ z h. r z (ground arith)) a.1)

-- A process that is there can be read.
pub get_proc-some :
    (k : Kernel) (i : ℕ) (p : Proc)
    → ((j : ℕ) → nbproc ≤ j → k.procs j ≡ none)
    → k.procs i ≡ some p
    → get_proc i k ≡ ok p
unfolding get_proc
get_proc-some k i p b e = ground (arith, b i)

-- A write that keeps the priority does not change the order.
pub priority-update :
    (procs : ℕ → Option Proc) (i : ℕ) (p q : Proc)
    → procs i ≡ some p
    → q.priority ≡ p.priority
    → (x : ℕ) → priority_of procs x ≡ priority_of (update procs i (some q)) x
priority-update procs i p q here same x = elim (Bool-cases (x == i)) [
  | inl e ↦ rw (e, (==_iff x i).0 e, here) (sym same)
  | inr e ↦ rw e refl
]

-- A process but for its state.
abbrev pub stateless : Option Proc → Option Proc
stateless none = none
stateless (some p) = some (set_state active p)

-- The scheduler changes the states of processes, the queue and who runs, and nothing else.
pub record OnlyStates (k k' : Kernel) : Type 0 where
  pub procs : (x : ℕ) → stateless (k'.procs x) ≡ stateless (k.procs x)
  pub clock : k'.nb_interrupt ≡ k.nb_interrupt
  pub messages : k'.msg_queues ≡ k.msg_queues
  pub partner : k'.tmp_pid ≡ k.tmp_pid
  pub pending : k'.sending ≡ k.sending
  pub memory : k'.ram ≡ k.ram

pub stateless-update :
    (procs : ℕ → Option Proc) (i : ℕ) (p : Proc) (s : ProcState)
    → procs i ≡ some p
    → (x : ℕ) → stateless (update procs i (some (set_state s p)) x) ≡ stateless (procs x)
stateless-update procs i p s here x = elim (Bool-cases (x == i)) [
  | inl e ↦ rw (e, (==_iff x i).0 e, here) refl
  | inr e ↦ rw e refl
]

pub OnlyStates-trans : {k l m : Kernel} → OnlyStates k l → OnlyStates l m → OnlyStates k m
OnlyStates-trans a b = record {
  procs = λ x. b.procs x ∙ a.procs x;
  clock = b.clock ∙ a.clock;
  messages = b.messages ∙ a.messages;
  partner = b.partner ∙ a.partner;
  pending = b.pending ∙ a.pending;
  memory = b.memory ∙ a.memory;
}

pub OnlyStates-priority :
    {k k' : Kernel} → OnlyStates k k' → (x : ℕ) → priority_of k'.procs x ≡ priority_of k.procs x
OnlyStates-priority {k} {k'} o x =
    sym (seen (k'.procs x)) ∙ ap priority_field (o.procs x) ∙ seen (k.procs x)
  where
    seen : (q : Option Proc) → priority_field (stateless q) ≡ priority_field q
    seen none = refl
    seen (some p) = refl
