-- ===== src/Process/Dying.antt =====
-- What the code of `kill` and `exit` that they share leaves of a kernel.
use mathlib.Core.Path.{subst, ap₂}
use operating_system_concept.Base.{
  ℕ, suc, ◌+◌, ◌≤◌, ◌≡◌, ◌≢◌, refl, sym, ap, ◌∙◌, inl, inr, Bool, true, false, ◌||◌, Option, none,
  some, List, arith, ◌==◌, ==_iff, Bool-cases, has, Distinct, length, if◌then◌else◌, remove,
  has-remove_lem, Distinct-remove,
}
use operating_system_concept.Base.Int.{ℤ}
use operating_system_concept.Base.Run.{Returns}
use operating_system_concept.Queue.Order.{IsSorted, IsSorted-remove}
use operating_system_concept.Kernel.{
  Proc, ProcState, active, zombie, dead, Kernel, nbproc, put_proc, set_state, is_zombie, is_dead,
  priority_of, priority_field,
}
use operating_system_concept.Process.Invariant.{
  Occupied, SlotFits, Idle, IsValid, IsSorted-congr, get_proc-some,
}
use operating_system_concept.Process.Schedule.{CanSchedule}
use operating_system_concept.Process.Life.{
  leave_family_of, wake_daddy, record_status, set_exit_status,
}
use operating_system_concept.Process.Family.{
  Kin, Dying, Dying-trans, Dying-put, Dying-Bounded, Dying-some, Bounded, Brothers, Brothers-frame,
  release_children-Dying, wake_father-Dying, set_exit_status-Dying,
}

-- The process is dead or a zombie, and in no queue.
abbrev pub Buried : Kernel → ℕ → Type 0
Buried k i =
    (q : Proc) × (k.procs i ≡ some q)
    × ((is_dead q.state || is_zombie q.state) ≡ true)
    × (has i k.queue ≡ false)

-- A father that a process names is in the table.
abbrev pub HasFather : (ℕ → Option Proc) → Option ℕ → Type 0
HasFather procs none = Unit
HasFather procs (some d) = (dad : Proc) × (procs d ≡ some dad)

-- What the code takes for granted of the family of a process: its father is in the table, and its
-- children form a list that ends.
pub record Family (k : Kernel) (p : Proc) (children : List ℕ) : Type 0 where
  pub father : HasFather k.procs p.daddy_pid
  pub listed : Brothers k.procs p.child_pid children
  pub few : length children ≤ nbproc + 1

abbrev pub only : ℕ → ℕ → Bool
only pid x = if x == pid then true else false

pub died :
    (p : Proc) (s : ProcState)
    → (is_dead s || is_zombie s) ≡ true
    → Kin true (some p) (some (set_state s p))
died p s e = ground (arith, e)

module _ (k : Kernel) (pid : ℕ) (p : Proc) (b : Bounded k) (here : k.procs pid ≡ some p) where
  pub leave_family-Dying :
      (o : Option ℕ) (xs : List ℕ)
      → HasFather k.procs o
      → Brothers k.procs p.child_pid xs
      → length xs ≤ nbproc + 1
      → Returns (leave_family_of o pid p k) (λ k'. Dying k k' (only pid))
  unfolding leave_family_of
  leave_family-Dying none xs f l few = (
    put_proc pid (set_state dead p) k,
    refl,
    Dying-put k pid p (set_state dead p) true here (died p dead refl),
  )
  leave_family-Dying (some d) xs (dad, there) l few =
      let s : ProcState = if is_dead dad.state || is_zombie dad.state then dead else zombie in
      let step = Dying-put k pid p (set_state s p) true here (died p s (ground arith)) in
      let (k', run, rest) =
        release_children-Dying (suc nbproc) (put_proc pid (set_state s p) k) p.child_pid xs
          (omega arith) (Dying-Bounded step b) (Brothers-frame p.child_pid xs step l) in
      (k', rw (get_proc-some k d dad b there) run, Dying-trans step rest)

  pub wake_daddy-Dying :
      (l : Kernel) (o : Option ℕ)
      → HasFather k.procs o
      → Dying k l (only pid)
      → Returns (wake_daddy o l) (λ k'. Dying k k' (only pid))
  wake_daddy-Dying l none f d = (l, refl, d)
  wake_daddy-Dying l (some i) (dad, there) d =
      let (q, now, kin) = Dying-some i dad d there in
      let (k', run, rest) = wake_father-Dying i l q (Dying-Bounded d b) now in
      (k', run, Dying-trans d rest)

  pub status-Dying :
      (l : Kernel) (status : ℤ)
      → Dying k l (only pid)
      → Returns (set_exit_status pid status l) (λ k'. Dying k k' (only pid))
  status-Dying l status d =
      let (q, now, kin) = Dying-some pid p d here in
      let (k', run, rest) = set_exit_status-Dying pid status l q (Dying-Bounded d b) now in
      (k', run, Dying-trans d rest)

  pub record_status-Dying :
      (l : Kernel) (o : Option ℕ) (status : ℤ)
      → Dying k l (only pid)
      → Returns (record_status o pid status l) (λ k'. Dying k k' (only pid))
  record_status-Dying l none status d = (l, refl, d)
  record_status-Dying l (some i) status d = status-Dying l status d

-- The end of a death: the dead process leaves the queue, or the scheduler runs.
module _ (k l : Kernel) (pid : ℕ) (p : Proc) (v : IsValid k) (here : k.procs pid ≡ some p)
    (user : pid ≢ 0) (d : Dying k l (only pid)) where
  after-priority : (x : ℕ) → priority_of k.procs x ≡ priority_of l.procs x
  after-priority x = same (only pid x) (k.procs x) (l.procs x) (d.kin x)
    where
      same : (g : Bool) (o o' : Option Proc) → Kin g o o' → priority_field o ≡ priority_field o'
      same g none none a = refl
      same g none (some q) a = absurd a
      same g (some r) none a = absurd a
      same g (some r) (some q) a = sym a.1

  after-IsSorted : IsSorted (priority_of l.procs) l.queue
  after-IsSorted = subst (IsSorted (priority_of l.procs)) (sym d.queue) (
      IsSorted-congr (priority_of k.procs) (priority_of l.procs) k.queue (λ x h. after-priority x)
        v.fits.sorted)

  after-slots :
      (running : Option ℕ) (x : ℕ)
      → (x == pid) ≡ false
      → SlotFits (k.procs x) k.queue running x
      → SlotFits (l.procs x) l.queue running x
  after-slots running x e s =
      subst (λ q. SlotFits (l.procs x) q running x) (sym d.queue)
        (go (k.procs x) (l.procs x)
          (subst (λ g. Kin (if g then true else false) (k.procs x) (l.procs x)) e (d.kin x)) s)
    where
      go :
          (o o' : Option Proc)
          → Kin false o o'
          → SlotFits o k.queue running x
          → SlotFits o' k.queue running x
      go none none a t = t
      go none (some q) a t = absurd a
      go (some r) none a t = absurd a
      go (some r) (some q) a t = (a.0 ∙ t.0, t.1 ∙ sym a.3, a.4 ∙ t.2)

  after-Distinct : Distinct l.queue
  after-Distinct = subst Distinct (sym d.queue) v.fits.distinct

  Kin-active : (q q' : Proc) → Kin false (some q) (some q') → q.state ≡ active → q'.state ≡ active
  Kin-active q q' a e = ground (arith, a.4, e)

  not_zero : (0 == pid) ≡ false
  not_zero = ground arith

  pub itself : (pid == pid) ≡ true
  itself = ground arith

  not_running : (pid == k.running) ≡ false → (k.running == pid) ≡ false
  not_running e = ground arith

  after-Idle : Idle l.procs
  after-Idle =
      let (q, at, state) = v.idle in
      let (q', now, kin) = Dying-some 0 q d at in
      let alive : Kin false (some q) (some q') =
        subst (λ g. Kin (if g then true else false) (some q) (some q')) not_zero kin in
      (q', now, elim state [ inl a ↦ inl (Kin-active q q' alive a) | inr r ↦ inr (alive.5 refl r) ])

  pub here-fits : Occupied p k.queue (some k.running) pid
  here-fits = subst (λ o. SlotFits o k.queue (some k.running) pid) here (v.fits.slots pid refl)

  -- The process that died, as it is now.
  pub corpse : (q : Proc) × (l.procs pid ≡ some q) × Kin true (some p) (some q)
  corpse =
      let (q, now, kin) = Dying-some pid p d here in
      (q, now, subst (λ g. Kin (if g then true else false) (some p) (some q)) itself kin)

  abbrev pub buried : Kernel
  buried = record l { queue = remove pid l.queue }

  buried-slots :
      (pid == k.running) ≡ false
      → (x : ℕ) → SlotFits (l.procs x) (remove pid l.queue) (some k.running) x
  buried-slots e x = elim (Bool-cases (x == pid)) [
    | inl m ↦
        let (q, now, kin) = corpse in
        rw ((==_iff x pid).0 m, now)
          (
            kin.0 ∙ here-fits.0,
            has-remove_lem pid pid l.queue after-Distinct ∙ ground (arith, kin.3),
            kin.4 ∙ sym e,
          )
    | inr m ↦
        transfer (l.procs x) (has-remove_lem pid x l.queue after-Distinct ∙ rw m refl)
          (after-slots (some k.running) x m (v.fits.slots x refl))
  ]
    where
      transfer :
          (o : Option Proc)
          → has x (remove pid l.queue) ≡ has x l.queue
          → SlotFits o l.queue (some k.running) x
          → SlotFits o (remove pid l.queue) (some k.running) x
      transfer none same t = same ∙ t
      transfer (some q) same t = (t.0, same ∙ t.1, t.2)

  -- The active process killed another one.
  pub removed-IsValid : (pid == k.running) ≡ false → IsValid buried
  removed-IsValid e = record {
    fits = record {
      distinct = Distinct-remove pid l.queue after-Distinct;
      sorted = IsSorted-remove (priority_of l.procs) pid l.queue after-IsSorted;
      bounded = Dying-Bounded d v.fits.bounded;
      slots = λ x _.
          subst (λ r. SlotFits (l.procs x) (remove pid l.queue) (some r) x) (sym d.running)
            (buried-slots e x);
    };
    current =
        let (q, at, state) = v.current in
        let (q', now, kin) = Dying-some k.running q d at in
        let alive : Kin false (some q) (some q') =
          subst (λ g. Kin (if g then true else false) (some q) (some q')) (not_running e) kin in
        (q', ap l.procs d.running ∙ now, Kin-active q q' alive state);
    idle = after-Idle;
  }

  pub buried-Buried : Buried buried pid
  buried-Buried =
      let (q, now, kin) = corpse in
      (
        q,
        now,
        ground (arith, kin.3, kin.4),
        has-remove_lem pid pid l.queue after-Distinct ∙ ground arith,
      )

  others-slots :
      (pid == k.running) ≡ true
      → (x : ℕ) → (x == l.running) ≡ false
      → SlotFits (l.procs x) l.queue none x
  others-slots e x n =
      let n' : (x == k.running) ≡ false = subst (λ r. (x == r) ≡ false) d.running n in
      after-slots none x (ground arith) (elsewhere (k.procs x) n' (v.fits.slots x refl))
    where
      elsewhere :
          (o : Option Proc)
          → (x == k.running) ≡ false
          → SlotFits o k.queue (some k.running) x
          → SlotFits o k.queue none x
      elsewhere none m t = t
      elsewhere (some q) m t = (t.0, t.1, t.2 ∙ m)

  -- The active process died.
  pub dead-CanSchedule :
      (pid == k.running) ≡ true
      → (q : Proc) × CanSchedule l q × ((is_dead q.state || is_zombie q.state) ≡ true)
  dead-CanSchedule e =
      let (q, now, kin) = corpse in
      let at : l.running ≡ pid = ground (arith, d.running) in
      (
        q,
        record {
          others = record {
            distinct = after-Distinct;
            sorted = after-IsSorted;
            bounded = Dying-Bounded d v.fits.bounded;
            slots = others-slots e;
          };
          here = ap l.procs at ∙ now;
          own = kin.0 ∙ here-fits.0 ∙ sym at;
          queued = ap₂ has at d.queue ∙ here-fits.1 ∙ ground (arith, kin.3, here-fits);
          idle = after-Idle;
        },
        ground (arith, kin.3, kin.4),
      )
