-- ===== src/System/Wait.antt =====
-- The calls that give up the processor: `wait_clock`, `waitpid`, `psend`, `preceive`, `cons_read`.
use mathlib.Core.Path.{subst}
use operating_system_concept.Base.{
  ℕ, ◌≡◌, ◌≢◌, refl, ◌∙◌, inl, inr, false, Option, none, some, arith, ◌==◌, Bool-cases, has,
}
use operating_system_concept.Base.Int.{ℤ}
use operating_system_concept.Base.Run.{ok, ok-injective, ends, first_step, Returns-at}
use operating_system_concept.Queue.Order.{insert, has-insert, Distinct-insert, insert-IsSorted}
use operating_system_concept.Kernel.{
  Proc, asleep, child_block, Kernel, get_proc, put_proc, set_state, priority_of, enqueue,
  is_child_block,
}
use operating_system_concept.Process.Scheduler.{getpid, scheduler, wait_clock}
use operating_system_concept.Process.Life.{Round, returned, waits, wait_for_child}
use operating_system_concept.Process.Invariant.{SlotFits, Fits, IsValid}
use operating_system_concept.Process.Switch.{Scheduled}
use operating_system_concept.Process.Schedule.{
  CanSchedule, scheduler-Scheduled, IsValid-CanSchedule,
}
use operating_system_concept.System.Alike.{
  get_proc-inv, parted-others, parted-Idle, parted-CanSchedule, not_in_queue,
}

pub scheduler-IsValid :
    (k k' : Kernel) (p : Proc) → CanSchedule k p → scheduler k ≡ ok k' → IsValid k'
scheduler-IsValid k k' p c run =
    (Returns-at (scheduler k) (Scheduled k) k' (scheduler-Scheduled k p c) run).valid

pub reschedule-IsValid : (k k' : Kernel) → IsValid k → scheduler k ≡ ok k' → IsValid k'
reschedule-IsValid k k' v run = scheduler-IsValid k k' v.current.0 (IsValid-CanSchedule k v) run

-- The active process gets the state of `q`, in which it waits, and calls the scheduler.
pub park-IsValid :
    (k k' : Kernel) (p q : Proc)
    → IsValid k
    → k.running ≢ 0
    → k.procs k.running ≡ some p
    → q.pid ≡ p.pid
    → q.priority ≡ p.priority
    → is_child_block q.state ≡ false
    → scheduler (put_proc k.running q k) ≡ ok k'
    → IsValid k'
park-IsValid k k' p q v user here pid prio state run =
    scheduler-IsValid (put_proc k.running q k) k' q
      (parted-CanSchedule k p q v user here pid prio state) run

pub wait_clock-IsValid :
    (clock : ℕ) (k k' : Kernel) → IsValid k → wait_clock clock k ≡ ok k' → IsValid k'
unfolding wait_clock
wait_clock-IsValid clock k k' v run = elim (Bool-cases (getpid k == 0)) [
  | inl idle ↦ subst IsValid (ground (arith, idle, run)) v
  | inr user ↦ elim (first_step (get_proc k.running k) _ k' (rw user at run)) [
    | ends p got rest ↦
        park-IsValid k k' p (record p { wake_up_time = clock; state = asleep }) v (ground arith)
          (get_proc-inv k k.running p got) refl refl refl rest
  ]
]

-- The active process waits in the queue for a child.
module _ (k : Kernel) (p : Proc) (v : IsValid k) (user : k.running ≢ 0)
    (here : k.procs k.running ≡ some p) where
  abbrev resting : Kernel
  resting = put_proc k.running (set_state child_block p) k

  abbrev pub lined_up : Kernel
  lined_up = record resting { queue = insert (priority_of resting.procs) k.running k.queue }

  out : has k.running k.queue ≡ false
  out = not_in_queue k p (set_state child_block p) v user here refl refl

  parted-Fits : Fits resting none (λ i. i == k.running)
  parted-Fits = parted-others k p (set_state child_block p) v user here refl refl

  others_stay : (j : ℕ) → (j == k.running) ≡ false → has j lined_up.queue ≡ has j k.queue
  others_stay j n = has-insert (priority_of resting.procs) j k.running k.queue ∙ rw n refl

  lined_up-CanSchedule : CanSchedule lined_up (set_state child_block p)
  lined_up-CanSchedule = record {
    others = record {
      distinct = Distinct-insert (priority_of resting.procs) k.running k.queue v.fits.distinct out;
      sorted = insert-IsSorted (priority_of resting.procs) k.running k.queue (parted-Fits.sorted);
      bounded = parted-Fits.bounded;
      slots = λ j n. transfer (resting.procs j) j n (parted-Fits.slots j n);
    };
    here = ground arith;
    own = ground (arith, here, v.fits.slots k.running refl);
    queued = has-insert (priority_of resting.procs) k.running k.running k.queue ∙ ground arith;
    idle = parted-Idle k p (set_state child_block p) v user here refl refl;
  }
    where
      transfer :
          (o : Option Proc) (j : ℕ)
          → (j == k.running) ≡ false
          → SlotFits o k.queue none j
          → SlotFits o lined_up.queue none j
      transfer none j n s = others_stay j n ∙ s
      transfer (some r) j n s = (s.0, others_stay j n ∙ s.1, s.2)

-- The kernel behind one round of a call.
abbrev pub kernel_after : {A : Type 0} → Round A → Kernel
kernel_after (returned a k) = k
kernel_after (waits k) = k

pub wait_for_child-IsValid :
    (k : Kernel) (r : Round (Option (ℕ × ℤ)))
    → IsValid k
    → k.running ≢ 0
    → wait_for_child k ≡ ok r
    → IsValid (kernel_after r)
unfolding wait_for_child enqueue
wait_for_child-IsValid k r v user run = elim (first_step (get_proc k.running k) _ r run) [
  | ends me got rest ↦
      let here = get_proc-inv k k.running me got in
      let next = rw (out k me v user here) at rest in
      elim (first_step (scheduler (lined_up k me v user here)) _ r next) [
        | ends k₂ chosen last ↦
            subst (λ r. IsValid (kernel_after r)) (ok-injective (waits k₂) r last)
              (scheduler-IsValid (lined_up k me v user here) k₂ (set_state child_block me)
                (lined_up-CanSchedule k me v user here) chosen)
      ]
]
