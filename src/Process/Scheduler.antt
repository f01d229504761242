-- ===== src/Process/Scheduler.antt =====
-- `scheduler`, `getpid`, `getprio`, `chprio` and `getname` of kernel/process.c, and `wait_clock`
-- and `current_clock` of kernel/horloge.c.
use mathlib.Core.List.{reverse}
use operating_system_concept.Base.{
  ℕ, Bool, true, false, ◌&&◌, ◌||◌, Option, none, some, List, [], ◌∷◌, ltb, leb, ◌==◌,
  if◌then◌else◌, last?, remove,
}
use operating_system_concept.Base.Int.{ℤ, pos, negsuc}
use operating_system_concept.Base.Run.{Run, ok, fault, page_fault, ◌>>=◌}
use operating_system_concept.Kernel.{
  Proc, active, ready, asleep, Kernel, nbproc, maxprio, get_proc, put_proc, set_state, priority_of,
  enqueue, dequeue, is_active, is_ready, is_asleep, is_zombie, is_dead, is_child_block,
}

abbrev pub getpid : Kernel → ℕ
getpid k = k.running

abbrev pub current_clock : Kernel → ℕ
current_clock k = k.nb_interrupt

-- The test of the scheduler's loop.
abbrev pub runnable : Kernel → ℕ → Bool
runnable k i = elim (k.procs i) [
  | none ↦ false
  | some p ↦ is_ready p.state || (is_asleep p.state && leb p.wake_up_time (current_clock k))
]

unfoldable pub first_such : (ℕ → Bool) → List ℕ → Option ℕ
first_such test [] = none
first_such test (x ∷ xs) = if test x then some x else first_such test xs

-- The active process goes on: it is ACTIVE and nobody in the queue has its priority or more.
abbrev pub keeps_running : Proc → Kernel → Bool
keeps_running p k =
    is_active p.state
    && (elim (last? k.queue) [ none ↦ true | some top ↦ ltb (priority_of k.procs top) p.priority ])

abbrev pub gave_up : Proc → Bool
gave_up p = is_dead p.state || is_zombie p.state || is_child_block p.state

-- Back into the queue, ready if it was active.
unfoldable pub requeue : Proc → Kernel → Run Kernel
requeue p k = do
  k₁ ← enqueue k.running k
  ok (if is_active p.state then put_proc k.running (set_state ready p) k₁ else k₁)

-- The switch to the process that the walk over the queue finds, if it finds one.
unfoldable pub switch_to : Option ℕ → Kernel → Run Kernel
switch_to none k = fault page_fault
switch_to (some i) k = do
  p ← get_proc i k
  ok (put_proc i (set_state active p) (record k { queue = remove i k.queue; running = p.pid }))

unfoldable pub switch : Kernel → Run Kernel
unfolding switch_to
switch k = switch_to (first_such (runnable k) (reverse k.queue)) k

unfoldable pub scheduler : Kernel → Run Kernel
scheduler k = do
  p ← get_proc k.running k
  if gave_up p
      then switch k
      else if keeps_running p k
      then ok k
      else (do k₁ ← requeue p k; switch k₁)

-- The process that a call names, unless it is missing, dead or a zombie.
abbrev pub living : Kernel → ℕ → Option Proc
living k i = elim (k.procs i) [
  | none ↦ none
  | some p ↦ if is_dead p.state || is_zombie p.state then none else some p
]

abbrev pub in_table : ℤ → Option ℕ
in_table (pos n) = if ltb 0 n && ltb n nbproc then some n else none
in_table (negsuc n) = none

unfoldable pub getprio : ℤ → Kernel → Option ℕ
getprio pid k = elim (in_table pid) [
  | none ↦ none
  | some i ↦ elim (living k i) [ none ↦ none | some p ↦ some p.priority ]
]

-- The new priority, and the place in the queue that goes with it.
unfoldable pub reprioritise : ℕ → Proc → ℕ → Kernel → Run Kernel
reprioritise i p newprio k =
    let k₁ = put_proc i (record p { priority = newprio }) k in
    if i == getpid k then ok k₁ else (do k₂ ← dequeue i k₁; enqueue i k₂)

-- `if (temp_top != NULL && ... < ...) scheduler();`
unfoldable pub preempt_by : Option ℕ → Kernel → Run Kernel
preempt_by none k = ok k
preempt_by (some top) k = do
  p ← get_proc k.running k
  if ltb p.priority (priority_of k.procs top) then scheduler k else ok k

unfoldable pub preempt : Kernel → Run Kernel
unfolding preempt_by
preempt k = preempt_by (last? k.queue) k

abbrev pub valid_prio : ℤ → Option ℕ
valid_prio (pos n) = if leb 1 n && leb n maxprio then some n else none
valid_prio (negsuc n) = none

unfoldable pub chprio_of : ℕ → ℕ → Option Proc → Kernel → Run (Option ℕ × Kernel)
chprio_of i n none k = ok (none, k)
chprio_of i n (some p) k = do k₁ ← reprioritise i p n k; k₂ ← preempt k₁; ok (some p.priority, k₂)

unfoldable pub chprio_at : Option ℕ → Option ℕ → Kernel → Run (Option ℕ × Kernel)
unfolding chprio_of
chprio_at none n k = ok (none, k)
chprio_at (some i) none k = ok (none, k)
chprio_at (some i) (some n) k = chprio_of i n (living k i) k

-- -1 is `none`.
unfoldable pub chprio : ℤ → ℤ → Kernel → Run (Option ℕ × Kernel)
unfolding chprio_at
chprio pid newprio k = chprio_at (in_table pid) (valid_prio newprio) k

unfoldable pub getname : Kernel → Run (List ℕ)
getname k = do p ← get_proc k.running k; ok p.name

unfoldable pub wait_clock : ℕ → Kernel → Run Kernel
wait_clock clock k = if getpid k == 0 then ok k else do
  p ← get_proc k.running k
  scheduler (put_proc k.running (record p { wake_up_time = clock; state = asleep }) k)
