-- ===== src/Process/Schedule.antt =====
-- `scheduler`, whatever the state of the process that calls it.
use operating_system_concept.Base.{
  ℕ, ◌≤◌, ◌≡◌, refl, sym, ap, ◌∙◌, ◌⊎◌, inl, inr, true, false, Option, none, some, List, [], ◌∷◌,
  arith, ◌==◌, ==_iff, Bool-cases, has, last_or,
}
use operating_system_concept.Base.Run.{ok, ◌>>=◌, Returns}
use operating_system_concept.Queue.Order.{
  insert, IsSorted, AllFrom, has-insert, Distinct-insert, insert-IsSorted,
}
use operating_system_concept.Kernel.{
  Proc, active, ready, Kernel, put_proc, set_state, priority_of, enqueue, is_active, is_child_block,
}
use operating_system_concept.Process.Scheduler.{keeps_running, gave_up, requeue, switch, scheduler}
use operating_system_concept.Process.Invariant.{
  SlotFits, Fits, Idle, IsValid, IsWaiting, IsSorted-congr, priority-update, get_proc-some,
  OnlyStates, OnlyStates-trans, stateless-update,
}
use operating_system_concept.Process.Steady.{Steady, Steady-refl, Steady-trans, Steady-update}
use operating_system_concept.Process.Switch.{IsTop, Scheduled, switch-Scheduled}

-- What holds when the process `p` calls the scheduler: all others fit, and `p` is in the queue
-- only if it waits for a child.
pub record CanSchedule (k : Kernel) (p : Proc) : Type 0 where
  pub others : Fits k none (λ i. i == k.running)
  pub here : k.procs k.running ≡ some p
  pub own : p.pid ≡ k.running
  pub queued : has k.running k.queue ≡ is_child_block p.state
  pub idle : Idle k.procs

abbrev pub queued_on : Kernel → Kernel
queued_on k = record k { queue = insert (priority_of k.procs) k.running k.queue }

abbrev pub readied : Kernel → Proc → Kernel
readied k p = put_proc k.running (set_state ready p) (queued_on k)

-- An element is at most the last one of a sorted list.
AllFrom-last : (f : ℕ → ℕ) (p x : ℕ) (xs : List ℕ) → p ≤ f x → AllFrom f p xs → p ≤ f (last_or x xs)
AllFrom-last f p x [] h a = h
AllFrom-last f p x (y ∷ ys) h a = AllFrom-last f p y ys a.0 a.1

pub le-last :
    (f : ℕ → ℕ) (j x : ℕ) (xs : List ℕ)
    → IsSorted f (x ∷ xs)
    → has j (x ∷ xs) ≡ true
    → f j ≤ f (last_or x xs)
le-last f j x [] s h = ground arith
le-last f j x (y ∷ ys) s h = elim (Bool-cases (j == x)) [
  | inl e ↦ let le = AllFrom-last f (f x) y ys s.0.0 s.0.1 in ground (arith, le)
  | inr e ↦ le-last f j y ys s.1 (ground arith)
]

module _ (k : Kernel) (p : Proc) (c : CanSchedule k p) where
  idle_elsewhere : (0 == k.running) ≡ false → (q : Proc) × (k.procs 0 ≡ some q) × (q.state ≡ ready)
  idle_elsewhere e =
      let (q, there, state) = c.idle in (q, there, ground (arith, c.others.slots 0 e, there, state))

  idle_here :
      (0 == k.running) ≡ true → (k.procs 0 ≡ some p) × ((p.state ≡ active) ⊎ (p.state ≡ ready))
  idle_here e =
      let (q, there, state) = c.idle in
      let at : k.procs 0 ≡ some p = ap k.procs ((==_iff 0 k.running).0 e) ∙ c.here in
      (at, ground (arith, at, there, state))

  -- A slot of another process has the same test in the old and in the new queue.
  gave_up-slots : gave_up p ≡ true → (i : ℕ) → SlotFits (k.procs i) k.queue none i
  gave_up-slots g i = elim (Bool-cases (i == k.running)) [
    | inl e ↦
        let same = (==_iff i k.running).0 e in rw (same, c.here) (ground (arith, c.own, c.queued))
    | inr e ↦ c.others.slots i e
  ]

  gave_up-IsWaiting : gave_up p ≡ true → IsWaiting k
  gave_up-IsWaiting g = record {
    fits = record {
      distinct = c.others.distinct;
      sorted = c.others.sorted;
      bounded = c.others.bounded;
      slots = λ i _. gave_up-slots g i;
    };
    idle = elim (Bool-cases (0 == k.running)) [
      | inl e ↦ absurd (ground (arith, g, idle_here e))
      | inr e ↦ idle_elsewhere e
    ];
  }

  others_slots :
      (queue : List ℕ) (o : Option Proc) (i : ℕ)
      → (i == k.running) ≡ false
      → SlotFits o queue none i
      → SlotFits o queue (some k.running) i
  others_slots queue none i e s = s
  others_slots queue (some q) i e s = (s.0, s.1, s.2 ∙ sym e)

  keeps_running-slots :
      is_active p.state ≡ true → (i : ℕ) → SlotFits (k.procs i) k.queue (some k.running) i
  keeps_running-slots g i = elim (Bool-cases (i == k.running)) [
    | inl e ↦
        let same = (==_iff i k.running).0 e in rw (same, c.here) (ground (arith, c.own, c.queued))
    | inr e ↦ others_slots k.queue (k.procs i) i e (c.others.slots i e)
  ]

  keeps_running-IsTop : keeps_running p k ≡ true → IsTop k
  keeps_running-IsTop g j h t = rw c.here (below k.queue c.others.sorted g h)
    where
      below :
          (xs : List ℕ)
          → IsSorted (priority_of k.procs) xs
          → keeps_running p (record k { queue = xs }) ≡ true
          → has j xs ≡ true
          → priority_of k.procs j ≤ p.priority
      below [] s q m = absurd (cc)
      below (x ∷ xs) s q m = ground (arith, le-last (priority_of k.procs) j x xs s m, q)

  unchanged : OnlyStates k k
  unchanged = record {
    procs = λ x. refl;
    clock = refl;
    messages = refl;
    partner = refl;
    pending = refl;
    memory = refl;
  }

  keeps_running-Scheduled : keeps_running p k ≡ true → Scheduled k k
  keeps_running-Scheduled g = record {
    valid = record {
      fits = record {
        distinct = c.others.distinct;
        sorted = c.others.sorted;
        bounded = c.others.bounded;
        slots = λ i _. keeps_running-slots (ground arith) i;
      };
      current = (p, c.here, ground arith);
      idle = c.idle;
    };
    top = keeps_running-IsTop g;
    kept = unchanged;
    steady = Steady-refl k.procs;
  }

  not_queued : gave_up p ≡ false → has k.running k.queue ≡ false
  not_queued g = ground (arith, c.queued)

  requeue-active : gave_up p ≡ false → is_active p.state ≡ true → requeue p k ≡ ok (readied k p)
  unfolding requeue enqueue
  requeue-active g a = rw (not_queued g, a) refl

  requeue-other : gave_up p ≡ false → is_active p.state ≡ false → requeue p k ≡ ok (queued_on k)
  unfolding requeue enqueue
  requeue-other g a = rw (not_queued g, a) refl

  queued_on-slots :
      gave_up p ≡ false
      → is_active p.state ≡ false
      → (i : ℕ) → SlotFits (k.procs i) (queued_on k).queue none i
  queued_on-slots g a i =
      ground (
        arith,
        c.others.slots i,
        c.here,
        c.own,
        has-insert (priority_of k.procs) i k.running k.queue,
      )

  queued_on-IsWaiting : gave_up p ≡ false → is_active p.state ≡ false → IsWaiting (queued_on k)
  queued_on-IsWaiting g a = record {
    fits = record {
      distinct =
          Distinct-insert (priority_of k.procs) k.running k.queue c.others.distinct (not_queued g);
      sorted = insert-IsSorted (priority_of k.procs) k.running k.queue c.others.sorted;
      bounded = c.others.bounded;
      slots = λ i _. queued_on-slots g a i;
    };
    idle = elim (Bool-cases (0 == k.running)) [
      | inl e ↦ (p, (idle_here e).0, ground (arith, a, idle_here e))
      | inr e ↦ idle_elsewhere e
    ];
  }

  readied-slots :
      gave_up p ≡ false
      → is_active p.state ≡ true
      → (i : ℕ) → SlotFits ((readied k p).procs i) (queued_on k).queue none i
  readied-slots g a i =
      ground (
        arith,
        c.others.slots i,
        c.here,
        c.own,
        has-insert (priority_of k.procs) i k.running k.queue,
      )

  readied-IsWaiting : gave_up p ≡ false → is_active p.state ≡ true → IsWaiting (readied k p)
  readied-IsWaiting g a = record {
    fits = record {
      distinct =
          Distinct-insert (priority_of k.procs) k.running k.queue c.others.distinct (not_queued g);
      sorted =
          IsSorted-congr (priority_of k.procs) (priority_of (readied k p).procs) _
            (λ x h. priority-update k.procs k.running p (set_state ready p) c.here refl x)
            (insert-IsSorted (priority_of k.procs) k.running k.queue c.others.sorted);
      bounded = λ i h. ground (arith, c.here, c.others.bounded i);
      slots = λ i _. readied-slots g a i;
    };
    idle = elim (Bool-cases (0 == k.running)) [
      | inl e ↦ (set_state ready p, rw e refl, refl)
      | inr e ↦ let (q, there, state) = idle_elsewhere e in (q, rw e there, state)
    ];
  }

  readied-kept : OnlyStates k (readied k p)
  readied-kept = record {
    procs = stateless-update k.procs k.running p ready c.here;
    clock = refl;
    messages = refl;
    partner = refl;
    pending = refl;
    memory = refl;
  }

  readied-Steady : is_active p.state ≡ true → Steady k.procs (readied k p).procs
  readied-Steady a = Steady-update k.procs k.running p ready c.here (ground (arith, a)) refl

  queued_on-kept : {k' : Kernel} → OnlyStates (queued_on k) k' → OnlyStates k k'
  queued_on-kept o = record {
    procs = o.procs;
    clock = o.clock;
    messages = o.messages;
    partner = o.partner;
    pending = o.pending;
    memory = o.memory;
  }

  requeue-Scheduled : gave_up p ≡ false → Returns (requeue p k >>= switch) (Scheduled k)
  requeue-Scheduled g = elim (Bool-cases (is_active p.state)) [
    | inl a ↦
        let (k', run, s) = switch-Scheduled (readied k p) (readied-IsWaiting g a) in
        (
          k',
          rw (requeue-active g a) run,
          record {
            valid = s.valid;
            top = s.top;
            kept = OnlyStates-trans readied-kept s.kept;
            steady = Steady-trans (readied-Steady a) s.steady;
          },
        )
    | inr a ↦
        let (k', run, s) = switch-Scheduled (queued_on k) (queued_on-IsWaiting g a) in
        (
          k',
          rw (requeue-other g a) run,
          record { valid = s.valid; top = s.top; kept = queued_on-kept s.kept; steady = s.steady },
        )
  ]

  -- The scheduler returns: it finds a process that can run. The table, the queue and the active
  -- process fit again, the active process has the highest priority of all that can run, and nothing
  -- changes but the states, the queue and who is active. Who was ready or active is ready or active
  -- still, and who was none of ready, active and asleep has not changed.
  pub scheduler-Scheduled : Returns (scheduler k) (Scheduled k)
  unfolding scheduler
  scheduler-Scheduled =
      rw (get_proc-some k k.running p c.others.bounded c.here) (elim (Bool-cases (gave_up p)) [
        | inl g ↦ rw g (switch-Scheduled k (gave_up-IsWaiting g))
        | inr g ↦ rw g (elim (Bool-cases (keeps_running p k)) [
          | inl s ↦ rw s (k, refl, keeps_running-Scheduled s)
          | inr s ↦ rw s (requeue-Scheduled g)
        ])
      ])

-- A process that runs can call the scheduler.
pub IsValid-CanSchedule : (k : Kernel) (v : IsValid k) → CanSchedule k v.current.0
IsValid-CanSchedule k v = record {
  others = record {
    distinct = v.fits.distinct;
    sorted = v.fits.sorted;
    bounded = v.fits.bounded;
    slots = λ i e. elsewhere (k.procs i) i e (v.fits.slots i refl);
  };
  here = v.current.1;
  own = ground (arith, v.current, v.fits.slots k.running refl);
  queued = ground (arith, v.current, v.fits.slots k.running refl);
  idle = v.idle;
}
  where
    elsewhere :
        (o : Option Proc) (i : ℕ)
        → (i == k.running) ≡ false
        → SlotFits o k.queue (some k.running) i
        → SlotFits o k.queue none i
    elsewhere none i e s = s
    elsewhere (some q) i e s = (s.0, s.1, s.2 ∙ e)
