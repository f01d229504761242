-- ===== src/Process/Prio.antt =====
-- `chprio` of kernel/process.c, and the test for preemption behind it.
use operating_system_concept.Base.{
  ℕ, ◌≤◌, ◌≡◌, refl, ap, ◌∙◌, inl, inr, true, false, ◌||◌, Option, none, some, List, [], ◌∷◌, arith,
  ltb, ◌==◌, ==_iff, Bool-cases, update_self, has, last?, remove, has-remove_lem, Distinct-remove,
}
use operating_system_concept.Base.Int.{ℤ}
use operating_system_concept.Base.Run.{Returns}
use operating_system_concept.Queue.Order.{
  insert, IsSorted, has-insert, Distinct-insert, insert-IsSorted, IsSorted-remove,
}
use operating_system_concept.Kernel.{
  Proc, active, Kernel, nbproc, put_proc, priority_of, enqueue, dequeue, priority_field, is_dead,
  is_zombie,
}
use operating_system_concept.Process.Scheduler.{
  preempt, preempt_by, reprioritise, chprio, living, in_table, valid_prio,
}
use operating_system_concept.Process.Invariant.{
  SlotFits, Idle, IsValid, IsSorted-congr, get_proc-some, OnlyStates-priority,
}
use operating_system_concept.Process.Steady.{Steady-refl}
use operating_system_concept.Process.Switch.{IsTop, Scheduled}
use operating_system_concept.Process.Schedule.{scheduler-Scheduled, le-last, IsValid-CanSchedule}

module _ (k : Kernel) (v : IsValid k) where
  top-le :
      (xs : List ℕ) (p : Proc) (x j : ℕ)
      → IsSorted (priority_of k.procs) xs
      → last? xs ≡ some x
      → ltb p.priority (priority_of k.procs x) ≡ false
      → has j xs ≡ true
      → priority_of k.procs j ≤ p.priority
  top-le [] p x j s e l h = absurd (cc)
  top-le (y ∷ ys) p x j s e l h = ground (arith, le-last (priority_of k.procs) j y ys s h)

  stays : IsTop k → Scheduled k k
  stays t = record {
    valid = v;
    top = t;
    kept = record {
      procs = λ x. refl;
      clock = refl;
      messages = refl;
      partner = refl;
      pending = refl;
      memory = refl;
    };
    steady = Steady-refl k.procs;
  }

  preempt_by-Scheduled : (o : Option ℕ) → last? k.queue ≡ o → Returns (preempt_by o k) (Scheduled k)
  unfolding preempt_by
  preempt_by-Scheduled none e = (k, refl, stays (λ j h t. absurd (empty k.queue j e h)))
    where
      empty : (xs : List ℕ) (j : ℕ) → last? xs ≡ none → has j xs ≡ true → ⊥
      empty [] j e h = cc
      empty (x ∷ xs) j e h = cc
  preempt_by-Scheduled (some top) e =
      let (p, here, state) = v.current in
      rw (get_proc-some k k.running p v.fits.bounded here)
        (elim (Bool-cases (ltb p.priority (priority_of k.procs top))) [
          | inl lower ↦ rw lower (scheduler-Scheduled k p (IsValid-CanSchedule k v))
          | inr above ↦
              rw above
                (k, refl, stays (λ j h t. rw here (top-le k.queue p top j v.fits.sorted e above h)))
        ])

  -- After the test for preemption the active process has the highest priority of all that can run.
  pub preempt-Scheduled : Returns (preempt k) (Scheduled k)
  unfolding preempt
  preempt-Scheduled = preempt_by-Scheduled (last? k.queue) refl

module _ (k : Kernel) (v : IsValid k) (i : ℕ) (p : Proc) (n : ℕ) (there : k.procs i ≡ some p)
    (alive : (is_dead p.state || is_zombie p.state) ≡ false) where
  abbrev promoted : Proc
  promoted = record p { priority = n }

  abbrev changed : Kernel
  changed = put_proc i promoted k

  changed-bounded : (j : ℕ) → nbproc ≤ j → changed.procs j ≡ none
  changed-bounded j h = ground (arith, there, v.fits.bounded j)

  changed-slots : (j : ℕ) → SlotFits (changed.procs j) k.queue (some k.running) j
  changed-slots j = ground (arith, there, v.fits.slots j refl)

  changed-Idle : Idle changed.procs
  changed-Idle =
      let (q, at, state) = v.idle in
      elim (Bool-cases (0 == i)) [
        | inl e ↦ (promoted, rw e refl, ground (arith, at, there, state, (==_iff 0 i).0 e))
        | inr e ↦ (q, rw e at, state)
      ]

  changed-current : (q : Proc) × (changed.procs k.running ≡ some q) × (q.state ≡ active)
  changed-current =
      let (q, at, state) = v.current in
      elim (Bool-cases (k.running == i)) [
        | inl e ↦ (promoted, rw e refl, ground (arith, at, there, state, (==_iff k.running i).0 e))
        | inr e ↦ (q, rw e at, state)
      ]

  -- The priorities of the others stay.
  others_prio : (x : ℕ) → (x == i) ≡ false → priority_of k.procs x ≡ priority_of changed.procs x
  others_prio x e = rw e refl

  running_case : (i == k.running) ≡ true → IsValid changed
  running_case e = record {
    fits = record {
      distinct = v.fits.distinct;
      sorted =
          IsSorted-congr (priority_of k.procs) (priority_of changed.procs) k.queue
            (λ x h. others_prio x (ground (arith, v.current, v.fits.slots k.running refl)))
            v.fits.sorted;
      bounded = changed-bounded;
      slots = λ j _. changed-slots j;
    };
    current = changed-current;
    idle = changed-Idle;
  }

  queued_here : (i == k.running) ≡ false → has i k.queue ≡ true
  queued_here e = ground (arith, there, alive, v.fits.slots i refl)

  abbrev moved : Kernel
  moved = record changed { queue = insert (priority_of changed.procs) i (remove i k.queue) }

  gone : has i (remove i k.queue) ≡ false
  gone = ground (arith, has-remove_lem i i k.queue v.fits.distinct)

  moved-has : (i == k.running) ≡ false → (j : ℕ) → has j moved.queue ≡ has j k.queue
  moved-has e j =
      has-insert (priority_of changed.procs) j i (remove i k.queue)
      ∙ ground (arith, has-remove_lem i j k.queue v.fits.distinct, queued_here e)

  moved_case : (i == k.running) ≡ false → IsValid moved
  moved_case e = record {
    fits = record {
      distinct =
          Distinct-insert (priority_of changed.procs) i (remove i k.queue)
            (Distinct-remove i k.queue v.fits.distinct) gone;
      sorted = insert-IsSorted (priority_of changed.procs) i (remove i k.queue) (
          IsSorted-congr (priority_of k.procs) (priority_of changed.procs) (remove i k.queue)
            (λ x h. others_prio x (ground (arith, gone)))
            (IsSorted-remove (priority_of k.procs) i k.queue v.fits.sorted));
      bounded = changed-bounded;
      slots = λ j _. transfer (changed.procs j) j (moved-has e j) (changed-slots j);
    };
    current = changed-current;
    idle = changed-Idle;
  }
    where
      transfer :
          (o : Option Proc) (j : ℕ)
          → has j moved.queue ≡ has j k.queue
          → SlotFits o k.queue (some k.running) j
          → SlotFits o moved.queue (some k.running) j
      transfer none j e s = e ∙ s
      transfer (some q) j e s = (s.0, e ∙ s.1, s.2)

  changed-prio : priority_of changed.procs i ≡ n
  changed-prio = ap priority_field (update_self k.procs i (some promoted))

  reprioritise-IsValid :
      Returns (reprioritise i p n k) (λ k'. IsValid k' × (priority_of k'.procs i ≡ n))
  unfolding reprioritise enqueue dequeue
  reprioritise-IsValid = elim (Bool-cases (i == k.running)) [
    | inl e ↦ (changed, rw e refl, (running_case e, changed-prio))
    | inr e ↦ (moved, rw (e, queued_here e, gone) refl, (moved_case e, changed-prio))
  ]

-- `chprio` of a living process to a priority in range returns the old priority. Afterwards the
-- process has the new one, table and queue fit, and the active process has the highest priority of
-- all that can run.
pub chprio-done :
    (k : Kernel) (pid newprio : ℤ) (i n : ℕ) (p : Proc)
    → IsValid k
    → in_table pid ≡ some i
    → valid_prio newprio ≡ some n
    → living k i ≡ some p
    → Returns (chprio pid newprio k) (λ (old, k').
      (old ≡ some p.priority) × (priority_of k'.procs i ≡ n) × IsValid k' × IsTop k')
unfolding chprio
chprio-done k pid newprio i n p v at new alive =
    let there : k.procs i ≡ some p = ground (arith, alive) in
    let (k₁, run₁, (v₁, prio)) =
      reprioritise-IsValid k v i p n there (ground (arith, there, alive)) in
    let (k₂, run₂, s) = preempt-Scheduled k₁ v₁ in
    (
      (some p.priority, k₂),
      rw (at, new, alive, run₁, run₂) refl,
      (refl, OnlyStates-priority s.kept i ∙ prio, s.valid, s.top),
    )
