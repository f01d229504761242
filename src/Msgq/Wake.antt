-- ===== src/Msgq/Wake.antt =====
-- `pdelete` and `preset` of kernel/msgq.c, and those who wait on the queue.
use operating_system_concept.Base.{
  ℕ, Bool, ◌≡◌, refl, sym, ap, ◌∙◌, inl, inr, true, false, ◌||◌, Option, none, some, List, [], ◌∷◌,
  arith, ◌==◌, Bool-cases, update_self, has,
}
use operating_system_concept.Base.Int.{ℤ, pos, negsuc}
use operating_system_concept.Base.Run.{Returns}
use operating_system_concept.Kernel.{Proc, ready, MsgQueue, Kernel, put_proc, priority_of}
use operating_system_concept.Process.Invariant.{
  SlotFits, IsValid, IsSorted-congr, priority-update, stateless,
}
use operating_system_concept.Process.Steady.{goes_on}
use operating_system_concept.Process.Switch.{IsTop}
use operating_system_concept.Process.Schedule.{scheduler-Scheduled, IsValid-CanSchedule}
use operating_system_concept.Process.Scheduler.{scheduler}
use operating_system_concept.Msgq.Cells.{destroy_list, put_queue, valid_fid}
use operating_system_concept.Msgq.Count.{waits_on, receives_on, sends_on}
use operating_system_concept.Msgq.Reset.{
  wake_waiter, wake_waiters, pdelete_at, pdelete, preset_at, preset,
}

-- A process of the queue is made ready.
module _ (k : Kernel) (i : ℕ) (p q : Proc) (v : IsValid k) (here : k.procs i ≡ some p)
    (queued : has i k.queue ≡ true) (pid : q.pid ≡ p.pid) (prio : q.priority ≡ p.priority)
    (now : q.state ≡ ready) where
  readied-slots : (j : ℕ) → SlotFits ((put_proc i q k).procs j) k.queue (some k.running) j
  readied-slots j = ground (arith, here, pid, now, v.fits.slots j refl, v.fits.slots i refl)

  not_running : (k.running == i) ≡ false
  not_running = ground (arith, v.current, v.fits.slots k.running refl)

  readied-IsValid : IsValid (put_proc i q k)
  readied-IsValid = record {
    fits = record {
      distinct = v.fits.distinct;
      sorted =
          IsSorted-congr (priority_of k.procs) _ k.queue
            (λ x h. priority-update k.procs i p q here prio x) v.fits.sorted;
      bounded = λ j h. ground (arith, here, v.fits.bounded j);
      slots = λ j _. readied-slots j;
    };
    current = let (r, at, state) = v.current in (r, rw not_running at, state);
    idle =
        let (r, at, state) = v.idle in
        elim (Bool-cases (0 == i)) [
          | inl e ↦ (q, rw e refl, inr now)
          | inr e ↦ (r, rw e at, state)
        ];
  }

-- The process waits on the queue neither to send nor to receive.
abbrev pub Quiet : ℕ → Option Proc → Type 0
Quiet fid o = (sends_on fid o ≡ false) × (receives_on fid o ≡ false)

-- The process waits on the queue.
abbrev pub waits_for : ℕ → Option Proc → Bool
waits_for fid o = sends_on fid o || receives_on fid o

-- What waking leaves: the processes of the queue wait on `fid` no more, those that did are ready,
-- the rest stays.
record Woken (fid : ℕ) (xs : List ℕ) (k k' : Kernel) : Type 0 where
  valid : IsValid k'
  queue : k'.queue ≡ k.queue
  messages : k'.msg_queues ≡ k.msg_queues
  quiet : (x : ℕ) → has x xs ≡ true → Quiet fid (k'.procs x)
  awake : (x : ℕ) → has x xs ≡ true → waits_for fid (k.procs x) ≡ true → goes_on (k'.procs x) ≡ true
  going : (x : ℕ) → goes_on (k.procs x) ≡ true → goes_on (k'.procs x) ≡ true
  spared : (x : ℕ) → waits_for fid (k.procs x) ≡ false → k'.procs x ≡ k.procs x
  elsewhere : (x : ℕ) → has x xs ≡ false → k'.procs x ≡ k.procs x
  kept : (x : ℕ) → Quiet fid (k.procs x) → Quiet fid (k'.procs x)

wake_waiter-Woken :
    (fid i : ℕ) (o : Option Proc) (k : Kernel)
    → k.procs i ≡ o
    → IsValid k
    → has i k.queue ≡ true
    → Woken fid (i ∷ []) k (wake_waiter fid i o k)
unfolding wake_waiter
wake_waiter-Woken fid i none k e v h = record {
  valid = v;
  queue = refl;
  messages = refl;
  quiet = λ x m. ground (arith, e);
  awake = λ x m w. ground (arith, e);
  going = λ x g. g;
  spared = λ x n. refl;
  elsewhere = λ x n. refl;
  kept = λ x q. q;
}
wake_waiter-Woken fid i (some p) k e v h =
    elim (Bool-cases (waits_on p.send_wait_on fid || waits_on p.rcv_wait_on fid)) [
      | inl w ↦ rw w (record {
        valid = readied-IsValid k i p _ v e h refl refl refl;
        queue = refl;
        messages = refl;
        quiet = λ x m. ground (arith);
        awake = λ x m w'. ground (arith);
        going = λ x g. ground (arith);
        spared = λ x n. ground (arith, e);
        elsewhere = λ x n. ground (arith);
        kept = λ x q. ground (arith);
      })
      | inr w ↦ rw w (record {
        valid = v;
        queue = refl;
        messages = refl;
        quiet = λ x m. ground (arith, e);
        awake = λ x m w'. ground (arith, e);
        going = λ x g. g;
        spared = λ x n. refl;
        elsewhere = λ x n. refl;
        kept = λ x q. q;
      })
    ]

wake_waiters-Woken :
    (fid : ℕ) (xs : List ℕ) (k : Kernel)
    → IsValid k
    → ((x : ℕ) → has x xs ≡ true → has x k.queue ≡ true)
    → Woken fid xs k (wake_waiters fid xs k)
unfolding wake_waiters
wake_waiters-Woken fid [] k v sub = record {
  valid = v;
  queue = refl;
  messages = refl;
  quiet = λ x m. absurd (cc);
  awake = λ x m w. absurd (cc);
  going = λ x g. g;
  spared = λ x n. refl;
  elsewhere = λ x n. refl;
  kept = λ x q. q;
}
wake_waiters-Woken fid (i ∷ is) k v sub =
    let a = wake_waiter-Woken fid i (k.procs i) k refl v (sub i (ground arith)) in
    let b =
      wake_waiters-Woken fid is (wake_waiter fid i (k.procs i) k) a.valid
        (λ x h. ap (has x) a.queue ∙ sub x (ground arith)) in
    record {
      valid = b.valid;
      queue = b.queue ∙ a.queue;
      messages = b.messages ∙ a.messages;
      quiet = λ x m. elim (Bool-cases (x == i)) [
        | inl e ↦ b.kept x (a.quiet x (ground arith))
        | inr e ↦ b.quiet x (ground arith)
      ];
      awake = λ x m w. elim (Bool-cases (x == i)) [
        | inl e ↦ b.going x (a.awake x (ground arith) w)
        | inr e ↦ b.awake x (ground arith) (ap (waits_for fid) (a.elsewhere x (ground arith)) ∙ w)
      ];
      going = λ x g. b.going x (a.going x g);
      spared = λ x n. b.spared x (ap (waits_for fid) (a.spared x n) ∙ n) ∙ a.spared x n;
      elsewhere = λ x n. b.elsewhere x (ground arith) ∙ a.elsewhere x (ground arith);
      kept = λ x q. b.kept x (a.kept x q);
    }

-- The scheduler leaves the waits alone.
stateless-Quiet :
    (fid : ℕ) (o o' : Option Proc) → stateless o' ≡ stateless o → Quiet fid o → Quiet fid o'
stateless-Quiet fid o o' e q = (
  sym (sends o') ∙ ap (sends_on fid) e ∙ sends o ∙ q.0,
  sym (receives o') ∙ ap (receives_on fid) e ∙ receives o ∙ q.1,
)
  where
    sends : (o : Option Proc) → sends_on fid (stateless o) ≡ sends_on fid o
    sends none = refl
    sends (some p) = refl

    receives : (o : Option Proc) → receives_on fid (stateless o) ≡ receives_on fid o
    receives none = refl
    receives (some p) = refl

-- What `preset` and `pdelete` leave of a kernel and of queue `i`, which becomes `q`.
pub record Released (i : ℕ) (q : MsgQueue) (k k' : Kernel) : Type 0 where
  pub valid : IsValid k'
  pub top : IsTop k'
  pub queue : k'.msg_queues i ≡ q
  pub others : (j : ℕ) → (j == i) ≡ false → k'.msg_queues j ≡ k.msg_queues j
  pub quiet : (x : ℕ) → has x k.queue ≡ true → Quiet i (k'.procs x)
  pub awake :
      (x : ℕ) → has x k.queue ≡ true → waits_for i (k.procs x) ≡ true → goes_on (k'.procs x) ≡ true
  pub spared :
      (x : ℕ) → waits_for i (k.procs x) ≡ false → stateless (k'.procs x) ≡ stateless (k.procs x)

pub put_queue-IsValid : (i : ℕ) (q : MsgQueue) (k : Kernel) → IsValid k → IsValid (put_queue i q k)
put_queue-IsValid i q k v = record {
  fits = record {
    distinct = v.fits.distinct;
    sorted = v.fits.sorted;
    bounded = v.fits.bounded;
    slots = v.fits.slots;
  };
  current = v.current;
  idle = v.idle;
}

-- Waking the processes of the queue after `q` was stored, and then storing `q'`.
module _ (i : ℕ) (q q' : MsgQueue) (k : Kernel) (v : IsValid k) where
  abbrev woken : Kernel
  woken = wake_waiters i k.queue (put_queue i q k)

  woken-Woken : Woken i k.queue (put_queue i q k) woken
  woken-Woken =
      wake_waiters-Woken i k.queue (put_queue i q k) (put_queue-IsValid i q k v) (λ x h. h)

  woken-queue : woken.msg_queues i ≡ q
  woken-queue = ap (λ f. f i) woken-Woken.messages ∙ update_self k.msg_queues i q

  scheduler-Released : Returns (scheduler (put_queue i q' woken)) (λ k'. Released i q' k k')
  scheduler-Released =
      let v' = put_queue-IsValid i q' woken woken-Woken.valid in
      let (k', run, s) =
        scheduler-Scheduled (put_queue i q' woken) v'.current.0
          (IsValid-CanSchedule (put_queue i q' woken) v') in
      (
        k',
        run,
        record {
          valid = s.valid;
          top = s.top;
          queue = ap (λ f. f i) s.kept.messages ∙ update_self woken.msg_queues i q';
          others = λ j n.
              ap (λ f. f j) s.kept.messages ∙ rw n (ap (λ f. f j) woken-Woken.messages ∙ rw n refl);
          quiet = λ x h.
              stateless-Quiet i (woken.procs x) (k'.procs x) (s.kept.procs x)
                (woken-Woken.quiet x h);
          awake = λ x h w. s.steady.going x (woken-Woken.awake x h w);
          spared = λ x n. s.kept.procs x ∙ ap stateless (woken-Woken.spared x n);
        },
      )

-- `preset` of a queue in use returns 0. The queue has lost its messages and is marked, its count
-- stays, the other queues stay. Every process of the scheduler's queue that waited on the message
-- queue is ready or runs, and waits on it no more; who did not wait on it changes its state at
-- most. The kernel is valid, and its active process has the highest priority of all that can run.
pub preset-Released :
    (fid : ℤ) (k : Kernel) (i : ℕ)
    → IsValid k
    → valid_fid fid k ≡ some i
    → Returns (preset fid k) (λ (done, k').
      (done ≡ true) × Released i (record (k.msg_queues i) { messages = []; preset = true }) k k')
unfolding preset preset_at destroy_list
preset-Released fid k i v e =
    let q = record (k.msg_queues i) { messages = [] } in
    let (k', run, r) = scheduler-Released i q (record q { preset = true }) k v in
    ((true, k'), rw e (rw (woken-queue i q q k v) (rw run refl)), (refl, r))

-- A descriptor of a queue that lost its capacity is no descriptor.
valid_fid-unused :
    (fid : ℤ) (k k' : Kernel) (i : ℕ)
    → valid_fid fid k ≡ some i
    → (k'.msg_queues i).max_count ≡ 0
    → valid_fid fid k' ≡ none
unfolding valid_fid
valid_fid-unused (pos n) k k' i e z = ground arith
valid_fid-unused (negsuc n) k k' i e z = refl

-- `pdelete` of a queue in use returns 0. The queue has lost its messages and its capacity, and its
-- descriptor is valid no more; the other queues stay. Every process of the scheduler's queue that
-- waited on the message queue is ready or runs, and waits on it no more; who did not wait on it
-- changes its state at most. The kernel is valid, and its active process has the highest priority
-- of all that can run.
pub pdelete-Released :
    (fid : ℤ) (k : Kernel) (i : ℕ)
    → IsValid k
    → valid_fid fid k ≡ some i
    → Returns (pdelete fid k) (λ (done, k').
      (done ≡ true)
      × Released i (record (k.msg_queues i) { messages = []; max_count = 0 }) k k'
      × (valid_fid fid k' ≡ none))
unfolding pdelete pdelete_at destroy_list
pdelete-Released fid k i v e =
    let q = record (k.msg_queues i) { messages = [] } in
    let (k', run, r) = scheduler-Released i q (record q { max_count = 0 }) k v in
    (
      (true, k'),
      rw e (rw (woken-queue i q q k v) (rw run refl)),
      (refl, r, valid_fid-unused fid k k' i e (ap (λ q. q.max_count) r.queue)),
    )
