-- ===== src/System/Alike.antt =====
-- Changes to the kernel that the scheduler does not see, and those of a process that waits.
use mathlib.Core.Path.{subst}
use operating_system_concept.Base.{
  ℕ, ◌≡◌, ◌≢◌, refl, sym, ap, ◌∙◌, inl, inr, false, Option, none, some, List, arith, ◌==◌, ==_iff,
  Bool-cases, Option-cases, has, Distinct,
}
use operating_system_concept.Base.Run.{ok}
use operating_system_concept.Queue.Order.{IsSorted}
use operating_system_concept.Kernel.{
  Proc, active, ready, Kernel, get_proc, put_proc, priority_of, priority_field, is_active,
  is_child_block,
}
use operating_system_concept.Process.Invariant.{
  is_queued, SlotFits, Fits, Idle, IsValid, IsSorted-congr, priority-update,
}
use operating_system_concept.Process.Schedule.{CanSchedule}

-- Two contents of a slot that the scheduler treats alike.
abbrev pub Same : Option Proc → Option Proc → Type 0
Same none none = Unit
Same none (some q) = ⊥
Same (some p) none = ⊥
Same (some p) (some q) =
    (q.pid ≡ p.pid)
    × (q.priority ≡ p.priority)
    × (is_queued q.state ≡ is_queued p.state)
    × (is_active q.state ≡ is_active p.state)
    × (p.state ≡ ready → q.state ≡ ready)
    × (p.state ≡ active → q.state ≡ active)

pub Same-refl : (o : Option Proc) → Same o o
Same-refl none = tt
Same-refl (some p) = (refl, refl, refl, refl, λ e. e, λ e. e)

pub record Alike (k k' : Kernel) : Type 0 where
  pub procs : (x : ℕ) → Same (k.procs x) (k'.procs x)
  pub queue : k'.queue ≡ k.queue
  pub running : k'.running ≡ k.running

pub Alike-refl : (k : Kernel) → Alike k k
Alike-refl k = record { procs = λ x. Same-refl (k.procs x); queue = refl; running = refl }

Same-trans : (o o' o'' : Option Proc) → Same o o' → Same o' o'' → Same o o''
Same-trans none none none a b = tt
Same-trans none none (some r) a b = b
Same-trans none (some q) o'' a b = absurd a
Same-trans (some p) none o'' a b = absurd a
Same-trans (some p) (some q) none a b = b
Same-trans (some p) (some q) (some r) a b =
    (b.0 ∙ a.0, b.1 ∙ a.1, b.2 ∙ a.2, b.3 ∙ a.3, λ e. b.4 (a.4 e), λ e. b.5 (a.5 e))

pub Alike-trans : {k l m : Kernel} → Alike k l → Alike l m → Alike k m
Alike-trans {k} {l} {m} a b = record {
  procs = λ x. Same-trans (k.procs x) (l.procs x) (m.procs x) (a.procs x) (b.procs x);
  queue = b.queue ∙ a.queue;
  running = b.running ∙ a.running;
}

-- A write to a process that the scheduler does not see.
pub Alike-put :
    (k : Kernel) (i : ℕ) (p q : Proc)
    → k.procs i ≡ some p
    → Same (some p) (some q)
    → Alike k (put_proc i q k)
Alike-put k i p q here s = record {
  procs = λ x. elim (Bool-cases (x == i)) [
    | inl e ↦ rw (e, (==_iff x i).0 e, here) s
    | inr e ↦ rw e (Same-refl (k.procs x))
  ];
  queue = refl;
  running = refl;
}

Same-none : (o o' : Option Proc) → Same o o' → o ≡ none → o' ≡ none
Same-none none none s e = refl
Same-none none (some q) s e = absurd s
Same-none (some p) none s e = refl
Same-none (some p) (some q) s e = absurd (cc)

pub Same-some :
    (o o' : Option Proc) (p : Proc)
    → Same o o'
    → o ≡ some p
    → (q : Proc) × (o' ≡ some q) × Same (some p) (some q)
Same-some none o' p s e = absurd (cc)
Same-some (some r) none p s e = absurd s
Same-some (some r) (some q) p s e = (q, refl, subst (λ o. Same o (some q)) e s)

Same-priority : (o o' : Option Proc) → Same o o' → priority_field o ≡ priority_field o'
Same-priority none none s = refl
Same-priority none (some q) s = absurd s
Same-priority (some p) none s = absurd s
Same-priority (some p) (some q) s = sym s.1

Same-SlotFits :
    (o o' : Option Proc) (queue : List ℕ) (running : Option ℕ) (x : ℕ)
    → Same o o'
    → SlotFits o queue running x
    → SlotFits o' queue running x
Same-SlotFits none none queue running x s f = f
Same-SlotFits none (some q) queue running x s f = absurd s
Same-SlotFits (some p) none queue running x s f = absurd s
Same-SlotFits (some p) (some q) queue running x s f = (s.0 ∙ f.0, f.1 ∙ sym s.2, s.3 ∙ f.2)

pub Alike-Idle : {k k' : Kernel} → Alike k k' → Idle k.procs → Idle k'.procs
Alike-Idle {k} {k'} a (p, here, state) =
    let (q, there, s) = Same-some (k.procs 0) (k'.procs 0) p (a.procs 0) here in
    (q, there, elim state [ inl e ↦ inl (s.5 e) | inr e ↦ inr (s.4 e) ])

-- Such changes keep the invariant.
pub Alike-IsValid : {k k' : Kernel} → Alike k k' → IsValid k → IsValid k'
Alike-IsValid {k} {k'} a v = record {
  fits = record {
    distinct = subst Distinct (sym a.queue) v.fits.distinct;
    sorted = subst (IsSorted (priority_of k'.procs)) (sym a.queue) (
        IsSorted-congr (priority_of k.procs) (priority_of k'.procs) k.queue
          (λ x h. Same-priority (k.procs x) (k'.procs x) (a.procs x)) v.fits.sorted);
    bounded = λ i h. Same-none (k.procs i) (k'.procs i) (a.procs i) (v.fits.bounded i h);
    slots = λ i e.
        subst (λ l. SlotFits (k'.procs i) l (some k'.running) i) (sym a.queue)
          (subst (λ r. SlotFits (k'.procs i) k.queue (some r) i) (sym a.running)
            (Same-SlotFits (k.procs i) (k'.procs i) k.queue (some k.running) i (a.procs i)
              (v.fits.slots i e)));
  };
  current =
      let (p, here, state) = v.current in
      let (q, there, s) =
        Same-some (k.procs k.running) (k'.procs k.running) p (a.procs k.running) here in
      (q, ap k'.procs a.running ∙ there, s.5 state);
  idle = Alike-Idle a v.idle;
}

pub get_proc-inv : (k : Kernel) (i : ℕ) (p : Proc) → get_proc i k ≡ ok p → k.procs i ≡ some p
unfolding get_proc
get_proc-inv k i p e = elim (Option-cases (k.procs i)) [
  | inl h ↦ absurd (ground (arith, h, e))
  | inr (q, h) ↦ ground (arith, h, e)
]

-- The active process is about to wait: it has got a state of its own, and is not in the queue.
module _ (k : Kernel) (p q : Proc) (v : IsValid k) (user : k.running ≢ 0)
    (here : k.procs k.running ≡ some p) (pid : q.pid ≡ p.pid) (prio : q.priority ≡ p.priority) where
  abbrev pub parted : Kernel
  parted = put_proc k.running q k

  pub not_in_queue : has k.running k.queue ≡ false
  not_in_queue = ground (arith, v.current, v.fits.slots k.running refl)

  pub parted-others : Fits parted none (λ i. i == k.running)
  parted-others = record {
    distinct = v.fits.distinct;
    sorted =
        IsSorted-congr (priority_of k.procs) _ k.queue
          (λ x h. priority-update k.procs k.running p q here prio x) v.fits.sorted;
    bounded = λ j h. ground (arith, here, v.fits.bounded j);
    slots = λ j n. rw n (elsewhere (k.procs j) j n (v.fits.slots j refl));
  }
    where
      elsewhere :
          (o : Option Proc) (j : ℕ)
          → (j == k.running) ≡ false
          → SlotFits o k.queue (some k.running) j
          → SlotFits o k.queue none j
      elsewhere none j n s = s
      elsewhere (some r) j n s = (s.0, s.1, s.2 ∙ n)

  pub parted-Idle : Idle parted.procs
  parted-Idle =
      let (r, at, state) = v.idle in
      let other : (0 == k.running) ≡ false = ground arith in (r, rw other at, state)

  pub parted-CanSchedule : is_child_block q.state ≡ false → CanSchedule parted q
  parted-CanSchedule state = record {
    others = parted-others;
    here = ground arith;
    own = pid ∙ ground (arith, here, v.fits.slots k.running refl);
    queued = not_in_queue ∙ sym state;
    idle = parted-Idle;
  }
