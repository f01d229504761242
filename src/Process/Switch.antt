-- ===== src/Process/Switch.antt =====
-- The walk and the switch at the end of `scheduler` of kernel/process.c.
use mathlib.Core.Path.{subst, subst₂}
use mathlib.Core.List.{reverse, reverse-append}
use operating_system_concept.Base.{
  ℕ, ◌≤◌, ◌≡◌, refl, sym, ap, ◌∙◌, inl, inr, Bool, true, false, ◌++◌, none, some, List, [], ◌∷◌,
  arith, ◌==◌, if◌then◌else◌, Bool-cases, Option-cases, has, has-append, remove, has-remove_lem,
  Distinct-remove,
}
use operating_system_concept.Base.Run.{Returns}
use operating_system_concept.Queue.Order.{IsSorted, AllFrom, IsSorted-remove}
use operating_system_concept.Kernel.{Proc, active, Kernel, put_proc, set_state, priority_of}
use operating_system_concept.Process.Scheduler.{runnable, first_such, switch}
use operating_system_concept.Process.Invariant.{
  SlotFits, IsValid, IsWaiting, IsSorted-congr, priority-update, OnlyStates, stateless-update,
  get_proc-some,
}
use operating_system_concept.Process.Steady.{Steady, Steady-update, may_change}

pub first_such-some :
    (test : ℕ → Bool) (xs : List ℕ) (i : ℕ)
    → first_such test xs ≡ some i
    → (has i xs ≡ true) × (test i ≡ true)
unfolding first_such
first_such-some test [] i h = absurd (cc)
first_such-some test (x ∷ xs) i h = ground (arith, first_such-some test xs i)

first_such-none :
    (test : ℕ → Bool) (xs : List ℕ) (i : ℕ)
    → first_such test xs ≡ none
    → has i xs ≡ true
    → test i ≡ false
unfolding first_such
first_such-none test [] i h m = absurd (cc)
first_such-none test (x ∷ xs) i h m = ground (arith, first_such-none test xs i)

has-reverse_lem : (a : ℕ) (xs : List ℕ) → has a (reverse xs) ≡ has a xs
has-reverse_lem a [] = refl
has-reverse_lem a (x ∷ xs) =
    rw (reverse-append (x ∷ []) xs, has-append a (reverse xs) (x ∷ []), has-reverse_lem a xs)
      (ground arith)

first_such-snoc :
    (test : ℕ → Bool) (xs : List ℕ) (x : ℕ)
    → first_such test (xs ++ (x ∷ []))
      ≡ (elim (first_such test xs) [ some i ↦ some i | none ↦ if test x then some x else none ])
unfolding first_such
first_such-snoc test [] x = ground arith
first_such-snoc test (y ∷ ys) x = ground (arith, first_such-snoc test ys x)

AllFrom-has : (f : ℕ → ℕ) (p : ℕ) (xs : List ℕ) (i : ℕ) → AllFrom f p xs → has i xs ≡ true → p ≤ f i
AllFrom-has f p [] i a h = absurd (cc)
AllFrom-has f p (x ∷ xs) i a h = ground (arith, AllFrom-has f p xs i)

-- In a sorted queue the walk from the end stops at an element of the highest priority of those
-- that pass the test.
first_such-max :
    (f : ℕ → ℕ) (test : ℕ → Bool) (xs : List ℕ) (i j : ℕ)
    → IsSorted f xs
    → first_such test (reverse xs) ≡ some i
    → has j xs ≡ true
    → test j ≡ true
    → f j ≤ f i
first_such-max f test [] i j s e h t = absurd (cc)
first_such-max f test (x ∷ xs) i j s e h t =
    let e' = subst (λ l. first_such test l ≡ some i) (reverse-append (x ∷ []) xs) e in
    let e'' = sym (first_such-snoc test (reverse xs) x) ∙ e' in
    elim (Option-cases (first_such test (reverse xs))) [
      | inl empty ↦
          ground (arith, first_such-none test (reverse xs) j empty, has-reverse_lem j xs, e'')
      | inr (m, found) ↦
          let same : m ≡ i = ground (arith, e'') in
          let got = first_such-some test (reverse xs) m found in
          ground (
            arith,
            same,
            first_such-max f test xs i j s.1 (found ∙ ap some same),
            AllFrom-has f (f x) xs m s.0 (sym (has-reverse_lem m xs) ∙ got.0),
          )
    ]

-- The state behind the switch to process `i`.
abbrev switched : Kernel → ℕ → Proc → Kernel
switched k i p =
    put_proc i (set_state active p) (record k { queue = remove i k.queue; running = p.pid })

module _ (k : Kernel) (i : ℕ) (p : Proc) (w : IsWaiting k) (here : k.procs i ≡ some p)
    (can : runnable k i ≡ true) where
  switched-slots :
      (j : ℕ) → SlotFits ((switched k i p).procs j) (switched k i p).queue (some p.pid) j
  switched-slots j =
      ground (
        arith,
        w.fits.slots j refl,
        w.fits.slots i refl,
        has-remove_lem i j k.queue w.fits.distinct,
      )

  switched-IsValid : IsValid (switched k i p)
  switched-IsValid = record {
    fits = record {
      distinct = Distinct-remove i k.queue w.fits.distinct;
      sorted =
          IsSorted-congr (priority_of k.procs) _ (remove i k.queue)
            (λ x h. priority-update k.procs i p (set_state active p) here refl x)
            (IsSorted-remove (priority_of k.procs) i k.queue w.fits.sorted);
      bounded = λ j h. ground (arith, w.fits.bounded j, w.fits.bounded i);
      slots = λ j _. switched-slots j;
    };
    current = (set_state active p, ground (arith, w.fits.slots i refl), refl);
    idle =
        let (q, there, state) = w.idle in
        elim (Bool-cases (0 == i)) [
          | inl e ↦ (set_state active p, rw e refl, inl refl)
          | inr e ↦ (q, rw e there, inr state)
        ];
  }

-- Of all processes that can run, the active one has the highest priority.
abbrev pub IsTop : Kernel → Type 0
IsTop k =
    (j : ℕ)
    → has j k.queue ≡ true
    → runnable k j ≡ true
    → priority_of k.procs j ≤ priority_of k.procs k.running

-- What a call of the scheduler leaves.
pub record Scheduled (k k' : Kernel) : Type 0 where
  pub valid : IsValid k'
  pub top : IsTop k'
  pub kept : OnlyStates k k'
  pub steady : Steady k.procs k'.procs

-- What the walk chooses: a process of the queue that can run, and none of a higher priority can.
record Chosen (k : Kernel) (i : ℕ) : Type 0 where
  queued : has i k.queue ≡ true
  can_run : runnable k i ≡ true
  highest :
      (j : ℕ)
      → has j k.queue ≡ true
      → runnable k j ≡ true
      → priority_of k.procs j ≤ priority_of k.procs i

module _ (k : Kernel) (w : IsWaiting k) where
  idle-runnable : (has 0 k.queue ≡ true) × (runnable k 0 ≡ true)
  idle-runnable =
      let (q, there, state) = w.idle in ground (arith, there, state, w.fits.slots 0 refl)

  runnable-some : (i : ℕ) → runnable k i ≡ true → (p : Proc) × (k.procs i ≡ some p) × (p.pid ≡ i)
  runnable-some i can = elim (Option-cases (k.procs i)) [
    | inl missing ↦ absurd (ground (arith, missing))
    | inr (p, here) ↦ (p, here, ground (arith, here, w.fits.slots i refl))
  ]

  runnable-may_change :
      (i : ℕ) (p : Proc) → k.procs i ≡ some p → runnable k i ≡ true → may_change (some p) ≡ true
  runnable-may_change i p here can = ground (arith, here, can)

  found-Chosen : (i : ℕ) → first_such (runnable k) (reverse k.queue) ≡ some i → Chosen k i
  found-Chosen i found =
      let got = first_such-some (runnable k) (reverse k.queue) i found in
      record {
        queued = sym (has-reverse_lem i k.queue) ∙ got.0;
        can_run = got.1;
        highest = λ j h c.
            first_such-max (priority_of k.procs) (runnable k) k.queue i j w.fits.sorted found h c;
      }

  switched-IsTop :
      (i : ℕ) (p : Proc) → k.procs i ≡ some p → p.pid ≡ i → Chosen k i → IsTop (switched k i p)
  switched-IsTop i p here own c j h t =
      let kept = has-remove_lem i j k.queue w.fits.distinct in
      let same = priority-update k.procs i p (set_state active p) here refl in
      let still : runnable k j ≡ true = ground (arith, kept) in
      let le = c.highest j (ground (arith, kept)) still in
      let to_pid = ap (priority_of (switched k i p).procs) (sym own) in
      subst₂ ◌≤◌ (same j) (same i ∙ to_pid) le

  -- With nobody active, `switch` finds a process.
  pub switch-Scheduled : Returns (switch k) (Scheduled k)
  unfolding switch
  switch-Scheduled = elim (Option-cases (first_such (runnable k) (reverse k.queue))) [
    | inl empty ↦ absurd (
        ground (
          arith,
          idle-runnable,
          has-reverse_lem 0 k.queue,
          first_such-none (runnable k) (reverse k.queue) 0 empty,
        ))
    | inr (i, found) ↦
        let c = found-Chosen i found in
        let (p, here, own) = runnable-some i c.can_run in
        (
          switched k i p,
          rw (found, get_proc-some k i p w.fits.bounded here) refl,
          record {
            valid = switched-IsValid k i p w here c.can_run;
            top = switched-IsTop i p here own c;
            kept = record {
              procs = stateless-update k.procs i p active here;
              clock = refl;
              messages = refl;
              partner = refl;
              pending = refl;
              memory = refl;
            };
            steady =
                Steady-update k.procs i p active here (runnable-may_change i p here c.can_run) refl;
          },
        )
  ]
