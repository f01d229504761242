-- ===== src/System/Newborn.antt =====
-- A process that is new: its slot of the table, its place in the queue and its family.
use mathlib.Core.Path.{subst}
use operating_system_concept.Base.{
  ℕ, zero, suc, ◌+◌, ◌≤◌, ◌<◌, ◌≡◌, refl, sym, ◌∙◌, inl, inr, true, false, Option, none, some,
  arith, ◌==◌, ==_iff, Bool-cases, if◌then◌else◌, ltb, has,
}
use operating_system_concept.Base.Run.{ok, bad_link, ok-injective, fault-ne-ok, ends, first_step}
use operating_system_concept.Queue.Order.{insert, has-insert, Distinct-insert, insert-IsSorted}
use operating_system_concept.Kernel.{
  Proc, active, ready, Kernel, nbproc, get_proc, put_proc, priority_of, enqueue,
}
use operating_system_concept.Process.Scheduler.{getpid}
use operating_system_concept.Process.Start.{
  is_free, new_case, get_new_case, init_link, join_family, yield_to,
}
use operating_system_concept.Process.Invariant.{SlotFits, IsValid, IsSorted-congr}
use operating_system_concept.System.Alike.{
  Alike, Alike-refl, Alike-trans, Alike-put, Alike-IsValid, get_proc-inv,
}
use operating_system_concept.System.Wait.{reschedule-IsValid}

-- A slot without a process that lives.
pub record Vacant (k : Kernel) (i : ℕ) : Type 0 where
  pub free : is_free (k.procs i) ≡ true
  pub inside : i < nbproc

new_case-free :
    (n i : ℕ) (k : Kernel)
    → (new_case n i k ≤ i + n)
      × (new_case n i k < i + n → is_free (k.procs (new_case n i k)) ≡ true)
unfolding new_case
new_case-free zero i k = (omega arith, λ h. absurd (omega arith))
new_case-free (suc n) i k = elim (Bool-cases (is_free (k.procs i))) [
  | inl e ↦ rw e (omega arith, λ h. e)
  | inr e ↦ let r = new_case-free n (suc i) k in rw e (omega (arith, r.0), λ h. r.1 (omega arith))
]

pub get_new_case-Vacant :
    (k : Kernel) → (get_new_case k == nbproc) ≡ false → Vacant k (get_new_case k)
unfolding get_new_case
get_new_case-Vacant k e = below (new_case nbproc 0 k) (new_case-free nbproc 0 k) e
  where
    below :
        (j : ℕ)
        → (j ≤ 0 + nbproc) × (j < 0 + nbproc → is_free (k.procs j) ≡ true)
        → (j == nbproc) ≡ false
        → Vacant k j
    below j r e =
        let inside : j < nbproc = ground (arith, r.0) in
        record { free = r.1 (omega arith); inside = inside }

-- A process that is new in the table and in the queue.
module _ (k : Kernel) (i : ℕ) (q : Proc) (v : IsValid k) (s : Vacant k i) (own : q.pid ≡ i)
    (now : q.state ≡ ready) where
  abbrev placed : Kernel
  placed = put_proc i q k

  abbrev born : Kernel
  born = record placed { queue = insert (priority_of placed.procs) i k.queue }

  unqueued : has i k.queue ≡ false
  unqueued = ground (arith, s.free, v.fits.slots i refl)

  idle_running : (k.running == i) ≡ false
  idle_running = ground (arith, s.free, v.current)

  not_idle : (0 == i) ≡ false
  not_idle = ground (arith, s.free, v.idle)

  born-has : (j : ℕ) → has j born.queue ≡ (if j == i then true else has j k.queue)
  born-has j = has-insert (priority_of placed.procs) j i k.queue ∙ ground arith

  born-IsValid : IsValid born
  born-IsValid = record {
    fits = record {
      distinct = Distinct-insert (priority_of placed.procs) i k.queue v.fits.distinct unqueued;
      sorted = insert-IsSorted (priority_of placed.procs) i k.queue (
          IsSorted-congr (priority_of k.procs) (priority_of placed.procs) k.queue
            (λ x h. others x (ground (arith, unqueued))) v.fits.sorted);
      bounded = λ j h. ground (arith, s.inside, v.fits.bounded j);
      slots = λ j _. elim (Bool-cases (j == i)) [
        | inl e ↦ rw (e, (==_iff j i).0 e) newcomer
        | inr n ↦ rw n (others_fit (k.procs j) j n (v.fits.slots j refl))
      ];
    };
    current = let (r, at, state) = v.current in (r, rw idle_running at, state);
    idle = let (r, at, state) = v.idle in (r, rw not_idle at, state);
  }
    where
      others : (x : ℕ) → (x == i) ≡ false → priority_of k.procs x ≡ priority_of placed.procs x
      others x e = rw e refl

      newcomer : SlotFits (some q) born.queue (some k.running) i
      newcomer = (own, born-has i ∙ ground (arith, now), ground (arith, now, idle_running))

      others_fit :
          (o : Option Proc) (j : ℕ)
          → (j == i) ≡ false
          → SlotFits o k.queue (some k.running) j
          → SlotFits o born.queue (some k.running) j
      others_fit none j n f = (born-has j ∙ rw n refl) ∙ f
      others_fit (some r) j n f = (f.0, (born-has j ∙ rw n refl) ∙ f.1, f.2)

  enqueue-born : enqueue i placed ≡ ok born
  unfolding enqueue
  enqueue-born = rw unqueued refl

  join_family-IsValid : (k' : Kernel) → join_family i placed ≡ ok k' → IsValid k'
  unfolding join_family
  join_family-IsValid k' run =
      let user : (i == 0) ≡ false = ground (arith, not_idle) in
      let kept : Alike born born = Alike-refl born in
      elim (first_step (get_proc (getpid born) born) _ k' (rw (user, enqueue-born) at run)) [
        | ends me got rest ↦ elim (first_step (get_proc i born) _ k' rest) [
          | ends p read rest₂ ↦
              let daddy : Option ℕ = if getpid born == 0 then none else some (getpid born) in
              let p' = record p { daddy_pid = daddy; brother_pid = me.child_pid } in
              let k₂ = put_proc i p' born in
              let a₂ =
                Alike-put born i p p' (get_proc-inv born i p read)
                  (refl, refl, refl, refl, λ e. e, λ e. e) in
              elim (first_step (get_proc (getpid k₂) k₂) _ k' rest₂) [
                | ends dad found rest₃ ↦
                    let dad' = record dad { child_pid = some i } in
                    let k₃ = put_proc (getpid k₂) dad' k₂ in
                    let a₃ =
                      Alike-put k₂ (getpid k₂) dad dad' (get_proc-inv k₂ (getpid k₂) dad found)
                        (refl, refl, refl, refl, λ e. e, λ e. e) in
                    elim (first_step (get_proc i k₃) _ k' rest₃) [
                      | ends r seen last ↦
                          let a₄ =
                            Alike-put k₃ i r (record r { child_pid = none })
                              (get_proc-inv k₃ i r seen) (refl, refl, refl, refl, λ e. e, λ e. e) in
                          subst IsValid (ok-injective _ k' last)
                            (Alike-IsValid (Alike-trans a₂ (Alike-trans a₃ a₄)) born-IsValid)
                    ]
              ]
        ]
      ]

init_link-inv : (i : ℕ) (k k' : Kernel) → init_link i k ≡ ok k' → k ≡ k'
init_link-inv i k k' run = elim (Bool-cases (has i k.queue)) [
  | inl e ↦ absurd (fault-ne-ok bad_link k' (rw e at run))
  | inr e ↦ ok-injective k k' (rw e at run)
]

yield_to-IsValid : (n : ℕ) (k k' : Kernel) → IsValid k → yield_to n k ≡ ok k' → IsValid k'
unfolding yield_to
yield_to-IsValid n k k' v run = elim (first_step (get_proc k.running k) _ k' run) [
  | ends me got rest ↦ elim (Bool-cases (ltb me.priority n)) [
    | inl e ↦ reschedule-IsValid k k' v (rw e at rest)
    | inr e ↦ subst IsValid (ok-injective k k' (rw e at rest)) v
  ]
]

-- From the slot that was written to the end of `start` and `start2`.
pub settle-IsValid :
    (k k₃ k₄ k' : Kernel) (i n : ℕ) (q : Proc)
    → IsValid k
    → Vacant k i
    → q.pid ≡ i
    → q.state ≡ (if i == 0 then active else ready)
    → init_link i (put_proc i q k) ≡ ok k₃
    → join_family i k₃ ≡ ok k₄
    → yield_to n k₄ ≡ ok k'
    → IsValid k'
settle-IsValid k k₃ k₄ k' i n q v s own state linked joined last =
    let not_zero : (i == 0) ≡ false = ground (arith, s.free, v.idle) in
    let now : q.state ≡ ready = state ∙ rw not_zero refl in
    let at = init_link-inv i (put_proc i q k) k₃ linked in
    yield_to-IsValid n k₄ k'
      (join_family-IsValid k i q v s own now k₄
        (subst (λ l. join_family i l ≡ ok k₄) (sym at) joined))
      last
