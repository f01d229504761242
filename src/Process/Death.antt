-- ===== src/Process/Death.antt =====
-- `kill` and `exit` of kernel/process.c, as a whole.
use mathlib.Core.Path.{subst}
use operating_system_concept.Base.{
  ℕ, ◌≡◌, ◌≢◌, refl, ap, ◌∙◌, true, false, ◌||◌, some, List, arith, ltb, ◌==◌, has,
}
use operating_system_concept.Base.Int.{ℤ, pos}
use operating_system_concept.Base.Run.{ok, Returns}
use operating_system_concept.Kernel.{Proc, Kernel, nbproc, is_zombie, is_dead, dequeue}
use operating_system_concept.Process.Scheduler.{living}
use operating_system_concept.Process.Invariant.{IsValid, SlotFits, get_proc-some}
use operating_system_concept.Process.Switch.{IsTop, Scheduled}
use operating_system_concept.Process.Schedule.{scheduler-Scheduled}
use operating_system_concept.Process.Life.{
  die_killed, die_exiting, leave_family, kill_living, kill, exit,
}
use operating_system_concept.Process.Family.{Dying}
use operating_system_concept.Process.Dying.{
  dead-CanSchedule, buried-Buried, removed-IsValid, buried, here-fits, record_status-Dying,
  status-Dying, wake_daddy-Dying, leave_family-Dying, only, Family, Buried,
}

kill_run :
    (k : Kernel) (pid : ℕ) (p : Proc) (k' : Kernel)
    → IsValid k
    → pid ≢ 0
    → k.procs pid ≡ some p
    → living k pid ≡ some p
    → kill_living pid p k ≡ ok k'
    → kill (pos pid) k ≡ ok (true, k')
unfolding kill
kill_run k pid p k' v user here alive run = rw (nonzero, inside) (rw alive (rw run refl))
  where
    nonzero : (pid == 0) ≡ false
    nonzero = ground arith

    inside : ltb pid nbproc ≡ true
    inside = ground (arith, here, v.fits.bounded pid)

module _ (k : Kernel) (pid : ℕ) (p : Proc) (children : List ℕ) (v : IsValid k) (user : pid ≢ 0)
    (here : k.procs pid ≡ some p) (f : Family k p children) where
  die_killed-Dying : Returns (die_killed pid p k) (λ l. Dying k l (only pid))
  unfolding die_killed leave_family
  die_killed-Dying =
      let (k₁, run₁, d₁) =
        leave_family-Dying k pid p v.fits.bounded here p.daddy_pid children f.father f.listed
          f.few in
      let (k₂, run₂, d₂) =
        wake_daddy-Dying k pid p v.fits.bounded here k₁ p.daddy_pid f.father d₁ in
      let (k₃, run₃, d₃) = status-Dying k pid p v.fits.bounded here k₂ (pos 0) d₂ in
      (k₃, rw (run₁, run₂) run₃, d₃)

  die_exiting-Dying :
      (status : ℤ) → Returns (die_exiting pid status p k) (λ l. Dying k l (only pid))
  unfolding die_exiting leave_family
  die_exiting-Dying status =
      let (k₁, run₁, d₁) =
        leave_family-Dying k pid p v.fits.bounded here p.daddy_pid children f.father f.listed
          f.few in
      let (k₂, run₂, d₂) =
        record_status-Dying k pid p v.fits.bounded here k₁ p.daddy_pid status d₁ in
      let (k₃, run₃, d₃) =
        wake_daddy-Dying k pid p v.fits.bounded here k₂ p.daddy_pid f.father d₂ in
      (k₃, rw (run₁, run₂) run₃, d₃)

  killed_self : (pid == k.running) ≡ true → Returns (kill_living pid p k) IsValid
  unfolding kill_living
  killed_self e =
      let (l, run, d) = die_killed-Dying in
      let (q, c, dead) = dead-CanSchedule k l pid p v here user d e in
      let (k', last, s) = scheduler-Scheduled l q c in (k', rw run (rw (same l d) last), s.valid)
    where
      same : (l : Kernel) → Dying k l (only pid) → (l.running == pid) ≡ true
      same l d = ground (arith, d.running)

  killed_other :
      (pid == k.running) ≡ false
      → (is_dead p.state || is_zombie p.state) ≡ false
      → Returns (kill_living pid p k) (λ k'. IsValid k' × Buried k' pid)
  unfolding kill_living dequeue
  killed_other e alive =
      let (l, run, d) = die_killed-Dying in
      (
        buried k l pid p v here user d,
        rw run (rw (other l d, queued l d) refl),
        (removed-IsValid k l pid p v here user d e, buried-Buried k l pid p v here user d),
      )
    where
      other : (l : Kernel) → Dying k l (only pid) → (l.running == pid) ≡ false
      other l d = ground (arith, d.running)

      queued : (l : Kernel) → Dying k l (only pid) → has pid l.queue ≡ true
      queued l d =
          ap (has pid) d.queue ∙ ground (arith, here, alive, here-fits k l pid p v here user d)

-- A living process other than process 0 whose father, if it names one, is in the table, and whose
-- children form a list that ends within the size of the table, is killed by another one: `kill`
-- returns 0, the process is dead or a zombie and in the queue no more, and table, queue and active
-- process fit.
pub kill-Buried :
    (k : Kernel) (pid : ℕ) (p : Proc) (children : List ℕ)
    → IsValid k
    → pid ≢ 0
    → pid ≢ k.running
    → living k pid ≡ some p
    → Family k p children
    → Returns (kill (pos pid) k) (λ (done, k'). (done ≡ true) × IsValid k' × Buried k' pid)
kill-Buried k pid p children v user other alive f =
    let here : k.procs pid ≡ some p = ground (arith, alive) in
    let (k', run, r) =
      killed_other k pid p children v user here f (ground arith) (ground (arith, here, alive)) in
    ((true, k'), kill_run k pid p k' v user here alive run, (refl, r.0, r.1))

-- A process other than process 0 that kills itself leaves a valid kernel.
pub kill_self-IsValid :
    (k : Kernel) (p : Proc) (children : List ℕ)
    → IsValid k
    → k.running ≢ 0
    → living k k.running ≡ some p
    → Family k p children
    → Returns (kill (pos k.running) k) (λ (done, k'). (done ≡ true) × IsValid k')
kill_self-IsValid k p children v user alive f =
    let here : k.procs k.running ≡ some p = ground (arith, alive) in
    let (k', run, r) = killed_self k k.running p children v user here f (ground arith) in
    ((true, k'), kill_run k k.running p k' v user here alive run, (refl, r))

-- The scheduler leaves a dead process or a zombie as it is, out of the queue, and another runs.
Scheduled-Buried :
    (l k' : Kernel) (q : Proc)
    → l.procs l.running ≡ some q
    → (is_dead q.state || is_zombie q.state) ≡ true
    → Scheduled l k'
    → Buried k' l.running × (k'.running ≢ l.running)
Scheduled-Buried l k' q here gone s =
    let same : k'.procs l.running ≡ some q =
      s.steady.fixed l.running (ground (arith, here, gone)) ∙ here in
    let fits =
      subst (λ o. SlotFits o k'.queue (some k'.running) l.running) same
        (s.valid.fits.slots l.running refl) in
    ((q, same, gone, ground (arith, fits, gone)), ground (arith, fits, gone, s.valid.current, same))

-- `exit` of a process other than process 0 whose father, if it names one, is in the table, and
-- whose children form a list that ends within the size of the table: the process is dead or a
-- zombie and out of the queue, another process runs, the kernel is valid, and the active process
-- has the highest priority of all that can run.
pub exit-IsTop :
    (k : Kernel) (status : ℤ) (p : Proc) (children : List ℕ)
    → IsValid k
    → k.running ≢ 0
    → k.procs k.running ≡ some p
    → Family k p children
    → Returns
        (exit status k)
        (λ k'. IsValid k' × IsTop k' × Buried k' k.running × (k'.running ≢ k.running))
unfolding exit
exit-IsTop k status p children v user here f =
    let (l, run, d) = die_exiting-Dying k k.running p children v user here f status in
    let (q, c, gone) = dead-CanSchedule k l k.running p v here user d (ground arith) in
    let (k', last, s) = scheduler-Scheduled l q c in
    let (left, moved) =
      subst (λ r. Buried k' r × (k'.running ≢ r)) d.running
        (Scheduled-Buried l k' q c.here gone s) in
    (
      k',
      rw (get_proc-some k k.running p v.fits.bounded here, run) last,
      (s.valid, s.top, left, moved),
    )
