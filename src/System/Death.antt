-- ===== src/System/Death.antt =====
-- `kill` and `exit` of any process, whatever its family looks like.
use mathlib.Core.Path.{subst}
use operating_system_concept.Base.{
  ℕ, zero, suc, ◌≡◌, ◌≢◌, refl, ap, inl, inr, Bool, true, false, ◌||◌, Option, none, some, arith,
  ◌==◌, Bool-cases, if◌then◌else◌, ltb, has, remove,
}
use operating_system_concept.Base.Int.{ℤ, pos, negsuc}
use operating_system_concept.Base.Run.{ok, page_fault, ok-injective, ends, first_step, fault-ne-ok}
use operating_system_concept.Kernel.{
  Proc, ProcState, dead, zombie, ready, Kernel, nbproc, get_proc, put_proc, set_state, is_zombie,
  is_dead, is_child_block, dequeue,
}
use operating_system_concept.Process.Scheduler.{getpid, living}
use operating_system_concept.Process.Life.{
  orphan, release_children, wake_father, leave_family_of, leave_family, wake_daddy, set_exit_status,
  die_killed, kill_living, kill_at, kill, record_status, die_exiting, exit,
}
use operating_system_concept.Process.Invariant.{IsValid}
use operating_system_concept.Process.Family.{
  Dying, nobody, Dying-refl, Dying-trans, Dying-put, Dying-put_alive, orphan-Kin,
}
use operating_system_concept.Process.Dying.{only, died, removed-IsValid, dead-CanSchedule}
use operating_system_concept.System.Alike.{get_proc-inv}
use operating_system_concept.System.Wait.{scheduler-IsValid}

release_children-keeps :
    (fuel : ℕ) (o : Option ℕ) (k k' : Kernel)
    → release_children fuel o k ≡ ok k'
    → Dying k k' nobody
unfolding release_children
release_children-keeps fuel none k k' run =
    subst (λ l. Dying k l nobody) (ok-injective _ k' run) (Dying-refl k)
release_children-keeps zero (some i) k k' run = absurd (cc)
release_children-keeps (suc fuel) (some i) k k' run = elim (first_step (get_proc i k) _ k' run) [
  | ends c got rest ↦
      Dying-trans (Dying-put_alive k i c (orphan c) (get_proc-inv k i c got) (orphan-Kin c))
        (release_children-keeps fuel c.brother_pid (put_proc i (orphan c) k) k' rest)
]

wake_father-keeps : (d : ℕ) (k k' : Kernel) → wake_father d k ≡ ok k' → Dying k k' nobody
unfolding wake_father
wake_father-keeps d k k' run = elim (first_step (get_proc d k) _ k' run) [
  | ends dad got rest ↦ elim (Bool-cases (is_child_block dad.state)) [
    | inl e ↦
        subst (λ l. Dying k l nobody) (ok-injective _ k' (rw e at rest))
          (Dying-put_alive k d dad (set_state ready dad) (get_proc-inv k d dad got)
            (ground (arith, e)))
    | inr e ↦ subst (λ l. Dying k l nobody) (ok-injective _ k' (rw e at rest)) (Dying-refl k)
  ]
]

wake_daddy-keeps : (o : Option ℕ) (k k' : Kernel) → wake_daddy o k ≡ ok k' → Dying k k' nobody
wake_daddy-keeps none k k' run =
    subst (λ l. Dying k l nobody) (ok-injective _ k' run) (Dying-refl k)
wake_daddy-keeps (some d) k k' run = wake_father-keeps d k k' run

set_exit_status-keeps :
    (i : ℕ) (status : ℤ) (k k' : Kernel) → set_exit_status i status k ≡ ok k' → Dying k k' nobody
unfolding set_exit_status
set_exit_status-keeps i status k k' run = elim (first_step (get_proc i k) _ k' run) [
  | ends p got rest ↦
      subst (λ l. Dying k l nobody) (ok-injective _ k' rest)
        (Dying-put_alive k i p (record p { exit_status = status }) (get_proc-inv k i p got)
          (refl, refl, refl, refl, refl, λ g e. e))
]

record_status-keeps :
    (o : Option ℕ) (i : ℕ) (status : ℤ) (k k' : Kernel)
    → record_status o i status k ≡ ok k'
    → Dying k k' nobody
record_status-keeps none i status k k' run =
    subst (λ l. Dying k l nobody) (ok-injective _ k' run) (Dying-refl k)
record_status-keeps (some d) i status k k' run = set_exit_status-keeps i status k k' run

module _ (pid : ℕ) (p : Proc) (k : Kernel) (here : k.procs pid ≡ some p) where
  leave_family_of-keeps :
      (o : Option ℕ) (k' : Kernel) → leave_family_of o pid p k ≡ ok k' → Dying k k' (only pid)
  unfolding leave_family_of
  leave_family_of-keeps none k' run =
      subst (λ l. Dying k l (only pid)) (ok-injective _ k' run)
        (Dying-put k pid p (set_state dead p) true here (died p dead refl))
  leave_family_of-keeps (some d) k' run = elim (first_step (get_proc d k) _ k' run) [
    | ends dad got rest ↦
        let s : ProcState = if is_dead dad.state || is_zombie dad.state then dead else zombie in
        Dying-trans (Dying-put k pid p (set_state s p) true here (died p s (ground arith)))
          (release_children-keeps (suc nbproc) p.child_pid (put_proc pid (set_state s p) k) k' rest)
  ]

  die_killed-keeps : (k' : Kernel) → die_killed pid p k ≡ ok k' → Dying k k' (only pid)
  unfolding die_killed leave_family
  die_killed-keeps k' run = elim (first_step (leave_family_of p.daddy_pid pid p k) _ k' run) [
    | ends k₁ left rest ↦ elim (first_step (wake_daddy p.daddy_pid k₁) _ k' rest) [
      | ends k₂ woken last ↦
          Dying-trans
            (Dying-trans (leave_family_of-keeps p.daddy_pid k₁ left)
              (wake_daddy-keeps p.daddy_pid k₁ k₂ woken))
            (set_exit_status-keeps pid (pos 0) k₂ k' last)
    ]
  ]

  die_exiting-keeps :
      (status : ℤ) (k' : Kernel) → die_exiting pid status p k ≡ ok k' → Dying k k' (only pid)
  unfolding die_exiting leave_family
  die_exiting-keeps status k' run =
      elim (first_step (leave_family_of p.daddy_pid pid p k) _ k' run) [
        | ends k₁ left rest ↦
            elim (first_step (record_status p.daddy_pid pid status k₁) _ k' rest) [
              | ends k₂ noted last ↦
                  Dying-trans
                    (Dying-trans (leave_family_of-keeps p.daddy_pid k₁ left)
                      (record_status-keeps p.daddy_pid pid status k₁ k₂ noted))
                    (wake_daddy-keeps p.daddy_pid k₂ k' last)
            ]
      ]

dequeue-inv :
    (i : ℕ) (k k' : Kernel) → dequeue i k ≡ ok k' → record k { queue = remove i k.queue } ≡ k'
unfolding dequeue
dequeue-inv i k k' run = elim (Bool-cases (has i k.queue)) [
  | inl e ↦ ok-injective _ k' (rw e at run)
  | inr e ↦ absurd (cc (rw e at run))
]

kill_living-IsValid :
    (pid : ℕ) (p : Proc) (k k' : Kernel)
    → IsValid k
    → pid ≢ 0
    → k.procs pid ≡ some p
    → kill_living pid p k ≡ ok k'
    → IsValid k'
unfolding kill_living
kill_living-IsValid pid p k k' v user here run = elim (first_step (die_killed pid p k) _ k' run) [
  | ends l killed rest ↦
      let d = die_killed-keeps pid p k here l killed in
      elim (Bool-cases (getpid l == pid)) [
        | inl e ↦
            let (q, c, gone) =
              dead-CanSchedule k l pid p v here user d (ground (arith, d.running, e)) in
            scheduler-IsValid l k' q c (rw e at rest)
        | inr e ↦
            subst IsValid (dequeue-inv pid l k' (rw e at rest))
              (removed-IsValid k l pid p v here user d (ground (arith, d.running, e)))
      ]
]

kill_at-IsValid :
    (o : Option Proc) (pid : ℕ) (k k' : Kernel) (b : Bool)
    → IsValid k
    → pid ≢ 0
    → ((p : Proc) → o ≡ some p → k.procs pid ≡ some p)
    → kill_at o pid k ≡ ok (b, k')
    → IsValid k'
unfolding kill_at
kill_at-IsValid none pid k k' b v user here run =
    subst IsValid (ap (λ r. r.1) (ok-injective (false, k) (b, k') run)) v
kill_at-IsValid (some p) pid k k' b v user here run =
    elim (first_step (kill_living pid p k) _ (b, k') run) [
      | ends l killed rest ↦
          subst IsValid (ap (λ r. r.1) (ok-injective (true, l) (b, k') rest))
            (kill_living-IsValid pid p k l v user (here p refl) killed)
    ]

-- `kill`, where it ends well, keeps the invariant.
pub kill-IsValid :
    (pid : ℤ) (k k' : Kernel) (b : Bool) → IsValid k → kill pid k ≡ ok (b, k') → IsValid k'
unfolding kill
kill-IsValid (negsuc n) k k' b v run = absurd (cc)
kill-IsValid (pos pid) k k' b v run = elim (Bool-cases (pid == 0)) [
  | inl e ↦ subst IsValid (ap (λ r. r.1) (ok-injective (false, k) (b, k') (rw e at run))) v
  | inr n ↦ elim (Bool-cases (ltb pid nbproc)) [
    | inl e ↦
        kill_at-IsValid (living k pid) pid k k' b v (ground arith) (λ p h. ground (arith, h))
          (rw (n, e) at run)
    | inr e ↦ absurd (fault-ne-ok page_fault (b, k') (rw (n, e) at run))
  ]
]

-- So does `exit` of a process other than process 0.
pub exit-IsValid :
    (status : ℤ) (k k' : Kernel) → IsValid k → k.running ≢ 0 → exit status k ≡ ok k' → IsValid k'
unfolding exit
exit-IsValid status k k' v user run = elim (first_step (get_proc k.running k) _ k' run) [
  | ends p got rest ↦ elim (first_step (die_exiting k.running status p k) _ k' rest) [
    | ends l died last ↦
        let here = get_proc-inv k k.running p got in
        let d = die_exiting-keeps k.running p k here status l died in
        let (q, c, gone) = dead-CanSchedule k l k.running p v here user d (ground arith) in
        scheduler-IsValid l k' q c last
  ]
]
