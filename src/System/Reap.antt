-- ===== src/System/Reap.antt =====
-- `supprime_fils` and the end of `waitpid`.
use mathlib.Core.Path.{subst}
use operating_system_concept.Base.{
  ℕ, zero, suc, ◌≡◌, ◌≢◌, refl, ap, ◌∙◌, inl, inr, true, Option, none, some, arith, ◌==◌,
  Bool-cases, ltb,
}
use operating_system_concept.Base.Int.{ℤ, pos, negsuc}
use operating_system_concept.Base.Run.{ok, page_fault, ok-injective, ends, first_step, fault-ne-ok}
use operating_system_concept.Kernel.{
  Proc, dead, Kernel, nbproc, get_proc, put_proc, set_state, is_zombie,
}
use operating_system_concept.Process.Scheduler.{getpid}
use operating_system_concept.Process.Life.{
  elder, set_brother, supprime_first, supprime_later, supprime_from, supprime_fils, Round, reap,
  find_zombie, wait_one, wait_any, wait_found, wait_named, wait_children, is_child_of, waitpid,
  waitpid_resume,
}
use operating_system_concept.Process.Invariant.{IsValid}
use operating_system_concept.System.Alike.{
  Alike, Alike-trans, Alike-put, Alike-IsValid, get_proc-inv,
}
use operating_system_concept.System.Wait.{kernel_after, wait_for_child-IsValid}

set_brother-Alike : (i : ℕ) (b : Option ℕ) (k k' : Kernel) → set_brother i b k ≡ ok k' → Alike k k'
unfolding set_brother
set_brother-Alike i b k k' run = elim (first_step (get_proc i k) _ k' run) [
  | ends p got rest ↦ subst (Alike k) (ok-injective _ k' rest) (
      Alike-put k i p (record p { brother_pid = b }) (get_proc-inv k i p got)
        (refl, refl, refl, refl, λ e. e, λ e. e))
]

supprime_first-Alike :
    (a pid : ℕ) (dad : Proc) (k k' : Kernel)
    → k.procs a ≡ some dad
    → supprime_first a pid dad k ≡ ok k'
    → Alike k k'
unfolding supprime_first
supprime_first-Alike a pid dad k k' here run = elim (first_step (get_proc pid k) _ k' run) [
  | ends p got rest ↦ subst (Alike k) (ok-injective _ k' rest) (
      Alike-put k a dad (record dad { child_pid = p.brother_pid }) here
        (refl, refl, refl, refl, λ e. e, λ e. e))
]

supprime_later-Alike :
    (pid first : ℕ) (k k' : Kernel) → supprime_later pid first k ≡ ok k' → Alike k k'
unfolding supprime_later
supprime_later-Alike pid first k k' run = elim (first_step (get_proc first k) _ k' run) [
  | ends f got rest ↦ elim (first_step (elder (suc nbproc) pid first f.brother_pid k) _ k' rest) [
    | ends previous found rest₂ ↦ elim (first_step (get_proc pid k) _ k' rest₂) [
      | ends p read last ↦ set_brother-Alike previous p.brother_pid k k' last
    ]
  ]
]

supprime_from-Alike :
    (o : Option ℕ) (a pid : ℕ) (dad : Proc) (k k' : Kernel)
    → k.procs a ≡ some dad
    → supprime_from o a pid dad k ≡ ok k'
    → Alike k k'
unfolding supprime_from
supprime_from-Alike none a pid dad k k' here run = absurd (cc)
supprime_from-Alike (some first) a pid dad k k' here run = elim (Bool-cases (first == pid)) [
  | inl e ↦ supprime_first-Alike a pid dad k k' here (rw e at run)
  | inr n ↦ supprime_later-Alike pid first k k' (rw n at run)
]

-- Taking a child from the list of its father changes the links of the family alone.
supprime_fils-Alike : (a pid : ℕ) (k k' : Kernel) → supprime_fils a pid k ≡ ok k' → Alike k k'
unfolding supprime_fils
supprime_fils-Alike a pid k k' run = elim (first_step (get_proc a k) _ k' run) [
  | ends dad got rest ↦
      supprime_from-Alike dad.child_pid a pid dad k k' (get_proc-inv k a dad got) rest
]

find_zombie-zombie :
    (fuel : ℕ) (o : Option ℕ) (k : Kernel) (c : ℕ)
    → find_zombie fuel o k ≡ ok (some c)
    → (p : Proc) × (k.procs c ≡ some p) × (is_zombie p.state ≡ true)
unfolding find_zombie
find_zombie-zombie fuel none k c run = absurd (cc)
find_zombie-zombie zero (some i) k c run = absurd (cc)
find_zombie-zombie (suc fuel) (some i) k c run = elim (first_step (get_proc i k) _ (some c) run) [
  | ends p got rest ↦ elim (Bool-cases (is_zombie p.state)) [
    | inl z ↦
        let same : i ≡ c = ground (arith, rw z at rest) in
        (p, subst (λ j. k.procs j ≡ some p) same (get_proc-inv k i p got), z)
    | inr n ↦ find_zombie-zombie fuel p.brother_pid k c (rw n at rest)
  ]
]

reap-IsValid :
    (pid : ℕ) (k : Kernel) (p : Proc) (r : Round (Option (ℕ × ℤ)))
    → IsValid k
    → k.procs pid ≡ some p
    → is_zombie p.state ≡ true
    → reap pid k ≡ ok r
    → IsValid (kernel_after r)
unfolding reap
reap-IsValid pid k p r v here z run = elim (first_step (get_proc pid k) _ r run) [
  | ends q got rest ↦
      let there = get_proc-inv k pid q got in
      let same : q.state ≡ p.state = ground (arith, here, there) in
      let dying = Alike-put k pid q (set_state dead q) there (
        refl,
        refl,
        ground (arith, same, z),
        ground (arith, same, z),
        λ e. ground (arith, same, z, e),
        λ e. ground (arith, same, z, e),
      ) in
      elim (first_step (supprime_fils (getpid k) pid (put_proc pid (set_state dead q) k)) _ r
        rest) [
          | ends k₁ cut last ↦
              subst (λ r. IsValid (kernel_after r)) (ok-injective _ r last)
                (Alike-IsValid
                  (Alike-trans dying
                    (supprime_fils-Alike (getpid k) pid (put_proc pid (set_state dead q) k) k₁ cut))
                  v)
        ]
]

wait_one-IsValid :
    (pid : ℕ) (k : Kernel) (r : Round (Option (ℕ × ℤ)))
    → IsValid k
    → k.running ≢ 0
    → wait_one pid k ≡ ok r
    → IsValid (kernel_after r)
unfolding wait_one
wait_one-IsValid pid k r v user run = elim (first_step (get_proc pid k) _ r run) [
  | ends p got rest ↦ elim (Bool-cases (is_zombie p.state)) [
    | inl z ↦ reap-IsValid pid k p r v (get_proc-inv k pid p got) z (rw z at rest)
    | inr n ↦ wait_for_child-IsValid k r v user (rw n at rest)
  ]
]

wait_found-IsValid :
    (o : Option ℕ) (k : Kernel) (r : Round (Option (ℕ × ℤ)))
    → IsValid k
    → k.running ≢ 0
    → ((c : ℕ) → o ≡ some c → (p : Proc) × (k.procs c ≡ some p) × (is_zombie p.state ≡ true))
    → wait_found o k ≡ ok r
    → IsValid (kernel_after r)
unfolding wait_found
wait_found-IsValid none k r v user found run = wait_for_child-IsValid k r v user run
wait_found-IsValid (some c) k r v user found run =
    let (p, here, z) = found c refl in reap-IsValid c k p r v here z run

wait_any-IsValid :
    (k : Kernel) (r : Round (Option (ℕ × ℤ)))
    → IsValid k
    → k.running ≢ 0
    → wait_any k ≡ ok r
    → IsValid (kernel_after r)
unfolding wait_any
wait_any-IsValid k r v user run = elim (first_step (get_proc k.running k) _ r run) [
  | ends me got rest ↦ elim (first_step (find_zombie (suc nbproc) me.child_pid k) _ r rest) [
    | ends o found last ↦
        wait_found-IsValid o k r v user
          (λ c e. find_zombie-zombie (suc nbproc) me.child_pid k c (found ∙ ap ok e)) last
  ]
]

wait_named-IsValid :
    (o : Option Proc) (pid : ℕ) (k : Kernel) (r : Round (Option (ℕ × ℤ)))
    → IsValid k
    → k.running ≢ 0
    → wait_named o pid k ≡ ok r
    → IsValid (kernel_after r)
unfolding wait_named
wait_named-IsValid none pid k r v user run =
    subst (λ r. IsValid (kernel_after r)) (ok-injective _ r run) v
wait_named-IsValid (some p) pid k r v user run = elim (Bool-cases (is_child_of (getpid k) p)) [
  | inl e ↦ wait_one-IsValid pid k r v user (rw e at run)
  | inr n ↦ subst (λ r. IsValid (kernel_after r)) (ok-injective _ r (rw n at run)) v
]

wait_children-IsValid :
    (o : Option ℕ) (k : Kernel) (r : Round (Option (ℕ × ℤ)))
    → IsValid k
    → k.running ≢ 0
    → wait_children o k ≡ ok r
    → IsValid (kernel_after r)
unfolding wait_children
wait_children-IsValid none k r v user run =
    subst (λ r. IsValid (kernel_after r)) (ok-injective _ r run) v
wait_children-IsValid (some c) k r v user run = wait_any-IsValid k r v user run

-- A round of `waitpid` that ends well keeps the invariant.
pub waitpid-IsValid :
    (pid : ℤ) (k : Kernel) (r : Round (Option (ℕ × ℤ)))
    → IsValid k
    → k.running ≢ 0
    → waitpid pid k ≡ ok r
    → IsValid (kernel_after r)
unfolding waitpid
waitpid-IsValid (pos pid) k r v user run = elim (Bool-cases (ltb pid nbproc)) [
  | inl e ↦ named (k.procs pid) (rw e at run)
  | inr n ↦ absurd (fault-ne-ok page_fault r (rw n at run))
]
  where
    named : (o : Option Proc) → wait_named o pid k ≡ ok r → IsValid (kernel_after r)
    named o run = wait_named-IsValid o pid k r v user run
waitpid-IsValid (negsuc n) k r v user run = elim (first_step (get_proc k.running k) _ r run) [
  | ends me got rest ↦ wait_children-IsValid me.child_pid k r v user rest
]

-- A round that goes on where the caller waited, and ends well, keeps it too.
pub waitpid_resume-IsValid :
    (pid : ℤ) (k : Kernel) (r : Round (Option (ℕ × ℤ)))
    → IsValid k
    → k.running ≢ 0
    → waitpid_resume pid k ≡ ok r
    → IsValid (kernel_after r)
unfolding waitpid_resume
waitpid_resume-IsValid (pos pid) k r v user run = wait_one-IsValid pid k r v user run
waitpid_resume-IsValid (negsuc n) k r v user run = wait_any-IsValid k r v user run
