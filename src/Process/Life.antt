-- ===== src/Process/Life.antt =====
-- `kill`, `exit`, `supprime_fils` and `waitpid` of kernel/process.c.
use operating_system_concept.Base.{
  ℕ, zero, suc, Bool, true, false, ◌||◌, Option, none, some, ltb, ◌==◌, if◌then◌else◌,
}
use operating_system_concept.Base.Int.{ℤ, pos, negsuc}
use operating_system_concept.Base.Run.{Run, ok, fault, page_fault, out_of_fuel, ◌>>=◌}
use operating_system_concept.Kernel.{
  Proc, ready, zombie, dead, child_block, Kernel, nbproc, get_proc, put_proc, set_state, enqueue,
  dequeue, is_zombie, is_dead, is_child_block,
}
use operating_system_concept.Process.Scheduler.{getpid, scheduler, living}

-- One round of the loop over the children: a zombie is dead now, another child has no father.
abbrev pub orphan : Proc → Proc
orphan c = if is_zombie c.state then set_state dead c else record c { daddy_pid = none }

unfoldable pub release_children : ℕ → Option ℕ → Kernel → Run Kernel
release_children fuel none k = ok k
release_children zero (some i) k = fault out_of_fuel
release_children (suc fuel) (some i) k = do
  c ← get_proc i k
  release_children fuel c.brother_pid (put_proc i (orphan c) k)

-- The father of a dying process waits no longer.
unfoldable pub wake_father : ℕ → Kernel → Run Kernel
wake_father d k = do
  dad ← get_proc d k
  ok (if is_child_block dad.state then put_proc d (set_state ready dad) k else k)

-- What `kill` and `exit` share: with no father the process is dead, and its children are left as
-- they are; else it is a zombie if the father lives, and its children are released. A father that
-- was never started is read through NULL.
unfoldable pub leave_family_of : Option ℕ → ℕ → Proc → Kernel → Run Kernel
leave_family_of none pid p k = ok (put_proc pid (set_state dead p) k)
leave_family_of (some d) pid p k = do
  dad ← get_proc d k
  let gone = is_dead dad.state || is_zombie dad.state
  release_children (suc nbproc) p.child_pid
      (put_proc pid (set_state (if gone then dead else zombie) p) k)

unfoldable pub leave_family : ℕ → Proc → Kernel → Run Kernel
unfolding leave_family_of
leave_family pid p k = leave_family_of p.daddy_pid pid p k

abbrev pub wake_daddy : Option ℕ → Kernel → Run Kernel
wake_daddy none k = ok k
wake_daddy (some d) k = wake_father d k

unfoldable pub set_exit_status : ℕ → ℤ → Kernel → Run Kernel
set_exit_status pid status k = do
  p ← get_proc pid k
  ok (put_proc pid (record p { exit_status = status }) k)

-- The body of `kill` up to the queue.
unfoldable pub die_killed : ℕ → Proc → Kernel → Run Kernel
die_killed pid p k = do
  k₁ ← leave_family pid p k
  k₂ ← wake_daddy p.daddy_pid k₁
  set_exit_status pid (pos 0) k₂

-- `kill` of a process that lives. Killing oneself ends in the scheduler.
unfoldable pub kill_living : ℕ → Proc → Kernel → Run Kernel
kill_living pid p k = do
  k₁ ← die_killed pid p k
  if getpid k₁ == pid then scheduler k₁ else dequeue pid k₁

unfoldable pub kill_at : Option Proc → ℕ → Kernel → Run (Bool × Kernel)
unfolding kill_living
kill_at none pid k = ok (false, k)
kill_at (some p) pid k = do k₁ ← kill_living pid p k; ok (true, k₁)

-- `true` is 0 and `false` is -1. The code does not check that `pid` lies in the table.
unfoldable pub kill : ℤ → Kernel → Run (Bool × Kernel)
unfolding kill_at
kill (negsuc n) k = fault page_fault
kill (pos pid) k =
    if pid == 0
    then ok (false, k)
    else if ltb pid nbproc
    then kill_at (living k pid) pid k
    else fault page_fault

abbrev pub record_status : Option ℕ → ℕ → ℤ → Kernel → Run Kernel
record_status none pid status k = ok k
record_status (some d) pid status k = set_exit_status pid status k

unfoldable pub die_exiting : ℕ → ℤ → Proc → Kernel → Run Kernel
die_exiting pid retval p k = do
  k₁ ← leave_family pid p k
  k₂ ← record_status p.daddy_pid pid retval k₁
  wake_daddy p.daddy_pid k₂

-- `exit` does not come back. The status is stored only where there is a father.
unfoldable pub exit : ℤ → Kernel → Run Kernel
exit retval k = do p ← get_proc (getpid k) k; k₁ ← die_exiting (getpid k) retval p k; scheduler k₁

-- The loop of `supprime_fils`: the child before `pid`, or the last one.
unfoldable pub elder : ℕ → ℕ → ℕ → Option ℕ → Kernel → Run ℕ
elder fuel pid previous none k = ok previous
elder zero pid previous (some child) k = fault out_of_fuel
elder (suc fuel) pid previous (some child) k =
    let rest = do
      c ← get_proc child k
      q ← get_proc previous k
      elim q.brother_pid [
        | none ↦ fault page_fault
        | some previous' ↦ elder fuel pid previous' c.brother_pid k
      ]
    in if child == pid then ok previous else rest

-- `proc_table[i]->brother_pid = b`
unfoldable pub set_brother : ℕ → Option ℕ → Kernel → Run Kernel
set_brother i b k = do p ← get_proc i k; ok (put_proc i (record p { brother_pid = b }) k)

-- The child is the first one of its father.
unfoldable pub supprime_first : ℕ → ℕ → Proc → Kernel → Run Kernel
supprime_first active_pid pid dad k = do
  p ← get_proc pid k
  ok (put_proc active_pid (record dad { child_pid = p.brother_pid }) k)

unfoldable pub supprime_later : ℕ → ℕ → Kernel → Run Kernel
unfolding elder set_brother
supprime_later pid first k = do
  f ← get_proc first k
  previous ← elder (suc nbproc) pid first f.brother_pid k
  p ← get_proc pid k
  set_brother previous p.brother_pid k

unfoldable pub supprime_from : Option ℕ → ℕ → ℕ → Proc → Kernel → Run Kernel
unfolding supprime_first supprime_later
supprime_from none active_pid pid dad k = fault page_fault
supprime_from (some first) active_pid pid dad k =
    if first == pid then supprime_first active_pid pid dad k else supprime_later pid first k

unfoldable pub supprime_fils : ℕ → ℕ → Kernel → Run Kernel
unfolding supprime_from
supprime_fils active_pid pid k = do
  dad ← get_proc active_pid k
  supprime_from dad.child_pid active_pid pid dad k

-- What one round of a call that may wait gives: its result, or the state in which another
-- process runs. In the second case the loop of the call goes on when the caller is chosen.
pub data Round (A : Type 0) : Type 0 where
  returned : A → Kernel → Round A
  waits : Kernel → Round A

-- The end of `waitpid`: the zombie is dead and no child any more. The result is the pid with the
-- exit status that goes to `*retvalp`.
unfoldable pub reap : ℕ → Kernel → Run (Round (Option (ℕ × ℤ)))
unfolding supprime_fils
reap pid k = do
  p ← get_proc pid k
  k₁ ← supprime_fils (getpid k) pid (put_proc pid (set_state dead p) k)
  ok (returned (some (pid, p.exit_status)) k₁)

unfoldable pub wait_for_child : Kernel → Run (Round (Option (ℕ × ℤ)))
wait_for_child k = do
  me ← get_proc (getpid k) k
  k₁ ← enqueue (getpid k) (put_proc (getpid k) (set_state child_block me) k)
  k₂ ← scheduler k₁
  ok (waits k₂)

-- The loop that looks for a zombie among the children.
unfoldable pub find_zombie : ℕ → Option ℕ → Kernel → Run (Option ℕ)
find_zombie fuel none k = ok none
find_zombie zero (some child) k = fault out_of_fuel
find_zombie (suc fuel) (some child) k = do
  c ← get_proc child k
  let rest = find_zombie fuel c.brother_pid k
  if is_zombie c.state then ok (some child) else rest

-- The test of the loop of `waitpid` with a pid, and its body.
unfoldable pub wait_one : ℕ → Kernel → Run (Round (Option (ℕ × ℤ)))
unfolding reap wait_for_child
wait_one pid k = do p ← get_proc pid k; if is_zombie p.state then reap pid k else wait_for_child k

unfoldable pub wait_found : Option ℕ → Kernel → Run (Round (Option (ℕ × ℤ)))
unfolding reap wait_for_child
wait_found none k = wait_for_child k
wait_found (some child) k = reap child k

unfoldable pub wait_any : Kernel → Run (Round (Option (ℕ × ℤ)))
unfolding find_zombie wait_found
wait_any k = do
  me ← get_proc (getpid k) k
  found ← find_zombie (suc nbproc) me.child_pid k
  wait_found found k

abbrev pub is_child_of : ℕ → Proc → Bool
is_child_of i p =
    if is_dead p.state then false else elim p.daddy_pid [ none ↦ false | some d ↦ d == i ]

unfoldable pub wait_named : Option Proc → ℕ → Kernel → Run (Round (Option (ℕ × ℤ)))
unfolding wait_one
wait_named none pid k = ok (returned none k)
wait_named (some p) pid k =
    if is_child_of (getpid k) p then wait_one pid k else ok (returned none k)

unfoldable pub wait_children : Option ℕ → Kernel → Run (Round (Option (ℕ × ℤ)))
unfolding wait_any
wait_children none k = ok (returned none k)
wait_children (some child) k = wait_any k

-- The checks of `waitpid` and its first round; -1 is `none`. The code does not check that `pid`
-- lies in the table.
unfoldable pub waitpid : ℤ → Kernel → Run (Round (Option (ℕ × ℤ)))
unfolding wait_named wait_children
waitpid (pos pid) k = if ltb pid nbproc then wait_named (k.procs pid) pid k else fault page_fault
waitpid (negsuc n) k = do me ← get_proc (getpid k) k; wait_children me.child_pid k

-- `waitpid` when its caller is chosen again: the checks are behind it, the loop goes on.
unfoldable pub waitpid_resume : ℤ → Kernel → Run (Round (Option (ℕ × ℤ)))
unfolding wait_one wait_any
waitpid_resume (pos pid) k = wait_one pid k
waitpid_resume (negsuc n) k = wait_any k
