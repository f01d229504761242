-- ===== src/Tests/Schedules.antt =====
-- kernel/process.c at a kernel of three processes: the idle process 0, process 1, which runs, and
-- its child 2.
use operating_system_concept.Base.{
  ◌≢◌, ℕ, ◌≡◌, refl, inr, true, false, Option, none, some, [], ◌∷◌, arith, update,
}
use operating_system_concept.Base.Int.{pos, negsuc}
use operating_system_concept.Base.Run.{Returns}
use operating_system_concept.Kernel.{Proc, ProcState, active, ready, Kernel, priority_of}
use operating_system_concept.Process.Scheduler.{scheduler, chprio}
use operating_system_concept.Process.Life.{kill, exit}
use operating_system_concept.Process.Invariant.{Fits, IsValid}
use operating_system_concept.Process.Switch.{IsTop, Scheduled}
use operating_system_concept.Process.Schedule.{scheduler-Scheduled, IsValid-CanSchedule}
use operating_system_concept.Process.Prio.{chprio-done}
use operating_system_concept.Process.Dying.{Buried, Family}
use operating_system_concept.Process.Death.{kill-Buried, exit-IsTop}

abbrev proc : ℕ → ProcState → ℕ → Option ℕ → Option ℕ → Proc
proc pid state priority daddy child = record {
  pid = pid;
  name = [];
  state = state;
  esp = 0;
  stack = λ _. 0;
  wake_up_time = 0;
  priority = priority;
  daddy_pid = daddy;
  child_pid = child;
  brother_pid = none;
  exit_status = pos 0;
  send_wait_on = none;
  rcv_wait_on = none;
  ssize = 0;
  page_directory = 0;
}

abbrev idle_proc : Proc
idle_proc = proc 0 ready 1 none (some 1)

abbrev pub parent : Proc
parent = proc 1 active 5 (some 0) (some 2)

abbrev pub child : Proc
child = proc 2 ready 3 (some 1) none

abbrev pub three : Kernel
three = record {
  procs = update (update (update (λ _. none) 0 (some idle_proc)) 1 (some parent)) 2 (some child);
  queue = 0 ∷ 2 ∷ [];
  running = 1;
  nb_interrupt = 0;
  msg_queues = λ i. record { fid = i; max_count = 0; count = 0; preset = false; messages = [] };
  tmp_pid = 0;
  sending = λ _. pos 0;
  ram = record { word = λ _. 0; freelist = 0 };
}

three-Fits : Fits three (some 1) (λ _. false)
three-Fits = record {
  distinct = (refl, (refl, tt));
  sorted = ((omega arith, tt), (tt, tt));
  bounded = λ i h. ground arith;
  slots = λ i _. ground arith;
}

pub three-IsValid : IsValid three
three-IsValid = record {
  fits = three-Fits;
  current = (parent, refl, refl);
  idle = (idle_proc, refl, inr refl);
}

child-Family : Family three child []
child-Family = record { father = (parent, refl); listed = refl; few = omega arith }

parent-Family : Family three parent (2 ∷ [])
parent-Family = record {
  father = (idle_proc, refl);
  listed = (refl, (child, refl, refl));
  few = omega arith;
}

scheduler-Scheduled_example : Returns (scheduler three) (Scheduled three)
unfolding three-IsValid
scheduler-Scheduled_example =
    scheduler-Scheduled three parent (IsValid-CanSchedule three three-IsValid)

-- Process 1 gives its child a priority above its own.
chprio-done_example : Returns (chprio (pos 2) (pos 9) three) (λ (old, k').
    (old ≡ some child.priority) × (priority_of k'.procs 2 ≡ 9) × IsValid k' × IsTop k')
chprio-done_example = chprio-done three (pos 2) (pos 9) 2 9 child three-IsValid refl refl refl

kill-Buried_example :
    Returns (kill (pos 2) three) (λ (done, k'). (done ≡ true) × IsValid k' × Buried k' 2)
kill-Buried_example =
    kill-Buried three 2 child [] three-IsValid (omega arith) (omega arith) refl child-Family

exit-IsTop_example :
    Returns
      (exit (negsuc 0) three)
      (λ k'. IsValid k' × IsTop k' × Buried k' three.running × (k'.running ≢ three.running))
exit-IsTop_example =
    exit-IsTop three (negsuc 0) parent (2 ∷ []) three-IsValid (omega arith) refl parent-Family
