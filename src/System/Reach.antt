-- ===== src/System/Reach.antt =====
-- The kernel as a state machine: one step for each system call of kernel/syscall_table.c that
-- changes processes or message queues, for the return of a process to a call that waited, and for
-- the interrupts of the timer and of the keyboard. A call that takes the processor away from the
-- idle process has `running ≢ 0` as its condition: the idle loop makes none of them.
use operating_system_concept.Base.{ℕ, ◌≡◌, ◌≢◌, Bool, Option, some, List}
use operating_system_concept.Base.Int.{ℤ}
use operating_system_concept.Base.Run.{ok, Returns}
use operating_system_concept.Kernel.{Kernel}
use operating_system_concept.Process.Scheduler.{scheduler, chprio, wait_clock}
use operating_system_concept.Process.Life.{Round, kill, exit, waitpid, waitpid_resume}
use operating_system_concept.Process.Image.{Linked}
use operating_system_concept.Process.Start.{start, start2}
use operating_system_concept.Process.Invariant.{IsValid}
use operating_system_concept.Process.Switch.{Scheduled}
use operating_system_concept.Process.Schedule.{scheduler-Scheduled, IsValid-CanSchedule}
use operating_system_concept.Msgq.Cells.{pcreate}
use operating_system_concept.Msgq.Reset.{pdelete, preset}
use operating_system_concept.Msgq.Send.{Outcome, psend, preceive, psend_resume, preceive_resume}
use operating_system_concept.Clock.{yield_every_second, tick, yield_tick-IsValid}
use operating_system_concept.Console.{Terminal, waiting, cons_read, keyboard_data}
use operating_system_concept.System.Wait.{kernel_after, wait_clock-IsValid}
use operating_system_concept.System.Reap.{waitpid-IsValid, waitpid_resume-IsValid}
use operating_system_concept.System.Death.{kill-IsValid, exit-IsValid}
use operating_system_concept.System.Birth.{start-IsValid, start2-IsValid}
use operating_system_concept.System.Partner.{
  state_after, psend_resume-IsValid, preceive_resume-IsValid,
}
use operating_system_concept.System.Messages.{psend-IsValid, preceive-IsValid}
use operating_system_concept.System.Calls.{
  chprio-IsValid, pdelete-IsValid, preset-IsValid, pcreate-IsValid, keyboard_data-IsValid,
  cons_read-IsValid,
}

pub data Step : Kernel → Kernel → Type 0 where
  starts :
      {k k' : Kernel} {pid : Option ℕ} (image : Linked) (name : List ℕ) (ssize : ℕ) (prio : ℤ)
      (arg : ℕ)
      → start image name ssize prio arg k ≡ ok (pid, k')
      → Step k k'
  starts_kernel :
      {k k' : Kernel} {pid : Option ℕ} (image : Linked) (pt_func ssize : ℕ) (prio : ℤ)
      (name : List ℕ) (arg : ℕ)
      → start2 image pt_func ssize prio name arg k ≡ ok (pid, k')
      → Step k k'
  changes_priority :
      {k k' : Kernel} {old : Option ℕ} (pid newprio : ℤ)
      → chprio pid newprio k ≡ ok (old, k')
      → Step k k'
  kills : {k k' : Kernel} {done : Bool} (pid : ℤ) → kill pid k ≡ ok (done, k') → Step k k'
  exits : {k k' : Kernel} (retval : ℤ) → k.running ≢ 0 → exit retval k ≡ ok k' → Step k k'
  waits_for_child :
      {k : Kernel} {r : Round (Option (ℕ × ℤ))} (pid : ℤ)
      → k.running ≢ 0
      → waitpid pid k ≡ ok r
      → Step k (kernel_after r)
  waits_on_for_child :
      {k : Kernel} {r : Round (Option (ℕ × ℤ))} (pid : ℤ)
      → k.running ≢ 0
      → waitpid_resume pid k ≡ ok r
      → Step k (kernel_after r)
  sleeps : {k k' : Kernel} (clock : ℕ) → wait_clock clock k ≡ ok k' → Step k k'
  creates : {k : Kernel} (count : ℤ) → Step k (pcreate count k).1
  deletes : {k k' : Kernel} {done : Bool} (fid : ℤ) → pdelete fid k ≡ ok (done, k') → Step k k'
  resets : {k k' : Kernel} {done : Bool} (fid : ℤ) → preset fid k ≡ ok (done, k') → Step k k'
  sends :
      {k : Kernel} {r : Outcome} (fid message : ℤ)
      → k.running ≢ 0
      → psend fid message k ≡ ok r
      → Step k (state_after r)
  receives :
      {k : Kernel} {r : Outcome} (fid : ℤ)
      → k.running ≢ 0
      → preceive fid k ≡ ok r
      → Step k (state_after r)
  sends_later :
      {k k' : Kernel} (fid : ℕ) (message : ℤ) → psend_resume fid message k ≡ some k' → Step k k'
  receives_later :
      {k k' : Kernel} {message : ℤ} (fid : ℕ)
      → preceive_resume fid k ≡ ok (some (message, k'))
      → Step k k'
  reads_line :
      {k k' : Kernel} (size : ℕ) (t t' : Terminal)
      → k.running ≢ 0
      → cons_read size t k ≡ ok (waiting t' k')
      → Step k k'
  presses_key :
      {k k' : Kernel} (car : ℕ) (t t' : Terminal) → keyboard_data car t k ≡ ok (t', k') → Step k k'
  ticks : {k k' : Kernel} → yield_every_second (tick k) ≡ ok k' → Step k k'

pub data Reach (k : Kernel) : Kernel → Type 0 where
  here : Reach k k
  next : {l m : Kernel} → Reach k l → Step l m → Reach k m

Step-IsValid : {k k' : Kernel} → Step k k' → IsValid k → IsValid k'
Step-IsValid (starts image name ssize prio arg run) v =
    start-IsValid image name ssize prio arg _ _ _ v run
Step-IsValid (starts_kernel image pt_func ssize prio name arg run) v =
    start2-IsValid image pt_func ssize prio name arg _ _ _ v run
Step-IsValid (changes_priority pid newprio run) v = chprio-IsValid pid newprio _ _ _ v run
Step-IsValid (kills pid run) v = kill-IsValid pid _ _ _ v run
Step-IsValid (exits retval user run) v = exit-IsValid retval _ _ v user run
Step-IsValid (waits_for_child pid user run) v = waitpid-IsValid pid _ _ v user run
Step-IsValid (waits_on_for_child pid user run) v = waitpid_resume-IsValid pid _ _ v user run
Step-IsValid (sleeps clock run) v = wait_clock-IsValid clock _ _ v run
Step-IsValid (creates count) v = pcreate-IsValid count _ v
Step-IsValid (deletes fid run) v = pdelete-IsValid fid _ _ _ v run
Step-IsValid (resets fid run) v = preset-IsValid fid _ _ _ v run
Step-IsValid (sends fid message user run) v = psend-IsValid fid message _ _ v user run
Step-IsValid (receives fid user run) v = preceive-IsValid fid _ _ v user run
Step-IsValid (sends_later fid message run) v = psend_resume-IsValid fid message _ _ v run
Step-IsValid (receives_later fid run) v = preceive_resume-IsValid fid _ _ _ v run
Step-IsValid (reads_line size t t' user run) v = cons_read-IsValid size t t' _ _ v user run
Step-IsValid (presses_key car t t' run) v = keyboard_data-IsValid car t t' _ _ v run
Step-IsValid (ticks run) v = yield_tick-IsValid _ _ v run

-- From a kernel whose table, queue and active process fit, every state that any sequence of system
-- calls and interrupts reaches fits.
pub Reach-IsValid : {k k' : Kernel} → IsValid k → Reach k k' → IsValid k'
Reach-IsValid v here = v
Reach-IsValid v (next r s) = Step-IsValid s (Reach-IsValid v r)

-- In every state that is reached from a valid kernel, the scheduler ends: it gives the processor to
-- a process of the highest priority among those that can run, keeps the kernel valid, and changes
-- states, the queue and who runs only; who was ready or active is so still, and who was none of
-- ready, active and asleep has not changed.
pub Reach-Scheduled :
    {k k' : Kernel} → IsValid k → Reach k k' → Returns (scheduler k') (Scheduled k')
Reach-Scheduled {k} {k'} v r =
    let valid = Reach-IsValid v r in
    scheduler-Scheduled k' valid.current.0 (IsValid-CanSchedule k' valid)
