-- ===== src/Tests/Systems.antt =====
-- System calls one behind the other, from the kernel of three processes: process 1 makes a message
-- queue, gives its child 2 a higher priority, and the child runs.
use operating_system_concept.Base.{◌≡◌, refl, some, arith, has, remove, ltb, leb, ◌&&◌}
use operating_system_concept.Queue.Order.{insert}
use operating_system_concept.Base.Int.{pos}
use operating_system_concept.Base.Run.{Run, ok, fault, Returns}
use operating_system_concept.Kernel.{Kernel, nbproc, dequeue, enqueue, get_proc}
use operating_system_concept.Process.Scheduler.{
  scheduler, chprio, first_such, switch, requeue, reprioritise, preempt,
}
use operating_system_concept.Process.Invariant.{IsValid}
use operating_system_concept.Process.Switch.{Scheduled}
use operating_system_concept.Msgq.Cells.{pcreate, free_fid}
use operating_system_concept.System.Reach.{
  Reach, here, next, creates, changes_priority, Reach-IsValid, Reach-Scheduled,
}
use operating_system_concept.Process.Listing.{
  pids, is_present, print_all_processes, print_all_processes-has,
}
use operating_system_concept.Tests.Schedules.{three, three-IsValid}

abbrev after : {A : Type 0} → Kernel → Run (A × Kernel) → Kernel
after k (fault why) = k
after k (ok (a, l)) = l

abbrev with_queue : Kernel
with_queue = (pcreate (pos 4) three).1

abbrev child_runs : Kernel
child_runs = after three (chprio (pos 2) (pos 9) with_queue)

ran : chprio (pos 2) (pos 9) with_queue ≡ ok (some 3, child_runs)
unfolding chprio pcreate free_fid reprioritise dequeue enqueue remove preempt insert get_proc
    scheduler requeue switch first_such
ran = refl

reached : Reach three child_runs
reached = next (next here (creates (pos 4))) (changes_priority (pos 2) (pos 9) ran)

Reach-IsValid_example : IsValid child_runs
Reach-IsValid_example = Reach-IsValid three-IsValid reached

Reach-Scheduled_example : Returns (scheduler child_runs) (Scheduled child_runs)
Reach-Scheduled_example = Reach-Scheduled three-IsValid reached

-- The parent is in the list of the processes.
print_all_processes-has_example :
    has 1 (pids (print_all_processes three))
    ≡ (leb 1 1 && (ltb 1 nbproc && is_present (three.procs 1)))
print_all_processes-has_example =
    print_all_processes-has three 1 λ j p e. ground (arith, e, three-IsValid.fits.slots j refl)
