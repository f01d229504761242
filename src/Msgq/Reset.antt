-- ===== src/Msgq/Reset.antt =====
-- `pdelete` and `preset`.
use operating_system_concept.Base.{
  ℕ, Bool, true, false, ◌||◌, Option, none, some, List, [], ◌∷◌, if◌then◌else◌,
}
use operating_system_concept.Base.Int.{ℤ}
use operating_system_concept.Base.Run.{Run, ok, ◌>>=◌}
use operating_system_concept.Kernel.{Proc, ready, Kernel, put_proc}
use operating_system_concept.Msgq.Cells.{destroy_list, put_queue, valid_fid}
use operating_system_concept.Msgq.Count.{waits_on}
use operating_system_concept.Process.Scheduler.{scheduler}

-- The body of the loop of `pdelete` and `preset`.
unfoldable pub wake_waiter : ℕ → ℕ → Option Proc → Kernel → Kernel
wake_waiter fid i none k = k
wake_waiter fid i (some p) k =
    if waits_on p.send_wait_on fid || waits_on p.rcv_wait_on fid
    then put_proc i (record p { state = ready; send_wait_on = none; rcv_wait_on = none }) k
    else k

-- All who wait on the queue are ready.
unfoldable pub wake_waiters : ℕ → List ℕ → Kernel → Kernel
unfolding wake_waiter
wake_waiters fid [] k = k
wake_waiters fid (i ∷ is) k = wake_waiters fid is (wake_waiter fid i (k.procs i) k)

unfoldable pub pdelete_at : Option ℕ → Kernel → Run (Bool × Kernel)
unfolding wake_waiters
pdelete_at none k = ok (false, k)
pdelete_at (some i) k = do
  let k₁ = wake_waiters i k.queue (put_queue i (destroy_list (k.msg_queues i)) k)
  k₂ ← scheduler (put_queue i (record (k₁.msg_queues i) { max_count = 0 }) k₁)
  ok (true, k₂)

-- The result 0 is `true`, -1 is `false`.
unfoldable pub pdelete : ℤ → Kernel → Run (Bool × Kernel)
unfolding valid_fid pdelete_at
pdelete fid k = pdelete_at (valid_fid fid k) k

unfoldable pub preset_at : Option ℕ → Kernel → Run (Bool × Kernel)
unfolding wake_waiters
preset_at none k = ok (false, k)
preset_at (some i) k = do
  let k₁ = wake_waiters i k.queue (put_queue i (destroy_list (k.msg_queues i)) k)
  k₂ ← scheduler (put_queue i (record (k₁.msg_queues i) { preset = true }) k₁)
  ok (true, k₂)

unfoldable pub preset : ℤ → Kernel → Run (Bool × Kernel)
unfolding valid_fid preset_at
preset fid k = preset_at (valid_fid fid k) k
