-- ===== src/Msgq/Send.antt =====
-- `psend` and `preceive`.
use mathlib.Core.List.{reverse}
use operating_system_concept.Base.{
  ℕ, ◌+◌, Bool, false, ◌&&◌, ◌||◌, Option, none, some, update, ◌==◌, if◌then◌else◌,
}
use operating_system_concept.Base.Int.{ℤ}
use operating_system_concept.Base.Run.{Run, ok, fault, bad_link, ◌>>=◌}
use operating_system_concept.Kernel.{Proc, MsgQueue, ready, msg_block, Kernel, get_proc, put_proc}
use operating_system_concept.Msgq.Cells.{add_msg, pop_msg, put_queue, valid_fid}
use operating_system_concept.Msgq.Count.{
  occupancy, is_negative, exceeds, blocked_receiver, blocked_sender,
}
use operating_system_concept.Process.Scheduler.{getpid, scheduler, first_such}

-- How a call ends. `refused` is -1, the others but `blocked` are 0. With `handed_over i m` the
-- waiting process `i` has taken or delivered message `m` on the way; `blocked` is the state in
-- which another process runs.
pub data Outcome : Type 0 where
  refused : Kernel → Outcome
  done : Kernel → Outcome
  received : ℤ → Kernel → Outcome
  handed_over : ℕ → ℤ → Kernel → Outcome
  received_over : ℤ → ℕ → Kernel → Outcome
  blocked : Kernel → Outcome

-- `psend` behind its `scheduler()`: -1 is `none`, else the message is stored and the processor goes
-- back to the active process.
unfoldable pub psend_resume : ℕ → ℤ → Kernel → Option Kernel
psend_resume fid message k =
    let q = k.msg_queues fid in
    if q.preset || (q.max_count == 0 || q.max_count == q.count)
    then none
    else some (put_queue fid (add_msg q message) k)

-- `preceive` behind its `scheduler()`.
unfoldable pub preceive_resume : ℕ → Kernel → Run (Option (ℤ × Kernel))
preceive_resume fid k =
    let q = k.msg_queues fid in
    if q.preset || q.max_count == 0
    then ok none
    else pop_msg q >>= λ (m, q'). ok (some (m, put_queue fid q' k))

abbrev pub link_of : Option ℕ → Run ℕ
link_of none = fault bad_link
link_of (some i) = ok i

-- The waiting process from the end of the queue. Without one, the loop leaves `ptr` at the head of
-- the queue, which is no process.
unfoldable pub find_blocked : (Option Proc → Bool) → Kernel → Run ℕ
find_blocked test k = link_of (first_such (λ i. test (k.procs i)) (reverse k.queue))

-- `preset` was called: the flag and the count are cleared.
abbrev pub clear_preset : MsgQueue → MsgQueue
clear_preset q = if q.preset then record q { preset = false; count = 0 } else q

-- The queue is full: the caller waits.
unfoldable pub block_sender : ℕ → ℤ → Kernel → Run Outcome
block_sender fid message k = do
  me ← get_proc (getpid k) k
  let k₁ =
      put_proc (getpid k) (record me { state = msg_block; send_wait_on = some (fid + 1) })
        (record k { sending = update k.sending (getpid k) message })
  k₂ ← scheduler k₁
  ok (blocked k₂)

-- The partner `i` has taken message `m`, or says -1 and does not switch back.
abbrev pub settle_receiver : ℕ → Option (ℤ × Kernel) → Run Outcome
settle_receiver i none = fault bad_link
settle_receiver i (some (m, k)) = scheduler k >>= λ k'. ok (handed_over i m k')

-- A receiver waits: it is made ready, takes the message and switches back, and the scheduler runs.
unfoldable pub hand_to_receiver : ℕ → ℤ → Kernel → Run Outcome
unfolding find_blocked preceive_resume
hand_to_receiver fid message k = do
  let k₁ = put_queue fid (add_msg (k.msg_queues fid) message) k
  i ← find_blocked (blocked_receiver fid) k₁
  p ← get_proc i k₁
  let k₂ = record (put_proc i (record p { state = ready; rcv_wait_on = none }) k₁) {
    tmp_pid = p.pid;
  }
  taken ← preceive_resume fid k₂
  settle_receiver i taken

unfoldable pub psend_valid : ℕ → ℤ → Kernel → Run Outcome
unfolding block_sender hand_to_receiver
psend_valid fid message k =
    let count = occupancy fid k in
    let q = clear_preset (k.msg_queues fid) in
    let k₁ = put_queue fid q k in
    if q.count == q.max_count
    then block_sender fid message k₁
    else if q.count == 0 && is_negative count
    then hand_to_receiver fid message k₁
    else ok (done (put_queue fid (add_msg q message) k₁))

unfoldable pub psend_at : Option ℕ → ℤ → Kernel → Run Outcome
unfolding psend_valid
psend_at none message k = ok (refused k)
psend_at (some i) message k = psend_valid i message k

unfoldable pub psend : ℤ → ℤ → Kernel → Run Outcome
unfolding valid_fid psend_at
psend fid message k = psend_at (valid_fid fid k) message k

-- The queue is empty: the caller waits.
unfoldable pub block_receiver : ℕ → Kernel → Run Outcome
block_receiver fid k = do
  me ← get_proc (getpid k) k
  k₁ ←
      scheduler
        (put_proc (getpid k) (record me { state = msg_block; rcv_wait_on = some (fid + 1) }) k)
  ok (blocked k₁)

abbrev pub settle_sender : ℤ → ℕ → Option Kernel → Run Outcome
settle_sender m i none = fault bad_link
settle_sender m i (some k) = scheduler k >>= λ k'. ok (received_over m i k')

-- A sender waits: it is made ready, stores its message and switches back, and the scheduler runs.
unfoldable pub hand_from_sender : ℕ → ℤ → Kernel → Run Outcome
unfolding find_blocked psend_resume
hand_from_sender fid m k = do
  i ← find_blocked (blocked_sender fid) k
  p ← get_proc i k
  let k₁ = record (put_proc i (record p { state = ready; send_wait_on = none }) k) {
    tmp_pid = p.pid;
  }
  settle_sender m i (psend_resume fid (k₁.sending i) k₁)

-- The queue is full, and a sender waits.
unfoldable pub take_and_admit : ℕ → Kernel → Run Outcome
unfolding hand_from_sender
take_and_admit fid k = do
  me ← get_proc (getpid k) k
  let k₁ = put_proc (getpid k) (record me { rcv_wait_on = none }) k
  (m, q) ← pop_msg (k.msg_queues fid)
  hand_from_sender fid m (put_queue fid q k₁)

unfoldable pub take_message : ℕ → Kernel → Run Outcome
take_message fid k = do (m, q) ← pop_msg (k.msg_queues fid); ok (received m (put_queue fid q k))

unfoldable pub preceive_valid : ℕ → Kernel → Run Outcome
unfolding block_receiver take_and_admit take_message
preceive_valid fid k =
    let q = k.msg_queues fid in
    if q.count == 0
    then block_receiver fid k
    else if exceeds (occupancy fid k) q.count && q.count == q.max_count
    then take_and_admit fid k
    else take_message fid k

unfoldable pub preceive_at : Option ℕ → Kernel → Run Outcome
unfolding preceive_valid
preceive_at none k = ok (refused k)
preceive_at (some i) k = preceive_valid i k

unfoldable pub preceive : ℤ → Kernel → Run Outcome
unfolding valid_fid preceive_at
preceive fid k = preceive_at (valid_fid fid k) k
