-- ===== src/Msgq/Count.antt =====
-- `pcount`, and the searches for a process that waits on a message queue.
use operating_system_concept.Base.{
  ℕ, ◌+◌, ◌-◌, Bool, true, false, ◌&&◌, Option, none, some, List, [], ◌∷◌, ltb, leb, ◌==◌,
  if◌then◌else◌,
}
use operating_system_concept.Base.Int.{ℤ, pos, negsuc}
use operating_system_concept.Kernel.{Proc, Kernel, is_msg_block}
use operating_system_concept.Msgq.Cells.{valid_fid}

abbrev pub waits_on : Option ℕ → ℕ → Bool
waits_on none fid = false
waits_on (some w) fid = w == fid + 1

abbrev pub receives_on : ℕ → Option Proc → Bool
receives_on fid none = false
receives_on fid (some p) = waits_on p.rcv_wait_on fid

abbrev pub sends_on : ℕ → Option Proc → Bool
sends_on fid none = false
sends_on fid (some p) = waits_on p.send_wait_on fid

-- How many elements of a list pass a test.
unfoldable pub count_if : (ℕ → Bool) → List ℕ → ℕ
count_if test [] = 0
count_if test (x ∷ xs) = (if test x then 1 else 0) + count_if test xs

-- The difference of two numbers.
abbrev pub sub_ℕ : ℕ → ℕ → ℤ
sub_ℕ a b = if leb b a then pos (a - b) else negsuc (b - a - 1)

abbrev pub is_negative : ℤ → Bool
is_negative (pos n) = false
is_negative (negsuc n) = true

abbrev pub exceeds : ℤ → ℕ → Bool
exceeds (pos n) m = ltb m n
exceeds (negsuc n) m = false

-- The value that `pcount` stores: messages and waiting senders less waiting receivers.
unfoldable pub occupancy : ℕ → Kernel → ℤ
unfolding count_if
occupancy fid k =
    sub_ℕ (count_if (λ i. sends_on fid (k.procs i)) k.queue + (k.msg_queues fid).count)
      (count_if (λ i. receives_on fid (k.procs i)) k.queue)

-- `none` for -1, which is stored too.
unfoldable pub pcount : ℤ → Kernel → Option ℤ
unfolding valid_fid occupancy
pcount fid k = elim (valid_fid fid k) [ none ↦ none | some i ↦ some (occupancy i k) ]

abbrev pub blocked_receiver : ℕ → Option Proc → Bool
blocked_receiver fid none = false
blocked_receiver fid (some p) = waits_on p.rcv_wait_on fid && is_msg_block p.state

abbrev pub blocked_sender : ℕ → Option Proc → Bool
blocked_sender fid none = false
blocked_sender fid (some p) = waits_on p.send_wait_on fid && is_msg_block p.state
