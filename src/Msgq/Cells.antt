-- ===== src/Msgq/Cells.antt =====
-- `add_msg`, `pop_msg`, `destroy_list`, `file_vide`, `pcreate` and VALID_FID.
use operating_system_concept.Base.{
  ℕ, zero, suc, ◌+◌, ◌-◌, false, not, ◌&&◌, Option, none, some, List, [], ◌∷◌, ◌++◌, update, ltb,
  leb, ◌==◌, if◌then◌else◌,
}
use operating_system_concept.Base.Int.{ℤ, pos, negsuc}
use operating_system_concept.Base.Run.{Run, ok, fault, page_fault}
use operating_system_concept.Kernel.{MsgQueue, Kernel, nbqueue, maxcount}

-- A full queue drops the message. Both of the code's branches put the cell behind the last one.
unfoldable pub add_msg : MsgQueue → ℤ → MsgQueue
add_msg q message =
    if q.max_count == q.count
    then q
    else record q { messages = q.messages ++ (message ∷ []); count = q.count + 1 }

-- The first message. The count of a queue whose only cell is taken becomes 0, whatever it was.
abbrev pub pop_cells : List ℤ → MsgQueue → Run (ℤ × MsgQueue)
pop_cells [] q = fault page_fault
pop_cells (m ∷ []) q = ok (m, record q { messages = []; count = 0 })
pop_cells (m ∷ n ∷ ms) q = ok (m, record q { messages = n ∷ ms; count = q.count - 1 })

unfoldable pub pop_msg : MsgQueue → Run (ℤ × MsgQueue)
pop_msg q = pop_cells q.messages q

-- The count stays.
unfoldable pub destroy_list : MsgQueue → MsgQueue
destroy_list q = record q { messages = [] }

-- The function assigns 0 to the first message instead of comparing, and returns 0.
unfoldable pub file_vide : MsgQueue → Run (ℕ × MsgQueue)
file_vide q = elim q.messages [
  | [] ↦ fault page_fault
  | m ∷ ms ↦ ok (0, record q { messages = pos 0 ∷ ms })
]

abbrev pub put_queue : ℕ → MsgQueue → Kernel → Kernel
put_queue fid q k = record k { msg_queues = update k.msg_queues fid q }

-- VALID_FID, with the index that it admits.
unfoldable pub valid_fid : ℤ → Kernel → Option ℕ
valid_fid (pos n) k =
    if ltb n nbqueue && not ((k.msg_queues n).max_count == 0) then some n else none
valid_fid (negsuc n) k = none

-- The first unused queue from `i` on.
unfoldable pub free_fid : ℕ → ℕ → Kernel → Option ℕ
free_fid zero i k = none
free_fid (suc n) i k =
    let rest = free_fid n (suc i) k in if (k.msg_queues i).max_count == 0 then some i else rest

abbrev pub fresh_queue : ℕ → ℕ → MsgQueue
fresh_queue fid count = record {
  fid = fid;
  max_count = count;
  count = 0;
  preset = false;
  messages = [];
}

unfoldable pub pcreate_at : Option ℕ → ℕ → Kernel → ℤ × Kernel
pcreate_at none count k = (negsuc 1, k)
pcreate_at (some fid) count k = (pos fid, put_queue fid (fresh_queue fid count) k)

-- The index of the new queue, -1 for a bad capacity and -2 if all queues are in use.
unfoldable pub pcreate : ℤ → Kernel → ℤ × Kernel
unfolding pcreate_at
pcreate (negsuc n) k = (negsuc 0, k)
pcreate (pos count) k =
    if leb count 0
    then (negsuc 0, k)
    else if ltb maxcount count
    then (negsuc 0, k)
    else pcreate_at (free_fid nbqueue 0 k) count k
