-- ===== src/Kernel.antt =====
-- kernel/process.h, kernel/msgq.h and the globals of kernel/process.c, kernel/msgq.c and
-- kernel/horloge.c: the state on which the system calls work.
-- An int whose only negative value is -1 is an `Option ℕ`, and -1 is `none`. The queue of
-- processes is the list of their table indices, from the head's `next` on; module `Queue` says
-- why the links may be read so.
use operating_system_concept.Base.{
  ℕ, Bool, true, false, Option, none, some, List, update, ltb, if◌then◌else◌, has, remove,
}
use operating_system_concept.Base.Int.{ℤ}
use operating_system_concept.Base.Run.{Run, ok, fault, panic, page_fault}
use operating_system_concept.Queue.Order.{insert}
use operating_system_concept.Paging.Memory.{Ram}

pub data ProcState : Type 0 where
  active ready msg_block io_block child_block asleep zombie dead : ProcState

abbrev pub stack_size : ℕ
stack_size = 1024

abbrev pub maxprio : ℕ
maxprio = 256

abbrev pub nbproc : ℕ
nbproc = 50

abbrev pub finish_user : ℕ
finish_user = 0xa000_0000

abbrev pub name_size : ℕ
name_size = 128

-- `esp` is the saved stack pointer, as an index of `stack`. The other registers are written by
-- the context switch alone.
pub record Proc : Type 0 where
  pub pid : ℕ
  pub name : List ℕ
  pub state : ProcState
  pub esp : ℕ
  pub stack : ℕ → ℕ
  pub wake_up_time : ℕ
  pub priority : ℕ
  pub daddy_pid : Option ℕ
  pub child_pid : Option ℕ
  pub brother_pid : Option ℕ
  pub exit_status : ℤ
  pub send_wait_on : Option ℕ
  pub rcv_wait_on : Option ℕ
  pub ssize : ℕ
  pub page_directory : ℕ

abbrev pub nbqueue : ℕ
nbqueue = 10

abbrev pub maxcount : ℕ
maxcount = 100

-- The messages of the cells from `head` on stand for the linked list.
pub record MsgQueue : Type 0 where
  pub fid : ℕ
  pub max_count : ℕ
  pub count : ℕ
  pub preset : Bool
  pub messages : List ℤ

-- `running` is the global `active`, and `nb_interrupt` the clock. `sending i` is the argument
-- `message` of `psend`, on the stack of process `i`, while that process waits.
pub record Kernel : Type 0 where
  pub procs : ℕ → Option Proc
  pub queue : List ℕ
  pub running : ℕ
  pub nb_interrupt : ℕ
  pub msg_queues : ℕ → MsgQueue
  pub tmp_pid : ℕ
  pub sending : ℕ → ℤ
  pub ram : Ram

-- `proc_table[i]`, read through.
unfoldable pub get_proc : ℕ → Kernel → Run Proc
get_proc i k =
    if ltb i nbproc
    then elim (k.procs i) [ none ↦ fault page_fault | some p ↦ ok p ]
    else fault page_fault

abbrev pub put_proc : ℕ → Proc → Kernel → Kernel
put_proc i p k = record k { procs = update k.procs i (some p) }

abbrev pub set_state : ProcState → Proc → Proc
set_state s p = record p { state = s }

-- The `priority` field that the queue compares.
abbrev pub priority_field : Option Proc → ℕ
priority_field none = 0
priority_field (some p) = p.priority

abbrev pub priority_of : (ℕ → Option Proc) → ℕ → ℕ
priority_of procs i = priority_field (procs i)

-- `queue_add(proc_table[i], &queue, ...)` and `queue_del(proc_table[i], list)`.
unfoldable pub enqueue : ℕ → Kernel → Run Kernel
enqueue i k =
    if has i k.queue
    then fault panic
    else ok (record k { queue = insert (priority_of k.procs) i k.queue })

unfoldable pub dequeue : ℕ → Kernel → Run Kernel
dequeue i k = if has i k.queue then ok (record k { queue = remove i k.queue }) else fault panic

abbrev pub is_active : ProcState → Bool
is_active active = true
is_active _ = false

abbrev pub is_ready : ProcState → Bool
is_ready ready = true
is_ready _ = false

abbrev pub is_asleep : ProcState → Bool
is_asleep asleep = true
is_asleep _ = false

abbrev pub is_zombie : ProcState → Bool
is_zombie zombie = true
is_zombie _ = false

abbrev pub is_dead : ProcState → Bool
is_dead dead = true
is_dead _ = false

abbrev pub is_child_block : ProcState → Bool
is_child_block child_block = true
is_child_block _ = false

abbrev pub is_msg_block : ProcState → Bool
is_msg_block msg_block = true
is_msg_block _ = false
