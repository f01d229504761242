-- ===== src/Process/Start.antt =====
-- `getNewCase`, `start2` and `start` of kernel/process.c. `mem_alloc` is taken to succeed and to
-- return zeroed memory, as shared/queue.h says of it.
use operating_system_concept.Base.{
  ℕ, zero, suc, ◌+◌, ◌-◌, Bool, true, Option, none, some, List, [], update, ltb, ◌==◌,
  if◌then◌else◌, has, take,
}
use operating_system_concept.Base.Int.{ℤ, pos}
use operating_system_concept.Base.Run.{Run, ok, fault, page_fault, bad_link, ◌>>=◌}
use operating_system_concept.Base.Cmd.{Cmd}
use operating_system_concept.Kernel.{
  Proc, active, ready, Kernel, nbproc, name_size, stack_size, get_proc, put_proc, enqueue, is_dead,
}
use operating_system_concept.Paging.{create_pgdir, libere_pages}
use operating_system_concept.Paging.Memory.{Ram}
use operating_system_concept.Process.Image.{Linked, copier_code, allouer_pile, exit_code}
use operating_system_concept.Process.Scheduler.{getpid, scheduler, valid_prio}

-- A command on the memory, in the kernel.
abbrev pub on_ram : {A : Type 0} → Cmd Ram A → Kernel → Run (A × Kernel)
on_ram m k = m k.ram >>= λ (a, r). ok (a, record k { ram = r })

abbrev pub is_free : Option Proc → Bool
is_free none = true
is_free (some p) = is_dead p.state

-- The first free slot from `i` on, within `n` rounds; else the slot behind the last one.
unfoldable pub new_case : ℕ → ℕ → Kernel → ℕ
new_case zero i k = i
new_case (suc n) i k = let rest = new_case n (suc i) k in if is_free (k.procs i) then i else rest

unfoldable pub get_new_case : Kernel → ℕ
get_new_case k = new_case nbproc 0 k

abbrev pub zeroed : Proc
zeroed = record {
  pid = 0;
  name = [];
  state = active;
  esp = 0;
  stack = λ _. 0;
  wake_up_time = 0;
  priority = 0;
  daddy_pid = some 0;
  child_pid = some 0;
  brother_pid = some 0;
  exit_status = pos 0;
  send_wait_on = some 0;
  rcv_wait_on = some 0;
  ssize = 0;
  page_directory = 0;
}

-- The structure in the slot: a new one, or that of the dead process.
abbrev pub claimed : Option Proc → Proc
claimed none = zeroed
claimed (some p) = p

-- The stack of a kernel process, as `start2` lays it out.
abbrev pub kernel_stack : Linked → ℕ → ℕ → (ℕ → ℕ) → ℕ → ℕ
kernel_stack image pt_func arg stack =
    update (update (update stack (stack_size - 3) pt_func) (stack_size - 2) image.finish_handler)
      (stack_size - 1) arg

-- The stack of a process that enters user mode, as `start` lays it out.
abbrev pub user_stack_frame : Linked → ℕ → (ℕ → ℕ) → ℕ → ℕ
user_stack_frame image user_stack stack =
    update
      (update
        (update
          (update (update (update stack (stack_size - 1) 0x4b) (stack_size - 2) user_stack)
            (stack_size - 3) 0x202)
          (stack_size - 4) 0x43)
        (stack_size - 5) 0x4000_0000)
      (stack_size - 6) image.demare_proc

-- `INIT_LINK` of a link that stands in the queue would tear the queue.
abbrev pub init_link : ℕ → Kernel → Run Kernel
init_link i k = if has i k.queue then fault bad_link else ok k

-- From `if (pid != 0)` on: the place in the queue and in the family.
unfoldable pub join_family : ℕ → Kernel → Run Kernel
join_family pid k =
    if pid == 0
    then (do
      p ← get_proc pid k
      ok (put_proc pid (record p { daddy_pid = none; child_pid = none; brother_pid = none }) k))
    else do
      k₁ ← enqueue pid k
      me ← get_proc (getpid k₁) k₁
      p ← get_proc pid k₁
      let daddy : Option ℕ = if getpid k₁ == 0 then none else some (getpid k₁)
      let k₂ = put_proc pid (record p { daddy_pid = daddy; brother_pid = me.child_pid }) k₁
      dad ← get_proc (getpid k₂) k₂
      let k₃ = put_proc (getpid k₂) (record dad { child_pid = some pid }) k₂
      q ← get_proc pid k₃
      ok (put_proc pid (record q { child_pid = none }) k₃)

-- `if (prio > proc_table[getpid()]->priority) scheduler();`
unfoldable pub yield_to : ℕ → Kernel → Run Kernel
yield_to prio k = do me ← get_proc (getpid k) k; if ltb me.priority prio then scheduler k else ok k

-- The checks that both functions begin with: the free slot and the priority, or -1.
abbrev pub admitted_prio : ℕ → ℕ → Option ℕ → Option (ℕ × ℕ)
admitted_prio pid ssize none = none
admitted_prio pid ssize (some prio) = if ltb 0x80_0000 ssize then none else some (pid, prio)

abbrev pub admitted : ℕ → ℤ → Kernel → Option (ℕ × ℕ)
admitted ssize prio k =
    if get_new_case k == nbproc
    then none
    else admitted_prio (get_new_case k) ssize (valid_prio prio)

-- A dead process gives its pages back, by `start2` alone.
unfoldable pub reclaim : Option Proc → Kernel → Run Kernel
reclaim none k = ok k
reclaim (some p) k = on_ram (libere_pages p.page_directory) k >>= λ (_, k₁). ok k₁

unfoldable pub start2_at : Linked → ℕ → ℕ → ℕ → List ℕ → ℕ → ℕ → Kernel → Run Kernel
unfolding reclaim join_family yield_to
start2_at image pt_func ssize prio name arg pid k = do
  let p = claimed (k.procs pid)
  k₁ ← reclaim (k.procs pid) k
  (dir, k₂) ← on_ram (create_pgdir image.pgdir) k₁
  k₃ ← init_link pid (
      put_proc pid
        (record p {
          pid = pid;
          state = if pid == 0 then active else ready;
          name = take name_size name;
          page_directory = dir;
          stack = kernel_stack image pt_func arg p.stack;
          esp = stack_size - 3;
          priority = prio;
          ssize = ssize;
        })
        k₂)
  k₄ ← join_family pid k₃
  yield_to prio k₄

unfoldable pub start2_in :
    Option (ℕ × ℕ) → Linked → ℕ → ℕ → List ℕ → ℕ → Kernel → Run (Option ℕ × Kernel)
unfolding start2_at
start2_in none image pt_func ssize name arg k = ok (none, k)
start2_in (some (pid, prio)) image pt_func ssize name arg k = do
  k₁ ← start2_at image pt_func ssize prio name arg pid k
  ok (some pid, k₁)

-- The pid, or `none` for -1.
unfoldable pub start2 : Linked → ℕ → ℕ → ℤ → List ℕ → ℕ → Kernel → Run (Option ℕ × Kernel)
unfolding start2_in get_new_case
start2 image pt_func ssize prio name arg k =
    start2_in (admitted ssize prio k) image pt_func ssize name arg k

-- The image of the application; a name that `tab_sym` does not hold is read through NULL.
unfoldable pub load_app : Linked → List ℕ → ℕ → ℕ → Cmd Ram (ℕ × ℕ)
unfolding copier_code allouer_pile exit_code
load_app image name ssize arg r = do
  (dir, r₁) ← create_pgdir image.pgdir r
  elim (image.find_app name) [
    | none ↦ fault page_fault
    | some (from, to) ↦ do
      (_, r₂) ← copier_code from to dir r₁
      (user_stack, r₃) ← allouer_pile (ssize + 80) dir arg r₂
      (_, r₄) ← exit_code dir r₃
      ok ((dir, user_stack), r₄)
  ]

unfoldable pub start_at : Linked → List ℕ → ℕ → ℕ → ℕ → ℕ → Kernel → Run Kernel
unfolding load_app join_family yield_to
start_at image name ssize prio arg pid k = do
  let p = claimed (k.procs pid)
  ((dir, user_stack), k₁) ← on_ram (load_app image name ssize arg) k
  k₂ ← init_link pid (
      put_proc pid
        (record p {
          pid = pid;
          state = if pid == 0 then active else ready;
          name = take name_size name;
          page_directory = dir;
          stack = user_stack_frame image user_stack p.stack;
          esp = stack_size - 6;
          priority = prio;
          ssize = ssize;
          send_wait_on = none;
          rcv_wait_on = none;
        })
        k₁)
  k₃ ← join_family pid k₂
  yield_to prio k₃

unfoldable pub start_in :
    Option (ℕ × ℕ) → Linked → List ℕ → ℕ → ℕ → Kernel → Run (Option ℕ × Kernel)
unfolding start_at
start_in none image name ssize arg k = ok (none, k)
start_in (some (pid, prio)) image name ssize arg k = do
  k₁ ← start_at image name ssize prio arg pid k
  ok (some pid, k₁)

unfoldable pub start : Linked → List ℕ → ℕ → ℤ → ℕ → Kernel → Run (Option ℕ × Kernel)
unfolding start_in get_new_case
start image name ssize prio arg k = start_in (admitted ssize prio k) image name ssize arg k
