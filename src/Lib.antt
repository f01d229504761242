-- ===== src/Lib.antt =====
-- A model of the teaching kernel in kernel/ and shared/ for 32-bit x86: queue of processes, paging,
-- processes and their scheduler, message queues, the clock, the keyboard and the text screen.
--
-- How the parts interact. A process is an entry of the process table; those that wait stand in one
-- queue, sorted by priority, out of which `scheduler` takes the next to run. `kill`, `exit`,
-- `waitpid`, `chprio`, `start` and the message queues change states, the queue or priorities and
-- then call the scheduler. `start` builds a page directory from the list of free pages.
--
--   Base     helpers: Boolean tests on numbers, lists of numbers, runs that may fault.
--   Queue    shared/queue.h: circular doubly linked lists, at the level of their link fields.
--            Queue/Order is the sorted list that they stand for, Queue/Ring says when they do.
--   Paging   kernel/freelist.c and kernel/mapping.c: free pages, page directories and page tables
--            over a memory of words (Paging/Memory). Pushed, Mapped and Freed are about `libere_pages`.
--   Kernel   kernel/process.h and kernel/msgq.h: the state on which the system calls work.
--   Process  kernel/process.c, and `wait_clock` and `current_clock` of kernel/horloge.c:
--            Scheduler, Life (`kill`, `exit`, `waitpid`), Image and Start (`start`, `start2`). The
--            invariant is in Invariant; Switch, Steady and Schedule are about the scheduler, Prio about
--            `chprio`, Family, Dying and Death about `kill` and `exit`. Listing has
--            `print_all_processes`.
--   Msgq     kernel/msgq.c: Cells (creation and the cells of messages), Count (`pcount`), Send
--            (`psend`, `preceive`), Reset (`pdelete`, `preset`); Wake, Order and Create hold
--            theorems.
--   Screen   kernel/ecran.c and kernel/console_putbytes.c.
--   Console  kernel/cons_fonctions.c: the keyboard's buffer. Console/Typing is about typing a line,
--            Console/Glue is kernel/keyboard-glue.c.
--   Clock    kernel/horloge.c; Semaphore: kernel/semaphore.c; Heap: `sbrk` of kernel/mem.c and of
--            user/lib/sbrk.c.
--   System   all calls and interrupts as the steps of one machine (System/Reach), and that each
--            keeps the invariant: Alike (changes that the scheduler does not see), Wait (calls that
--            give up the processor), Reap (`waitpid`), Death, Newborn and Birth (`start`), Partner and
--            Messages (`psend`, `preceive`), and Calls (the rest).
--   Hash     kernel/hash.c: the hash table with open addressing. Names has the keys that are
--            strings; Probe, Search, Cycle and Aside are about searches, Writes, Stored and SameKey about
--            what the table holds at one size. Sound, Answers and Tally say when a table is in
--            order; Copied, Copy and Resize are about its changes of size, Change, Stores and Refine
--            about sequences of calls.
--   Cpu      kernel/boot/processor_structs.c and kernel/segment.h: descriptors, gates and the tasks
--            of exceptions; Cpu/Setup is `cpu_init`. Cpu/Descriptors is what the processor reads, Cpu/Traps
--            how an exception finds its task.
--   Debugger kernel/debugger.c, with `trap_handler` in Debugger/Handler: Hex and Dump are about the
--            registers on the screen, Keys about the loop over the keys. Lookup is kernel/gdb_serial_support.c; Paged and Copy are about it.
--   Shared   `shm_create`, `shm_acquire`, `shm_release` and `init_tab_sym` of kernel/process.c.
--   Boot     kernel/boot/early_mm.c: the first page tables. Regions and Protect hold theorems.
--   Shell    user/tests/test_perso/test_shell.c: the commands of the shell.
--   Tests    the theorems at concrete states.
--
-- How the code is represented. A C function from a state to a state is a function on a record that
-- holds the globals it reads and writes; one that may fail an assert or read through NULL has a
-- result in `Run`. An int whose only negative value is -1 is an `Option ℕ`. Each definition has the
-- name of the C function, its loops and branches have names of their own. A call that gives up the
-- processor is cut there: one function leads to the switch, another one goes on when the process
-- runs again. `ctx_sw` and `change_cr3` change registers that no other definition reads, so they
-- leave the state alone.
--
-- Bounds. A loop over links takes as many rounds as a parameter says, and the theorems ask for more
-- rounds than the queue has elements. The loop over children takes one round more than the table
-- has entries, and the theorems ask for a list of children that is no longer, and for a father in the table. `mem_alloc` is taken
-- to succeed and to clear the memory. The search of the hash table has a bound
-- on its probes, and seven more than the table has slots are enough. The sizes of the hash table are
-- compared as 32-bit longs, and a table of 2 ^ 28 slots or more faults, since its size in bytes
-- does not fit a 32-bit word.
--
-- Not modelled: the allocator shared/malloc.c, printf and its helpers, strings and number parsing,
-- which are copies of other libraries' code, as are the remote debugging protocol of
-- kernel/gdb_serial.c and the Linux keyboard driver; interrupt entry and context switch in assembly;
-- the ports of the serial line.
pub mod Base
pub mod Boot
pub mod Clock
pub mod Console
pub mod Cpu
pub mod Debugger
pub mod Hash
pub mod Heap
pub mod Kernel
pub mod Msgq
pub mod Paging
pub mod Process
pub mod Queue
pub mod Screen
pub mod Semaphore
pub mod Shared
pub mod Shell
pub mod System
pub mod Tests
