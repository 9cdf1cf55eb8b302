-- ===== src/Lib.antt =====
-- The kernel of the uCore labs (lab0 to lab8), a teaching kernel for RISC-V in C. Each lab is the whole
-- kernel at one stage; a component is taken from the lab in which it is complete.
--
-- The parts and how they interact:
--   Links  lab8/libs/list.h, the circular doubly linked lists that every other part is built on. A store of
--          the two pointer fields of every entry; each operation writes it assignment by assignment.
--          `Ring h hd xs` says that the list with the sentinel `hd` holds the entries `xs`.
--   Pmm    the page allocators lab8/kern/mm/default_pmm.c (first fit) and lab2/kern/mm/best_fit_pmm.c
--          (best fit): the free list is a `Links`, a block is known by its first page.
--   Sched  lab8/kern/schedule/sched.c with the round robin class of lab6/kern/schedule/default_sched_c.c
--          and proc_run of lab5/kern/process/proc.c: the run queue is a `Links`.
--   Timer  the timers of lab8/kern/schedule/sched.c, on the same state; they wake processes.
--   Sync   lab8/kern/sync/wait.c and sem.c: wait queues are `Links`; up wakes a process by the scheduler's
--          wakeup_proc, and down gives up the processor by schedule.
--   Proc   the process table of lab5/kern/process/proc.c: links between processes and get_pid; in Proc.Life and
--          Proc.Wait do_fork, do_exit, do_wait and do_kill, with what kmalloc and alloc_pages return as arguments.
--          `Children t p xs` ties the pointers between relatives to a sequence; Proc.Lifetime puts an exit and
--          a wait together, with a change of `current` for the switch between them.
--   Skew   lab8/libs/skew_heap.h: heaps as a store of three pointers for every entry; `IsAt h t a` says that the
--          binary tree `t` lies at `a`.
--   Vmm    the areas of an address space, lab8/kern/mm/vmm.c.
--   Swap   the page replacement policies lab3/kern/mm/swap_fifo.c, swap_lru.c and swap_clock.c.
--   Bitmap lab8/kern/fs/sfs/bitmap.c, the free map of the disk (definitions only).
--   Str    lab8/libs/string.c over a memory of bytes.
--   Rand   lab8/libs/rand.c (definitions only).
--   Vfs    lab8/kern/fs/vfs: the counts of inodes (inode.c), the lookup of a path (vfslookup.c) and vfs_open
--          (vfsfile.c). A file system is a record of operations on a world of any type.
--   File   lab8/kern/fs/file.c and fs.c: the table of open files of a process, over Vfs; `IsFiles` ties the
--          table to the counts of the inodes.
--   Errors lab8/libs/error.h.
--   Base   the names that all share: Boolean tests, lists over native numbers, Option as an error monad.
--
-- The functions keep their C names (RR_enqueue is rr_enqueue; up_state is __up; __down is down_enter and
-- down_resume, before and after the switch). Pointers are numbers with NULL as 0, structures are records of
-- fields over addresses, and a struct's list entry stands for the struct. A failed assertion is `none`.
-- Unsigned fields wrap at their width. Where C leaves an overflow undefined (the value of a semaphore,
-- the number in strtol) the model returns `none`.
--
-- Loops whose end is not in their shape run on fuel and return `none` without it; each theorem says how
-- many rounds are enough, as a number of entries or bytes, and that the call then returns.
--
-- Interrupts are off in every operation of the scheduler, the timers and the wait queues, so each is
-- one step. The page table, the switch of registers and stacks, memory barriers, console output and
-- the self-checks of the sources are left out. kmalloc is a parameter: its result is an argument. Of
-- lab5's proc.c the registers, load_icode, do_execve and the kernel threads are left out, and a
-- process that gives up the processor is followed up to its call of schedule. The drivers, the file
-- systems on disk, trap and system call handling, page tables, kmalloc, the user programs and the
-- parts of lab6 to lab8 that are unfilled exercises are not modelled.
pub mod Base
pub mod Bitmap
pub mod Errors
pub mod File
pub mod Links
pub mod Pmm
pub mod Proc
pub mod Rand
pub mod Sched
pub mod Skew
pub mod Str
pub mod Swap
pub mod Sync
pub mod Timer
pub mod Vfs
pub mod Vmm
