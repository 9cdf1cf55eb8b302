-- ===== src/Proc/Life.antt =====
-- lab5/kern/process/proc.c: do_fork and do_exit, and wakeup_proc of lab5's sched.c. A
-- process that gives up the processor is modelled up to the call of `schedule`. What kmalloc and
-- alloc_pages return are arguments, 0 if they fail; a page is known by its kernel virtual address.
use nku_os.Base.{
  ℕ, zero, suc, ◌+◌, ◌-◌, ◌%◌, ◌^◌, Bool, true, false, not, ◌&&◌, Option, none, some, ◌==◌, leb,
  if◌then◌else◌, ◌>>=◌, ◌>>◌, assert,
}
use nku_os.Links.{put}
use nku_os.Errors.{e_no_mem, e_no_free_proc}
use nku_os.Sched.{ProcState, runnable, zombie, is_zombie, is_runnable}
use nku_os.Proc.{Table, alloc_proc, set_links, hash_proc, get_pid}

abbrev pub max_process : ℕ
max_process = 4096

abbrev pub wt_child : ℕ
wt_child = 2 ^ 31 + 1

abbrev pub kern_base : ℕ
kern_base = 0xFFFFFFFFC0200000

-- The process table, the other fields of each process and of each mm, and the pages and structures in
-- use. The flag `exiting` is PF_EXITING.
pub record Life : Type 0 where
  pub table : Table
  pub wait_state : ℕ → ℕ
  pub exiting : ℕ → Bool
  pub exit_code : ℕ → ℕ
  pub kstack : ℕ → ℕ
  pub mm : ℕ → ℕ
  pub mm_count : ℕ → ℕ
  pub pgdir : ℕ → ℕ
  pub in_use : ℕ → Bool
  pub current : ℕ
  pub idleproc : ℕ
  pub initproc : ℕ

abbrev pub with_state : ℕ → ProcState → Life → Life
with_state proc st s = record s { table = record s.table { state = put s.table.state proc st } }

-- `alloc_proc`, with the fields that its `memset` clears.
unfoldable pub new_proc : (boot_cr3 proc : ℕ) → Life → Life
unfolding alloc_proc
new_proc boot_cr3 proc s =
    if not (proc == 0)
    then record s {
      table = alloc_proc boot_cr3 proc s.table;
      wait_state = put s.wait_state proc 0;
      exiting = put s.exiting proc false;
      exit_code = put s.exit_code proc 0;
      kstack = put s.kstack proc 0;
      mm = put s.mm proc 0;
      in_use = put s.in_use proc true;
    }
    else s

-- The warning at a runnable process is left out.
unfoldable pub wakeup : ℕ → Life → Option Life
wakeup proc s = do
  assert (not (is_zombie (s.table.state proc)))
  some (
      if not (is_runnable (s.table.state proc))
      then record (with_state proc runnable s) { wait_state = put s.wait_state proc 0 }
      else s)

-- `setup_kstack`, given what `alloc_pages` returns.
unfoldable pub setup_kstack : (page proc : ℕ) → Life → ℕ × Life
setup_kstack page proc s =
    if not (page == 0)
    then (0, record s { kstack = put s.kstack proc page; in_use = put s.in_use page true })
    else (e_no_mem, s)

-- `kva2page` panics below KERNBASE.
unfoldable pub put_kstack : ℕ → Life → Option Life
put_kstack proc s = do
  assert (leb kern_base (s.kstack proc))
  some (record s { in_use = put s.in_use (s.kstack proc) false })

-- `kfree`.
abbrev pub free : ℕ → Life → Life
free a s = record s { in_use = put s.in_use a false }

-- `setup_pgdir`; the entries of the page table are not part of the model.
unfoldable pub setup_pgdir : (page mm : ℕ) → Life → ℕ × Life
setup_pgdir page mm s =
    if page == 0
    then (e_no_mem, s)
    else (0, record s { pgdir = put s.pgdir mm page; in_use = put s.in_use page true })

-- `copy_mm` from `good_mm` on; `PADDR` panics below KERNBASE.
unfoldable pub good_mm : (mm proc : ℕ) → Life → Option (ℕ × Life)
good_mm mm proc s = do
  assert (leb kern_base (s.pgdir mm))
  let t = s.table
  some (
    0,
    record s {
      mm_count = put s.mm_count mm ((s.mm_count mm + 1) % 2 ^ 32);
      mm = put s.mm proc mm;
      table = record t { cr3 = put t.cr3 proc (s.pgdir mm - (kern_base - 0x80200000)) };
    },
  )

-- `copy_mm` with what mm_create, alloc_page and dup_mmap return.
unfoldable pub copy_mm : (share : Bool) → (new page dup proc : ℕ) → Life → Option (ℕ × Life)
unfolding setup_pgdir good_mm
copy_mm share new page dup proc s =
    let oldmm = s.mm s.current in
    let made = record s { mm_count = put s.mm_count new 0; in_use = put s.in_use new true } in
    let (ret, s₁) = setup_pgdir page new made in
    let duplicate =
      if not (ret == 0)
      then some (e_no_mem, free new s₁)
      else if not (dup == 0)
      then some (dup, free new (free (s₁.pgdir new) s₁))
      else good_mm new proc s₁ in
    if oldmm == 0
    then some (0, s)
    else if share
    then good_mm oldmm proc s
    else if new == 0
    then some (e_no_mem, s)
    else duplicate

-- `do_fork` with what kmalloc and alloc_pages return, and with `copy_mm` at its flags as `copy`. The
-- registers, which `copy_thread` sets, are not part of the model. The result is the error, or 0 and the
-- pid.
unfoldable pub do_fork :
    (fuel : ℕ)
    → (hash_head : ℕ → ℕ) → (boot_cr3 proc stack : ℕ) → (ℕ → Life → Option (ℕ × Life))
    → Life
    → Option (ℕ × ℕ × Life)
unfolding new_proc setup_kstack put_kstack set_links hash_proc wakeup
do_fork fuel hash_head boot_cr3 proc stack copy s =
    let s₁ = new_proc boot_cr3 proc s in
    let s₂ = record s₁ {
      table = record s₁.table { parent = put s₁.table.parent proc s.current };
    } in
    let (ret, s₃) = setup_kstack stack proc s₂ in
    let cleanup_kstack = do s ← put_kstack proc s₃; some (e_no_mem, 0, free proc s)
    in let go = do
      (ret, s) ← copy proc s₃
      let run = do
        (pid, t) ← get_pid fuel s.table
        let t = hash_proc hash_head proc (record t { pid = put t.pid proc pid })
        s ← wakeup proc (record s { table = set_links proc t })
        some (0, pid, s)
      if not (ret == 0) then some (e_no_mem, 0, free proc s) else run
      in if leb max_process s.table.nr_process
        then some (e_no_free_proc, 0, s)
        else if proc == 0
        then some (e_no_mem, 0, s)
        else if not (ret == 0)
        then cleanup_kstack
        else go

-- The loop of `do_exit` gives `proc`, the first child of the current process, to `initproc`.
unfoldable pub give : ℕ → Life → Life
give proc s =
    let t = s.table in
    let old = t.cptr s.initproc in
    let young = put t.yptr proc 0 in
    record s {
      table = record t {
        cptr = put (put t.cptr s.current (t.optr proc)) s.initproc proc;
        yptr = if not (old == 0) then put young old proc else young;
        optr = put t.optr proc old;
        parent = put t.parent proc s.initproc;
      };
    }

-- The loop of `do_exit`, which gives the children of the current process to `initproc`.
unfoldable pub adopt : (fuel : ℕ) → Life → Option Life
unfolding give wakeup
adopt zero s = none
adopt (suc n) s =
    let proc = s.table.cptr s.current in
    let step = do
      s ←
          if is_zombie (s.table.state proc) && (s.wait_state s.initproc == wt_child)
          then wakeup s.initproc (give proc s)
          else some (give proc s)
      adopt n s
    in if proc == 0 then some s else step

-- How `do_exit` leaves the address space; `exit_mmap` is not part of the model. The
-- page table has been allocated, above KERNBASE.
unfoldable pub leave_mm : Life → Life
leave_mm s =
    let mm = s.mm s.current in
    let count = (s.mm_count mm + (2 ^ 32 - 1)) % 2 ^ 32 in
    let left = record s { mm_count = put s.mm_count mm count; mm = put s.mm s.current 0 } in
    if mm == 0 then s else if count == 0 then free mm (free (s.pgdir mm) left) else left

unfoldable pub turn_zombie : (error_code : ℕ) → Life → Life
turn_zombie error_code s = record (with_state s.current zombie s) {
  exit_code = put s.exit_code s.current error_code;
}

-- `do_exit` up to `schedule`.
unfoldable pub do_exit : (fuel error_code : ℕ) → Life → Option Life
unfolding leave_mm turn_zombie wakeup adopt
do_exit fuel error_code s = do
  assert (not (s.current == s.idleproc) && not (s.current == s.initproc))
  let s₂ = turn_zombie error_code (leave_mm s)
  let parent = s₂.table.parent s₂.current
  s₃ ← if s₂.wait_state parent == wt_child then wakeup parent s₂ else some s₂
  adopt fuel s₃
