-- ===== src/Proc/Forks.antt =====
-- The failures of do_fork.
use nku_os.Base.{
  ℕ, ◌-◌, ◌^◌, ◌<◌, ◌≡◌, ◌≢◌, refl, true, false, arith, none, some, leb, ne→==, ==-refl,
}
use nku_os.Links.{put}
use nku_os.Errors.{e_no_mem}
use nku_os.Sched.{uninit}
use nku_os.Proc.Life.{Life, max_process, do_fork, copy_mm, new_proc, setup_kstack, put_kstack}

-- What a fork leaves behind that fails when it copies the address space: the new structure has been
-- freed, the kernel stack has not, and the process table is as it was for every other process.
pub record Leaked (s s' : Life) (proc stack : ℕ) : Type 0 where
  pub proc_free : s'.in_use proc ≡ false
  pub stack_held : s'.in_use stack ≡ true
  pub links : s'.table.links ≡ s.table.links
  pub nr_process : s'.table.nr_process ≡ s.table.nr_process
  pub children : (p : ℕ) → p ≢ proc → s'.table.cptr p ≡ s.table.cptr p

stackless :
    (fuel : ℕ) (hash_head : ℕ → ℕ) (boot_cr3 p page dup : ℕ) (s : Life)
    → leb max_process s.table.nr_process ≡ false
    → p ≢ 0
    → do_fork fuel hash_head boot_cr3 p 0 (copy_mm false 0 page dup) s ≡ none
unfolding do_fork copy_mm new_proc put_kstack setup_kstack
stackless fuel hash_head boot_cr3 p page dup s room some_p =
    rw (room, ne→== p 0 some_p, put, ==-refl p) refl

-- The state in which a fork that cannot copy the address space returns.
abbrev failed : (boot_cr3 p k : ℕ) → Life → Life
failed boot_cr3 p k s =
    let t = s.table in
    record s {
      table = record t {
        pid = put t.pid p (2 ^ 32 - 1);
        state = put t.state p uninit;
        cr3 = put t.cr3 p boot_cr3;
        parent = put (put t.parent p 0) p s.current;
        cptr = put t.cptr p 0;
        yptr = put t.yptr p 0;
        optr = put t.optr p 0;
      };
      wait_state = put s.wait_state p 0;
      exiting = put s.exiting p false;
      exit_code = put s.exit_code p 0;
      kstack = put (put s.kstack p 0) p k;
      mm = put s.mm p 0;
      in_use = put (put (put s.in_use p true) k true) p false;
    }

failed-Leaked : (boot_cr3 p k : ℕ) (s : Life) → k ≢ p → Leaked s (failed boot_cr3 p k s) p k
failed-Leaked boot_cr3 p k s apart = record {
  proc_free = rw (==-refl p) refl;
  stack_held = rw (ne→== k p apart, ==-refl k) refl;
  links = refl;
  nr_process = refl;
  children = λ q other. rw (ne→== q p other) refl;
}

fails :
    (fuel : ℕ) (hash_head : ℕ → ℕ) (boot_cr3 p k page dup : ℕ) (s : Life)
    → leb max_process s.table.nr_process ≡ false
    → p ≢ 0
    → k ≢ 0
    → s.current ≢ p
    → s.mm s.current ≢ 0
    → do_fork fuel hash_head boot_cr3 p k (copy_mm false 0 page dup) s
      ≡ some (e_no_mem, 0, failed boot_cr3 p k s)
unfolding do_fork copy_mm new_proc setup_kstack
fails fuel hash_head boot_cr3 p k page dup s room some_p some_k other has_mm =
    rw
      (
        room,
        ne→== p 0 some_p,
        ne→== k 0 some_k,
        put,
        ne→== s.current p other,
        ne→== (s.mm s.current) 0 has_mm,
      )
      refl

-- In `do_fork`, with fewer than MAX_PROCESS processes, for a running process with an address space
-- that is to be copied, and with the new structure and its stack at different addresses that are
-- not NULL, the structure's not that of the running process: if kmalloc fails for the structure,
-- it returns E_NO_MEM and changes nothing. If there is no memory for the kernel stack, it does not
-- return: it frees the stack at address 0, which panics. If kmalloc fails for the copy of the
-- address space, it returns E_NO_MEM with the new structure free and the kernel stack still in
-- use.
pub do_fork_no_memory :
    (fuel : ℕ) (hash_head : ℕ → ℕ) (boot_cr3 proc stack page dup : ℕ) (s : Life)
    → s.table.nr_process < max_process
    → proc ≢ 0
    → stack ≢ 0
    → stack ≢ proc
    → s.current ≢ proc
    → s.mm s.current ≢ 0
    → let fork = λ (proc stack : ℕ).
      do_fork fuel hash_head boot_cr3 proc stack (copy_mm false 0 page dup) s in
      (fork 0 stack ≡ some (e_no_mem, 0, s))
      × (fork proc 0 ≡ none)
      × ((s' : Life) × (fork proc stack ≡ some (e_no_mem, 0, s')) × Leaked s s' proc stack)
unfolding do_fork
do_fork_no_memory fuel hash_head boot_cr3 proc stack page dup s room some_proc some_stack apart
      other has_mm =
    let r : leb max_process s.table.nr_process ≡ false = ground arith in
    (
      rw r refl,
      stackless fuel hash_head boot_cr3 proc page dup s r some_proc,
      (
        failed boot_cr3 proc stack s,
        fails fuel hash_head boot_cr3 proc stack page dup s r some_proc some_stack other has_mm,
        failed-Leaked boot_cr3 proc stack s apart,
      ),
    )
