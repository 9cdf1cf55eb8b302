-- ===== src/Proc/Wait.antt =====
-- lab5/kern/process/proc.c: do_wait, one round up to the call of `schedule`, and do_kill.
use nku_os.Base.{
  ℕ, zero, suc, ◌^◌, Bool, true, false, not, ◌&&◌, ◌||◌, Option, none, some, ◌==◌, leb,
  if◌then◌else◌, ◌>>=◌, ◌>>◌, assert,
}
use nku_os.Links.{put}
use nku_os.Errors.{e_bad_proc, e_inval, e_killed}
use nku_os.Sched.{sleeping, is_zombie}
use nku_os.Proc.{Table, remove_links, unhash_proc, find_proc}
use nku_os.Proc.Life.{Life, wt_child, wakeup, put_kstack, with_state, free}

-- The search of `do_wait` among the children, from `proc` on: whether there is a child, and the first
-- zombie, or 0.
unfoldable pub wait_scan : (fuel proc : ℕ) → (haskid : Bool) → Table → Option (Bool × ℕ)
wait_scan zero proc haskid t = none
wait_scan (suc n) proc haskid t =
    let rest = wait_scan n (t.optr proc) true t in
    if proc == 0
    then some (haskid, 0)
    else if is_zombie (t.state proc)
    then some (true, proc)
    else rest

-- What a round of `do_wait` ends with: the result, and what is written to `*code_store` if anything is.
pub data Waited : Type 0 where
  returned : (ret : ℕ) → (stored : Option ℕ) → Waited
  asleep : Waited

-- `do_wait` behind `found`.
unfoldable pub reap : (code_store proc : ℕ) → Life → Option (Waited × Life)
unfolding put_kstack unhash_proc remove_links
reap code_store proc s = do
  assert (not ((proc == s.idleproc) || (proc == s.initproc)))
  let stored = if not (code_store == 0) then some (s.exit_code proc) else none
  s ← put_kstack proc (record s { table = remove_links proc (unhash_proc proc s.table) })
  some (returned 0 stored, free proc s)

-- One round of `do_wait`, with the result of its `user_mem_check`.
unfoldable pub do_wait :
    (fuel : ℕ)
    → (hash_head : ℕ → ℕ) → (pid code_store : ℕ) → (checked : Bool) → Life
    → Option (Waited × Life)
unfolding find_proc wait_scan reap
do_wait fuel hash_head pid code_store checked s =
    let t = s.table in
    let one = do
      proc ← find_proc fuel hash_head pid t
      let mine = not (proc == 0) && (t.parent proc == s.current)
      some (mine, (if mine && is_zombie (t.state proc) then proc else 0))
    in let go = do
      (haskid, proc) ← if not (pid == 0) then one else wait_scan fuel (t.cptr s.current) false t
      let found = reap code_store proc s
      let sleep = record (with_state s.current sleeping s) {
        wait_state = put s.wait_state s.current wt_child;
      }
      if not (proc == 0)
          then found
          else some (if haskid then (asleep, sleep) else (returned e_bad_proc none, s))
      in if not (code_store == 0) && not checked then some (returned e_inval none, s) else go

unfoldable pub do_kill : (fuel : ℕ) → (hash_head : ℕ → ℕ) → (pid : ℕ) → Life → Option (ℕ × Life)
unfolding find_proc wakeup
do_kill fuel hash_head pid s = do
  proc ← find_proc fuel hash_head pid s.table
  let marked = record s { exiting = put s.exiting proc true }
  let kill = do
    s ← if leb (2 ^ 31) (s.wait_state proc) then wakeup proc marked else some marked
    some (0, s)
  if proc == 0 then some (e_inval, s) else if s.exiting proc then some (e_killed, s) else kill
