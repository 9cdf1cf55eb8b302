-- ===== src/Proc.antt =====
-- The process table of lab5/kern/process/proc.c: the fields that `alloc_proc` sets, the list of all
-- processes, the tree of their relations, the hash lists, and `get_pid`. A process is known by its
-- address, never 0, for each of its list entries; `proc_list` has the address 0 among the entries
-- `list_link`. A hash list head is known by `hash_head` and its number, apart from all processes.
pub mod Pid
pub mod Life
pub mod Wait
pub mod Family
pub mod Leave
pub mod Reap
pub mod Lifetime
pub mod Waiting
pub mod Adopt
pub mod Exit
pub mod Forks
mod Tests
mod LifeTests
use nku_os.Base.{
  ℕ, zero, suc, ◌+◌, ◌-◌, ◌*◌, ◌/◌, ◌^◌, ◌%◌, Bool, true, false, not, ◌&&◌, ◌||◌, Option, none,
  some, ◌==◌, ltb, leb, if◌then◌else◌, u32, ◌>>=◌,
}
use nku_os.Links.{Links, put, list_add, list_del, list_next}
use nku_os.Sched.{ProcState, uninit}

abbrev pub max_pid : ℕ
max_pid = 8192

-- The links, the relations and the identifiers of all processes, and the statics of `get_pid`.
-- `pid` is -1 in a new process, which is 2 ^ 32 - 1 here.
pub record Table : Type 0 where
  pub links : Links
  pub hash_links : Links
  pub pid : ℕ → ℕ
  pub state : ℕ → ProcState
  pub cr3 : ℕ → ℕ
  pub parent : ℕ → ℕ
  pub cptr : ℕ → ℕ
  pub yptr : ℕ → ℕ
  pub optr : ℕ → ℕ
  pub nr_process : ℕ
  pub next_safe : ℕ
  pub last_pid : ℕ

-- `alloc_proc` with `proc` from `kmalloc`; the fields that `memset` clears and that are not here are
-- left out.
unfoldable pub alloc_proc : (boot_cr3 proc : ℕ) → Table → Table
alloc_proc boot_cr3 proc t =
    if not (proc == 0)
    then record t {
      state = put t.state proc uninit;
      pid = put t.pid proc (2 ^ 32 - 1);
      cr3 = put t.cr3 proc boot_cr3;
      parent = put t.parent proc 0;
      cptr = put t.cptr proc 0;
      yptr = put t.yptr proc 0;
      optr = put t.optr proc 0;
    }
    else t

unfoldable pub set_links : ℕ → Table → Table
unfolding list_add
set_links proc t =
    let older = t.cptr (t.parent proc) in
    let young = put t.yptr proc 0 in
    record t {
      links = list_add 0 proc t.links;
      optr = put t.optr proc older;
      yptr = if not (older == 0) then put young older proc else young;
      cptr = put t.cptr (t.parent proc) proc;
      nr_process = t.nr_process + 1;
    }

unfoldable pub remove_links : ℕ → Table → Table
unfolding list_del
remove_links proc t =
    let older = t.optr proc in
    let yptr = if not (older == 0) then put t.yptr older (t.yptr proc) else t.yptr in
    let younger = yptr proc in
    record t {
      links = list_del proc t.links;
      yptr = yptr;
      optr = if not (younger == 0) then put t.optr younger (t.optr proc) else t.optr;
      cptr = if not (younger == 0) then t.cptr else put t.cptr (t.parent proc) (t.optr proc);
      nr_process = t.nr_process - 1;
    }

-- `hash32` of lab5/libs/hash.c.
unfoldable pub hash32 : (val bits : ℕ) → ℕ
hash32 val bits = u32 (val * 2654404609) / 2 ^ (32 - bits)

-- `pid_hashfn`: HASH_SHIFT is 10.
unfoldable pub pid_hashfn : ℕ → ℕ
unfolding hash32
pid_hashfn x = hash32 x 10

unfoldable pub hash_proc : (hash_head : ℕ → ℕ) → ℕ → Table → Table
unfolding list_add pid_hashfn
hash_proc hash_head proc t = record t {
  hash_links = list_add (hash_head (pid_hashfn (t.pid proc))) proc t.hash_links;
}

unfoldable pub unhash_proc : ℕ → Table → Table
unfolding list_del
unhash_proc proc t = record t { hash_links = list_del proc t.hash_links }

-- The loop of `find_proc` over the list with the head `list`.
unfoldable pub find_proc_loop : (fuel list le pid : ℕ) → Table → Option ℕ
find_proc_loop zero list le pid t = none
find_proc_loop (suc n) list le pid t =
    let le' = list_next le t.hash_links in
    let rest = find_proc_loop n list le' pid t in
    if le' == list then some 0 else if t.pid le' == pid then some le' else rest

unfoldable pub find_proc : (fuel : ℕ) → (hash_head : ℕ → ℕ) → (pid : ℕ) → Table → Option ℕ
unfolding find_proc_loop pid_hashfn
find_proc fuel hash_head pid t =
    let list = hash_head (pid_hashfn pid) in
    let found = find_proc_loop fuel list list pid t in
    if ltb 0 pid && ltb pid max_pid then found else some 0

-- The loop of `get_pid` from behind `le` on, with `last_pid` and `next_safe`; `repeat` starts again at
-- the head.
unfoldable pub pid_scan : (fuel le last safe : ℕ) → Table → Option (ℕ × ℕ)
pid_scan zero le last safe t = none
pid_scan (suc n) le last safe t =
    let le' = list_next le t.links in
    let next = last + 1 in
    let again = pid_scan n 0 (if leb max_pid next then 1 else next) max_pid t in
    let passed = pid_scan n le' next safe t in
    let tighter = pid_scan n le' last (t.pid le') t in
    let same = pid_scan n le' last safe t in
    if le' == 0
    then some (last, safe)
    else if t.pid le' == last
    then if leb safe next then again else passed
    else if ltb last (t.pid le') && ltb (t.pid le') safe
    then tighter
    else same

-- The pid, and the table with the new statics.
unfoldable pub get_pid : (fuel : ℕ) → Table → Option (ℕ × Table)
unfolding pid_scan
get_pid fuel t = do
  let next = t.last_pid + 1
  let last = if leb max_pid next then 1 else next
  let inside = pid_scan fuel 0 last max_pid t
  (last, safe) ←
      if leb max_pid next || leb t.next_safe next then inside else some (last, t.next_safe)
  some (last, record t { last_pid = last; next_safe = safe })
