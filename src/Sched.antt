-- ===== src/Sched.antt =====
-- lab8/kern/schedule/sched.c with the round robin class of lab6/kern/schedule/default_sched_c.c.
-- A process is the address of its `proc_struct`, never 0; its `run_link` has the same number as its
-- address, and the sentinel `rq->run_list` is the address 0. Timers are numbered in the same way,
-- with the sentinel `timer_list` at 0.
pub mod Queue
pub mod Fair
pub mod Turns
pub mod Tests
use nku_os.Base.{
  ℕ, zero, suc, ◌+◌, ◌-◌, ◌/◌, ◌%◌, ◌^◌, Bool, true, false, not, ◌&&◌, ◌||◌, Option, none, some,
  ◌==◌, ltb, leb, if◌then◌else◌, u32, ◌>>=◌, ◌>>◌, assert,
}
use nku_os.Links.{Links, put, list_init, list_add_before, list_del_init, list_empty, list_next}

-- `enum proc_state`.
pub data ProcState : Type 0 where
  uninit sleeping runnable zombie : ProcState

abbrev pub is_runnable : ProcState → Bool
is_runnable runnable = true
is_runnable _ = false

abbrev pub is_zombie : ProcState → Bool
is_zombie zombie = true
is_zombie _ = false

-- The fields of every `proc_struct` and every `timer_t` that the scheduler uses, the run queue, and
-- the globals. `rq p` says that `p->rq` is the run queue. `time_slice` is an int that is only ever
-- 0, set to `max_time_slice`, or decremented where it is positive.
pub record Kernel : Type 0 where
  pub state : ℕ → ProcState
  pub wait_state : ℕ → ℕ
  pub need_resched : ℕ → Bool
  pub runs : ℕ → ℕ
  pub time_slice : ℕ → ℕ
  pub rq : ℕ → Bool
  pub run_links : Links
  pub proc_num : ℕ
  pub max_time_slice : ℕ
  pub current : ℕ
  pub idleproc : ℕ
  pub timer_links : Links
  pub expires : ℕ → ℕ
  pub timer_proc : ℕ → ℕ

unfoldable pub rr_init : Kernel → Kernel
unfolding list_init
rr_init k = record k { run_links = list_init 0 k.run_links; proc_num = 0 }

unfoldable pub rr_enqueue : ℕ → Kernel → Option Kernel
unfolding list_add_before list_empty
rr_enqueue proc k = do
  assert (list_empty proc k.run_links)
  some (record k {
    run_links = list_add_before 0 proc k.run_links;
    time_slice =
        if (k.time_slice proc == 0) || ltb k.max_time_slice (k.time_slice proc)
        then put k.time_slice proc k.max_time_slice
        else k.time_slice;
    rq = put k.rq proc true;
    proc_num = u32 (k.proc_num + 1);
  })

unfoldable pub rr_dequeue : ℕ → Kernel → Option Kernel
unfolding list_del_init list_empty
rr_dequeue proc k = do
  assert (not (list_empty proc k.run_links) && k.rq proc)
  some (record k {
    run_links = list_del_init proc k.run_links;
    proc_num = u32 (k.proc_num + (2 ^ 32 - 1));
  })

-- 0 is NULL.
unfoldable pub rr_pick_next : Kernel → ℕ
rr_pick_next k = let le = list_next 0 k.run_links in if le == 0 then 0 else le

unfoldable pub rr_proc_tick : ℕ → Kernel → Kernel
rr_proc_tick proc k =
    let left = if ltb 0 (k.time_slice proc) then k.time_slice proc - 1 else k.time_slice proc in
    record k {
      time_slice = put k.time_slice proc left;
      need_resched = if left == 0 then put k.need_resched proc true else k.need_resched;
    }

unfoldable pub sched_class_enqueue : ℕ → Kernel → Option Kernel
unfolding rr_enqueue
sched_class_enqueue proc k = if proc == k.idleproc then some k else rr_enqueue proc k

unfoldable pub sched_class_proc_tick : ℕ → Kernel → Kernel
unfolding rr_proc_tick
sched_class_proc_tick proc k =
    if proc == k.idleproc
    then record k { need_resched = put k.need_resched proc true }
    else rr_proc_tick proc k

abbrev pub sched_class_dequeue : ℕ → Kernel → Option Kernel
sched_class_dequeue proc k = rr_dequeue proc k

abbrev pub sched_class_pick_next : Kernel → ℕ
sched_class_pick_next k = rr_pick_next k

-- The globals after `sched_init`; MAX_TIME_SLICE is 5.
unfoldable pub sched_init : Kernel → Kernel
unfolding rr_init list_init
sched_init k = rr_init (record k { timer_links = list_init 0 k.timer_links; max_time_slice = 5 })

unfoldable pub wakeup_proc : ℕ → Kernel → Option Kernel
unfolding sched_class_enqueue
wakeup_proc proc k = do
  assert (not (is_zombie (k.state proc)))
  let woken = record k { state = put k.state proc runnable; wait_state = put k.wait_state proc 0 }
  if is_runnable (k.state proc)
      then some k
      else if proc == k.current
      then some woken
      else sched_class_enqueue proc woken

-- `proc_run` as lab5/kern/process/proc.c fills it in. The page table and the registers, which it
-- switches too, are not part of the model.
unfoldable pub proc_run : ℕ → Kernel → Kernel
proc_run proc k = if proc == k.current then k else record k { current = proc }

-- `next->runs ++; if (next != current) proc_run(next);`
unfoldable pub run_next : ℕ → Kernel → Kernel
unfolding proc_run
run_next next k =
    let k = record k { runs = put k.runs next (u32 (k.runs next + 1)) } in
    if next == k.current then k else proc_run next k

-- The part of `schedule` behind the enqueueing of the current process.
unfoldable pub dispatch : Kernel → Option Kernel
unfolding rr_pick_next rr_dequeue run_next
dispatch k = do
  let picked = sched_class_pick_next k
  k ← if picked == 0 then some k else sched_class_dequeue picked k
  let next = if picked == 0 then k.idleproc else picked
  some (run_next next k)

unfoldable pub schedule : Kernel → Option Kernel
unfolding sched_class_enqueue dispatch
schedule k = do
  let k = record k { need_resched = put k.need_resched k.current false }
  k ← if is_runnable (k.state k.current) then sched_class_enqueue k.current k else some k
  dispatch k
