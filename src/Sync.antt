-- ===== src/Sync.antt =====
-- lab8/kern/sync/wait.c, wait.h and sem.c: wait queues, and semaphores on them. A `wait_t` and a
-- `wait_queue_t` are known by the addresses of their list entries, never 0; a semaphore is known by
-- its wait queue. Interrupts are off in each operation, so each is one step; `down` is two, before and
-- after the process is switched away.
pub mod Waits
pub mod Sem
pub mod Down
mod Tests
use nku_os.Base.{
  ℕ, zero, suc, ◌+◌, ◌-◌, ◌^◌, Bool, true, false, not, ◌&&◌, Option, none, some, ◌==◌, ltb,
  if◌then◌else◌, ◌>>=◌, ◌>>◌, assert,
}
use nku_os.Links.{
  Links, put, list_init, list_add_before, list_del_init, list_empty, list_next, list_prev,
}
use nku_os.Sched.{Kernel, ProcState, sleeping, wakeup_proc, schedule}

-- The scheduler's state, the links and the fields of every `wait_t`, and the value of every
-- semaphore.
pub record Sync : Type 0 where
  pub kernel : Kernel
  pub links : Links
  pub proc : ℕ → ℕ
  pub wakeup_flags : ℕ → ℕ
  pub wait_queue : ℕ → ℕ
  pub value : ℕ → ℕ

abbrev pub wt_interrupted : ℕ
wt_interrupted = 2 ^ 31

abbrev pub wt_ksem : ℕ
wt_ksem = 256

unfoldable pub wait_init : (wait proc : ℕ) → Sync → Sync
unfolding list_init
wait_init wait proc s = record s {
  proc = put s.proc wait proc;
  wakeup_flags = put s.wakeup_flags wait wt_interrupted;
  links = list_init wait s.links;
}

unfoldable pub wait_queue_init : ℕ → Sync → Sync
unfolding list_init
wait_queue_init queue s = record s { links = list_init queue s.links }

abbrev pub wait_in_queue : ℕ → Sync → Bool
unfolding list_empty
wait_in_queue wait s = not (list_empty wait s.links)

unfoldable pub wait_queue_add : (queue wait : ℕ) → Sync → Option Sync
unfolding list_add_before wait_in_queue
wait_queue_add queue wait s = do
  assert (not (wait_in_queue wait s) && not (s.proc wait == 0))
  some (record s {
    wait_queue = put s.wait_queue wait queue;
    links = list_add_before queue wait s.links;
  })

unfoldable pub wait_queue_del : (queue wait : ℕ) → Sync → Option Sync
unfolding list_del_init wait_in_queue
wait_queue_del queue wait s = do
  assert (wait_in_queue wait s && (s.wait_queue wait == queue))
  some (record s { links = list_del_init wait s.links })

-- 0 is NULL.
unfoldable pub wait_queue_next : (queue wait : ℕ) → Sync → Option ℕ
unfolding wait_in_queue
wait_queue_next queue wait s = do
  assert (wait_in_queue wait s && (s.wait_queue wait == queue))
  let le = list_next wait s.links
  some (if le == queue then 0 else le)

unfoldable pub wait_queue_prev : (queue wait : ℕ) → Sync → Option ℕ
unfolding wait_in_queue
wait_queue_prev queue wait s = do
  assert (wait_in_queue wait s && (s.wait_queue wait == queue))
  let le = list_prev wait s.links
  some (if le == queue then 0 else le)

unfoldable pub wait_queue_first : ℕ → Sync → ℕ
wait_queue_first queue s = let le = list_next queue s.links in if le == queue then 0 else le

unfoldable pub wait_queue_last : ℕ → Sync → ℕ
wait_queue_last queue s = let le = list_prev queue s.links in if le == queue then 0 else le

unfoldable pub wait_queue_empty : ℕ → Sync → Bool
unfolding list_empty
wait_queue_empty queue s = list_empty queue s.links

unfoldable pub wakeup_wait : (queue wait flags : ℕ) → (del : Bool) → Sync → Option Sync
unfolding wait_queue_del wakeup_proc
wakeup_wait queue wait flags del s = do
  s ← if del then wait_queue_del queue wait s else some s
  let s = record s { wakeup_flags = put s.wakeup_flags wait flags }
  k ← wakeup_proc (s.proc wait) s.kernel
  some (record s { kernel = k })

unfoldable pub wakeup_first : (queue flags : ℕ) → (del : Bool) → Sync → Option Sync
unfolding wait_queue_first wakeup_wait
wakeup_first queue flags del s =
    let wait = wait_queue_first queue s in
    if wait == 0 then some s else wakeup_wait queue wait flags del s

-- The loop of `wakeup_queue` that takes each wait off.
unfoldable pub wakeup_all : (fuel queue flags wait : ℕ) → Sync → Option Sync
unfolding wait_queue_first wakeup_wait
wakeup_all zero queue flags wait s = none
wakeup_all (suc n) queue flags wait s = do
  s ← wakeup_wait queue wait flags true s
  let next = wait_queue_first queue s
  let rest = wakeup_all n queue flags next s
  if next == 0 then some s else rest

-- The loop of `wakeup_queue` that leaves the waits in the queue.
unfoldable pub wakeup_each : (fuel queue flags wait : ℕ) → Sync → Option Sync
unfolding wait_queue_next wakeup_wait
wakeup_each zero queue flags wait s = none
wakeup_each (suc n) queue flags wait s = do
  s ← wakeup_wait queue wait flags false s
  next ← wait_queue_next queue wait s
  let rest = wakeup_each n queue flags next s
  if next == 0 then some s else rest

unfoldable pub wakeup_queue : (fuel queue flags : ℕ) → (del : Bool) → Sync → Option Sync
unfolding wait_queue_first wakeup_all wakeup_each
wakeup_queue fuel queue flags del s =
    let wait = wait_queue_first queue s in
    let loop =
      if del then wakeup_all fuel queue flags wait s else wakeup_each fuel queue flags wait s in
    if wait == 0 then some s else loop

unfoldable pub wait_current_set : (queue wait state : ℕ) → Sync → Option Sync
unfolding wait_init wait_queue_add
wait_current_set queue wait state s = do
  assert (not (s.kernel.current == 0))
  let s = wait_init wait s.kernel.current s
  let k = s.kernel
  wait_queue_add queue wait (record s {
    kernel = record k {
      state = put k.state k.current sleeping;
      wait_state = put k.wait_state k.current state;
    };
  })

unfoldable pub wait_current_del : (queue wait : ℕ) → Sync → Option Sync
unfolding wait_queue_del wait_in_queue
wait_current_del queue wait s = if wait_in_queue wait s then wait_queue_del queue wait s else some s

-- A negative value, which the source's int could hold, is not modelled.
unfoldable pub sem_init : (sem value : ℕ) → Sync → Sync
unfolding wait_queue_init
sem_init sem value s = wait_queue_init sem (record s { value = put s.value sem value })

-- `__up`. The value is an int; an increment beyond 2 ^ 31 - 1 is undefined in C, and `none` here.
unfoldable pub up_state : (sem state : ℕ) → Sync → Option Sync
unfolding wait_queue_first wakeup_wait
up_state sem state s =
    let wait = wait_queue_first sem s in
    let wake = do
      assert (s.kernel.wait_state (s.proc wait) == state)
      wakeup_wait sem wait state true s
    in let raise = do
      assert (ltb (s.value sem + 1) (2 ^ 31))
      some (record s { value = put s.value sem (s.value sem + 1) })
      in if wait == 0 then raise else wake

abbrev pub up : ℕ → Sync → Option Sync
unfolding up_state
up sem s = up_state sem wt_ksem s

-- `__down` as far as `schedule`: `true` if it returns 0 at once, `false` if the process has been
-- switched away.
unfoldable pub down_enter : (sem wait state : ℕ) → Sync → Option (Bool × Sync)
unfolding wait_current_set schedule
down_enter sem wait state s =
    let block = do
      s ← wait_current_set sem wait state s
      k ← schedule s.kernel
      some (false, record s { kernel = k })
    in if ltb 0 (s.value sem)
      then some (true, record s { value = put s.value sem (s.value sem - 1) })
      else block

-- `__down` from the return of `schedule` on, with its result.
unfoldable pub down_resume : (sem wait state : ℕ) → Sync → Option (ℕ × Sync)
unfolding wait_current_del
down_resume sem wait state s = do
  s ← wait_current_del sem wait s
  some (if s.wakeup_flags wait == state then 0 else s.wakeup_flags wait, s)

-- `down` before and after the switch.
unfoldable pub down : (sem wait : ℕ) → Sync → Option (Bool × Sync)
unfolding down_enter
down sem wait s = down_enter sem wait wt_ksem s

unfoldable pub down_woken : (sem wait : ℕ) → Sync → Option Sync
unfolding down_resume
down_woken sem wait s = do (flags, s) ← down_resume sem wait wt_ksem s; assert (flags == 0); some s

unfoldable pub try_down : ℕ → Sync → Bool × Sync
try_down sem s =
    if ltb 0 (s.value sem)
    then (true, record s { value = put s.value sem (s.value sem - 1) })
    else (false, s)
