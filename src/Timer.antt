-- ===== src/Timer.antt =====
-- The timer list of lab8/kern/schedule/sched.c. The list is ordered by expiry, and each timer's
-- `expires` counts from the expiry of the one before it.
pub mod Dues
pub mod Laws
mod Tests
use nku_os.Base.{
  ℕ, zero, suc, ◌+◌, ◌-◌, ◌/◌, ◌%◌, ◌^◌, Bool, true, false, not, ◌&&◌, ◌||◌, Option, none, some,
  ◌==◌, ltb, if◌then◌else◌, u32, ◌>>=◌, ◌>>◌, assert,
}
use nku_os.Links.{Links, put, list_init, list_add_before, list_del_init, list_empty, list_next}
use nku_os.Sched.{Kernel, wakeup_proc, sched_class_proc_tick}

unfoldable pub timer_init : (timer proc expires : ℕ) → Kernel → Kernel
unfolding list_init
timer_init timer proc e k = record k {
  expires = put k.expires timer e;
  timer_proc = put k.timer_proc timer proc;
  timer_links = list_init timer k.timer_links;
}

-- The loop of `add_timer`: the entry before which the timer goes, and what `expires` becomes. Both
-- differences are taken where they are not negative.
unfoldable pub add_scan : (fuel le timer : ℕ) → Links → (ℕ → ℕ) → Option (ℕ × (ℕ → ℕ))
add_scan zero le timer h e = none
add_scan (suc n) le timer h e =
    let rest = add_scan n (list_next le h) timer h (put e timer (e timer - e le)) in
    if le == 0
    then some (0, e)
    else if ltb (e timer) (e le)
    then some (le, put e le (e le - e timer))
    else rest

unfoldable pub add_timer : (fuel timer : ℕ) → Kernel → Option Kernel
unfolding add_scan list_add_before list_empty
add_timer fuel timer k = do
  assert (ltb 0 (k.expires timer) && not (k.timer_proc timer == 0))
  assert (list_empty timer k.timer_links)
  (le, e) ← add_scan fuel (list_next 0 k.timer_links) timer k.timer_links k.expires
  some (record k { expires = e; timer_links = list_add_before le timer k.timer_links })

unfoldable pub del_timer : ℕ → Kernel → Kernel
unfolding list_del_init list_empty
del_timer timer k =
    let le = list_next timer k.timer_links in
    let passed =
      if (k.expires timer == 0) || (le == 0)
      then k.expires
      else put k.expires le (u32 (k.expires le + k.expires timer)) in
    if list_empty timer k.timer_links
    then k
    else record k { expires = passed; timer_links = list_del_init timer k.timer_links }

-- `wait_state & WT_INTERRUPTED`, the bit 31.
abbrev pub interruptible : ℕ → Bool
interruptible w = w / 2 ^ 31 % 2 == 1

-- The loop of `run_timer_list`, over the timers that have come to 0.
unfoldable pub expire_loop : (fuel timer : ℕ) → Kernel → Option Kernel
unfolding del_timer wakeup_proc
expire_loop zero timer k = none
expire_loop (suc n) timer k =
    let le = list_next timer k.timer_links in
    let proc = k.timer_proc timer in
    let expired = do
      assert ((k.wait_state proc == 0) || interruptible (k.wait_state proc))
      k ← wakeup_proc proc k
      let k = del_timer timer k
      let rest = expire_loop n le k
      if le == 0 then some k else rest
    in if k.expires timer == 0 then expired else some k

unfoldable pub run_timer_list : (fuel : ℕ) → Kernel → Option Kernel
unfolding expire_loop sched_class_proc_tick
run_timer_list fuel k = do
  let timer = list_next 0 k.timer_links
  let ticked = record k { expires = put k.expires timer (k.expires timer - 1) }
  k ←
      if timer == 0
      then some k
      else do assert (not (k.expires timer == 0)); expire_loop fuel timer ticked
  some (if k.current == 0 then k else sched_class_proc_tick k.current k)
