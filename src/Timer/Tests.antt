-- ===== src/Timer/Tests.antt =====
-- The theorems on the timer list at the timers 1 and 2, which expire after 3 and 7 ticks.
use nku_os.Base.{ℕ, ◌≡◌, refl, List, [], ◌∷◌, arith, ◌==◌, if◌then◌else◌, true, some, ◌∉◌}
use nku_os.Links.Loose.{Loose}
use nku_os.Sched.{Kernel, runnable}
use nku_os.Timer.{add_timer, del_timer}
use nku_os.Timer.Dues.{dues, insert_due}
use nku_os.Timer.Laws.{IsTimers, add_timer_lem, del_timer_lem, remove_due}

abbrev ticking : Kernel
ticking = record {
  state = λ p. runnable;
  wait_state = λ p. 0;
  need_resched = λ p. true;
  runs = λ p. 0;
  time_slice = λ p. 0;
  rq = λ p. true;
  run_links = record { next = λ a. a; prev = λ a. a };
  proc_num = 0;
  max_time_slice = 5;
  current = 2;
  idleproc = 1;
  timer_links = record {
    next = λ a. if a == 0 then 1 else if a == 1 then 2 else if a == 2 then 0 else a;
    prev = λ a. if a == 0 then 2 else if a == 2 then 1 else if a == 1 then 0 else a;
  };
  expires = λ t. if t == 1 then 3 else if t == 2 then 4 else 5;
  timer_proc = λ t. 2;
}

ticking-Loose : (t : ℕ) → t ∉ (0 ∷ 1 ∷ 2 ∷ []) → Loose ticking.timer_links t
ticking-Loose t o = (ground arith, ground arith)

ticking-IsTimers : IsTimers ticking (1 ∷ 2 ∷ [])
ticking-IsTimers = record {
  ring = record { chain = omega arith; apart = refl; nodup = (refl, (refl, tt)) };
  loose = ticking-Loose;
  pending = (omega arith, omega arith, (omega arith, omega arith, tt));
}

-- A timer of 5 ticks goes between the two.
add_timer_lem_example :
    (k' : Kernel) × (ts' : List ℕ) × (add_timer 3 9 ticking ≡ some k')
    × IsTimers k' ts'
    × (dues k'.expires 0 ts' ≡ insert_due 9 5 ((1, 3) ∷ (2, 7) ∷ []))
add_timer_lem_example =
    add_timer_lem ticking (1 ∷ 2 ∷ []) 3 9 ticking-IsTimers refl (omega arith) (omega arith)
      (ground arith) (omega arith)

del_timer_lem_example :
    IsTimers (del_timer 1 ticking) (2 ∷ [])
    × (1 ∉ (2 ∷ []))
    × (dues (del_timer 1 ticking).expires 0 (2 ∷ []) ≡ remove_due 1 ((1, 3) ∷ (2, 7) ∷ []))
del_timer_lem_example = del_timer_lem ticking 1 [] (2 ∷ []) ticking-IsTimers
