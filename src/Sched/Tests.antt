-- ===== src/Sched/Tests.antt =====
-- The theorems on the scheduler at the processes 1 to 4: 1 is idle, 2 runs, 3 and 4 wait their turn.
use nku_os.Base.{ℕ, ◌≡◌, refl, [], ◌∷◌, arith, ◌==◌, if◌then◌else◌, true, some, ◌||◌, ◌∉◌}
use nku_os.Links.Loose.{Loose}
use nku_os.Sched.{Kernel, sleeping, runnable, schedule, wakeup_proc}
use nku_os.Sched.Fair.{IsSched, SameOthers, SchedulesTo, schedule_lem, wakeup_proc_lem}
use nku_os.Sched.Turns.{schedules, schedules-turn}

-- The run queue holds 3 and 4; the process 5 sleeps.
abbrev pub busy : Kernel
busy = record {
  state = λ p. if p == 5 then sleeping else runnable;
  wait_state = λ p. if p == 5 then 256 else 0;
  need_resched = λ p. p == 2;
  runs = λ p. 0;
  time_slice = λ p. if (p == 3) || (p == 4) then 5 else 0;
  rq = λ p. true;
  run_links = record {
    next = λ a. if a == 0 then 3 else if a == 3 then 4 else if a == 4 then 0 else a;
    prev = λ a. if a == 0 then 4 else if a == 4 then 3 else if a == 3 then 0 else a;
  };
  proc_num = 2;
  max_time_slice = 5;
  current = 2;
  idleproc = 1;
  timer_links = record { next = λ a. a; prev = λ a. a };
  expires = λ t. 7;
  timer_proc = λ t. 5;
}

busy-Loose : (p : ℕ) → p ∉ (0 ∷ 3 ∷ 4 ∷ []) → Loose busy.run_links p
busy-Loose p o = (ground arith, ground arith)

pub busy-IsSched : IsSched busy (3 ∷ 4 ∷ [])
busy-IsSched = record {
  queue = record {
    ring = record { chain = omega arith; apart = refl; nodup = (refl, (refl, tt)) };
    loose = busy-Loose;
    ready = (refl, refl, omega arith, omega arith, (refl, refl, omega arith, omega arith, tt));
    counted = refl;
    small = omega arith;
    slice = omega arith;
    no_idle = refl;
  };
  running = refl;
}

schedule_lem_example : SchedulesTo busy (3 ∷ 4 ∷ 2 ∷ []) (schedule busy)
schedule_lem_example = schedule_lem busy (3 ∷ 4 ∷ []) busy-IsSched (omega arith)

wakeup_proc_lem_example :
    (k' : Kernel) × (wakeup_proc 5 busy ≡ some k')
    × (k'.state 5 ≡ runnable)
    × (k'.current ≡ 2)
    × SameOthers 5 busy k'
    × IsSched k' (3 ∷ 4 ∷ 5 ∷ [])
wakeup_proc_lem_example =
    wakeup_proc_lem busy (3 ∷ 4 ∷ []) 5 busy-IsSched (ground arith) refl (omega arith)

schedules-turn_example : (k' : Kernel) × (schedules 2 busy ≡ some k') × (k'.current ≡ 4)
schedules-turn_example = schedules-turn busy (3 ∷ []) 4 [] busy-IsSched (omega arith)
