-- ===== src/Sync/Tests.antt =====
-- The theorems on semaphores at one semaphore, 90, for which the process 5 waits with the wait 91,
-- and at another one, 80, with two units.
use nku_os.Base.{◌^◌, ◌<◌, ◌≡◌, refl, [], ◌∷◌, arith, ◌==◌, if◌then◌else◌, true, false, some, ◌⊎◌}
use nku_os.Sched.Tests.{busy, busy-IsSched}
use nku_os.Sync.{Sync, up, down, down_woken, wt_ksem}
use nku_os.Sync.Waits.{IsWaits}
use nku_os.Sync.Sem.{up_lem, up-down_woken, Raised}
use nku_os.Sync.Down.{down_lem, Took, Blocked}

abbrev one_waits : Sync
one_waits = record {
  kernel = busy;
  links = record {
    next = λ a. if a == 90 then 91 else if a == 91 then 90 else a;
    prev = λ a. if a == 90 then 91 else if a == 91 then 90 else a;
  };
  proc = λ w. 5;
  wakeup_flags = λ w. 2 ^ 31;
  wait_queue = λ w. 90;
  value = λ q. if q == 80 then 2 else 0;
}

one_waits-IsWaits : IsWaits one_waits 90 wt_ksem (91 ∷ [])
one_waits-IsWaits = record {
  ring = record { chain = omega arith; apart = refl; nodup = (refl, tt) };
  waiting = (refl, (ground arith), refl, refl, tt);
  procs = (refl, tt);
  no_null = refl;
}

up_lem_example :
    (s' : Sync) × (up 90 one_waits ≡ some s') × Raised one_waits 90 (91 ∷ []) (3 ∷ 4 ∷ []) s'
up_lem_example =
    up_lem one_waits 90 (91 ∷ []) (3 ∷ 4 ∷ []) one_waits-IsWaits busy-IsSched (omega arith)
      (omega arith)

up-down_woken_example : (s' : Sync) × (up 90 one_waits ≡ some s') × (down_woken 90 91 s' ≡ some s')
up-down_woken_example =
    up-down_woken one_waits 90 91 [] (3 ∷ 4 ∷ []) one_waits-IsWaits busy-IsSched (omega arith)
      (omega arith)

-- The process 2 brings the wait 92.
down_lem_example :
    (s' : Sync) × (((0 < 0)
        × (down 90 92 one_waits ≡ some (true, s'))
        × Took one_waits 90 (91 ∷ []) s')
      ⊎ ((one_waits.value 90 ≡ 0)
          × (down 90 92 one_waits ≡ some (false, s'))
          × Blocked one_waits 90 92 (91 ∷ []) (3 ∷ 4 ∷ []) s'))
down_lem_example =
    down_lem one_waits 90 92 (91 ∷ []) (3 ∷ 4 ∷ []) one_waits-IsWaits busy-IsSched (omega arith)
      refl (ground arith) refl
