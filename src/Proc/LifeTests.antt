-- ===== src/Proc/LifeTests.antt =====
-- do_exit and do_fork at processes with the addresses 1 (idleproc), 2 (initproc), 3 and its children 5
-- and 4.
use nku_os.Base.{◌+◌, ℕ, ◌≡◌, refl, [], ◌∷◌, arith, false, true, ◌==◌, if◌then◌else◌, some, none}
use nku_os.Sched.{runnable, zombie}
use nku_os.Errors.{e_no_mem}
use nku_os.Proc.{Table}
use nku_os.Proc.Life.{kern_base, Life, do_exit, do_fork, copy_mm}
use nku_os.Proc.Adopt.{Heirs}
use nku_os.Proc.Exit.{Ended, do_exit_lem}
use nku_os.Proc.Forks.{Leaked, do_fork_no_memory}

abbrev five_processes : Table
five_processes = record {
  links = record { next = λ a. a; prev = λ a. a };
  hash_links = record { next = λ a. a; prev = λ a. a };
  pid = λ p. p;
  state = λ p. runnable;
  cr3 = λ p. 0;
  parent = λ p. if p == 3 then 2 else if p == 2 then 1 else 3;
  cptr = λ p. if p == 2 then 3 else if p == 3 then 5 else 0;
  yptr = λ p. if p == 4 then 5 else 0;
  optr = λ p. if p == 5 then 4 else 0;
  nr_process = 5;
  next_safe = 8192;
  last_pid = 5;
}

abbrev running : Life
running = record {
  table = five_processes;
  wait_state = λ p. 0;
  exiting = λ p. false;
  exit_code = λ p. 0;
  kstack = λ p. 0;
  mm = λ p. 7;
  mm_count = λ m. 2;
  pgdir = λ m. 0;
  in_use = λ a. true;
  current = 3;
  idleproc = 1;
  initproc = 2;
}

running-Heirs : Heirs running 3 2 (5 ∷ 4 ∷ []) (3 ∷ [])
running-Heirs = record {
  current = refl;
  initproc = refl;
  differ = omega arith;
  alive = refl;
  orphans = (refl, omega arith, (refl, omega arith, refl));
  children = record { older = (refl, omega arith, refl); younger = (refl, refl, tt) };
  once = (refl, (refl, tt));
  ours_once = (refl, tt);
  apart = (refl, (refl, tt));
}

do_exit_lem_example :
    (s' : Life) × (do_exit 9 6 running ≡ some s') × Ended s' 3 2 6 (4 ∷ 5 ∷ 3 ∷ [])
do_exit_lem_example =
    do_exit_lem 9 6 running (5 ∷ 4 ∷ []) (3 ∷ []) running-Heirs (omega arith) (omega arith) refl
      (omega arith)

do_fork_no_memory_example :
    let fork =
      λ (proc stack : ℕ). do_fork 100 (λ h. h) 0 proc stack (copy_mm false 0 21 0) running in
    (fork 0 20 ≡ some (e_no_mem, 0, running))
    × (fork 6 0 ≡ none)
    × ((s' : Life) × (fork 6 20 ≡ some (e_no_mem, 0, s')) × Leaked running s' 6 20)
do_fork_no_memory_example =
    do_fork_no_memory 100 (λ h. h) 0 6 20 21 0 running (omega arith) (omega arith) (omega arith)
      (omega arith) (omega arith) (omega arith)

-- The child 4 of 3 has ended with the code 9, and 3 waits for it. It is the second in the list of all
-- processes, and alone in its hash list, with the head 70.
abbrev one_ended : Life
one_ended = record running {
  table = record five_processes {
    links = record {
      next = λ a. if a == 0 then 5 else if a == 5 then 4 else if a == 4 then 3 else 0;
      prev = λ a. if a == 0 then 3 else if a == 3 then 4 else if a == 4 then 5 else 0;
    };
    hash_links = record {
      next = λ a. if a == 70 then 4 else 70;
      prev = λ a. if a == 70 then 4 else 70;
    };
    state = λ p. if p == 4 then zombie else runnable;
    nr_process = 3;
  };
  kstack = λ p. kern_base + p;
  exit_code = λ p. 9;
}

-- The process 3, a child of initproc, is in the list of all processes with its children, and in the hash
-- list with the head 70.
abbrev ending : Life
ending = record running {
  table = record five_processes {
    links = record {
      next = λ a. if a == 0 then 5 else if a == 5 then 4 else if a == 4 then 3 else 0;
      prev = λ a. if a == 0 then 3 else if a == 3 then 4 else if a == 4 then 5 else 0;
    };
    hash_links = record {
      next = λ a. if a == 70 then 3 else 70;
      prev = λ a. if a == 70 then 3 else 70;
    };
    nr_process = 3;
  };
  kstack = λ p. kern_base + p;
}
