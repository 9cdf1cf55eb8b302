-- ===== src/Proc/Tests.antt =====
-- `get_pid` at the processes 3 and 4 with the pids 1 and 8191, as the last pid has been given out.
use nku_os.Base.{ℕ, ◌<◌, ◌≡◌, refl, [], ◌∷◌, arith, ◌==◌, if◌then◌else◌, some, inl}
use nku_os.Links.Chain.{Ring}
use nku_os.Sched.{runnable}
use nku_os.Proc.{Table, get_pid, pid_hashfn}
use nku_os.Proc.Pid.{IsSafe, Unused, get_pid_lem, pid_hashfn_lem}

abbrev two_processes : Table
two_processes = record {
  links = record {
    next = λ a. if a == 0 then 4 else if a == 4 then 3 else 0;
    prev = λ a. if a == 0 then 3 else if a == 3 then 4 else 0;
  };
  hash_links = record { next = λ a. a; prev = λ a. a };
  pid = λ p. if p == 3 then 1 else 8191;
  state = λ p. runnable;
  cr3 = λ p. 0;
  parent = λ p. 0;
  cptr = λ p. 0;
  yptr = λ p. 0;
  optr = λ p. 0;
  nr_process = 2;
  next_safe = 8192;
  last_pid = 8191;
}

two_processes-Ring : Ring two_processes.links 0 (4 ∷ 3 ∷ [])
two_processes-Ring = record { chain = omega arith; apart = refl; nodup = (refl, (refl, tt)) }

two_processes-IsSafe : IsSafe two_processes (4 ∷ 3 ∷ [])
two_processes-IsSafe = record {
  last = omega arith;
  safe = omega arith;
  clear = (inl (omega arith), (inl (omega arith), tt));
}

get_pid_lem_example :
    (a : ℕ) × (t' : Table) × (get_pid 30000 two_processes ≡ some (a, t'))
    × (0 < a)
    × (a < 8192)
    × Unused two_processes.pid a (4 ∷ 3 ∷ [])
    × IsSafe t' (4 ∷ 3 ∷ [])
get_pid_lem_example =
    get_pid_lem 30000 two_processes (4 ∷ 3 ∷ []) 2 two_processes-Ring two_processes-IsSafe
      (omega arith) (omega arith) ((ground arith), ((ground arith), tt)) (omega arith)

pid_hashfn_lem_example : pid_hashfn 77 < 1024
pid_hashfn_lem_example = pid_hashfn_lem 77
