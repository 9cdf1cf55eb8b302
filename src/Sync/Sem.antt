-- ===== src/Sync/Sem.antt =====
-- Semaphores: `up`, `down` and `try_down` against a counter with a queue of sleeping processes.
use nku_os.Base.{
  ℕ, ◌+◌, ◌^◌, ◌<◌, ◌≡◌, ◌≢◌, refl, true, false, ◌||◌, List, [], ◌∷◌, ◌++◌, arith, some, length,
  ◌==◌, ne→==, ==-refl, ◌∉◌, ◌∈◌, if◌then◌else◌, sym, subst, map, lt→ltb, ap,
}
use nku_os.Links.{put, list_del_init, list_empty}
use nku_os.Links.Chain.{first, Chain-next_mid}
use nku_os.Links.Ops.{ne_of_mem, first-mem}
use nku_os.Links.Rings.{list_del_init-Ring}
use nku_os.Sched.{Kernel, sleeping, runnable, is_zombie, is_runnable}
use nku_os.Sched.Fair.{IsSched, SameOthers, wakeup_proc_lem}
use nku_os.Sync.{Sync, wait_queue_del, wakeup_wait, wt_ksem, up_state, up, down_woken}
use nku_os.Sync.Waits.{IsWaits, Waiting-frame, wait_queue_first-first, has-map}

-- The run queue after a sleeping process has been woken.
abbrev pub joined : Kernel → ℕ → List ℕ → List ℕ
joined k p xs = if (p == k.current) || (p == k.idleproc) then xs else xs ++ p ∷ []

-- The first of the waits `w ∷ ws` of `q` has been woken.
pub record Woke (s : Sync) (q w : ℕ) (ws xs : List ℕ) (s' : Sync) : Type 0 where
  pub waits : IsWaits s' q wt_ksem ws
  pub flags : s'.wakeup_flags w ≡ wt_ksem
  pub awake : s'.kernel.state (s.proc w) ≡ runnable
  pub loose : s'.links.next w ≡ w
  pub value : s'.value ≡ s.value
  pub current : s'.kernel.current ≡ s.kernel.current
  pub sched : IsSched s'.kernel (joined s.kernel (s.proc w) xs)

asleep :
    (k : Kernel) (p : ℕ)
    → k.state p ≡ sleeping
    → (is_zombie (k.state p) ≡ false) × (is_runnable (k.state p) ≡ false)
asleep k p e = (rw e refl, rw e refl)

-- The others go on waiting when the first one is woken.
others_wait :
    (s s' : Sync) (q w : ℕ) (ws : List ℕ)
    → IsWaits s q wt_ksem (w ∷ ws)
    → s'.links ≡ list_del_init w s.links
    → s'.proc ≡ s.proc
    → s'.wait_queue ≡ s.wait_queue
    → SameOthers (s.proc w) s.kernel s'.kernel
    → IsWaits s' q wt_ksem ws
others_wait s s' q w ws v l p wq same = record {
  ring = rw l (list_del_init-Ring {h = s.links} {hd = q} w [] ws v.ring).0;
  waiting =
      Waiting-frame s s' q wt_ksem ws
        (λ x i. (
          ap (λ f. f x) wq,
          ap (λ f. f x) p,
          (same (s.proc x) (differs x i)).0,
          (same (s.proc x) (differs x i)).1,
        ))
        v.waiting.4;
  procs = rw p v.procs.1;
  no_null = ground (arith, v.no_null);
}
  where
    differs : (x : ℕ) → x ∈ ws → s.proc x ≢ s.proc w
    differs x i e =
        ne_of_mem (s.proc w) (s.proc x) (map s.proc ws) v.procs.0 (has-map s x ws i) (sym e)

-- The guard of `wait_queue_del` holds of the first wait.
first_linked :
    (s : Sync) (q w : ℕ) (ws : List ℕ)
    → IsWaits s q wt_ksem (w ∷ ws)
    → wait_queue_del q w s ≡ some (record s { links = list_del_init w s.links })
unfolding wait_queue_del
first_linked s q w ws v =
    let nx = Chain-next_mid s.links q [] w ws q v.ring.chain in
    let out : w ∉ (q ∷ ws) = ground (arith, v.ring.apart, v.ring.nodup) in
    let other = ne_of_mem w (first ws q) (q ∷ ws) out (first-mem ws q) in
    rw (nx, ne→== (first ws q) w (λ e. other (sym e)), v.waiting.0, ==-refl q) refl

wake_first :
    (s : Sync) (q w : ℕ) (ws xs : List ℕ)
    → IsWaits s q wt_ksem (w ∷ ws)
    → IsSched s.kernel xs
    → length xs + 1 < 2 ^ 32
    → (s' : Sync) × (wakeup_wait q w wt_ksem true s ≡ some s') × Woke s q w ws xs s'
unfolding wakeup_wait
wake_first s q w ws xs v sv small =
    let p = s.proc w in
    let (alive, idle) = asleep s.kernel p v.waiting.2 in
    let (k', e, run, cur, same, sv') = wakeup_proc_lem s.kernel xs p sv v.waiting.1 alive small in
    let s' = record s {
      links = list_del_init w s.links;
      wakeup_flags = put s.wakeup_flags w wt_ksem;
      kernel = k';
    } in
    let links = (list_del_init-Ring {h = s.links} {hd = q} w [] ws v.ring).1 in
    (
      s',
      rw (first_linked s q w ws v, e) refl,
      record {
        waits = others_wait s s' q w ws v refl refl refl same;
        flags = ground arith;
        awake = run;
        loose = links.chain.0;
        value = refl;
        current = cur;
        sched =
            subst
              (λ b. IsSched k' (
                if b || (p == s.kernel.current) || (p == s.kernel.idleproc)
                then xs
                else xs ++ p ∷ []))
              idle sv';
      },
    )

-- What `up` leaves behind, with the waits `ws` before it.
abbrev pub Raised : Sync → ℕ → (ws xs : List ℕ) → Sync → Type 0
Raised s q [] xs s' =
    IsWaits s' q wt_ksem [] × (s'.value q ≡ s.value q + 1) × (s'.kernel ≡ s.kernel)
Raised s q (w ∷ ws) xs s' = Woke s q w ws xs s'

-- On a valid semaphore, in a valid state of the scheduler with fewer than 2 ^ 32 - 1 processes queued
-- and with a value below 2 ^ 31 - 1, `up` returns: if no process waits, the value is one more; if one
-- does, the value stays, the first that waits leaves the queue with the flag it waits for, is
-- runnable and joins the run queue at its end unless it is the current or the idle process, and the
-- others wait on in their order.
pub up_lem :
    (s : Sync) (q : ℕ) (ws xs : List ℕ)
    → IsWaits s q wt_ksem ws
    → IsSched s.kernel xs
    → length xs + 1 < 2 ^ 32
    → s.value q + 1 < 2 ^ 31
    → (s' : Sync) × (up q s ≡ some s') × Raised s q ws xs s'
unfolding up_state
up_lem s q [] xs v sv small room = (
  record s { value = put s.value q (s.value q + 1) },
  rw (wait_queue_first-first s q wt_ksem [] v, lt→ltb (s.value q + 1) (2 ^ 31) room) refl,
  (record { ring = v.ring; waiting = tt; procs = tt; no_null = v.no_null }, ground arith, refl),
)
up_lem s q (w ∷ ws) xs v sv small room =
    let nz : (w == 0) ≡ false = ground (arith, v.no_null) in
    let (s', e, woke) = wake_first s q w ws xs v sv small in
    (s', rw (wait_queue_first-first s q wt_ksem (w ∷ ws) v, nz, v.waiting.3, e) refl, woke)

-- When `up` wakes a process, under the conditions of `up_lem`, the second step of that process's
-- `down` finds its wait out of the queue with the flag that it waits for: it returns, and changes
-- nothing.
pub up-down_woken :
    (s : Sync) (q w : ℕ) (ws xs : List ℕ)
    → IsWaits s q wt_ksem (w ∷ ws)
    → IsSched s.kernel xs
    → length xs + 1 < 2 ^ 32
    → s.value q + 1 < 2 ^ 31
    → (s' : Sync) × (up q s ≡ some s') × (down_woken q w s' ≡ some s')
unfolding down_woken list_empty
up-down_woken s q w ws xs v sv small room =
    let (s', e, woke) = up_lem s q (w ∷ ws) xs v sv small room in
    let loose : (s'.links.next w == w) ≡ true = ground (arith, woke.loose) in
    let flags : (s'.wakeup_flags w == wt_ksem) ≡ true = ground (arith, woke.flags) in
    (s', e, rw (loose, flags) refl)
