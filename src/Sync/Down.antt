-- ===== src/Sync/Down.antt =====
-- `down` on a semaphore: it takes a unit, or the process joins the waits and another one runs.
use nku_os.Base.{
  ℕ, ◌+◌, ◌-◌, ◌^◌, ◌<◌, ◌≡◌, ◌≢◌, refl, true, false, List, [], ◌∷◌, ◌++◌, arith, some, length,
  ◌==◌, ne→==, ◌∉◌, ◌∈◌, Bool-cases, inl, inr, has-append, subst, append-nil, map, ltb, ◌⊎◌, ap,
}
use nku_os.Links.{Links, put, list_init, list_add_before, list_empty}
use nku_os.Links.Chain.{Ring, first}
use nku_os.Links.Ops.{ne_of_mem, NoDup-insert}
use nku_os.Links.Rings.{list_add_before-Ring, Ring-frame}
use nku_os.Sched.{Kernel, sleeping, schedule}
use nku_os.Sched.Queue.{Ready}
use nku_os.Sched.Fair.{IsSched, SameProcs, SchedulesTo, ready, schedule_lem, tail}
use nku_os.Sync.{Sync, wait_current_set, wt_ksem, wt_interrupted, down}
use nku_os.Sync.Waits.{IsWaits, Waiting, Waiting-frame, Waiting-snoc, has-map, map-frame, map-snoc}

-- The current process goes to sleep.
abbrev asleep_now : ℕ → Kernel → Kernel
asleep_now st k = record k {
  state = put k.state k.current sleeping;
  wait_state = put k.wait_state k.current st;
}

Ready-asleep :
    (st : ℕ) (k : Kernel) (xs : List ℕ) → k.current ∉ xs → Ready k xs → Ready (asleep_now st k) xs
Ready-asleep st k [] o r = tt
Ready-asleep st k (x ∷ xs) o r =
    (ground (arith, r.0), r.1, r.2, r.3, Ready-asleep st k xs (ground arith) r.4)

asleep_now-IsSched :
    (st : ℕ) (k : Kernel) (xs : List ℕ) → IsSched k xs → IsSched (asleep_now st k) xs
asleep_now-IsSched st k xs v = record {
  queue = record {
    ring = v.queue.ring;
    loose = v.queue.loose;
    ready = Ready-asleep st k xs (ground (arith, v.running)) v.queue.ready;
    counted = v.queue.counted;
    small = v.queue.small;
    slice = v.queue.slice;
    no_idle = v.queue.no_idle;
  };
  running = v.running;
}

asleep_now-ready : (st : ℕ) (k : Kernel) (xs : List ℕ) → ready (asleep_now st k) xs ≡ xs
asleep_now-ready st k xs =
    let e : put k.state k.current sleeping k.current ≡ sleeping = ground arith in rw e refl

-- The state after `wait_current_set`.
abbrev queued : (q w st : ℕ) → Sync → Sync
queued q w st s = record s {
  proc = put s.proc w s.kernel.current;
  wakeup_flags = put s.wakeup_flags w wt_interrupted;
  links = list_add_before q w (list_init w s.links);
  wait_queue = put s.wait_queue w q;
  kernel = asleep_now st s.kernel;
}

wait_current_set-eq :
    (q w st : ℕ) (s : Sync)
    → s.kernel.current ≢ 0
    → wait_current_set q w st s ≡ some (queued q w st s)
unfolding wait_current_set list_empty
wait_current_set-eq q w st s nz =
    let e = ne→== s.kernel.current 0 nz in
    let p : put s.proc w s.kernel.current w ≡ s.kernel.current = ground arith in
    let l : (put s.links.next w w w == w) ≡ true = ground arith in rw (e, p, e, l) refl

list_init-frame :
    (h : Links) (q w : ℕ) (ws : List ℕ) → w ∉ (q ∷ ws) → Ring h q ws → Ring (list_init w h) q ws
unfolding list_init
list_init-frame h q w ws out r =
    Ring-frame {h = h} {hd = q} (list_init w h) ws
      (λ c i. (
        ground (arith, ne_of_mem w c (q ∷ ws) out i),
        ground (arith, ne_of_mem w c (q ∷ ws) out i),
      ))
      r

queued-IsWaits :
    (s : Sync) (q w st : ℕ) (ws : List ℕ)
    → IsWaits s q st ws
    → w ∉ (0 ∷ q ∷ ws)
    → s.kernel.current ≢ 0
    → s.kernel.current ∉ map s.proc ws
    → IsWaits (queued q w st s) q st (ws ++ w ∷ [])
queued-IsWaits s q w st ws v out nz new = record {
  ring =
      list_add_before-Ring {h = list_init w s.links} {hd = q} w ws []
        (rw append-nil (list_init-frame s.links q w ws o v.ring)) (rw append-nil o);
  waiting = Waiting-snoc s' q st ws w (Waiting-frame s s' q st ws frame v.waiting) here;
  procs =
      rw (map-snoc s'.proc ws w, map-frame s.proc s'.proc ws (λ x i. (frame x i).1), at_w)
        (NoDup-insert s.kernel.current (map s.proc ws) [] (rw append-nil v.procs)
          (rw append-nil new));
  no_null = ground (arith, has-append 0 ws (w ∷ []), v.no_null);
}
  where
    s' : Sync
    s' = queued q w st s

    o : w ∉ (q ∷ ws)
    o = ground arith

    at_w : s'.proc w ≡ s.kernel.current
    at_w = ground arith

    here : Waiting s' q st (w ∷ [])
    here = (ground arith, ground arith, ground arith, ground arith, tt)

    frame :
        (x : ℕ)
        → x ∈ ws
        → (s'.wait_queue x ≡ s.wait_queue x)
          × (s'.proc x ≡ s.proc x)
          × (s'.kernel.state (s.proc x) ≡ s.kernel.state (s.proc x))
          × (s'.kernel.wait_state (s.proc x) ≡ s.kernel.wait_state (s.proc x))
    frame x i =
        let n = ne_of_mem w x (q ∷ ws) o (ground arith) in
        let m = ne_of_mem s.kernel.current (s.proc x) (map s.proc ws) new (has-map s x ws i) in
        (ground arith, ground arith, ground arith, ground arith)

-- The scheduler leaves the waits as they are.
scheduled-IsWaits :
    (s : Sync) (k' : Kernel) (q st : ℕ) (ws : List ℕ)
    → SameProcs s.kernel k'
    → IsWaits s q st ws
    → IsWaits (record s { kernel = k' }) q st ws
scheduled-IsWaits s k' q st ws same v = record {
  ring = v.ring;
  waiting =
      Waiting-frame s (record s { kernel = k' }) q st ws
        (λ x i. (refl, refl, ap (λ f. f (s.proc x)) same.state, ap (λ f. f (s.proc x)) same.waits))
        v.waiting;
  procs = v.procs;
  no_null = v.no_null;
}

-- What the first step of `down` leaves behind, whether or not there is a unit to take.
pub record Took (s : Sync) (q : ℕ) (ws : List ℕ) (s' : Sync) : Type 0 where
  pub waits : IsWaits s' q wt_ksem ws
  pub value : s'.value q + 1 ≡ s.value q
  pub kernel : s'.kernel ≡ s.kernel

pub record Blocked (s : Sync) (q w : ℕ) (ws xs : List ℕ) (s' : Sync) : Type 0 where
  pub waits : IsWaits s' q wt_ksem (ws ++ w ∷ [])
  pub who : s'.proc w ≡ s.kernel.current
  pub value : s'.value ≡ s.value
  pub sched : IsSched s'.kernel (tail xs)
  pub current : s'.kernel.current ≡ first xs s.kernel.idleproc

block_lem :
    (s : Sync) (q w : ℕ) (ws xs : List ℕ)
    → IsWaits s q wt_ksem ws
    → IsSched s.kernel xs
    → length xs + 1 < 2 ^ 32
    → w ∉ (0 ∷ q ∷ ws)
    → s.kernel.current ≢ 0
    → s.kernel.current ∉ map s.proc ws
    → (k' : Kernel) × (schedule (asleep_now wt_ksem s.kernel) ≡ some k')
      × Blocked s q w ws xs (record (queued q w wt_ksem s) { kernel = k' })
block_lem s q w ws xs v sv small out nz new =
    let k₁ = asleep_now wt_ksem s.kernel in
    let (k', e, sv', c, same) =
      subst (λ l. SchedulesTo k₁ l (schedule k₁)) (asleep_now-ready wt_ksem s.kernel xs)
        (schedule_lem k₁ xs (asleep_now-IsSched wt_ksem s.kernel xs sv) small) in
    (
      k',
      e,
      record {
        waits =
            scheduled-IsWaits (queued q w wt_ksem s) k' q wt_ksem (ws ++ w ∷ []) same
              (queued-IsWaits s q w wt_ksem ws v out nz new);
        who = ground arith;
        value = refl;
        sched = sv';
        current = c;
      },
    )

-- On a valid semaphore, in a valid state of the scheduler with fewer than 2 ^ 32 - 1 processes queued,
-- where the running process (not NULL) waits for nothing and brings a `wait_t` that is not in the
-- queue, `down` returns from its first step: if the value is positive it is one less and nothing is
-- scheduled; if it is 0 the process sleeps as the last of the waits, and the first process of the run
-- queue, or the idle process, runs.
pub down_lem :
    (s : Sync) (q w : ℕ) (ws xs : List ℕ)
    → IsWaits s q wt_ksem ws
    → IsSched s.kernel xs
    → length xs + 1 < 2 ^ 32
    → w ∉ (0 ∷ q ∷ ws)
    → s.kernel.current ≢ 0
    → s.kernel.current ∉ map s.proc ws
    → (s' : Sync) × (((0 < s.value q) × (down q w s ≡ some (true, s')) × Took s q ws s')
        ⊎ ((s.value q ≡ 0) × (down q w s ≡ some (false, s')) × Blocked s q w ws xs s'))
unfolding down
down_lem s q w ws xs v sv small out nz new = elim (Bool-cases (ltb 0 (s.value q))) [
  | inl pos ↦ (
    record s { value = put s.value q (s.value q - 1) },
    inl (
      ground arith,
      rw pos refl,
      record {
        waits = record {
          ring = v.ring;
          waiting =
              Waiting-frame s (record s { value = put s.value q (s.value q - 1) }) q wt_ksem ws
                (λ x i. (refl, refl, refl, refl)) v.waiting;
          procs = v.procs;
          no_null = v.no_null;
        };
        value = ground arith;
        kernel = refl;
      },
    ),
  )
  | inr zero ↦
      let (k', e, b) = block_lem s q w ws xs v sv small out nz new in
      (
        record (queued q w wt_ksem s) { kernel = k' },
        inr (ground arith, rw (zero, wait_current_set-eq q w wt_ksem s nz, e) refl, b),
      )
]
