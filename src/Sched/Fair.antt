-- ===== src/Sched/Fair.antt =====
-- `wakeup_proc` and `schedule` on a valid run queue: first come, first served.
use nku_os.Base.{
  ℕ, ◌+◌, ◌^◌, ◌<◌, ◌≡◌, ◌≢◌, refl, true, false, not, ◌&&◌, List, [], ◌∷◌, ◌++◌, arith, Option,
  some, length, ◌==◌, ◌∉◌, if◌then◌else◌, Bool-cases, inl, inr, has-append, ap, ==→ne, ◌∙◌, ◌||◌,
  u32, subst, sym,
}
use nku_os.Links.{put}
use nku_os.Links.Chain.{first}
use nku_os.Sched.{
  Kernel, ProcState, uninit, sleeping, zombie, runnable, is_runnable, is_zombie,
  sched_class_enqueue, dispatch, schedule, wakeup_proc, run_next,
}
use nku_os.Sched.Queue.{
  IsQueue, Ready, Ready-frame, rr_enqueue-IsQueue, rr_dequeue-IsQueue, rr_pick_next-first,
}

-- The scheduler's state: a valid queue that does not hold the running process.
pub record IsSched (k : Kernel) (xs : List ℕ) : Type 0 where
  pub queue : IsQueue k xs
  pub running : k.current ∉ (0 ∷ xs)

abbrev pub tail : List ℕ → List ℕ
tail [] = []
tail (x ∷ xs) = xs

-- The fields that scheduling does not touch.
pub record SameProcs (k k' : Kernel) : Type 0 where
  pub state : k'.state ≡ k.state
  pub idle : k'.idleproc ≡ k.idleproc
  pub waits : k'.wait_state ≡ k.wait_state

-- The queue depends on these fields only.
IsQueue-frame :
    (k k' : Kernel) (xs : List ℕ)
    → k'.run_links ≡ k.run_links
    → k'.state ≡ k.state
    → k'.rq ≡ k.rq
    → k'.time_slice ≡ k.time_slice
    → k'.proc_num ≡ k.proc_num
    → k'.max_time_slice ≡ k.max_time_slice
    → k'.idleproc ≡ k.idleproc
    → IsQueue k xs
    → IsQueue k' xs
IsQueue-frame k k' xs l s r t n m i v = record {
  ring = rw l v.ring;
  loose = λ p o. rw l (v.loose p o);
  ready =
      Ready-frame k k' xs (λ c h. (ground (arith, s), ground (arith, r), ground (arith, t))) m
        v.ready;
  counted = n ∙ v.counted;
  small = v.small;
  slice = rw m v.slice;
  no_idle = subst (λ z. z ∉ (0 ∷ xs)) (sym i) v.no_idle;
}

-- The outcome of `run_next`: the process runs, and the queue and the states are as before.
run_next-IsQueue :
    (n : ℕ) (k : Kernel) (xs : List ℕ)
    → IsQueue k xs
    → IsQueue (run_next n k) xs × ((run_next n k).current ≡ n) × SameProcs k (run_next n k)
unfolding run_next
run_next-IsQueue n k xs v =
    let counted = record k { runs = put k.runs n (u32 (k.runs n + 1)) } in
    elim (Bool-cases (n == k.current)) [
      | inl e ↦ rw e (
        IsQueue-frame k counted xs refl refl refl refl refl refl refl v,
        ground arith,
        record { state = refl; idle = refl; waits = refl },
      )
      | inr e ↦ rw e (
        IsQueue-frame k (record counted { current = n }) xs refl refl refl refl refl refl refl v,
        refl,
        record { state = refl; idle = refl; waits = refl },
      )
    ]

dispatch-IsQueue :
    (k : Kernel) (xs : List ℕ)
    → IsQueue k xs
    → (k' : Kernel) × (dispatch k ≡ some k')
      × IsQueue k' (tail xs)
      × (k'.current ≡ first xs k.idleproc)
      × SameProcs k k'
unfolding dispatch
dispatch-IsQueue k [] v =
    let (q, c, same) = run_next-IsQueue k.idleproc k [] v in
    (run_next k.idleproc k, rw (rr_pick_next-first k [] v), q, c, same)
dispatch-IsQueue k (x ∷ xs) v =
    let (k₁, e, q₁, st, cur, idle, ws) = rr_dequeue-IsQueue k x xs v in
    let (q, c, same) = run_next-IsQueue x k₁ xs q₁ in
    let ne : (x == 0) ≡ false = ground (arith, v.ring.apart) in
    (
      run_next x k₁,
      rw (rr_pick_next-first k (x ∷ xs) v, ne, e),
      q,
      c,
      record { state = same.state ∙ st; idle = same.idle ∙ idle; waits = same.waits ∙ ws },
    )

-- The processes that are ready: the queue, and behind it the current one if it is runnable and not
-- the idle process.
abbrev pub ready : Kernel → List ℕ → List ℕ
ready k xs =
    if is_runnable (k.state k.current) && not (k.current == k.idleproc)
    then xs ++ k.current ∷ []
    else xs

abbrev pub SchedulesTo : Kernel → List ℕ → Option Kernel → Type 0
SchedulesTo k ys r =
    (k' : Kernel) × (r ≡ some k')
    × IsSched k' (tail ys)
    × (k'.current ≡ first ys k.idleproc)
    × SameProcs k k'

-- What dispatching leaves runs outside its queue.
dispatch-IsSched : (k : Kernel) (ys : List ℕ) → IsQueue k ys → SchedulesTo k ys (dispatch k)
dispatch-IsSched k [] v =
    let (k', e, q, c, same) = dispatch-IsQueue k [] v in
    (k', e, record { queue = q; running = subst (λ z. z ∉ (0 ∷ [])) (sym c) v.no_idle }, c, same)
dispatch-IsSched k (y ∷ ys) v =
    let (k', e, q, c, same) = dispatch-IsQueue k (y ∷ ys) v in
    (
      k',
      e,
      record {
        queue = q;
        running = subst (λ z. z ∉ (0 ∷ ys)) (sym c) (ground (arith, v.ring.apart, v.ring.nodup));
      },
      c,
      same,
    )

-- The same from a state with the processes of an earlier one.
dispatch_from :
    (k k₀ : Kernel) (ys : List ℕ) → SameProcs k k₀ → IsQueue k₀ ys → SchedulesTo k ys (dispatch k₀)
dispatch_from k k₀ ys s q =
    let (k', e, v, c, same) = dispatch-IsSched k₀ ys q in
    (
      k',
      e,
      v,
      c ∙ ap (first ys) s.idle,
      record {
        state = same.state ∙ s.state;
        idle = same.idle ∙ s.idle;
        waits = same.waits ∙ s.waits;
      },
    )

runnable_of : (st : ProcState) → is_runnable st ≡ true → st ≡ runnable
runnable_of uninit h = cc
runnable_of sleeping h = cc
runnable_of runnable h = refl
runnable_of zombie h = cc

-- In a valid state with fewer than 2 ^ 32 - 1 processes queued, `schedule` returns and runs the first
-- process that is ready, or the idle process if none is; the others stay in their order, and the
-- state of the scheduler stays valid.
pub schedule_lem :
    (k : Kernel) (xs : List ℕ)
    → IsSched k xs
    → length xs + 1 < 2 ^ 32
    → SchedulesTo k (ready k xs) (schedule k)
unfolding schedule sched_class_enqueue
schedule_lem k xs v small =
    let k₀ = record k { need_resched = put k.need_resched k.current false } in
    let same : SameProcs k k₀ = record { state = refl; idle = refl; waits = refl } in
    let q₀ : IsQueue k₀ xs = IsQueue-frame k k₀ xs refl refl refl refl refl refl refl v.queue in
    elim (Bool-cases (is_runnable (k.state k.current))) [
      | inl e ↦ elim (Bool-cases (k.current == k.idleproc)) [
        | inl i ↦ rw (e, i) (dispatch_from k k₀ xs same q₀)
        | inr i ↦
            let (k₁, en, q₁, st, cur, idle, ws) =
              rr_enqueue-IsQueue k₀ xs k.current q₀ v.running (==→ne k.current k.idleproc i)
                (runnable_of (k.state k.current) e) small in
            rw (e, i, en)
              (dispatch_from k k₁ (xs ++ k.current ∷ [])
                (record { state = st; idle = idle; waits = ws }) q₁)
      ]
      | inr e ↦ rw e (dispatch_from k k₀ xs same q₀)
    ]

-- The state that `wakeup_proc` makes first.
abbrev woken : ℕ → Kernel → Kernel
woken p k = record k { state = put k.state p runnable; wait_state = put k.wait_state p 0 }

Ready-woken : (k : Kernel) (p : ℕ) (xs : List ℕ) → Ready k xs → Ready (woken p k) xs
Ready-woken k p [] r = tt
Ready-woken k p (x ∷ xs) r = (ground (arith, r.0), r.1, r.2, r.3, Ready-woken k p xs r.4)

woken-IsQueue : (k : Kernel) (p : ℕ) (xs : List ℕ) → IsQueue k xs → IsQueue (woken p k) xs
woken-IsQueue k p xs v = record {
  ring = v.ring;
  loose = v.loose;
  ready = Ready-woken k p xs v.ready;
  counted = v.counted;
  small = v.small;
  slice = v.slice;
  no_idle = v.no_idle;
}

not_ready :
    (k : Kernel) (p : ℕ) (xs : List ℕ) → Ready k xs → is_runnable (k.state p) ≡ false → p ∉ xs
not_ready k p [] r h = refl
not_ready k p (x ∷ xs) r h = ground (arith, not_ready k p xs r.4 h, r.0)

put_same : (f : ℕ → ProcState) (a : ℕ) → put f a runnable a ≡ runnable
put_same f a = ground arith

-- The processes other than `p` keep their state and what they wait for.
abbrev pub SameOthers : ℕ → (k k' : Kernel) → Type 0
SameOthers p k k' = (c : ℕ) → c ≢ p → (k'.state c ≡ k.state c) × (k'.wait_state c ≡ k.wait_state c)

woken-SameOthers : (k : Kernel) (p : ℕ) → SameOthers p k (woken p k)
woken-SameOthers k p c n = (ground arith, ground arith)

-- In a valid state with fewer than 2 ^ 32 - 1 processes queued, `wakeup_proc` of a process (not NULL)
-- that is no zombie returns; the process is runnable afterwards, it joins the queue at its end unless
-- it was runnable already, is running, or is the idle process, the state stays valid with the same
-- process running, and the other processes keep their state and their wait state.
pub wakeup_proc_lem :
    (k : Kernel) (xs : List ℕ) (p : ℕ)
    → IsSched k xs
    → p ≢ 0
    → is_zombie (k.state p) ≡ false
    → length xs + 1 < 2 ^ 32
    → (k' : Kernel) × (wakeup_proc p k ≡ some k')
      × (k'.state p ≡ runnable)
      × (k'.current ≡ k.current)
      × SameOthers p k k'
      × IsSched k' (
          if is_runnable (k.state p) || (p == k.current) || (p == k.idleproc)
          then xs
          else xs ++ p ∷ [])
unfolding wakeup_proc sched_class_enqueue
wakeup_proc_lem k xs p v nz alive small =
    let others = woken-SameOthers k p in
    elim (Bool-cases (is_runnable (k.state p))) [
      | inl e ↦ rw (alive, e) (k, refl, runnable_of (k.state p) e, refl, λ c n. (refl, refl), v)
      | inr e ↦
          let q = woken-IsQueue k p xs v.queue in
          let out : p ∉ (0 ∷ xs) = ground (arith, not_ready k p xs v.queue.ready e) in
          let stays : IsSched (woken p k) xs = record { queue = q; running = v.running } in
          elim (Bool-cases (p == k.current)) [
            | inl c ↦ rw (alive, e, c) (woken p k, refl, put_same k.state p, refl, others, stays)
            | inr c ↦ elim (Bool-cases (p == k.idleproc)) [
              | inl i ↦
                  rw (alive, e, c, i) (woken p k, refl, put_same k.state p, refl, others, stays)
              | inr i ↦
                  let (k', en, q', st, cur, idle, ws) =
                    rr_enqueue-IsQueue (woken p k) xs p q out (==→ne p k.idleproc i)
                      (put_same k.state p) small in
                  rw (alive, e, c, i, en)
                    (
                      k',
                      refl,
                      rw st (put_same k.state p),
                      cur,
                      (λ d n. (rw st (others d n).0, rw ws (others d n).1)),
                      record {
                        queue = q';
                        running =
                            subst (λ z. z ∉ (0 ∷ xs ++ p ∷ [])) (sym cur)
                              (ground (arith, has-append k.current xs (p ∷ []), v.running));
                      },
                    )
            ]
          ]
    ]
