-- ===== src/Sched/Queue.antt =====
-- The run queue of the round robin class is a queue of the processes that are ready.
use nku_os.Base.{
  ℕ, ◌+◌, ◌-◌, ◌^◌, ◌≤◌, ◌<◌, ◌≡◌, ◌≢◌, refl, true, false, ◌||◌, List, [], ◌∷◌, ◌++◌, arith, some,
  length, length-append, ◌==◌, ◌∉◌, ◌∈◌, append-nil, u32, has-append, if◌then◌else◌, ltb,
}
use nku_os.Links.{list_add_before, list_del_init, list_empty, put}
use nku_os.Links.Chain.{Ring, first, Chain-next_mid}
use nku_os.Links.Ops.{ne_of_mem, first-mem}
use nku_os.Links.Loose.{Loose, Loose-add_before, Loose-del_init}
use nku_os.Links.Rings.{list_add_before-Ring, list_del_init-Ring}
use nku_os.Sched.{Kernel, runnable, rr_enqueue, rr_dequeue, rr_pick_next}

mem-ne : (x c : ℕ) (xs : List ℕ) → x ∉ xs → c ∈ xs → c ≢ x
mem-ne x c xs h m = ground (arith, ne_of_mem x c xs h m)

-- Every process of the queue is runnable, belongs to it, and has some of its time slice left.
abbrev pub Ready : Kernel → List ℕ → Type 0
Ready k [] = Unit
Ready k (x ∷ xs) =
    (k.state x ≡ runnable)
    × (k.rq x ≡ true)
    × (0 < k.time_slice x)
    × (k.time_slice x ≤ k.max_time_slice)
    × Ready k xs

-- The run queue holds the processes `xs`, first come first; all other entries are loose.
pub record IsQueue (k : Kernel) (xs : List ℕ) : Type 0 where
  pub ring : Ring k.run_links 0 xs
  pub loose : (p : ℕ) → p ∉ (0 ∷ xs) → Loose k.run_links p
  pub ready : Ready k xs
  pub counted : k.proc_num ≡ length xs
  pub small : length xs < 2 ^ 32
  pub slice : 0 < k.max_time_slice
  pub no_idle : k.idleproc ∉ (0 ∷ xs)

Ready-snoc :
    (k : Kernel) (xs : List ℕ) (p : ℕ) → Ready k xs → Ready k (p ∷ []) → Ready k (xs ++ p ∷ [])
Ready-snoc k [] p r s = s
Ready-snoc k (x ∷ xs) p r s = (r.0, r.1, r.2, r.3, Ready-snoc k xs p r.4 s)

-- What holds of the queue does not depend on the fields of other processes.
pub Ready-frame :
    (k k' : Kernel) (xs : List ℕ)
    → ((c : ℕ)
        → c ∈ xs
        → (k'.state c ≡ k.state c) × (k'.rq c ≡ k.rq c) × (k'.time_slice c ≡ k.time_slice c))
    → k'.max_time_slice ≡ k.max_time_slice
    → Ready k xs
    → Ready k' xs
Ready-frame k k' [] h m r = tt
Ready-frame k k' (x ∷ xs) h m r =
    let e = h x (ground arith) in
    (
      ground (arith, e.0),
      ground (arith, e.1),
      ground (arith, e.2),
      ground (arith, e.2),
      Ready-frame k k' xs (λ c i. h c (ground arith)) m r.4,
    )

-- An unlinked, runnable process that is enqueued comes last, with a time slice.
pub rr_enqueue-IsQueue :
    (k : Kernel) (xs : List ℕ) (p : ℕ)
    → IsQueue k xs
    → p ∉ (0 ∷ xs)
    → p ≢ k.idleproc
    → k.state p ≡ runnable
    → length xs + 1 < 2 ^ 32
    → (k' : Kernel) × (rr_enqueue p k ≡ some k')
      × IsQueue k' (xs ++ p ∷ [])
      × (k'.state ≡ k.state)
      × (k'.current ≡ k.current)
      × (k'.idleproc ≡ k.idleproc)
      × (k'.wait_state ≡ k.wait_state)
unfolding rr_enqueue list_empty
rr_enqueue-IsQueue k xs p v out ni run small =
    let l = v.loose p out in
    let e : (k.run_links.next p == p) ≡ true = ground arith in
    let k' = record k {
      run_links = list_add_before 0 p k.run_links;
      time_slice =
          if (k.time_slice p == 0) || ltb k.max_time_slice (k.time_slice p)
          then put k.time_slice p k.max_time_slice
          else k.time_slice;
      rq = put k.rq p true;
      proc_num = u32 (k.proc_num + 1);
    } in
    (
      k',
      rw e,
      record {
        ring =
            list_add_before-Ring {h = k.run_links} {hd = 0} p xs [] (rw append-nil v.ring)
              (rw append-nil out);
        loose = λ q o.
            Loose-add_before k.run_links 0 q xs [] p (rw append-nil v.ring) o
              (v.loose q (ground (arith, has-append q xs (p ∷ []))));
        ready =
            Ready-snoc k' xs p
              (Ready-frame k k' xs
                (λ c i. (
                  refl,
                  ground (arith, mem-ne p c (0 ∷ xs) out (ground arith)),
                  ground (arith, mem-ne p c (0 ∷ xs) out (ground arith)),
                ))
                refl v.ready)
              (run, ground arith, ground (arith, v.slice), ground (arith, v.slice), tt);
        counted = omega (arith, v.counted, length-append xs (p ∷ []));
        small = omega (arith, length-append xs (p ∷ []));
        slice = v.slice;
        no_idle = ground (arith, has-append k.idleproc xs (p ∷ []), v.no_idle);
      },
      refl,
      refl,
      refl,
      refl,
    )

-- What is picked is the first process of the queue, or NULL if there is none.
pub rr_pick_next-first : (k : Kernel) (xs : List ℕ) → IsQueue k xs → rr_pick_next k ≡ first xs 0
unfolding rr_pick_next
rr_pick_next-first k [] v = ground (arith, v.ring.chain)
rr_pick_next-first k (x ∷ xs) v = ground (arith, v.ring.chain)

-- The first process can be dequeued, and is loose afterwards.
pub rr_dequeue-IsQueue :
    (k : Kernel) (x : ℕ) (xs : List ℕ)
    → IsQueue k (x ∷ xs)
    → (k' : Kernel) × (rr_dequeue x k ≡ some k')
      × IsQueue k' xs
      × (k'.state ≡ k.state)
      × (k'.current ≡ k.current)
      × (k'.idleproc ≡ k.idleproc)
      × (k'.wait_state ≡ k.wait_state)
unfolding rr_dequeue list_empty
rr_dequeue-IsQueue k x xs v =
    let rings = list_del_init-Ring x [] xs v.ring in
    let f = Chain-next_mid k.run_links 0 [] x xs 0 v.ring.chain in
    let nx : x ∉ (0 ∷ xs) = ground (arith, v.ring.apart, v.ring.nodup) in
    let linked : (k.run_links.next x == x) ≡ false =
      ground (arith, f, ne_of_mem x (first xs 0) (0 ∷ xs) nx (first-mem xs 0)) in
    (
      record k {
        run_links = list_del_init x k.run_links;
        proc_num = u32 (k.proc_num + (2 ^ 32 - 1));
      },
      rw (linked, v.ready.1),
      record {
        ring = rings.0;
        loose = λ q o. Loose-del_init k.run_links 0 q [] xs x v.ring o (v.loose q);
        ready = v.ready.4;
        counted = omega (arith, v.counted, v.small);
        small = omega (arith, v.small);
        slice = v.slice;
        no_idle = ground (arith, v.no_idle);
      },
      refl,
      refl,
      refl,
      refl,
    )
