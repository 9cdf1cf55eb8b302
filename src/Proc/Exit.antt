-- ===== src/Proc/Exit.antt =====
-- do_exit of lab5/kern/process/proc.c: the state that it leaves, and the children of the process.
use nku_os.Base.{
  ap, subst, ◌∙◌, ◌>>=◌, ℕ, ◌<◌, ◌≡◌, ◌≢◌, refl, sym, true, false, List, arith, ◌==◌, if◌then◌else◌,
  ==-refl, ne→==, some, length,
}
use nku_os.Sched.{is_zombie}
use nku_os.Proc.Life.{Life, wakeup, adopt, leave_mm, turn_zombie, do_exit, wt_child}
use nku_os.Proc.Family.{Children}
use nku_os.Proc.Adopt.{frame, onto, Heirs, Woken-Heirs, round-Woken, adopt_lem}

-- Leaving the address space does not touch the processes.
record Kept (s s' : Life) : Type 0 where
  table : s'.table ≡ s.table
  current : s'.current ≡ s.current
  initproc : s'.initproc ≡ s.initproc
  exit_code : s'.exit_code ≡ s.exit_code
  frame_kept : frame s' ≡ frame s

leave_mm-Kept : (s : Life) → Kept s (leave_mm s)
unfolding leave_mm
leave_mm-Kept s = record {
  table = ground arith;
  current = ground arith;
  initproc = ground arith;
  exit_code = ground arith;
  frame_kept = ground arith;
}

turn_zombie-Heirs :
    (error_code : ℕ) (s : Life) (cs ds : List ℕ)
    → Heirs s s.current s.initproc cs ds
    → Heirs (turn_zombie error_code s) s.current s.initproc cs ds
unfolding turn_zombie
turn_zombie-Heirs error_code s cs ds h =
    let other : s.initproc ≢ s.current = λ e. h.differ (sym e) in
    record {
      current = refl;
      initproc = refl;
      differ = h.differ;
      alive = rw (ne→== s.initproc s.current other) h.alive;
      orphans = h.orphans;
      children = record { older = h.children.older; younger = h.children.younger };
      once = h.once;
      ours_once = h.ours_once;
      apart = h.apart;
    }

-- `cur` has ended with the exit code `error_code`, and the children of `init` are `xs`.
pub record Ended (s : Life) (cur init error_code : ℕ) (xs : List ℕ) : Type 0 where
  pub state : is_zombie (s.table.state cur) ≡ true
  pub exit_code : s.exit_code cur ≡ error_code
  pub none_left : s.table.cptr cur ≡ 0
  pub children : Children s.table init xs

-- What the end of `cur` does not change: the lists of processes and the like, and which others are zombies.
pub record Beside (s s' : Life) (cur : ℕ) : Type 0 where
  pub frame_kept : frame s' ≡ frame s
  pub state : (q : ℕ) → q ≢ cur → is_zombie (s'.table.state q) ≡ is_zombie (s.table.state q)

-- The rest of `do_exit`.
close_lem :
    (fuel error_code : ℕ) (s : Life) (cs ds : List ℕ)
    → Heirs s s.current s.initproc cs ds
    → s.table.parent s.current ≢ s.current
    → is_zombie (s.table.state (s.table.parent s.current)) ≡ false
    → length cs < fuel
    → let s₂ = turn_zombie error_code s in
      let parent = s₂.table.parent s₂.current in
      (s' : Life) × (((if s₂.wait_state parent == wt_child then wakeup parent s₂ else some s₂)
          >>= λ s₃. adopt fuel s₃)
        ≡ some s')
      × Ended s' s.current s.initproc error_code (onto cs ds)
      × Beside s s' s.current
unfolding turn_zombie
close_lem fuel error_code s cs ds h other alive enough =
    let s₂ = turn_zombie error_code s in
    let p = s.table.parent s.current in
    let (s₃, round, w) =
      round-Woken (s₂.wait_state p == wt_child) p s₂ (rw (ne→== p s.current other) alive) in
    let next =
      Woken-Heirs s₂ s₃ s.current s.initproc cs ds w (turn_zombie-Heirs error_code s cs ds h) in
    let (s', run, a) = adopt_lem fuel s₃ cs ds (rw (w.current, w.initproc) next) enough in
    (
      s',
      rw round run,
      record {
        state = a.state s.current ∙ w.state s.current ∙ rw (==-refl s.current) refl;
        exit_code = rw (a.exit_code, w.exit_code, ==-refl s.current) refl;
        none_left = subst (λ c. s'.table.cptr c ≡ 0) w.current a.none_left;
        children = subst (λ i. Children s'.table i (onto cs ds)) w.initproc a.children;
      },
      record {
        frame_kept = a.frame_kept ∙ w.frame_kept;
        state = λ q other. a.state q ∙ w.state q ∙ rw (ne→== q s.current other) refl;
      },
    )

Kept-Heirs :
    (s s' : Life) (cur init : ℕ) (cs ds : List ℕ)
    → Kept s s'
    → Heirs s cur init cs ds
    → Heirs s' cur init cs ds
Kept-Heirs s s' cur init cs ds k h = record {
  current = rw k.current h.current;
  initproc = rw k.initproc h.initproc;
  differ = h.differ;
  alive = rw k.table h.alive;
  orphans = rw k.table h.orphans;
  children = subst (λ t. Children t init ds) (sym k.table) h.children;
  once = h.once;
  ours_once = h.ours_once;
  apart = h.apart;
}

-- As `do_exit_lem`, and with what stays as it is.
pub do_exit-Beside :
    (fuel error_code : ℕ) (s : Life) (cs ds : List ℕ)
    → Heirs s s.current s.initproc cs ds
    → s.current ≢ s.idleproc
    → s.table.parent s.current ≢ s.current
    → is_zombie (s.table.state (s.table.parent s.current)) ≡ false
    → length cs < fuel
    → (s' : Life) × (do_exit fuel error_code s ≡ some s')
      × Ended s' s.current s.initproc error_code (onto cs ds)
      × Beside s s' s.current
unfolding do_exit
do_exit-Beside fuel error_code s cs ds h busy other alive enough =
    let k = leave_mm-Kept s in
    let (s', run, facts, b) =
      close_lem fuel error_code (leave_mm s) cs ds
        (rw (k.current, k.initproc) (Kept-Heirs s (leave_mm s) _ _ cs ds k h))
        (rw (k.table, k.current) other) (rw (k.table, k.current) alive) enough in
    (
      s',
      rw (ne→== s.current s.idleproc busy, ne→== s.current s.initproc h.differ) run,
      subst (λ c. Ended s' c s.initproc error_code (onto cs ds)) k.current
          (subst (λ i. Ended s' (leave_mm s).current i error_code (onto cs ds)) k.initproc facts),
      record {
        frame_kept = b.frame_kept ∙ k.frame_kept;
        state = λ q ne.
            b.state q (subst (λ c. q ≢ c) (sym k.current) ne)
            ∙ ap (λ t. is_zombie (t.state q)) k.table;
      },
    )

-- Let the running process have the children `cs` and initproc the children `ds`, all different,
-- and let it be neither idleproc nor initproc nor its own parent, and neither initproc nor its
-- parent be a zombie. Then `do_exit` returns on more fuel than `cs` is long: the process is a
-- zombie with the exit code and without children, and `cs` are the first children of initproc, the
-- last one first, with the parents and the siblings that their pointers should say, and `ds`
-- behind them.
pub do_exit_lem :
    (fuel error_code : ℕ) (s : Life) (cs ds : List ℕ)
    → Heirs s s.current s.initproc cs ds
    → s.current ≢ s.idleproc
    → s.table.parent s.current ≢ s.current
    → is_zombie (s.table.state (s.table.parent s.current)) ≡ false
    → length cs < fuel
    → (s' : Life) × (do_exit fuel error_code s ≡ some s')
      × Ended s' s.current s.initproc error_code (onto cs ds)
do_exit_lem fuel error_code s cs ds h busy other alive enough =
    let (s', run, facts, b) = do_exit-Beside fuel error_code s cs ds h busy other alive enough in
    (s', run, facts)
