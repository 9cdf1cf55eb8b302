-- ===== src/Proc/Adopt.antt =====
-- What `do_exit` of lab5/kern/process/proc.c makes of the children of the process that ends.
use nku_os.Base.{
  subst, ◌∙◌, ℕ, suc, ◌<◌, ◌≡◌, ◌≢◌, refl, sym, Bool, true, false, ◌&&◌, List, [], ◌∷◌, arith, ◌==◌,
  if◌then◌else◌, ==-refl, ne→==, ◌∉◌, NoDup, some, inl, inr, Bool-cases, length, zero,
}
use nku_os.Links.{Links, put}
use nku_os.Sched.{is_zombie, is_runnable, ProcState, runnable}
use nku_os.Proc.Life.{Life, wakeup, give, adopt, wt_child}
use nku_os.Proc.Family.{Olders, Olders-put, Children, give-Children}

-- `xs` in the opposite order, in front of `ds`.
abbrev pub onto : List ℕ → List ℕ → List ℕ
onto [] ds = ds
onto (x ∷ xs) ds = onto xs (x ∷ ds)

-- No entry of the first list is in the second.
abbrev pub Apart : List ℕ → List ℕ → Type 0
Apart [] ds = Unit
Apart (x ∷ xs) ds = (x ∉ ds) × Apart xs ds

pub Apart-cons : (x : ℕ) (xs ds : List ℕ) → x ∉ xs → Apart xs ds → Apart xs (x ∷ ds)
Apart-cons x [] ds out h = tt
Apart-cons x (y ∷ ys) ds out h = (ground arith, Apart-cons x ys ds (ground arith) h.1)

-- The lists of processes, their number, their stacks, and the first two processes.
abbrev pub frame : Life → Links × Links × ℕ × (ℕ → ℕ) × ℕ × ℕ
frame s = (s.table.links, s.table.hash_links, s.table.nr_process, s.kstack, s.idleproc, s.initproc)

-- What waking a process leaves as it is.
pub record Woken (s s' : Life) : Type 0 where
  pub optr : s'.table.optr ≡ s.table.optr
  pub cptr : s'.table.cptr ≡ s.table.cptr
  pub yptr : s'.table.yptr ≡ s.table.yptr
  pub parent : s'.table.parent ≡ s.table.parent
  pub current : s'.current ≡ s.current
  pub initproc : s'.initproc ≡ s.initproc
  pub exit_code : s'.exit_code ≡ s.exit_code
  pub frame_kept : frame s' ≡ frame s
  pub state : (q : ℕ) → is_zombie (s'.table.state q) ≡ is_zombie (s.table.state q)

put-alive :
    (state : ℕ → ProcState) (p : ℕ)
    → is_zombie (state p) ≡ false
    → (q : ℕ) → is_zombie (put state p runnable q) ≡ is_zombie (state q)
put-alive state p alive q = elim (Bool-cases (q == p)) [
  | inl e ↦ let here : q ≡ p = ground arith in rw (here, ==-refl p, alive) refl
  | inr e ↦ rw e refl
]

wakeup-Woken :
    (p : ℕ) (s : Life)
    → is_zombie (s.table.state p) ≡ false
    → (s' : Life) × (wakeup p s ≡ some s') × Woken s s'
unfolding wakeup
wakeup-Woken p s alive = elim (Bool-cases (is_runnable (s.table.state p))) [
  | inl r ↦ (
    s,
    rw (alive, r) refl,
    record {
      optr = refl;
      cptr = refl;
      yptr = refl;
      parent = refl;
      current = refl;
      initproc = refl;
      exit_code = refl;
      frame_kept = refl;
      state = λ q. refl;
    },
  )
  | inr r ↦ (
    record s {
      table = record s.table { state = put s.table.state p runnable };
      wait_state = put s.wait_state p 0;
    },
    rw (alive, r) refl,
    record {
      optr = refl;
      cptr = refl;
      yptr = refl;
      parent = refl;
      current = refl;
      initproc = refl;
      exit_code = refl;
      frame_kept = refl;
      state = put-alive s.table.state p alive;
    },
  )
]

-- A process `cur` with the children `cs`, and the process `init` with the children `ds`, which is to
-- take them over. Of the pointers of `cs` only `cptr` and `optr` matter.
pub record Heirs (s : Life) (cur init : ℕ) (cs ds : List ℕ) : Type 0 where
  pub current : s.current ≡ cur
  pub initproc : s.initproc ≡ init
  pub differ : cur ≢ init
  pub alive : is_zombie (s.table.state init) ≡ false
  pub orphans : Olders s.table.optr (s.table.cptr cur) cs
  pub children : Children s.table init ds
  pub once : NoDup cs
  pub ours_once : NoDup ds
  pub apart : Apart cs ds

pub Woken-Heirs :
    (s s' : Life) (cur init : ℕ) (cs ds : List ℕ)
    → Woken s s'
    → Heirs s cur init cs ds
    → Heirs s' cur init cs ds
Woken-Heirs s s' cur init cs ds w h = record {
  current = rw w.current h.current;
  initproc = rw w.initproc h.initproc;
  differ = h.differ;
  alive = rw (w.state init) h.alive;
  orphans = rw (w.optr, w.cptr) h.orphans;
  children = record {
    older = rw (w.optr, w.cptr) h.children.older;
    younger = rw (w.parent, w.yptr) h.children.younger;
  };
  once = h.once;
  ours_once = h.ours_once;
  apart = h.apart;
}

give-Heirs :
    (s : Life) (x : ℕ) (cs ds : List ℕ)
    → Heirs s s.current s.initproc (x ∷ cs) ds
    → Heirs (give x s) s.current s.initproc cs (x ∷ ds)
unfolding give
give-Heirs s x cs ds h = record {
  current = refl;
  initproc = refl;
  differ = h.differ;
  alive = h.alive;
  orphans =
      rw (ne→== s.current s.initproc h.differ, ==-refl s.current)
        (Olders-put s.table.optr _ x _ cs h.once.0 h.orphans.2);
  children = give-Children s x ds h.orphans.1 h.apart.0 h.ours_once h.children;
  once = h.once.1;
  ours_once = (h.apart.0, h.ours_once);
  apart = Apart-cons x cs ds h.once.0 h.apart.1;
}

-- A process is woken or not.
pub round-Woken :
    (b : Bool) (p : ℕ) (s : Life)
    → is_zombie (s.table.state p) ≡ false
    → (s' : Life) × ((if b then wakeup p s else some s) ≡ some s') × Woken s s'
round-Woken true p s alive = wakeup-Woken p s alive
round-Woken false p s alive = (
  s,
  refl,
  record {
    optr = refl;
    cptr = refl;
    yptr = refl;
    parent = refl;
    current = refl;
    initproc = refl;
    exit_code = refl;
    frame_kept = refl;
    state = λ q. refl;
  },
)

-- What the loop makes of `s`: nobody is left as a child of `cur`, and the children of `init` are `xs`.
pub record Adopted (s s' : Life) (cur init : ℕ) (xs : List ℕ) : Type 0 where
  pub none_left : s'.table.cptr cur ≡ 0
  pub children : Children s'.table init xs
  pub exit_code : s'.exit_code ≡ s.exit_code
  pub frame_kept : frame s' ≡ frame s
  pub state : (q : ℕ) → is_zombie (s'.table.state q) ≡ is_zombie (s.table.state q)

Adopted-next :
    (s s₁ s₂ : Life) (x : ℕ) (xs : List ℕ)
    → Woken (give x s) s₁
    → Adopted s₁ s₂ s₁.current s₁.initproc xs
    → Adopted s s₂ s.current s.initproc xs
unfolding give
Adopted-next s s₁ s₂ x xs w a = record {
  none_left = rw (sym w.current) a.none_left;
  children = subst (λ i. Children s₂.table i xs) w.initproc a.children;
  exit_code = rw (sym w.exit_code) a.exit_code;
  frame_kept = a.frame_kept ∙ w.frame_kept;
  state = λ q. a.state q ∙ w.state q;
}

-- `adopt` on more fuel than the current process has children returns, with all of them in front of those
-- of initproc.
pub adopt_lem :
    (fuel : ℕ) (s : Life) (cs ds : List ℕ)
    → Heirs s s.current s.initproc cs ds
    → length cs < fuel
    → (s' : Life) × (adopt fuel s ≡ some s') × Adopted s s' s.current s.initproc (onto cs ds)
unfolding adopt give
adopt_lem zero s cs ds h enough = ground arith
adopt_lem (suc n) s [] ds h enough = (
  s,
  rw (h.orphans) refl,
  record {
    none_left = h.orphans;
    children = h.children;
    exit_code = refl;
    frame_kept = refl;
    state = λ q. refl;
  },
)
adopt_lem (suc n) s (x ∷ cs) ds h enough =
    let b = is_zombie (s.table.state x) && (s.wait_state s.initproc == wt_child) in
    let given = give-Heirs s x cs ds h in
    let (s₁, round, w) = round-Woken b s.initproc (give x s) given.alive in
    let next = Woken-Heirs (give x s) s₁ s.current s.initproc cs (x ∷ ds) w given in
    let (s₂, rest, a) =
      adopt_lem n s₁ cs (x ∷ ds) (rw (w.current, w.initproc) next) (ground arith) in
    (s₂, rw (h.orphans.0, ne→== x 0 h.orphans.1, round) rest, Adopted-next s s₁ s₂ x _ w a)
