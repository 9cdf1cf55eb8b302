-- ===== src/Proc/Family.antt =====
-- The children of a process as a sequence, the youngest first, and what giving one of them to initproc
-- does to such sequences.
use nku_os.Base.{subst, ℕ, ◌≡◌, ◌≢◌, refl, sym, List, [], ◌∷◌, arith, ==-refl, ne→==, ◌∉◌, NoDup}
use nku_os.Links.{put}
use nku_os.Proc.{Table}
use nku_os.Proc.Life.{Life, give}

-- From `c` on, the `optr` pointers lead through `xs` and end with 0.
abbrev pub Olders : (optr : ℕ → ℕ) → ℕ → List ℕ → Type 0
Olders optr c [] = c ≡ 0
Olders optr c (x ∷ xs) = (c ≡ x) × (x ≢ 0) × Olders optr (optr x) xs

-- Each process of `xs` has the parent `p`, and its `yptr` is the one before it, `y` for the first.
abbrev pub Youngers : (parent yptr : ℕ → ℕ) → (p y : ℕ) → List ℕ → Type 0
Youngers parent yptr p y [] = Unit
Youngers parent yptr p y (x ∷ xs) = (parent x ≡ p) × (yptr x ≡ y) × Youngers parent yptr p x xs

-- The children of `p` are `xs`, and all their pointers say so.
pub record Children (t : Table) (p : ℕ) (xs : List ℕ) : Type 0 where
  pub older : Olders t.optr (t.cptr p) xs
  pub younger : Youngers t.parent t.yptr p 0 xs

pub Olders-put :
    (optr : ℕ → ℕ) (c x o : ℕ) (xs : List ℕ)
    → x ∉ xs
    → Olders optr c xs
    → Olders (put optr x o) c xs
Olders-put optr c x o [] out h = h
Olders-put optr c x o (y ∷ ys) out h =
    let apart : y ≢ x = ground arith in
    (h.0, h.1, rw (ne→== y x apart) (Olders-put optr (optr y) x o ys (ground arith) h.2))

pub Youngers-put :
    (parent yptr : ℕ → ℕ) (p y x q z : ℕ) (xs : List ℕ)
    → x ∉ xs
    → Youngers parent yptr p y xs
    → Youngers (put parent x q) (put yptr x z) p y xs
Youngers-put parent yptr p y x q z [] out h = tt
Youngers-put parent yptr p y x q z (a ∷ bs) out h =
    let apart : a ≢ x = ground arith in
    (
      rw (ne→== a x apart) h.0,
      rw (ne→== a x apart) h.1,
      Youngers-put parent yptr p a x q z bs (ground arith) h.2,
    )

pub Youngers-yptr :
    (parent yptr : ℕ → ℕ) (p y x z : ℕ) (xs : List ℕ)
    → x ∉ xs
    → Youngers parent yptr p y xs
    → Youngers parent (put yptr x z) p y xs
Youngers-yptr parent yptr p y x z [] out h = tt
Youngers-yptr parent yptr p y x z (a ∷ bs) out h =
    let apart : a ≢ x = ground arith in
    (h.0, rw (ne→== a x apart) h.1, Youngers-yptr parent yptr p a x z bs (ground arith) h.2)

-- `give` takes the first child `x` from the current process and makes it the first child of initproc.
pub give-Children :
    (s : Life) (x : ℕ) (ds : List ℕ)
    → x ≢ 0
    → x ∉ ds
    → NoDup ds
    → Children s.table s.initproc ds
    → Children (give x s).table s.initproc (x ∷ ds)
unfolding give
give-Children s x [] some_x out nodup kids = record {
  older = rw (==-refl s.initproc, ==-refl x) (refl, some_x, kids.older);
  younger = rw (==-refl x, kids.older, ==-refl x) (refl, refl, tt);
}
give-Children s x (d ∷ ds) some_x out nodup kids =
    let apart : d ≢ x = ground arith in
    let other : x ≢ d = ground arith in
    let old : s.table.cptr s.initproc ≡ d = kids.older.0 in
    let relinked : (give x s).table.yptr ≡ put (put s.table.yptr x 0) d x =
      rw (old, ne→== d 0 kids.older.1) refl in
    record {
      older =
          rw (==-refl s.initproc, ==-refl x)
            (refl, some_x, Olders-put _ _ x _ (d ∷ ds) out kids.older);
      younger =
          subst (λ yptr. Youngers (put s.table.parent x s.initproc) yptr s.initproc 0 (x ∷ d ∷ ds))
            (sym relinked)
            (
              rw (==-refl x) refl,
              rw (ne→== x d other, ==-refl x) refl,
              (
                rw (ne→== d x apart) kids.younger.0,
                rw (==-refl d) refl,
                Youngers-yptr _ _ s.initproc d d x ds (ground arith)
                    (Youngers-put _ _ s.initproc d x s.initproc 0 ds (ground arith) kids.younger.2),
              ),
            );
    }
