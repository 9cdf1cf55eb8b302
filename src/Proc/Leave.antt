-- ===== src/Proc/Leave.antt =====
-- A process leaves the children of its parent: remove_links of lab5/kern/process/proc.c on sequences.
use nku_os.Base.{
  subst, ℕ, ◌≡◌, ◌≢◌, refl, sym, List, [], ◌∷◌, ◌++◌, arith, ◌==◌, ==-refl, ne→==, ◌∉◌, ◌∈◌, NoDup,
  if◌then◌else◌, not, has-append, ◌∙◌, ap,
}
use nku_os.Links.{put}
use nku_os.Links.Chain.{last, first, last-mem}
use nku_os.Links.Ops.{NoDup-delete, not-mem-append-right, ne_of_mem, not-mem-append-left}
use nku_os.Proc.{Table, remove_links}
use nku_os.Proc.Family.{Olders, Youngers, Children, Olders-put, Youngers-yptr}

-- What `optr` says behind `pre`.
pub Olders-mid :
    (optr : ℕ → ℕ) (c : ℕ) (pre : List ℕ) (z : ℕ) (post : List ℕ)
    → Olders optr c (pre ++ z ∷ post)
    → (z ≢ 0) × Olders optr (optr z) post
Olders-mid optr c [] z post h = (h.1, h.2)
Olders-mid optr c (x ∷ pre) z post h = Olders-mid optr (optr x) pre z post h.2

Olders-first : (optr : ℕ → ℕ) (c : ℕ) (xs : List ℕ) → Olders optr c xs → c ≡ first xs 0
Olders-first optr c [] h = h
Olders-first optr c (x ∷ xs) h = h.0

-- The one before `z` is linked to the one behind it.
Olders-cut :
    (optr : ℕ → ℕ) (c x : ℕ) (pre : List ℕ) (z : ℕ) (post : List ℕ)
    → NoDup (x ∷ pre ++ z ∷ post)
    → Olders optr c (x ∷ pre ++ z ∷ post)
    → Olders (put optr (last x pre) (optr z)) c (x ∷ pre ++ post)
Olders-cut optr c x [] z post once h = (
  h.0,
  h.1,
  rw (==-refl x) (Olders-put optr (optr z) x (optr z) post (ground (arith, once.0)) h.2.2),
)
Olders-cut optr c x (y ∷ pre) z post once h =
    let out : x ∉ (y ∷ pre) = not-mem-append-left x (y ∷ pre) (z ∷ post) once.0 in
    let apart : x ≢ last y pre = ne_of_mem x (last y pre) (y ∷ pre) out (last-mem y pre) in
    (h.0, h.1, rw (ne→== x (last y pre) apart) (Olders-cut optr (optr x) y pre z post once.1 h.2))

-- What the other pointers of `z` say.
pub Youngers-mid :
    (parent yptr : ℕ → ℕ) (p y : ℕ) (pre : List ℕ) (z : ℕ) (post : List ℕ)
    → Youngers parent yptr p y (pre ++ z ∷ post)
    → (parent z ≡ p) × (yptr z ≡ last y pre)
Youngers-mid parent yptr p y [] z post h = (h.0, h.1)
Youngers-mid parent yptr p y (x ∷ pre) z post h = Youngers-mid parent yptr p x pre z post h.2

has_second : (o : ℕ) (pre : List ℕ) (z : ℕ) (post : List ℕ) → o ∈ (pre ++ z ∷ o ∷ post)
has_second o pre z post = ground (arith, has-append o pre (z ∷ o ∷ post))

-- The one behind `z` is linked to the one before it.
Youngers-cut :
    (parent yptr : ℕ → ℕ) (p y : ℕ) (pre : List ℕ) (z o : ℕ) (post : List ℕ)
    → NoDup (pre ++ z ∷ o ∷ post)
    → Youngers parent yptr p y (pre ++ z ∷ o ∷ post)
    → Youngers parent (put yptr o (last y pre)) p y (pre ++ o ∷ post)
Youngers-cut parent yptr p y [] z o post once h =
    (h.2.0, rw (==-refl o) refl, Youngers-yptr parent yptr p o o y post once.1.0 h.2.2)
Youngers-cut parent yptr p y (x ∷ pre) z o post once h =
    let apart : x ≢ o = ne_of_mem x o (pre ++ z ∷ o ∷ post) once.0 (has_second o pre z post) in
    (h.0, rw (ne→== x o apart) h.1, Youngers-cut parent yptr p x pre z o post once.1 h.2)

Youngers-end :
    (parent yptr : ℕ → ℕ) (p y : ℕ) (pre : List ℕ) (z : ℕ)
    → Youngers parent yptr p y (pre ++ z ∷ [])
    → Youngers parent yptr p y (pre ++ [])
Youngers-end parent yptr p y [] z h = tt
Youngers-end parent yptr p y (x ∷ pre) z h = (h.0, h.1, Youngers-end parent yptr p x pre z h.2)

-- A process is not its own older sibling.
not_own_older :
    (optr : ℕ → ℕ) (c z : ℕ) (post : List ℕ) → z ≢ 0 → z ∉ post → Olders optr c post → c ≢ z
not_own_older optr c z [] nz out h = λ e. nz (sym e ∙ h)
not_own_older optr c z (o ∷ post) nz out h =
    let apart : o ≢ z = ground (arith, out) in λ e. apart (sym h.0 ∙ e)

last-nonzero :
    (optr : ℕ → ℕ) (c x : ℕ) (pre rest : List ℕ) → Olders optr c (x ∷ pre ++ rest) → last x pre ≢ 0
last-nonzero optr c x [] rest h = h.1
last-nonzero optr c x (y ∷ pre) rest h = last-nonzero optr (optr x) y pre rest h.2

-- What `remove_links` writes, for a process that is not its own older sibling.
module _ (t : Table) (z : ℕ) (apart : t.optr z ≢ z) where
  younger_kept : (remove_links z t).yptr z ≡ t.yptr z
  unfolding remove_links
  younger_kept = ground (arith, apart)

  new_optr :
      (remove_links z t).optr
      ≡ (if not (t.yptr z == 0) then put t.optr (t.yptr z) (t.optr z) else t.optr)
  unfolding remove_links
  new_optr = ap (λ y. if not (y == 0) then put t.optr y (t.optr z) else t.optr) younger_kept

  new_cptr :
      (remove_links z t).cptr
      ≡ (if not (t.yptr z == 0) then t.cptr else put t.cptr (t.parent z) (t.optr z))
  unfolding remove_links
  new_cptr =
      ap (λ y. if not (y == 0) then t.cptr else put t.cptr (t.parent z) (t.optr z)) younger_kept

remove_links-Olders :
    (t : Table) (p : ℕ) (pre : List ℕ) (z : ℕ) (post : List ℕ)
    → NoDup (pre ++ z ∷ post)
    → t.optr z ≢ z
    → t.parent z ≡ p
    → t.yptr z ≡ last 0 pre
    → Olders t.optr (t.cptr p) (pre ++ z ∷ post)
    → Olders (remove_links z t).optr ((remove_links z t).cptr p) (pre ++ post)
remove_links-Olders t p [] z post once apart up y h =
    let (nz, older) = Olders-mid t.optr (t.cptr p) [] z post h in
    rw (new_optr t z apart, new_cptr t z apart, y, up, ==-refl p) older
remove_links-Olders t p (x ∷ pre) z post once apart up y h =
    let some_y = ne→== (last x pre) 0 (last-nonzero t.optr (t.cptr p) x pre (z ∷ post) h) in
    let optr : (remove_links z t).optr ≡ put t.optr (last x pre) (t.optr z) =
      new_optr t z apart ∙ rw (y, some_y) refl in
    let cptr : (remove_links z t).cptr ≡ t.cptr = new_cptr t z apart ∙ rw (y, some_y) refl in
    subst (λ f. Olders f ((remove_links z t).cptr p) (x ∷ pre ++ post)) (sym optr)
      (subst (λ f. Olders (put t.optr (last x pre) (t.optr z)) (f p) (x ∷ pre ++ post)) (sym cptr)
        (Olders-cut t.optr (t.cptr p) x pre z post once h))

remove_links-Youngers :
    (t : Table) (p : ℕ) (pre : List ℕ) (z : ℕ) (post : List ℕ)
    → NoDup (pre ++ z ∷ post)
    → t.yptr z ≡ last 0 pre
    → Olders t.optr (t.optr z) post
    → Youngers t.parent t.yptr p 0 (pre ++ z ∷ post)
    → Youngers (remove_links z t).parent (remove_links z t).yptr p 0 (pre ++ post)
unfolding remove_links
remove_links-Youngers t p pre z [] once y older h =
    let same : (remove_links z t).yptr ≡ t.yptr = rw older refl in
    subst (λ f. Youngers t.parent f p 0 (pre ++ [])) (sym same)
      (Youngers-end t.parent t.yptr p 0 pre z h)
remove_links-Youngers t p pre z (o ∷ post) once y older h =
    let new : (remove_links z t).yptr ≡ put t.yptr o (last 0 pre) =
      rw (older.0, ne→== o 0 older.1, y) refl in
    subst (λ f. Youngers t.parent f p 0 (pre ++ o ∷ post)) (sym new)
      (Youngers-cut t.parent t.yptr p 0 pre z o post once h)

-- `remove_links` of the child `z` takes it out of the children of its parent.
pub remove_links-Children :
    (t : Table) (p : ℕ) (pre : List ℕ) (z : ℕ) (post : List ℕ)
    → NoDup (pre ++ z ∷ post)
    → Children t p (pre ++ z ∷ post)
    → Children (remove_links z t) p (pre ++ post)
remove_links-Children t p pre z post once h =
    let (up, y) = Youngers-mid t.parent t.yptr p 0 pre z post h.younger in
    let (nz, older) = Olders-mid t.optr (t.cptr p) pre z post h.older in
    let out = (NoDup-delete z pre post once).1 in
    let apart =
      not_own_older t.optr (t.optr z) z post nz (not-mem-append-right z pre post out) older in
    record {
      older = remove_links-Olders t p pre z post once apart up y h.older;
      younger = remove_links-Youngers t p pre z post once y older h.younger;
    }
