-- ===== src/Skew/Trees.antt =====
-- The tree that a heap stands for.
use nku_os.Base.{ℕ, ◌+◌, ◌≤◌, ◌≡◌, ◌≢◌, ◌⊎◌, false, arith, ◌==◌, inl, inr, Bool, true, ◌∙◌}
use nku_os.Skew.{Pointers}

pub data Tree : Type 0 where
  leaf : Tree
  node : (left : Tree) (x : ℕ) (right : Tree) → Tree

abbrev pub one : Bool → ℕ
one true = 1
one false = 0

-- How often an entry stands in a tree.
unfoldable pub count : ℕ → Tree → ℕ
count y leaf = 0
count y (node l x r) = count y l + one (y == x) + count y r

unfoldable pub size : Tree → ℕ
size leaf = 0
size (node l x r) = size l + size r + 1

-- The child at `c` has the parent `x`.
abbrev pub Points : Pointers → (x c : ℕ) → Type 0
Points h x c = (c ≡ 0) ⊎ (h.parent c ≡ x)

-- The tree `t` stands at the address `a`.
abbrev pub IsAt : Pointers → Tree → ℕ → Type 0
IsAt h leaf a = a ≡ 0
IsAt h (node l x r) a =
    (a ≡ x)
    × (x ≢ 0)
    × IsAt h l (h.left x)
    × IsAt h r (h.right x)
    × Points h x (h.left x)
    × Points h x (h.right x)

-- Entries that are left alone.
pub record SameEntry (h h' : Pointers) (x : ℕ) : Type 0 where
  pub parent : h'.parent x ≡ h.parent x
  pub left : h'.left x ≡ h.left x
  pub right : h'.right x ≡ h.right x

pub count_root : (h : Pointers) (t : Tree) (a : ℕ) → IsAt h t a → (a ≡ 0) ⊎ (1 ≤ count a t)
unfolding count
count_root h leaf a i = inl i
count_root h (node l x r) a i = inr (ground (arith, i.0))

pub Points-frame :
    (h h' : Pointers) (x c : ℕ) → h'.parent c ≡ h.parent c → Points h x c → Points h' x c
Points-frame h h' x c e (inl z) = inl z
Points-frame h h' x c e (inr p) = inr (e ∙ p)

-- A tree survives writes outside it, and a write of its root's parent.
pub IsAt-frame :
    (h h' : Pointers) (t : Tree) (a : ℕ)
    → ((x : ℕ)
        → 1 ≤ count x t
        → (h'.left x ≡ h.left x) × (h'.right x ≡ h.right x) × (x ≢ a → h'.parent x ≡ h.parent x))
    → ((x : ℕ) → count x t ≤ 1)
    → IsAt h t a
    → IsAt h' t a
unfolding count
IsAt-frame h h' leaf a same once i = i
IsAt-frame h h' (node l x r) a same once i =
    let (here, nz, il, ir, pl, pr) = i in
    let (el, er, _) = same x (ground arith) in
    let at : (y : ℕ) → (1 ≤ count y l) ⊎ (1 ≤ count y r) → y ≢ a = λ y m. ground (arith, once y) in
    (
      here,
      nz,
      rw el (
          IsAt-frame h h' l (h.left x)
            (λ y m. let (a, b, c) = same y (omega arith) in (a, b, λ ne. c (at y (inl m))))
            (λ y. omega (arith, once y)) il),
      rw er (
          IsAt-frame h h' r (h.right x)
            (λ y m. let (a, b, c) = same y (omega arith) in (a, b, λ ne. c (at y (inr m))))
            (λ y. omega (arith, once y)) ir),
      rw el (elim (count_root h l (h.left x) il) [
        | inl z ↦ inl z
        | inr m ↦
            Points-frame h h' x (h.left x)
              ((same (h.left x) (omega arith)).2 (at (h.left x) (inl m))) pl
      ]),
      rw er (elim (count_root h r (h.right x) ir) [
        | inl z ↦ inl z
        | inr m ↦
            Points-frame h h' x (h.right x)
              ((same (h.right x) (omega arith)).2 (at (h.right x) (inr m))) pr
      ]),
    )
