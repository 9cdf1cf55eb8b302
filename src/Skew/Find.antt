-- ===== src/Skew/Find.antt =====
-- The subtree below an entry, and a tree with another one in its place.
use nku_os.Base.{
  ℕ, ◌+◌, ◌≤◌, ◌≡◌, ◌⊎◌, refl, false, arith, ◌==◌, ltb, inl, inr, Bool-cases, true, if◌then◌else◌,
  ap,
}
use nku_os.Str.{ℤ}
use nku_os.Skew.{Pointers}
use nku_os.Skew.Trees.{Tree, leaf, node, one, count, IsAt}
use nku_os.Skew.Order.{IsAbove, IsOrdered}

unfoldable pub find : ℕ → Tree → Tree
find b leaf = leaf
find b (node l x r) =
    let in_left = find b l in
    let in_right = find b r in
    if x == b then node l x r else if ltb 0 (count b l) then in_left else in_right

unfoldable pub replace : ℕ → Tree → Tree → Tree
replace b u leaf = leaf
replace b u (node l x r) =
    let others = node (replace b u l) x (replace b u r) in if x == b then u else others

pub count-find : (b y : ℕ) (t : Tree) → count y (find b t) ≤ count y t
unfolding find count
count-find b y leaf = omega arith
count-find b y (node l x r) = ground (arith, count-find b y l, count-find b y r)

pub find_root : (h : Pointers) (t : Tree) (b : ℕ) → IsAt h t b → find b t ≡ t
unfolding find
find_root h leaf b i = refl
find_root h (node l x r) b i = let e : (x == b) ≡ true = ground (arith, i.0) in rw e refl

pub replace_none : (b : ℕ) (u t : Tree) → count b t ≡ 0 → replace b u t ≡ t
unfolding replace count
replace_none b u leaf none = refl
replace_none b u (node l x r) none =
    let e : (x == b) ≡ false = ground arith in
    rw (e, replace_none b u l (omega arith), replace_none b u r (omega arith)) refl

-- The subtree of an entry of a tree, with its root in front.
pub find_node : (b : ℕ) (t : Tree) → 1 ≤ count b t → (l r : Tree) × (find b t ≡ node l b r)
unfolding find count
find_node b leaf k = absurd (omega arith)
find_node b (node l x r) k = elim (Bool-cases (x == b)) [
  | inl here ↦ let e : x ≡ b = ground arith in (l, r, rw here (ap (λ z. node l z r) e))
  | inr other ↦ elim (Bool-cases (ltb 0 (count b l))) [
    | inl left ↦ let (l', r', e) = find_node b l (ground arith) in (l', r', rw (other, left) e)
    | inr right ↦ let (l', r', e) = find_node b r (ground arith) in (l', r', rw (other, right) e)
  ]
]

pub find-IsAt :
    (h : Pointers) (b : ℕ) (t : Tree) (a : ℕ) → IsAt h t a → 1 ≤ count b t → IsAt h (find b t) b
unfolding find count
find-IsAt h b leaf a i k = absurd (omega arith)
find-IsAt h b (node l x r) a i k = elim (Bool-cases (x == b)) [
  | inl here ↦ let e : b ≡ x = ground arith in rw here (e, i.1, i.2, i.3, i.4, i.5)
  | inr other ↦ elim (Bool-cases (ltb 0 (count b l))) [
    | inl left ↦ rw (other, left) (find-IsAt h b l (h.left x) i.2 (ground arith))
    | inr right ↦ rw (other, right) (find-IsAt h b r (h.right x) i.3 (ground arith))
  ]
]

pub count_zero : (h : Pointers) (t : Tree) (a : ℕ) → IsAt h t a → count 0 t ≡ 0
unfolding count
count_zero h leaf a i = refl
count_zero h (node l x r) a i =
    ground (arith, count_zero h l (h.left x) i.2, count_zero h r (h.right x) i.3)

-- Only the subtree is exchanged.
pub count-replace :
    (b y : ℕ) (u t : Tree)
    → count b t ≡ 1
    → count y (replace b u t) + count y (find b t) ≡ count y t + count y u
unfolding find replace count
count-replace b y u leaf k = absurd (omega arith)
count-replace b y u (node l x r) k = elim (Bool-cases (x == b)) [
  | inl here ↦ rw here (omega arith)
  | inr other ↦ elim (Bool-cases (ltb 0 (count b l))) [
    | inl left ↦
        rw (other, left, replace_none b u r (ground arith))
          (omega (arith, count-replace b y u l (ground arith)))
    | inr right ↦
        rw (other, right, replace_none b u l (ground arith))
          (omega (arith, count-replace b y u r (ground arith)))
  ]
]

replace_in :
    (b y : ℕ) (u t : Tree)
    → 1 ≤ count y (replace b u t)
    → (1 ≤ count y t) ⊎ ((1 ≤ count y u) × (1 ≤ count b t))
unfolding replace count
replace_in b y u leaf k = absurd (omega arith)
replace_in b y u (node l x r) k = elim (Bool-cases (x == b)) [
  | inl here ↦ inr (rw here at k, ground arith)
  | inr other ↦
      let k' : 1 ≤ count y (replace b u l) + one (y == x) + count y (replace b u r) =
        rw other at k in
      ground (arith, replace_in b y u l, replace_in b y u r)
]

module _ (comp : ℕ → ℕ → ℤ) where
  pub find-IsOrdered : (b : ℕ) (t : Tree) → IsOrdered comp t → IsOrdered comp (find b t)
  unfolding find
  find-IsOrdered b leaf o = tt
  find-IsOrdered b (node l x r) o = elim (Bool-cases (x == b)) [
    | inl here ↦ rw here o
    | inr other ↦ elim (Bool-cases (ltb 0 (count b l))) [
      | inl left ↦ rw (other, left) (find-IsOrdered b l o.2)
      | inr right ↦ rw (other, right) (find-IsOrdered b r o.3)
    ]
  ]

  -- The tree stays in order if the new subtree is, and has no new entries.
  pub replace-IsOrdered :
      (b : ℕ) (u t : Tree)
      → count b t ≤ 1
      → ((y : ℕ) → 1 ≤ count y u → 1 ≤ count y (find b t))
      → IsOrdered comp u
      → IsOrdered comp t
      → IsOrdered comp (replace b u t)
  unfolding find replace count
  replace-IsOrdered b u leaf once less ou o = tt
  replace-IsOrdered b u (node l x r) once less ou o = elim (Bool-cases (x == b)) [
    | inl here ↦ rw here ou
    | inr other ↦ elim (Bool-cases (ltb 0 (count b l))) [
      | inl left ↦
          let less' : (y : ℕ) → 1 ≤ count y u → 1 ≤ count y (find b l) =
            λ y k. rw (other, left) at (less y k) in
          let above : IsAbove comp x (replace b u l) = λ y k. elim (replace_in b y u l k) [
            | inl old ↦ o.0 y old
            | inr new ↦ o.0 y (omega (arith, less' y new.0, count-find b y l))
          ] in
          rw (other, replace_none b u r (ground arith))
            (above, o.1, replace-IsOrdered b u l (omega arith) less' ou o.2, o.3)
      | inr right ↦
          let less' : (y : ℕ) → 1 ≤ count y u → 1 ≤ count y (find b r) =
            λ y k. rw (other, right) at (less y k) in
          let above : IsAbove comp x (replace b u r) = λ y k. elim (replace_in b y u r k) [
            | inl old ↦ o.1 y old
            | inr new ↦ o.1 y (omega (arith, less' y new.0, count-find b y r))
          ] in
          rw (other, replace_none b u l (ground arith))
            (o.0, above, o.2, replace-IsOrdered b u r (omega arith) less' ou o.3)
    ]
  ]
