-- ===== src/Skew/Swap.antt =====
-- The pointers of a heap after a subtree has been exchanged.
use nku_os.Base.{
  ℕ, ◌+◌, ◌≤◌, ◌≡◌, ◌≢◌, refl, sym, false, arith, ◌==◌, ltb, inl, inr, Bool-cases, true,
  if◌then◌else◌, subst, ◌∙◌, ne→==, ==→ne,
}
use nku_os.Skew.{Pointers}
use nku_os.Skew.Trees.{
  Tree, leaf, node, one, count, Points, IsAt, IsAt-frame, Points-frame, count_root,
}
use nku_os.Skew.Find.{find, find_root, replace, replace_none, count-find, count_zero}

-- In `h'` the tree `u` stands at `rep` where the tree `sub` with the root `b` stood in `h`.
pub record Swapped (h h' : Pointers) (b : ℕ) (sub : Tree) (rep : ℕ) (u : Tree) : Type 0 where
  pub tree : IsAt h' u rep
  pub points : Points h' (h.parent b) rep
  pub parents : (y : ℕ) → count y sub ≡ 0 → h'.parent y ≡ h.parent y
  pub lefts : (y : ℕ) → count y sub ≡ 0 → y ≢ h.parent b → h'.left y ≡ h.left y
  pub rights : (y : ℕ) → count y sub ≡ 0 → y ≢ h.parent b → h'.right y ≡ h.right y
  pub left_p :
      h'.left (h.parent b) ≡ (if h.left (h.parent b) == b then rep else h.left (h.parent b))
  pub right_p :
      h'.right (h.parent b) ≡ (if h.left (h.parent b) == b then h.right (h.parent b) else rep)

-- The parent of an entry below the root is in the tree.
pub parent_in :
    (h : Pointers) (b : ℕ) (t : Tree) (a : ℕ)
    → IsAt h t a
    → a ≢ b
    → 1 ≤ count b t
    → 1 ≤ count (h.parent b) t
unfolding count
parent_in h b leaf a i ne k = absurd (omega arith)
parent_in h b (node l x r) a i ne k = elim (Bool-cases (ltb 0 (count b l))) [
  | inl left ↦ elim (Bool-cases (h.left x == b)) [
    | inl child ↦ ground (arith, i.4, count_zero h l (h.left x) i.2)
    | inr deeper ↦
        let m = parent_in h b l (h.left x) i.2 (==→ne (h.left x) b deeper) (ground arith) in
        omega (arith, m)
  ]
  | inr right ↦ elim (Bool-cases (h.right x == b)) [
    | inl child ↦ ground (arith, i.5, i.0, count_zero h r (h.right x) i.3)
    | inr deeper ↦
        let m =
          parent_in h b r (h.right x) i.3 (==→ne (h.right x) b deeper) (ground (arith, i.0)) in
        omega (arith, m)
  ]
]

pub replace_root :
    (h : Pointers) (b : ℕ) (u t : Tree) → IsAt h t b → 1 ≤ count b t → replace b u t ≡ u
unfolding replace count
replace_root h b u leaf i k = absurd (omega arith)
replace_root h b u (node l x r) i k = let e : (x == b) ≡ true = ground (arith, i.0) in rw e refl

-- The root is above the subtree of another entry.
pub count-find_root :
    (h : Pointers) (b : ℕ) (t : Tree) (a : ℕ)
    → IsAt h t a
    → ((y : ℕ) → count y t ≤ 1)
    → a ≢ b
    → count a (find b t) ≡ 0
unfolding find count
count-find_root h b leaf a i once ne = refl
count-find_root h b (node l x r) a i once ne =
    ground (arith, i.0, once a, count-find b a l, count-find b a r)

node-IsAt :
    (h : Pointers) (l : Tree) (x : ℕ) (r : Tree) (cl cr : ℕ)
    → x ≢ 0
    → h.left x ≡ cl
    → h.right x ≡ cr
    → IsAt h l cl × Points h x cl
    → IsAt h r cr × Points h x cr
    → IsAt h (node l x r) x
node-IsAt h l x r cl cr nz el er a b = (refl, nz, rw el a.0, rw er b.0, rw el a.1, rw er b.1)

module _ (h h' : Pointers) (b : ℕ) (sub : Tree) (rep : ℕ) (u : Tree)
    (s : Swapped h h' b sub rep u) where
  -- A tree apart from the subtree and from its parent.
  apart-IsAt :
      (t : Tree) (a : ℕ)
      → ((y : ℕ) → count y t + count y sub ≤ 1)
      → count (h.parent b) t ≡ 0
      → IsAt h t a
      → IsAt h' t a
  apart-IsAt t a apart away i =
      IsAt-frame h h' t a
        (λ y k.
          let out : count y sub ≡ 0 = omega (arith, apart y) in
          let ne : y ≢ h.parent b = λ e. ground (arith, away) in
          (s.lefts y out ne, s.rights y out ne, λ q. s.parents y out))
        (λ y. omega (arith, apart y)) i

  -- A child apart from the subtree keeps its parent.
  apart-Points :
      (t : Tree) (c x : ℕ)
      → ((y : ℕ) → count y t + count y sub ≤ 1)
      → IsAt h t c
      → Points h x c
      → Points h' x c
  apart-Points t c x apart i pt = elim (count_root h t c i) [
    | inl z ↦ inl z
    | inr k ↦ Points-frame h h' x c (s.parents c (omega (arith, apart c))) pt
  ]

  -- The subtree is the left one, or the right one, of the node `x`.
  module _ (l : Tree) (x : ℕ) (r : Tree) (i : IsAt h (node l x r) x)
      (once : (y : ℕ) → count y l + one (y == x) + count y r ≤ 1) where
    IsAt-left : h.left x ≡ b → 1 ≤ count b l → l ≡ sub → IsAt h' (node u x r) x
    IsAt-left child k same =
        let px : h.parent b ≡ x = ground (arith, i.4, count_zero h l (h.left x) i.2) in
        let test : (h.left (h.parent b) == b) ≡ true = rw px (ground arith) in
        let el : h'.left x ≡ rep = subst (λ z. h'.left z ≡ rep) px (s.left_p ∙ rw test refl) in
        let er : h'.right x ≡ h.right x =
          subst (λ z. h'.right z ≡ h.right z) px (s.right_p ∙ rw test refl) in
        let apart : (y : ℕ) → count y r + count y sub ≤ 1 =
          λ y. rw (← same) (omega (arith, once y)) in
        let away : count (h.parent b) r ≡ 0 = ground (arith, once x) in
        node-IsAt h' u x r rep (h.right x) i.1 el er
          (s.tree, subst (λ z. Points h' z rep) px s.points)
          (apart-IsAt r (h.right x) apart away i.3, apart-Points r (h.right x) x apart i.3 i.5)

    IsAt-right : h.right x ≡ b → 1 ≤ count b r → r ≡ sub → IsAt h' (node l x u) x
    IsAt-right child k same =
        let px : h.parent b ≡ x = ground (arith, i.5, count_zero h r (h.right x) i.3) in
        let other : h.left x ≢ b = λ e.
          ground (arith, once b, count_root h l (h.left x) i.2, count_zero h r (h.right x) i.3) in
        let test : (h.left (h.parent b) == b) ≡ false = rw px (ne→== (h.left x) b other) in
        let el : h'.left x ≡ h.left x =
          subst (λ z. h'.left z ≡ h.left z) px (s.left_p ∙ rw test refl) in
        let er : h'.right x ≡ rep = subst (λ z. h'.right z ≡ rep) px (s.right_p ∙ rw test refl) in
        let apart : (y : ℕ) → count y l + count y sub ≤ 1 =
          λ y. rw (← same) (omega (arith, once y)) in
        let away : count (h.parent b) l ≡ 0 = ground (arith, once x) in
        node-IsAt h' l x u (h.left x) rep i.1 el er
          (apart-IsAt l (h.left x) apart away i.2, apart-Points l (h.left x) x apart i.2 i.4)
          (s.tree, subst (λ z. Points h' z rep) px s.points)

    -- The node `x` itself, above the parent of the subtree.
    above :
        (l' r' : Tree)
        → count x sub ≡ 0
        → x ≢ h.parent b
        → IsAt h' l' (h.left x) × Points h' x (h.left x)
        → IsAt h' r' (h.right x) × Points h' x (h.right x)
        → IsAt h' (node l' x r') x
    above l' r' out ne il ir =
        node-IsAt h' l' x r' (h.left x) (h.right x) i.1 (s.lefts x out ne) (s.rights x out ne) il ir

    -- The subtree lies in the left tree, or in the right one.
    in_left :
        1 ≤ count b l
        → find b l ≡ sub
        → (h.left x ≢ b → IsAt h' (replace b u l) (h.left x))
        → IsAt h' (node (replace b u l) x r) x
    in_left k f deep = elim (Bool-cases (h.left x == b)) [
      | inl child ↦
          let e : h.left x ≡ b = ground arith in
          let il : IsAt h l b = subst (λ z. IsAt h l z) e i.2 in
          rw (replace_root h b u l il k) (IsAt-left e k (sym (find_root h l b il) ∙ f))
      | inr deeper ↦
          let ne = ==→ne (h.left x) b deeper in
          let c = h.left x in
          let sub_l : (y : ℕ) → count y sub ≤ count y l = λ y. rw (← f) (count-find b y l) in
          let apart : (y : ℕ) → count y r + count y sub ≤ 1 = λ y. omega (arith, once y, sub_l y) in
          let top : count c sub ≡ 0 =
            rw (← f) (count-find_root h b l c i.2 (λ y. omega (arith, once y)) ne) in
          let p_in = parent_in h b l c i.2 ne k in
          above (replace b u l) r (ground (arith, sub_l x, once x))
            (λ e. ground (arith, once x, p_in))
            (deep ne, Points-frame h h' x c (s.parents c top) i.4)
            (
              apart-IsAt r (h.right x) apart (omega (arith, p_in, once (h.parent b))) i.3,
              apart-Points r (h.right x) x apart i.3 i.5,
            )
    ]

    in_right :
        1 ≤ count b r
        → find b r ≡ sub
        → (h.right x ≢ b → IsAt h' (replace b u r) (h.right x))
        → IsAt h' (node l x (replace b u r)) x
    in_right k f deep = elim (Bool-cases (h.right x == b)) [
      | inl child ↦
          let e : h.right x ≡ b = ground arith in
          let ir : IsAt h r b = subst (λ z. IsAt h r z) e i.3 in
          rw (replace_root h b u r ir k) (IsAt-right e k (sym (find_root h r b ir) ∙ f))
      | inr deeper ↦
          let ne = ==→ne (h.right x) b deeper in
          let c = h.right x in
          let sub_r : (y : ℕ) → count y sub ≤ count y r = λ y. rw (← f) (count-find b y r) in
          let apart : (y : ℕ) → count y l + count y sub ≤ 1 = λ y. omega (arith, once y, sub_r y) in
          let top : count c sub ≡ 0 =
            rw (← f) (count-find_root h b r c i.3 (λ y. omega (arith, once y)) ne) in
          let p_in = parent_in h b r c i.3 ne k in
          above l (replace b u r) (ground (arith, sub_r x, once x))
            (λ e. ground (arith, once x, p_in))
            (
              apart-IsAt l (h.left x) apart (omega (arith, p_in, once (h.parent b))) i.2,
              apart-Points l (h.left x) x apart i.2 i.4,
            )
            (deep ne, Points-frame h h' x c (s.parents c top) i.5)
    ]

  -- The heap has the new tree in the place of the subtree.
  pub replace-IsAt :
      (t : Tree) (a : ℕ)
      → IsAt h t a
      → ((y : ℕ) → count y t ≤ 1)
      → a ≢ b
      → 1 ≤ count b t
      → find b t ≡ sub
      → IsAt h' (replace b u t) a
  unfolding count find replace
  replace-IsAt leaf a i once ne k f = absurd (omega arith)
  replace-IsAt (node l x r) a i once ne k f =
      let other : (x == b) ≡ false = ground (arith, i.0) in
      let ix : IsAt h (node l x r) x = (refl, i.1, i.2, i.3, i.4, i.5) in
      let result : IsAt h' (node (replace b u l) x (replace b u r)) x =
        elim (Bool-cases (ltb 0 (count b l))) [
          | inl left ↦
              let kl : 1 ≤ count b l = ground arith in
              let f' : find b l ≡ sub = rw (other, left) at f in
              rw (replace_none b u r (omega (arith, once b))) (
                in_left l x r ix once kl f'
                  (λ ne. replace-IsAt l (h.left x) i.2 (λ y. omega (arith, once y)) ne kl f'))
          | inr right ↦
              let kr : 1 ≤ count b r = ground arith in
              let f' : find b r ≡ sub = rw (other, right) at f in
              rw (replace_none b u l (omega (arith, once b))) (
                in_right l x r ix once kr f'
                  (λ ne. replace-IsAt r (h.right x) i.3 (λ y. omega (arith, once y)) ne kr f'))
        ] in
      subst (λ z. IsAt h' (replace b u (node l x r)) z) (sym i.0) (rw other result)
