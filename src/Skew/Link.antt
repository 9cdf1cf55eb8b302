-- ===== src/Skew/Link.antt =====
-- The step of skew_heap_merge on trees.
use nku_os.Base.{ℕ, ◌+◌, ◌≤◌, ◌≡◌, ◌≢◌, ◌⊎◌, refl, sym, arith, ◌==◌, inl, inr, subst}
use nku_os.Skew.{Pointers, link}
use nku_os.Skew.Trees.{
  Tree, node, one, count, Points, IsAt, SameEntry, count_root, Points-frame, IsAt-frame,
}

-- A heap with the entries that `c` counts has become the tree `t` at `root`. The parent of its root is
-- as it was.
pub record IsMerged (h : Pointers) (c : ℕ → ℕ) (h' : Pointers) (root : ℕ) (t : Tree) : Type 0 where
  pub at : IsAt h' t root
  pub counts : (y : ℕ) → count y t ≡ c y
  pub same : (y : ℕ) → c y ≡ 0 → SameEntry h h' y
  pub root_parent : root ≢ 0 → h'.parent root ≡ h.parent root

-- The step of the merge: the entry `x` gets the merged tree on its left and its old left tree on its
-- right.
module _ (h h' : Pointers) (c : ℕ → ℕ) (root x : ℕ) (l t : Tree) (m : IsMerged h c h' root t)
    (nz : x ≢ 0) (il : IsAt h l (h.left x)) (pl : Points h x (h.left x))
    (once : (y : ℕ) → c y + count y l + one (y == x) ≤ 1) where
  abbrev pub linked : Pointers
  linked = link x root (h.left x) h'

  root_counted : (root ≡ 0) ⊎ (1 ≤ c root)
  root_counted = elim (count_root h' t root m.at) [
    | inl z ↦ inl z
    | inr k ↦ inr (omega (arith, m.counts root))
  ]

  -- Away from `x` and from the new root.
  linked_same : (y : ℕ) → y ≢ x → c y ≡ 0 → SameEntry h linked y
  unfolding link
  linked_same y ne none =
      let q = m.same y none in
      record {
        parent = ground (arith, q.parent, root_counted);
        left = ground (arith, q.left);
        right = ground (arith, q.right);
      }

  linked_tree : IsAt linked t root
  unfolding link
  linked_tree =
      IsAt-frame h' linked t root
        (λ y k.
          let apart : y ≢ x = λ e. ground (arith, once y, m.counts y) in
          (ground arith, ground arith, λ ne. ground arith))
        (λ y. omega (arith, once y, m.counts y)) m.at

  linked_old : IsAt linked l (h.left x)
  linked_old =
      IsAt-frame h linked l (h.left x)
        (λ y k.
          let q = linked_same y (λ e. ground (arith, once y)) (omega (arith, once y)) in
          (q.left, q.right, λ ne. q.parent))
        (λ y. omega (arith, once y)) il

  pub link-IsMerged : IsMerged h (λ y. c y + count y l + one (y == x)) linked x (node t x l)
  unfolding link count
  link-IsMerged =
      let el : linked.left x ≡ root = ground arith in
      let er : linked.right x ≡ h.left x = ground arith in
      let apart : root ≢ x = ground (arith, root_counted, once root) in
      let old_points : Points linked x (h.left x) = elim (count_root h l (h.left x) il) [
        | inl z ↦ inl z
        | inr k ↦
            let y = h.left x in
            Points-frame h linked x y
              (linked_same y (λ e. ground (arith, once y)) (omega (arith, once y))).parent pl
      ] in
      let new_points : Points linked x root = ground arith in
      record {
        at = (
          refl,
          nz,
          subst (λ k. IsAt linked t k) (sym el) linked_tree,
          subst (λ k. IsAt linked l k) (sym er) linked_old,
          subst (λ k. Points linked x k) (sym el) new_points,
          subst (λ k. Points linked x k) (sym er) old_points,
        );
        counts = λ y. ground (arith, m.counts y);
        same = λ y none. linked_same y (λ e. ground arith) (omega arith);
        root_parent = λ n. ground (arith, (m.same x (ground (arith, once x))).parent);
      }
