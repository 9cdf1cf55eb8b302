-- ===== src/Skew/Remove.antt =====
-- skew_heap_remove on trees.
use nku_os.Base.{
  ℕ, ◌+◌, ◌≤◌, ◌≡◌, ◌≢◌, ◌⊎◌, refl, sym, false, arith, ◌==◌, ltb, inl, inr, Bool-cases, true,
  if◌then◌else◌, subst, ◌∙◌, some, ne→==, ==→ne, not,
}
use nku_os.Links.{put}
use nku_os.Str.{ℤ}
use nku_os.Skew.{Pointers, skew_heap_merge, skew_heap_remove}
use nku_os.Skew.Trees.{Tree, leaf, node, one, count, size, Points, IsAt, IsAt-frame, count_root}
use nku_os.Skew.Find.{
  find, find_root, find_node, find-IsAt, replace, count-find, count_zero, count-replace,
  find-IsOrdered, replace-IsOrdered,
}
use nku_os.Skew.Swap.{Swapped, parent_in, count-find_root, replace-IsAt}
use nku_os.Skew.Link.{IsMerged}
use nku_os.Skew.Order.{IsOrder, IsOrdered}
use nku_os.Skew.Merge.{skew_heap_merge_lem, Joined}

-- The parent of an entry is outside its subtree.
parent_out :
    (h : Pointers) (b : ℕ) (t : Tree) (a : ℕ)
    → IsAt h t a
    → ((y : ℕ) → count y t ≤ 1)
    → a ≢ b
    → 1 ≤ count b t
    → count (h.parent b) (find b t) ≡ 0
unfolding count find
parent_out h b leaf a i once ne k = refl
parent_out h b (node l x r) a i once ne k =
    let other : (x == b) ≡ false = ground (arith, i.0) in
    elim (Bool-cases (ltb 0 (count b l))) [
      | inl left ↦
          rw (other, left)
            (elim (Bool-cases (h.left x == b)) [
              | inl child ↦
                  let p : h.parent b ≡ x = ground (arith, i.4, count_zero h l (h.left x) i.2) in
                  rw p (ground (arith, count-find b x l, once x))
              | inr deeper ↦
                  parent_out h b l (h.left x) i.2 (λ y. omega (arith, once y))
                    (==→ne (h.left x) b deeper) (ground arith)
            ])
      | inr right ↦
          rw (other, right)
            (elim (Bool-cases (h.right x == b)) [
              | inl child ↦
                  let p : h.parent b ≡ x =
                    ground (arith, i.5, i.0, count_zero h r (h.right x) i.3) in
                  rw p (ground (arith, count-find b x r, once x))
              | inr deeper ↦
                  parent_out h b r (h.right x) i.3 (λ y. omega (arith, once y))
                    (==→ne (h.right x) b deeper) (ground (arith, i.0))
            ])
    ]

pub size-find : (b : ℕ) (t : Tree) → size (find b t) ≤ size t
unfolding find size
size-find b leaf = omega arith
size-find b (node l x r) = ground (arith, size-find b l, size-find b r)

-- `rep` gets the parent `p`, and takes the place of `b` below it.
abbrev with_parent : (rep p : ℕ) → Pointers → Pointers
with_parent rep p h = record h { parent = if not (rep == 0) then put h.parent rep p else h.parent }

abbrev with_child : (rep p b : ℕ) → Pointers → Pointers
with_child rep p b h =
    if h.left p == b
    then record h { left = put h.left p rep }
    else record h { right = put h.right p rep }

module _ (h h₁ : Pointers) (b rep : ℕ) (lb rb u : Tree)
    (m : IsMerged h (λ y. count y lb + count y rb) h₁ rep u)
    (once : (y : ℕ) → count y lb + one (y == b) + count y rb ≤ 1) where
  rep_counted : (rep ≡ 0) ⊎ (1 ≤ count rep u)
  rep_counted = count_root h₁ u rep m.at

  attach_tree :
      (p : ℕ) (h₂ : Pointers)
      → ((y : ℕ) → y ≢ p → (h₂.left y ≡ h₁.left y) × (h₂.right y ≡ h₁.right y))
      → ((y : ℕ) → y ≢ rep → h₂.parent y ≡ h₁.parent y)
      → count p u ≡ 0
      → IsAt h₂ u rep
  attach_tree p h₂ kids parents out =
      IsAt-frame h₁ h₂ u rep
        (λ y k.
          let ne : y ≢ p = λ e. ground (arith, out) in ((kids y ne).0, (kids y ne).1, parents y))
        (λ y. omega (arith, m.counts y, once y)) m.at

  attach-Swapped :
      count (h.parent b) (node lb b rb) ≡ 0
      → Swapped h
          (with_child rep (h.parent b) b (with_parent rep (h.parent b) h₁))
          b
          (node lb b rb)
          rep
          u
  unfolding count
  attach-Swapped out =
      let p = h.parent b in
      let at_p = m.same p (omega arith) in
      let h₂ = with_parent rep p h₁ in
      let none : count p u ≡ 0 = omega (arith, m.counts p) in
      let points : Points h₂ p rep = elim (Bool-cases (rep == 0)) [
        | inl null ↦ inl (ground arith)
        | inr some_rep ↦ inr (rw some_rep (ground arith))
      ] in
      elim (Bool-cases (h₁.left p == b)) [
        | inl left ↦ rw left (record {
          tree =
              attach_tree p (record h₂ { left = put h₁.left p rep })
                (λ y ne. (ground arith, ground arith)) (λ y ne. ground arith) none;
          points = points;
          parents =
              λ y apart. ground (arith, rep_counted, m.counts rep, (m.same y (omega arith)).parent);
          lefts = λ y apart ne. ground (arith, (m.same y (omega arith)).left);
          rights = λ y apart ne. ground (arith, (m.same y (omega arith)).right);
          left_p = ground (arith, at_p.left);
          right_p = ground (arith, at_p.left, at_p.right);
        })
        | inr right ↦ rw right (record {
          tree =
              attach_tree p (record h₂ { right = put h₁.right p rep })
                (λ y ne. (ground arith, ground arith)) (λ y ne. ground arith) none;
          points = points;
          parents =
              λ y apart. ground (arith, rep_counted, m.counts rep, (m.same y (omega arith)).parent);
          lefts = λ y apart ne. ground (arith, (m.same y (omega arith)).left);
          rights = λ y apart ne. ground (arith, (m.same y (omega arith)).right);
          left_p = ground (arith, at_p.left);
          right_p = ground (arith, at_p.left, at_p.right);
        })
      ]

-- What the removal of `b` makes of the heap `t` at `a`.
pub record Removed (comp : ℕ → ℕ → ℤ) (t : Tree) (b : ℕ) (h h' : Pointers) (root : ℕ) (t' : Tree)
    : Type 0 where
  pub at : IsAt h' t' root
  pub counts : (y : ℕ) → count y t ≡ count y t' + one (y == b)
  pub top : root ≢ 0 → h'.parent root ≡ 0
  pub ordered : IsOrder comp → IsOrdered comp t → IsOrdered comp t'

module _ (comp : ℕ → ℕ → ℤ) where
  -- The root is removed.
  remove_top :
      (lb : Tree) (b : ℕ) (rb : Tree) (h h₁ : Pointers) (rep : ℕ) (u : Tree)
      → IsAt h (node lb b rb) b
      → ((y : ℕ) → count y lb + one (y == b) + count y rb ≤ 1)
      → h.parent b ≡ 0
      → Joined comp lb rb (h.left b) (h.right b) h h₁ rep u
      → Removed comp (node lb b rb) b h (with_parent rep (h.parent b) h₁) rep u
  unfolding count
  remove_top lb b rb h h₁ rep u i once above j = record {
    at =
        IsAt-frame h₁ (with_parent rep (h.parent b) h₁) u rep
          (λ y k. (refl, refl, λ ne. ground arith)) (λ y. omega (arith, j.merged.counts y, once y))
          j.merged.at;
    counts = λ y. omega (arith, j.merged.counts y);
    top = λ nz. ground (arith, above);
    ordered = λ w o. j.ordered w o.2 o.3;
  }

  -- An entry below the root is removed.
  remove_below :
      (t lb rb : Tree) (a b : ℕ) (h h₁ : Pointers) (rep : ℕ) (u : Tree)
      → IsAt h t a
      → ((y : ℕ) → count y t ≤ 1)
      → 1 ≤ count b t
      → a ≢ b
      → find b t ≡ node lb b rb
      → h.parent a ≡ 0
      → Joined comp lb rb (h.left b) (h.right b) h h₁ rep u
      → Removed comp t b h
          (with_child rep (h.parent b) b (with_parent rep (h.parent b) h₁))
          a
          (replace b u t)
  unfolding count
  remove_below t lb rb a b h h₁ rep u i once k ne f above j =
      let sub_once : (y : ℕ) → count y lb + one (y == b) + count y rb ≤ 1 = λ y.
        let c : count y (node lb b rb) ≤ count y t =
          subst (λ z. count y z ≤ count y t) f (count-find b y t) in
        omega (arith, c, once y) in
      let out : count (h.parent b) (node lb b rb) ≡ 0 =
        subst (λ z. count (h.parent b) z ≡ 0) f (parent_out h b t a i once ne k) in
      let s = attach-Swapped h h₁ b rep lb rb u j.merged sub_once out in
      let top_out : count a (node lb b rb) ≡ 0 =
        subst (λ z. count a z ≡ 0) f (count-find_root h b t a i once ne) in
      record {
        at = replace-IsAt h _ b (node lb b rb) rep u s t a i once ne k f;
        counts = λ y.
            let c : count y (replace b u t) + count y (node lb b rb) ≡ count y t + count y u =
              subst (λ z. count y (replace b u t) + count y z ≡ count y t + count y u) f
                (count-replace b y u t (omega (arith, once b))) in
            omega (arith, c, j.merged.counts y);
        top = λ nz. s.parents a top_out ∙ above;
        ordered = λ w o.
            let of : IsOrdered comp (node lb b rb) =
              subst (λ z. IsOrdered comp z) f (find-IsOrdered comp b t o) in
            replace-IsOrdered comp b u t (once b)
              (λ y m. subst (λ z. 1 ≤ count y z) (sym f) (omega (arith, j.merged.counts y)))
              (j.ordered w of.2 of.3) o;
      }

  -- The two ways that `skew_heap_remove` ends.
  module _ (fuel a b : ℕ) (h h₁ : Pointers) (rep : ℕ)
      (e : skew_heap_merge comp fuel (h.left b) (h.right b) h ≡ some (rep, h₁)) where
    removed_top :
        h.parent b ≡ 0
        → skew_heap_remove comp fuel a b h ≡ some (rep, with_parent rep (h.parent b) h₁)
    unfolding skew_heap_remove
    removed_top z = let test : (h.parent b == 0) ≡ true = ground arith in rw (e, test) refl

    removed_below :
        h.parent b ≢ 0
        → skew_heap_remove comp fuel a b h
          ≡ some (a, with_child rep (h.parent b) b (with_parent rep (h.parent b) h₁))
    unfolding skew_heap_remove
    removed_below nz = rw (e, ne→== (h.parent b) 0 nz) refl

  -- Given as many rounds as the heap has entries, `skew_heap_remove` of an entry of a heap whose root has
  -- no parent returns a heap with the other entries; its root has no parent, and if the comparison
  -- is an order a heap in order stays in order.
  pub skew_heap_remove_lem :
      (fuel : ℕ) (t : Tree) (a b : ℕ) (h : Pointers)
      → size t ≤ fuel
      → IsAt h t a
      → ((y : ℕ) → count y t ≤ 1)
      → 1 ≤ count b t
      → h.parent a ≡ 0
      → (h' : Pointers) × (root : ℕ) × (t' : Tree) × (skew_heap_remove comp fuel a b h
          ≡ some (root, h'))
        × Removed comp t b h h' root t'
  unfolding count size
  skew_heap_remove_lem fuel t a b h fu i once k above =
      let (lb, rb, f) = find_node b t k in
      let ib : IsAt h (node lb b rb) b = subst (λ z. IsAt h z b) f (find-IsAt h b t a i k) in
      let sub_once : (y : ℕ) → count y lb + one (y == b) + count y rb ≤ 1 = λ y.
        let c : count y (node lb b rb) ≤ count y t =
          subst (λ z. count y z ≤ count y t) f (count-find b y t) in
        omega (arith, c, once y) in
      let room : size (node lb b rb) ≤ size t = subst (λ z. size z ≤ size t) f (size-find b t) in
      let (h₁, rep, u, e, j) =
        skew_heap_merge_lem comp fuel lb rb (h.left b) (h.right b) h (omega (arith, room)) ib.2 ib.3
          (λ y. omega (arith, sub_once y)) in
      elim (Bool-cases (a == b)) [
        | inl top ↦
            let same : a ≡ b = ground arith in
            let pz : h.parent b ≡ 0 = rw (← same) above in
            let whole : t ≡ node lb b rb =
              sym (find_root h t b (subst (λ z. IsAt h t z) same i)) ∙ f in
            (
              with_parent rep (h.parent b) h₁,
              rep,
              u,
              removed_top fuel a b h h₁ rep e pz,
              subst (λ z. Removed comp z b h (with_parent rep (h.parent b) h₁) rep u) (sym whole)
                  (remove_top lb b rb h h₁ rep u ib sub_once pz j),
            )
        | inr below ↦
            let ne = ==→ne a b below in
            let pn : h.parent b ≢ 0 =
              λ z. ground (arith, parent_in h b t a i ne k, count_zero h t a i, z) in
            (
              with_child rep (h.parent b) b (with_parent rep (h.parent b) h₁),
              a,
              replace b u t,
              removed_below fuel a b h h₁ rep e pn,
              remove_below t lb rb a b h h₁ rep u i once k ne f above j,
            )
      ]
