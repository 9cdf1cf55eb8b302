-- ===== src/Skew/Merge.antt =====
-- skew_heap_merge and skew_heap_insert on trees.
use nku_os.Base.{
  ℕ, zero, suc, ◌+◌, ◌≤◌, ◌<◌, ◌≡◌, ◌≢◌, ◌⊎◌, refl, sym, false, arith, ◌==◌, inl, inr, Bool-cases,
  true, subst, ◌∙◌, some, ne→==,
}
use nku_os.Str.{ℤ}
use nku_os.Skew.{Pointers, minus_one, skew_heap_merge, skew_heap_init, skew_heap_insert}
use nku_os.Skew.Trees.{Tree, leaf, node, one, count, size, IsAt, SameEntry, IsAt-frame}
use nku_os.Skew.Link.{IsMerged, link-IsMerged, linked}
use nku_os.Skew.Order.{IsOrder, IsOrdered, IsOrdered-IsAbove, IsAbove-join}

-- Another way to count the same entries.
IsMerged-count :
    (h : Pointers) (c c' : ℕ → ℕ) (h' : Pointers) (root : ℕ) (t : Tree)
    → ((y : ℕ) → c y ≡ c' y)
    → IsMerged h c h' root t
    → IsMerged h c' h' root t
IsMerged-count h c c' h' root t e m = record {
  at = m.at;
  counts = λ y. m.counts y ∙ e y;
  same = λ y none. m.same y (e y ∙ none);
  root_parent = m.root_parent;
}

IsMerged-refl : (h : Pointers) (t : Tree) (a : ℕ) → IsAt h t a → IsMerged h (λ y. count y t) h a t
IsMerged-refl h t a i = record {
  at = i;
  counts = λ y. refl;
  same = λ y none. record { parent = refl; left = refl; right = refl };
  root_parent = λ nz. refl;
}

module _ (comp : ℕ → ℕ → ℤ) where
  -- The trees `ta` and `tb` at `a` and `b` have become one.
  pub record Joined (ta tb : Tree) (a b : ℕ) (h h' : Pointers) (root : ℕ) (t : Tree) : Type 0 where
    pub merged : IsMerged h (λ y. count y ta + count y tb) h' root t
    pub chosen : (root ≡ a) ⊎ (root ≡ b)
    pub ordered : IsOrder comp → IsOrdered comp ta → IsOrdered comp tb → IsOrdered comp t

  Merges : (fuel : ℕ) (ta tb : Tree) (a b : ℕ) → Pointers → Type 0
  Merges fuel ta tb a b h =
      (h' : Pointers) × (root : ℕ) × (t : Tree) × (skew_heap_merge comp fuel a b h
        ≡ some (root, h'))
      × Joined ta tb a b h h' root t

  -- Two nodes, given the merge of the subtree that the smaller one keeps on its right.
  module _ (n : ℕ) (la : Tree) (a : ℕ) (ra lb : Tree) (b : ℕ) (rb : Tree) (h : Pointers)
      (ia : IsAt h (node la a ra) a) (ib : IsAt h (node lb b rb) b)
      (once : (y : ℕ) → count y (node la a ra) + count y (node lb b rb) ≤ 1) where
    merge_under_a :
        minus_one (comp a b) ≡ true
        → Merges n ra (node lb b rb) (h.right a) b h
        → Merges (suc n) (node la a ra) (node lb b rb) a b h
    unfolding skew_heap_merge count Merges
    merge_under_a before (h', root, t, e, j) =
        let c = λ (y : ℕ). count y ra + count y (node lb b rb) in
        let m =
          link-IsMerged h h' c root a la t j.merged ia.1 ia.2 ia.4 (λ y. omega (arith, once y)) in
        (
          linked h h' c root a la t j.merged ia.1 ia.2 ia.4 (λ y. omega (arith, once y)),
          a,
          node t a la,
          rw (ne→== a 0 ia.1, ne→== b 0 ib.1, before, e) refl,
          record {
            merged = IsMerged-count h _ _ _ a (node t a la) (λ y. omega arith) m;
            chosen = inl refl;
            ordered = λ w oa ob. (
              IsAbove-join comp w a ra (node lb b rb) t j.merged.counts oa.1
                  (IsOrdered-IsAbove comp w a lb b rb ob (w.asym a b before)),
              oa.0,
              j.ordered w oa.3 ob,
              oa.2,
            );
          },
        )

    merge_under_b :
        minus_one (comp a b) ≡ false
        → Merges n (node la a ra) rb a (h.right b) h
        → Merges (suc n) (node la a ra) (node lb b rb) a b h
    unfolding skew_heap_merge count Merges
    merge_under_b after (h', root, t, e, j) =
        let c = λ (y : ℕ). count y (node la a ra) + count y rb in
        let m =
          link-IsMerged h h' c root b lb t j.merged ib.1 ib.2 ib.4 (λ y. omega (arith, once y)) in
        (
          linked h h' c root b lb t j.merged ib.1 ib.2 ib.4 (λ y. omega (arith, once y)),
          b,
          node t b lb,
          rw (ne→== a 0 ia.1, ne→== b 0 ib.1, after, e) refl,
          record {
            merged = IsMerged-count h _ _ _ b (node t b lb) (λ y. omega arith) m;
            chosen = inr refl;
            ordered = λ w oa ob. (
              IsAbove-join comp w b (node la a ra) rb t j.merged.counts
                  (IsOrdered-IsAbove comp w b la a ra oa after) ob.1,
              ob.0,
              j.ordered w oa ob.3,
              ob.2,
            );
          },
        )

  -- From two heaps without a common entry, given more rounds than they have entries, `skew_heap_merge`
  -- returns a heap with the entries of both; the pointers of all other entries and the parent of
  -- the new root are as they were, and if the comparison is an order and both heaps are in order so
  -- is the result.
  pub skew_heap_merge_lem :
      (fuel : ℕ) (ta tb : Tree) (a b : ℕ) (h : Pointers)
      → size ta + size tb < fuel
      → IsAt h ta a
      → IsAt h tb b
      → ((y : ℕ) → count y ta + count y tb ≤ 1)
      → (h' : Pointers) × (root : ℕ) × (t : Tree) × (skew_heap_merge comp fuel a b h
          ≡ some (root, h'))
        × Joined ta tb a b h h' root t
  unfolding skew_heap_merge size count Merges
  skew_heap_merge_lem zero ta tb a b h fu ia ib once = absurd (omega arith)
  skew_heap_merge_lem (suc n) leaf tb a b h fu ia ib once =
      let e : (a == 0) ≡ true = ground arith in
      (
        h,
        b,
        tb,
        rw e refl,
        record {
          merged = IsMerged-count h _ _ h b tb (λ y. omega arith) (IsMerged-refl h tb b ib);
          chosen = inr refl;
          ordered = λ w oa ob. ob;
        },
      )
  skew_heap_merge_lem (suc n) (node la xa ra) leaf a b h fu ia ib once =
      let ea : (a == 0) ≡ false = ground (arith, ia.0, ia.1) in
      let eb : (b == 0) ≡ true = ground arith in
      (
        h,
        a,
        node la xa ra,
        rw (ea, eb) refl,
        record {
          merged =
              IsMerged-count h _ _ h a (node la xa ra) (λ y. omega arith)
                (IsMerged-refl h (node la xa ra) a ia);
          chosen = inl refl;
          ordered = λ w oa ob. oa;
        },
      )
  skew_heap_merge_lem (suc n) (node la xa ra) (node lb xb rb) a b h fu ia ib once =
      let ta = node la xa ra in
      let tb = node lb xb rb in
      let ia' : IsAt h ta xa = (refl, ia.1, ia.2, ia.3, ia.4, ia.5) in
      let ib' : IsAt h tb xb = (refl, ib.1, ib.2, ib.3, ib.4, ib.5) in
      let under_a =
        skew_heap_merge_lem n ra tb (h.right xa) xb h (omega arith) ia'.3 ib'
          (λ y. omega (arith, once y)) in
      let under_b =
        skew_heap_merge_lem n ta rb xa (h.right xb) h (omega arith) ia' ib'.3
          (λ y. omega (arith, once y)) in
      let result : Merges (suc n) ta tb xa xb h = elim (Bool-cases (minus_one (comp xa xb))) [
        | inl before ↦ merge_under_a n la xa ra lb xb rb h ia' ib' once before under_a
        | inr after ↦ merge_under_b n la xa ra lb xb rb h ia' ib' once after under_b
      ] in
      subst (λ k. Merges (suc n) ta tb k b h) (sym ia.0)
        (subst (λ k. Merges (suc n) ta tb xa k h) (sym ib.0) result)

  -- What an insertion of `b` into the tree `ta` makes of a heap.
  pub record Inserted (ta : Tree) (a b : ℕ) (h h' : Pointers) (root : ℕ) (t : Tree) : Type 0 where
    pub at : IsAt h' t root
    pub counts : (y : ℕ) → count y t ≡ count y ta + one (y == b)
    pub same : (y : ℕ) → count y ta ≡ 0 → y ≢ b → SameEntry h h' y
    pub top : h.parent a ≡ 0 → root ≢ 0 → h'.parent root ≡ 0
    pub ordered : IsOrder comp → IsOrdered comp ta → IsOrdered comp t

  -- Given two more rounds than the heap has entries, `skew_heap_insert` of an entry that is not NULL and
  -- not in the heap returns a heap with that entry more; all other entries of the memory are as they
  -- were, the root has no parent if the old one had none, and a heap in order stays in order.
  pub skew_heap_insert_lem :
      (fuel : ℕ) (ta : Tree) (a b : ℕ) (h : Pointers)
      → size ta + 1 < fuel
      → IsAt h ta a
      → ((y : ℕ) → count y ta ≤ 1)
      → b ≢ 0
      → count b ta ≡ 0
      → (h' : Pointers) × (root : ℕ) × (t : Tree) × (skew_heap_insert comp fuel a b h
          ≡ some (root, h'))
        × Inserted ta a b h h' root t
  unfolding skew_heap_insert skew_heap_init count size
  skew_heap_insert_lem fuel ta a b h fu ia once nz new =
      let h₁ = skew_heap_init b h in
      let tb = node leaf b leaf in
      let ia₁ =
        IsAt-frame h h₁ ta a
          (λ x k.
            let ne : x ≢ b = λ e. ground (arith, new) in
            (ground arith, ground arith, λ q. ground arith))
          once ia in
      let ib : IsAt h₁ tb b =
        (refl, nz, ground arith, ground arith, inl (ground arith), inl (ground arith)) in
      let (h', root, t, e, j) =
        skew_heap_merge_lem fuel ta tb a b h₁ (omega arith) ia₁ ib
          (λ y. ground (arith, once y, new)) in
      (
        h',
        root,
        t,
        e,
        record {
          at = j.merged.at;
          counts = λ y. omega (arith, j.merged.counts y);
          same = λ y none ne.
              let q = j.merged.same y (ground arith) in
              record {
                parent = ground (arith, q.parent);
                left = ground (arith, q.left);
                right = ground (arith, q.right);
              };
          top = λ above some_root. ground (arith, j.merged.root_parent some_root, j.chosen, above);
          ordered = λ w oa.
              j.ordered w oa (λ y k. absurd (omega arith), λ y k. absurd (omega arith), tt, tt);
        },
      )
