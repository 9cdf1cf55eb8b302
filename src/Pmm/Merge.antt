-- ===== src/Pmm/Merge.antt =====
-- Joining a freed block with the blocks next to it.
use nku_os.Base.{
  u32, ℕ, ◌+◌, ◌≡◌, refl, true, false, List, [], ◌∷◌, ◌++◌, arith, ◌==◌, ◌∉◌, ◌⊎◌, inl, inr,
  append_assoc, Bool-cases, ne→==, sym, ◌∙◌, ap,
}
use nku_os.Links.{put, list_del}
use nku_os.Links.Chain.{Ring, last, Chain-prev, Chain-next_mid}
use nku_os.Links.Rings.{list_del-Ring}
use nku_os.Pmm.{Pmm, merge_prev, merge_next}
use nku_os.Pmm.Blocks.{covered, Blocks-mid, put_ne}
use nku_os.Pmm.Joins.{Blocks-join, total-join, covered-join, total-remove}
use nku_os.Pmm.Inv.{IsValid, Marked, Marked-frame, Marked-remove, Blocks-not_mem}
use nku_os.Pmm.Alloc.{mem-ne}

-- `s'` has the same free pages as `s`.
pub record SameFree (s : Pmm) (xs : List ℕ) (s' : Pmm) (xs' : List ℕ) : Type 0 where
  pub valid : IsValid s' xs'
  pub covers : (p : ℕ) → covered s'.property p xs' ≡ covered s.property p xs
  pub count : s'.nr_free ≡ s.nr_free

abbrev pub join_state : (q b : ℕ) → Pmm → Pmm
join_state q b s = record s {
  property = put s.property q (u32 (s.property q + s.property b));
  is_property = put s.is_property b false;
  links = list_del b s.links;
}

shift : (pre : List ℕ) (q : ℕ) (xs : List ℕ) → (pre ++ q ∷ []) ++ xs ≡ pre ++ q ∷ xs
shift pre q xs = append_assoc pre (q ∷ []) xs

pub join_state-SameFree :
    (s : Pmm) (q b : ℕ) (pre post : List ℕ)
    → IsValid s (pre ++ q ∷ b ∷ post)
    → q + s.property q ≡ b
    → SameFree s (pre ++ q ∷ b ∷ post) (join_state q b s) (pre ++ q ∷ post)
join_state-SameFree s q b pre post v touch =
    let bl = v.blocks in
    let size : u32 (s.property q + s.property b) ≡ s.property q + s.property b = omega (
      arith,
      total-remove s.property q pre (b ∷ post),
      total-remove s.property b pre post,
      v.counted,
      v.small,
    ) in
    let back : IsValid s ((pre ++ q ∷ []) ++ b ∷ post) = rw (shift pre q (b ∷ post)) v in
    let ring : Ring (list_del b s.links) 0 (pre ++ q ∷ post) =
      rw (shift pre q post) at (list_del-Ring b (pre ++ q ∷ []) post back.ring) in
    let out : b ∉ (pre ++ q ∷ post) =
      rw (shift pre q post) at (Blocks-not_mem s.property 1 (pre ++ q ∷ []) b post back.blocks) in
    let marks : Marked s.is_property (pre ++ q ∷ post) =
      rw (shift pre q post) at (Marked-remove s.is_property (pre ++ q ∷ []) b post back.marked) in
    rw size (record {
      valid = record {
        ring = ring;
        blocks = Blocks-join s.property q b touch 1 pre post bl;
        counted = v.counted ∙ sym (total-join s.property q b touch 1 pre post bl);
        small = v.small;
        marked =
            Marked-frame s.is_property (put s.is_property b false) (pre ++ q ∷ post)
              (λ c m. put_ne s.is_property b false c (mem-ne b c (pre ++ q ∷ post) out m)) marks;
      };
      covers = λ p. covered-join s.property q b touch 1 pre post p bl;
      count = refl;
    })

SameFree-refl : (s : Pmm) (xs : List ℕ) → IsValid s xs → SameFree s xs s xs
SameFree-refl s xs v = record { valid = v; covers = λ p. refl; count = refl }

-- The block after `b` joins it if they touch.
pub merge_next-SameFree :
    (s : Pmm) (b : ℕ) (pre post : List ℕ)
    → IsValid s (pre ++ b ∷ post)
    → (post' : List ℕ) × SameFree s (pre ++ b ∷ post) (merge_next b s) (pre ++ b ∷ post')
unfolding merge_next
merge_next-SameFree s b pre [] v =
    let e = Chain-next_mid s.links 0 pre b [] 0 v.ring.chain in
    ([], rw e (SameFree-refl s (pre ++ b ∷ []) v))
merge_next-SameFree s b pre (c ∷ post) v =
    let e = Chain-next_mid s.links 0 pre b (c ∷ post) 0 v.ring.chain in
    let nz : (c == 0) ≡ false = ne→== c 0 (
      omega (
        arith,
        (Blocks-mid s.property 1 pre b (c ∷ post) v.blocks).0,
        (Blocks-mid s.property 1 pre b (c ∷ post) v.blocks).2.0,
      )) in
    elim (Bool-cases (b + s.property b == c)) [
      | inl t ↦ (post, rw (e, nz, t) (join_state-SameFree s b c pre post v (ground arith)))
      | inr t ↦ (c ∷ post, rw (e, nz, t) (SameFree-refl s (pre ++ b ∷ c ∷ post) v))
    ]

snoc_view : (xs : List ℕ) → (xs ≡ []) ⊎ ((ys : List ℕ) × (y : ℕ) × (xs ≡ ys ++ y ∷ []))
snoc_view [] = inl refl
snoc_view (x ∷ xs) = elim (snoc_view xs) [
  | inl e ↦ inr ([], x, ap (λ t. x ∷ t) e)
  | inr (ys, y, e) ↦ inr (x ∷ ys, y, ap (λ t. x ∷ t) e)
]

last-snoc : (a : ℕ) (ys : List ℕ) (y : ℕ) → last a (ys ++ y ∷ []) ≡ y
last-snoc a [] y = refl
last-snoc a (x ∷ ys) y = last-snoc x ys y

merge_prev-touch :
    (s : Pmm) (b q : ℕ)
    → s.links.prev b ≡ q
    → (q == 0) ≡ false
    → (q + s.property q == b) ≡ true
    → merge_prev b s ≡ (q, join_state q b s)
unfolding merge_prev
merge_prev-touch s b q e nz t = rw (e, nz, t)

merge_prev-front : (s : Pmm) (b : ℕ) → s.links.prev b ≡ 0 → merge_prev b s ≡ (b, s)
unfolding merge_prev
merge_prev-front s b e = rw e

merge_prev-gap :
    (s : Pmm) (b q : ℕ)
    → s.links.prev b ≡ q
    → (q + s.property q == b) ≡ false
    → merge_prev b s ≡ (b, s)
unfolding merge_prev
merge_prev-gap s b q e t = ground arith

merge_prev-snoc :
    (s : Pmm) (b q : ℕ) (pre post : List ℕ)
    → IsValid s (pre ++ q ∷ b ∷ post)
    → (pre' : List ℕ) × SameFree s
        (pre ++ q ∷ b ∷ post)
        (merge_prev b s).1
        (pre' ++ (merge_prev b s).0 ∷ post)
merge_prev-snoc s b q pre post v =
    let back : IsValid s ((pre ++ q ∷ []) ++ b ∷ post) = rw (shift pre q (b ∷ post)) v in
    let e : s.links.prev b ≡ q =
      Chain-prev s.links 0 (pre ++ q ∷ []) (b ∷ post) 0 back.ring.chain ∙ last-snoc 0 pre q in
    let nz : (q == 0) ≡ false =
      ne→== q 0 (omega (arith, (Blocks-mid s.property 1 pre q (b ∷ post) v.blocks).0)) in
    elim (Bool-cases (q + s.property q == b)) [
      | inl t ↦ (
        pre,
        rw (merge_prev-touch s b q e nz t) (join_state-SameFree s q b pre post v (ground arith)),
      )
      | inr t ↦ (
        pre ++ q ∷ [],
        rw (merge_prev-gap s b q e t, shift pre q (b ∷ post))
            (SameFree-refl s (pre ++ q ∷ b ∷ post) v),
      )
    ]

-- The block before `b` is joined by it if they touch; what is returned heads the joined block.
pub merge_prev-SameFree :
    (s : Pmm) (b : ℕ) (pre post : List ℕ)
    → IsValid s (pre ++ b ∷ post)
    → (pre' : List ℕ) × SameFree s
        (pre ++ b ∷ post)
        (merge_prev b s).1
        (pre' ++ (merge_prev b s).0 ∷ post)
merge_prev-SameFree s b pre post v = elim (snoc_view pre) [
  | inl e ↦
      let v' : IsValid s (b ∷ post) = rw e at v in
      ([], rw (e, merge_prev-front s b v'.ring.chain.1) (SameFree-refl s (b ∷ post) v'))
  | inr (ys, y, e) ↦
      let v' : IsValid s (ys ++ y ∷ b ∷ post) = rw (e, shift ys y (b ∷ post)) at v in
      rw (e, shift ys y (b ∷ post)) (merge_prev-snoc s b y ys post v')
]
