-- ===== src/Vmm/Insert.antt =====
-- `insert_vma_struct` puts an area at its place.
use nku_os.Base.{
  ℕ, zero, suc, ◌+◌, ◌<◌, ◌≤◌, ◌≡◌, refl, true, false, not, ◌⊎◌, List, [], ◌∷◌, ◌++◌, arith, length,
  length-append, ◌==◌, ltb, ◌∉◌, if◌then◌else◌, inl, inr, Bool-cases, some, subst, sym, lt→ltb,
  le→leb, ap,
}
use nku_os.Links.{put, list_add_after, list_add}
use nku_os.Links.Chain.{Chain, first, last, Chain-next}
use nku_os.Links.Ops.{has-insert}
use nku_os.Links.Rings.{list_add-Ring}
use nku_os.Vmm.{Mm, insert_vma_struct, place_loop, check_vma_overlap}
use nku_os.Vmm.Areas.{IsMm, Ordered, Apart}

-- The area `p` is not empty, and ends before `q`, which is not empty.
abbrev Before : Mm → (p q : ℕ) → Type 0
Before mm p q =
    (mm.vm_start p < mm.vm_end p) × (mm.vm_end p ≤ mm.vm_start q) × (mm.vm_start q < mm.vm_end q)

-- The place of `vma` behind `le`.
record Placed (mm : Mm) (fuel le vma lo : ℕ) (us : List ℕ) : Type 0 where
  pre : List ℕ
  post : List ℕ
  parts : us ≡ pre ++ post
  returns : place_loop fuel le le vma mm ≡ some (last le pre)
  ordered : Ordered mm lo (pre ++ vma ∷ post)
  below : (pre ≡ []) ⊎ Before mm (last le pre) vma
  above : (post ≡ []) ⊎ Before mm vma (first post 1)

place_loop-Placed :
    (fuel le vma lo : ℕ) (mm : Mm) (us : List ℕ)
    → Chain mm.links le us 1
    → 1 ∉ us
    → Ordered mm lo us
    → lo ≤ mm.vm_start vma
    → mm.vm_start vma < mm.vm_end vma
    → Apart mm (mm.vm_start vma) (mm.vm_end vma) us
    → length us < fuel
    → Placed mm fuel le vma lo us
unfolding place_loop
place_loop-Placed zero le vma lo mm us c h o l s a fu = absurd (omega arith)
place_loop-Placed (suc n) le vma lo mm [] c h o l s a fu = record {
  pre = [];
  post = [];
  parts = refl;
  returns = rw c.0 refl;
  ordered = (l, s, tt);
  below = inl refl;
  above = inl refl;
}
place_loop-Placed (suc n) le vma lo mm (x ∷ us) c h o l s a fu =
    let nh : (x == 1) ≡ false = ground arith in
    elim (Bool-cases (ltb (mm.vm_start vma) (mm.vm_start x))) [
      | inl e ↦
          let gap : mm.vm_end vma ≤ mm.vm_start x = ground (arith, a.0, o.1) in
          record {
            pre = [];
            post = x ∷ us;
            parts = refl;
            returns = rw (c.0, nh, e) refl;
            ordered = (l, s, (gap, o.1, o.2));
            below = inl refl;
            above = inr (s, gap, o.1);
          }
      | inr e ↦
          let gap : mm.vm_end x ≤ mm.vm_start vma = ground (arith, a.0) in
          let w =
            place_loop-Placed n x vma (mm.vm_end x) mm us c.2 (ground arith) o.2 gap s a.1
              (omega arith) in
          record {
            pre = x ∷ w.pre;
            post = w.post;
            parts = ap (λ k. x ∷ k) w.parts;
            returns = rw (c.0, nh, e) w.returns;
            ordered = (o.0, o.1, w.ordered);
            below = inr (elim w.below [
              | inl none_below ↦
                  subst (λ k. Before mm (last x k) vma) (sym none_below) (o.1, gap, s)
              | inr b ↦ b
            ]);
            above = w.above;
          }
    ]

check-Before : (mm : Mm) (p q : ℕ) → Before mm p q → check_vma_overlap p q mm ≡ some tt
unfolding check_vma_overlap
check-Before mm p q b =
    rw
      (
        lt→ltb (mm.vm_start p) (mm.vm_end p) b.0,
        le→leb (mm.vm_end p) (mm.vm_start q) b.1,
        lt→ltb (mm.vm_start q) (mm.vm_end q) b.2,
      )
      refl

check_below :
    (mm : Mm) (pre : List ℕ) (vma : ℕ)
    → (pre ≡ []) ⊎ Before mm (last 1 pre) vma
    → (if not (last 1 pre == 1) then check_vma_overlap (last 1 pre) vma mm else some tt) ≡ some tt
check_below mm pre vma (inl e) = rw e refl
check_below mm pre vma (inr b) = elim (Bool-cases (last 1 pre == 1)) [
  | inl e ↦ rw e refl
  | inr e ↦ rw (e, check-Before mm (last 1 pre) vma b) refl
]

check_above :
    (mm : Mm) (post : List ℕ) (vma : ℕ)
    → (post ≡ []) ⊎ Before mm vma (first post 1)
    → (if not (first post 1 == 1) then check_vma_overlap vma (first post 1) mm else some tt)
      ≡ some tt
check_above mm post vma (inl e) = rw e refl
check_above mm post vma (inr b) = elim (Bool-cases (first post 1 == 1)) [
  | inl e ↦ rw e refl
  | inr e ↦ rw (e, check-Before mm vma (first post 1) b) refl
]

-- The state behind `insert_vma_struct`.
abbrev inserted : (le_prev vma : ℕ) → Mm → Mm
inserted p vma mm = record mm {
  in_mm = put mm.in_mm vma true;
  links = list_add_after p vma mm.links;
  map_count = mm.map_count + 1;
}

Ordered-inserted :
    (mm : Mm) (p vma lo : ℕ) (us : List ℕ) → Ordered mm lo us → Ordered (inserted p vma mm) lo us
Ordered-inserted mm p vma lo [] o = tt
Ordered-inserted mm p vma lo (u ∷ us) o = (o.0, o.1, Ordered-inserted mm p vma (mm.vm_end u) us o.2)

inserted-IsMm :
    (mm : Mm) (pre : List ℕ) (vma : ℕ) (post : List ℕ)
    → IsMm mm (pre ++ post)
    → vma ∉ (0 ∷ 1 ∷ (pre ++ post))
    → Ordered mm 0 (pre ++ vma ∷ post)
    → IsMm (inserted (last 1 pre) vma mm) (pre ++ vma ∷ post)
unfolding list_add
inserted-IsMm mm pre vma post w out o = record {
  ring = list_add-Ring {h = mm.links} {hd = 1} vma pre post w.ring (ground arith);
  ordered = Ordered-inserted mm (last 1 pre) vma 0 (pre ++ vma ∷ post) o;
  no_null = ground (arith, has-insert 0 vma pre post, w.no_null);
  cache = elim w.cache [
    | inl e ↦ inl e
    | inr i ↦ inr (ground (arith, has-insert mm.mmap_cache vma pre post))
  ];
  count = omega (arith, w.count, length-append pre post, length-append pre (vma ∷ post));
}

-- Given a valid address space, an area that is not empty, meets no other and is not yet in the list, and
-- more rounds than areas, `insert_vma_struct` returns; the area stands at its place in the order,
-- between the areas `pre` and `post`, the address space is valid again, and no bounds have changed.
pub insert_vma_struct_lem :
    (fuel vma : ℕ) (mm : Mm) (vs : List ℕ)
    → IsMm mm vs
    → vma ∉ (0 ∷ 1 ∷ vs)
    → mm.vm_start vma < mm.vm_end vma
    → Apart mm (mm.vm_start vma) (mm.vm_end vma) vs
    → length vs < fuel
    → (mm' : Mm) × (pre : List ℕ) × (post : List ℕ) × (insert_vma_struct fuel vma mm ≡ some mm')
      × (vs ≡ pre ++ post)
      × IsMm mm' (pre ++ vma ∷ post)
      × (mm'.vm_start ≡ mm.vm_start)
      × (mm'.vm_end ≡ mm.vm_end)
unfolding insert_vma_struct
insert_vma_struct_lem fuel vma mm vs w out s a fu =
    let p =
      place_loop-Placed fuel 1 vma 0 mm vs w.ring.chain w.ring.apart w.ordered (omega arith) s a
        fu in
    let v = subst (IsMm mm) p.parts w in
    let nx = Chain-next mm.links 1 p.pre p.post 1 v.ring.chain in
    (
      inserted (last 1 p.pre) vma mm,
      p.pre,
      p.post,
      rw
          (
            lt→ltb (mm.vm_start vma) (mm.vm_end vma) s,
            p.returns,
            nx,
            check_below mm p.pre vma p.below,
            check_above mm p.post vma p.above,
          )
          refl,
      p.parts,
      inserted-IsMm mm p.pre vma p.post v (subst (λ l. vma ∉ (0 ∷ 1 ∷ l)) p.parts out) p.ordered,
      refl,
      refl,
    )
