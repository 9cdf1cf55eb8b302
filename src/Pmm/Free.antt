-- ===== src/Pmm/Free.antt =====
-- `default_free_pages` of lab8/kern/mm/default_pmm.c on a valid free list.
use nku_os.Base.{
  ℕ, ◌+◌, ◌^◌, ◌≤◌, ◌<◌, ◌≡◌, false, ◌||◌, List, ◌∷◌, ◌++◌, arith, some, length, lt→ltb, ◌∙◌,
}
use nku_os.Pmm.{Pmm, default_free_pages, mark_block, merge_prev, merge_next}
use nku_os.Pmm.Blocks.{covered, within}
use nku_os.Pmm.Joins.{Fits}
use nku_os.Pmm.Inv.{IsValid}
use nku_os.Pmm.Insert.{NotLast, clear_allocated-SameButRef, link_block-Ring, mark_block-IsValid}
use nku_os.Pmm.Merge.{SameFree, merge_prev-SameFree, merge_next-SameFree}

-- The state after the pages from `base` on, `n` of them, were given back to `s`.
pub record GaveBack (s : Pmm) (xs : List ℕ) (base n : ℕ) (s' : Pmm) (xs' : List ℕ) : Type 0 where
  pub valid : IsValid s' xs'
  pub free : (p : ℕ) → covered s'.property p xs' ≡ (covered s.property p xs || within base n p)
  pub more : s'.nr_free ≡ s.nr_free + n

-- The two merges after the insertion.
merges :
    (s : Pmm) (base : ℕ) (pre post : List ℕ)
    → IsValid s (pre ++ base ∷ post)
    → (xs : List ℕ) × SameFree s
        (pre ++ base ∷ post)
        (merge_next (merge_prev base s).0 (merge_prev base s).1)
        xs
merges s base pre post v =
    let (pre', a) = merge_prev-SameFree s base pre post v in
    let (post', b) =
      merge_next-SameFree (merge_prev base s).1 (merge_prev base s).0 pre' post a.valid in
    (
      pre' ++ (merge_prev base s).0 ∷ post',
      record { valid = b.valid; covers = λ p. b.covers p ∙ a.covers p; count = b.count ∙ a.count },
    )

-- Giving back `n` pages from `base` on, `0 < n`, none of them reserved or marked as the head of a
-- free block, to a valid free list with a place for them between `pre` and `post`, where the list is
-- empty or has a block above them, and where the count of free pages stays below 2 ^ 32:
-- `default_free_pages` returns when given more rounds than blocks, the state is valid again, and the
-- free pages are those from before and these.
pub default_free_pages_lem :
    (s : Pmm) (pre post : List ℕ) (fuel base n : ℕ) (pos : 0 < n)
    → IsValid s (pre ++ post)
    → Fits s.property base n pos 1 pre post
    → NotLast pre post
    → ((c : ℕ) → base ≤ c → c < base + n → (s.reserved c ≡ false) × (s.is_property c ≡ false))
    → s.nr_free + n < 2 ^ 32
    → length (pre ++ post) < fuel
    → (s' : Pmm) × (xs' : List ℕ) × (default_free_pages fuel base n s ≡ some s')
      × GaveBack s (pre ++ post) base n s' xs'
unfolding default_free_pages
default_free_pages_lem s pre post fuel base n pos v fits nl clear room fu =
    let (s₁, e₁, same) = clear_allocated-SameButRef n base s clear in
    let (h, e₂, ring) =
      link_block-Ring s.property base n pos s.links fuel pre post v.ring fits nl fu in
    let (v₂, c₂) = mark_block-IsValid s s₁ h base n pos pre post v same fits room ring in
    let s₂ = record (mark_block base n s₁) { links = h } in
    let (xs, m) = merges s₂ base pre post v₂ in
    (
      merge_next (merge_prev base s₂).0 (merge_prev base s₂).1,
      xs,
      rw (lt→ltb 0 n pos, e₁, same.links, e₂),
      record {
        valid = m.valid;
        free = λ p. m.covers p ∙ c₂ p;
        more = omega (arith, m.count, same.nr_free);
      },
    )
