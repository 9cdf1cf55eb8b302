-- ===== src/Pmm/BestFit/Laws.antt =====
-- The best fit allocator of lab2/kern/mm/best_fit_pmm.c on a valid free list.
use nku_os.Base.{
  u32, ℕ, ◌+◌, ◌^◌, ◌<◌, ◌≡◌, ◌≢◌, List, ◌∷◌, ◌++◌, arith, Option, some, length, ◌⊎◌, inl, inr,
  Bool-cases, ltb, lt→ltb, ltb→lt, ap, [],
}
use nku_os.Pmm.{Pmm, take_block}
use nku_os.Pmm.Blocks.{total, Blocks-mid}
use nku_os.Pmm.Inv.{IsValid, AllBelow}
use nku_os.Pmm.FirstFit.{Allocates, take_block-Took, AllBelow-total, take_block-null}
use nku_os.Pmm.BestFit.{best_fit_alloc_pages}
use nku_os.Pmm.BestFit.Search.{NoneBetter, BestBelow, best_scan_lem}

-- A block that is no better fit than one larger than all blocks is too small.
AllBelow-NoneBetter :
    (f : ℕ → ℕ) (n m : ℕ) (xs : List ℕ) → total f xs < m → NoneBetter f n m xs → AllBelow f n xs
AllBelow-NoneBetter f n m [] h a = tt
AllBelow-NoneBetter f n m (x ∷ xs) h a =
    (omega arith, AllBelow-NoneBetter f n m xs (omega arith) a.1)

module _ (s : Pmm) (xs : List ℕ) (fuel n : ℕ) (v : IsValid s xs) (pos : 0 < n) where
  -- What a request of `n` pages comes to, by the call `r`.
  abbrev BestOutcome : Option (ℕ × Pmm) → Type 0
  BestOutcome r =
      ((r ≡ some (0, s)) × AllBelow s.property n xs)
      ⊎ ((x : ℕ) × (pre : List ℕ) × (post : List ℕ) × (s' : Pmm) × (r ≡ some (x, s'))
          × (x ≢ 0)
          × NoneBetter s.property n (s.property x) xs
          × Allocates s n xs pre x post s')

  from_scan :
      (y : ℕ)
      → ((y ≡ 0) × NoneBetter s.property n (s.nr_free + 1) xs)
        ⊎ BestBelow s.property n (s.nr_free + 1) y xs
      → BestOutcome (some (take_block y n s))
  from_scan y (inl (z, none)) = inl (
    rw (z, take_block-null n s),
    AllBelow-NoneBetter s.property n (s.nr_free + 1) xs (omega (arith, v.counted)) none,
  )
  from_scan y (inr (pre, post, e, fit, lt, none)) =
      let v' : IsValid s (pre ++ y ∷ post) = rw e at v in
      let (s', took, ok) = take_block-Took s y n pre post v' pos fit in
      inr (
        y,
        pre,
        post,
        s',
        ap some took,
        omega (arith, (Blocks-mid s.property 1 pre y post v'.blocks).0),
        none,
        (e, rw e ok),
      )

-- On a valid free list with fewer than 2 ^ 32 - 1 free pages, for `0 < n` and given more rounds than
-- blocks, `best_fit_alloc_pages` returns NULL and changes nothing if no block has `n` pages, and
-- else takes the first `n` pages of a block that has as many, where every other block that has as
-- many is at least as large: the state stays valid, and exactly these pages are no longer free.
pub best_fit_alloc_pages_lem :
    (s : Pmm) (xs : List ℕ) (fuel n : ℕ)
    → IsValid s xs
    → 0 < n
    → s.nr_free + 1 < 2 ^ 32
    → length xs < fuel
    → ((best_fit_alloc_pages fuel n s ≡ some (0, s)) × AllBelow s.property n xs)
      ⊎ ((x : ℕ) × (pre : List ℕ) × (post : List ℕ) × (s' : Pmm) × (best_fit_alloc_pages fuel n s
            ≡ some (x, s'))
          × (x ≢ 0)
          × NoneBetter s.property n (s.property x) xs
          × Allocates s n xs pre x post s')
unfolding best_fit_alloc_pages
best_fit_alloc_pages_lem s xs fuel n v pos room fu = elim (Bool-cases (ltb s.nr_free n)) [
  | inl e ↦ inl (
    rw (lt→ltb 0 n pos, e),
    AllBelow-total s.property n xs (omega (arith, ltb→lt s.nr_free n e, v.counted)),
  )
  | inr e ↦
      let wrap : u32 (s.nr_free + 1) ≡ s.nr_free + 1 = omega arith in
      let (y, found, w) =
        best_scan_lem s n fuel 0 1 0 (s.nr_free + 1) xs (omega arith) v.ring.chain v.blocks fu in
      rw (lt→ltb 0 n pos, e, wrap, found) (from_scan s xs fuel n v pos y w)
]
