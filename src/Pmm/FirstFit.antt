-- ===== src/Pmm/FirstFit.antt =====
-- `default_alloc_pages` of lab8/kern/mm/default_pmm.c on a valid free list.
use nku_os.Base.{
  ℕ, ◌≤◌, ◌<◌, ◌≡◌, ◌≢◌, refl, List, [], ◌∷◌, ◌++◌, arith, ltb, some, length, Bool-cases, inl, inr,
  lt→ltb, ◌⊎◌, ltb→lt, ==→ne, ◌==◌, ap,
}
use nku_os.Pmm.{Pmm, take_block, default_alloc_pages}
use nku_os.Pmm.Blocks.{total}
use nku_os.Pmm.Inv.{IsValid, AllBelow, FirstFit, FirstFit-none, FirstFit-split, find_first-FirstFit}
use nku_os.Pmm.Alloc.{
  rest_of, Took, take_block-eq-split, split_state, split_state-Took, take_block-eq-whole,
  whole_state, whole_state-Took,
}

-- A request of more pages than there are free fits no block.
pub AllBelow-total : (f : ℕ → ℕ) (n : ℕ) (xs : List ℕ) → total f xs < n → AllBelow f n xs
AllBelow-total f n [] h = tt
AllBelow-total f n (x ∷ xs) h = (omega arith, AllBelow-total f n xs (omega arith))

-- The allocation of a block of `n` pages at `x`, found between `pre` and `post`.
abbrev pub Allocates : Pmm → (n : ℕ) → (xs pre : List ℕ) → (x : ℕ) → (post : List ℕ) → Pmm → Type 0
Allocates s n xs pre x post s' =
    (xs ≡ pre ++ x ∷ post) × Took s x n xs s' (rest_of s.property x n pre post)

pub take_block-Took :
    (s : Pmm) (x n : ℕ) (pre post : List ℕ)
    → IsValid s (pre ++ x ∷ post)
    → 0 < n
    → n ≤ s.property x
    → (s' : Pmm) × (take_block x n s ≡ (x, s'))
      × Took s x n (pre ++ x ∷ post) s' (rest_of s.property x n pre post)
take_block-Took s x n pre post v pos fit = elim (Bool-cases (ltb n (s.property x))) [
  | inl e ↦
      let lt = ltb→lt n (s.property x) e in
      (
        split_state s x n pre post v pos fit,
        take_block-eq-split s x n pre post v pos fit lt,
        rw e (split_state-Took s x n pre post v pos fit lt),
      )
  | inr e ↦
      let eq : s.property x ≡ n = ground arith in
      (
        whole_state s x n pre post v pos fit,
        take_block-eq-whole s x n pre post v pos fit eq,
        rw e (whole_state-Took s x n pre post v pos fit eq),
      )
]

pub take_block-null : (n : ℕ) (s : Pmm) → take_block 0 n s ≡ (0, s)
unfolding take_block
take_block-null n s = refl

-- What the search found decides the outcome.
from_search :
    (s : Pmm) (xs : List ℕ) (n y : ℕ)
    → IsValid s xs
    → 0 < n
    → FirstFit s.property n xs y
    → ((some (take_block y n s) ≡ some (0, s)) × AllBelow s.property n xs)
      ⊎ ((x : ℕ) × (pre : List ℕ) × (post : List ℕ) × (s' : Pmm) × (some (take_block y n s)
            ≡ some (x, s'))
          × (x ≢ 0)
          × AllBelow s.property n pre
          × Allocates s n xs pre x post s')
from_search s xs n y v pos w = elim (Bool-cases (y == 0)) [
  | inl e ↦
      let z : y ≡ 0 = ground arith in
      inl (rw (z, take_block-null n s), FirstFit-none s.property n 1 xs (omega arith) v.blocks w z)
  | inr e ↦
      let (pre, post, eq, fit, below) = FirstFit-split w (==→ne y 0 e) in
      let (s', took, ok) = take_block-Took s y n pre post (rw eq at v) pos fit in
      inr (y, pre, post, s', ap some took, ==→ne y 0 e, below, (eq, rw eq ok))
]

-- On a valid free list, for `0 < n`, `default_alloc_pages` returns NULL and changes nothing if no block has `n`
-- pages, and else takes the first `n` pages of the first block that has as many: the state stays
-- valid, and exactly these pages are no longer free. More rounds than blocks are given.
pub default_alloc_pages_lem :
    (s : Pmm) (xs : List ℕ) (fuel n : ℕ)
    → IsValid s xs
    → 0 < n
    → length xs < fuel
    → ((default_alloc_pages fuel n s ≡ some (0, s)) × AllBelow s.property n xs)
      ⊎ ((x : ℕ) × (pre : List ℕ) × (post : List ℕ) × (s' : Pmm) × (default_alloc_pages fuel n s
            ≡ some (x, s'))
          × (x ≢ 0)
          × AllBelow s.property n pre
          × Allocates s n xs pre x post s')
unfolding default_alloc_pages
default_alloc_pages_lem s xs fuel n v pos fu = elim (Bool-cases (ltb s.nr_free n)) [
  | inl e ↦ inl (
    rw (lt→ltb 0 n pos, e),
    AllBelow-total s.property n xs (omega (arith, ltb→lt s.nr_free n e, v.counted)),
  )
  | inr e ↦
      let (y, found, w) =
        find_first-FirstFit s n fuel 0 1 xs (omega arith) v.ring.chain v.blocks fu in
      rw (lt→ltb 0 n pos, e, found) (from_search s xs n y v pos w)
]
