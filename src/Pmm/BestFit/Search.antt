-- ===== src/Pmm/BestFit/Search.antt =====
-- What the loop of `best_fit_alloc_pages` finds.
use nku_os.Base.{
  ℕ, zero, suc, ◌+◌, ◌≤◌, ◌<◌, ◌≡◌, refl, ◌&&◌, List, [], ◌∷◌, ◌++◌, arith, leb, ltb, some, length,
  ◌⊎◌, inl, inr, Bool-cases, ap, sym, subst,
}
use nku_os.Links.Chain.{Chain}
use nku_os.Pmm.{Pmm}
use nku_os.Pmm.Blocks.{Blocks}
use nku_os.Pmm.BestFit.{best_scan}

-- Every block is too small for `n` pages, or has at least `m`.
abbrev pub NoneBetter : (ℕ → ℕ) → (n m : ℕ) → List ℕ → Type 0
NoneBetter f n m [] = Unit
NoneBetter f n m (x ∷ xs) = ((f x < n) ⊎ (m ≤ f x)) × NoneBetter f n m xs

pub NoneBetter-le :
    (f : ℕ → ℕ) (n m m' : ℕ) (xs : List ℕ) → m' ≤ m → NoneBetter f n m xs → NoneBetter f n m' xs
NoneBetter-le f n m m' [] h a = tt
NoneBetter-le f n m m' (x ∷ xs) h a = (omega arith, NoneBetter-le f n m m' xs h a.1)

-- The block at `y` has at least `n` and fewer than `m` pages, and none is a better fit.
abbrev pub BestBelow : (ℕ → ℕ) → (n m y : ℕ) → List ℕ → Type 0
BestBelow f n m y xs =
    (pre : List ℕ) × (post : List ℕ) × (xs ≡ pre ++ y ∷ post)
    × (n ≤ f y)
    × (f y < m)
    × NoneBetter f n (f y) xs

module _ (s : Pmm) (n : ℕ) where
  on_hit :
      (x m : ℕ) (xs : List ℕ) (y : ℕ)
      → n ≤ s.property x
      → s.property x < m
      → ((y ≡ x) × NoneBetter s.property n (s.property x) xs)
        ⊎ BestBelow s.property n (s.property x) y xs
      → BestBelow s.property n m y (x ∷ xs)
  on_hit x m xs y fit lt (inl (e, none)) =
      subst (λ z. BestBelow s.property n m z (x ∷ xs)) (sym e)
        ([], xs, refl, fit, lt, (inr (omega arith), none))
  on_hit x m xs y fit lt (inr (pre, post, e, fit', lt', none)) =
      (x ∷ pre, post, ap (λ t. x ∷ t) e, fit', omega arith, (inr (omega arith), none))

  on_miss :
      (x page m : ℕ) (xs : List ℕ) (y : ℕ)
      → (s.property x < n) ⊎ (m ≤ s.property x)
      → ((y ≡ page) × NoneBetter s.property n m xs) ⊎ BestBelow s.property n m y xs
      → ((y ≡ page) × NoneBetter s.property n m (x ∷ xs)) ⊎ BestBelow s.property n m y (x ∷ xs)
  on_miss x page m xs y h (inl (e, none)) = inl (e, (h, none))
  on_miss x page m xs y h (inr (pre, post, e, fit, lt, none)) =
      inr (x ∷ pre, post, ap (λ t. x ∷ t) e, fit, lt, (omega arith, none))

  pub best_scan_lem :
      (k le lo page m : ℕ) (xs : List ℕ)
      → 0 < lo
      → Chain s.links le xs 0
      → Blocks s.property lo xs
      → length xs < k
      → (y : ℕ) × (best_scan k n le page m s ≡ some y)
        × (((y ≡ page) × NoneBetter s.property n m xs) ⊎ BestBelow s.property n m y xs)
  unfolding best_scan
  best_scan_lem zero le lo page m xs z c b fu = absurd (omega arith)
  best_scan_lem (suc k) le lo page m [] z c b fu = (page, ground arith, inl (refl, tt))
  best_scan_lem (suc k) le lo page m (x ∷ xs) z c b fu =
      elim (Bool-cases (leb n (s.property x) && ltb (s.property x) m)) [
        | inl e ↦
            let (y, q, r) =
              best_scan_lem k x (x + s.property x) x (s.property x) xs (omega arith) c.2 b.2
                (omega arith) in
            (y, ground (arith, q), inr (on_hit x m xs y (ground arith) (ground arith) r))
        | inr e ↦
            let (y, q, r) =
              best_scan_lem k x (x + s.property x) page m xs (omega arith) c.2 b.2 (omega arith) in
            (y, ground (arith, q), on_miss x page m xs y (ground arith) r)
      ]
