-- ===== src/Pmm/Blocks.antt =====
-- The free list as a sequence of blocks: the block at `x` is the pages from `x` up to `x + f x`.
-- Facts on splitting, joining and inserting blocks, apart from the pointers.
use nku_os.Base.{
  ℕ, ◌+◌, ◌-◌, ◌≤◌, ◌<◌, ◌≡◌, ◌≢◌, refl, Bool, false, not, ◌&&◌, ◌||◌, List, [], ◌∷◌, ◌++◌, arith,
  leb, ltb, ◌∈◌, ◌⊎◌,
}
use nku_os.Links.{put}

-- Blocks in ascending order, none empty, none overlapping the next, the first from `lo` on.
abbrev pub Blocks : (ℕ → ℕ) → ℕ → List ℕ → Type 0
Blocks f lo [] = Unit
Blocks f lo (x ∷ xs) = (lo ≤ x) × (0 < f x) × Blocks f (x + f x) xs

-- The number of pages in the blocks.
abbrev pub total : (ℕ → ℕ) → List ℕ → ℕ
total f [] = 0
total f (x ∷ xs) = f x + total f xs

-- Whether the page `p` is one of the `n` pages from `x` on.
abbrev pub within : (x n p : ℕ) → Bool
within x n p = leb x p && ltb p (x + n)

-- Whether the page `p` lies in one of the blocks.
abbrev pub covered : (ℕ → ℕ) → ℕ → List ℕ → Bool
covered f p [] = false
covered f p (x ∷ xs) = within x (f x) p || covered f p xs

-- No block meets the `n` pages from `b` on.
abbrev pub Apart : (ℕ → ℕ) → (b n : ℕ) → List ℕ → Type 0
Apart f b n [] = Unit
Apart f b n (x ∷ xs) = ((x + f x ≤ b) ⊎ (b + n ≤ x)) × Apart f b n xs

pub Blocks-weaken :
    (f : ℕ → ℕ) (lo lo' : ℕ) (xs : List ℕ) → lo' ≤ lo → Blocks f lo xs → Blocks f lo' xs
Blocks-weaken f lo lo' [] h b = tt
Blocks-weaken f lo lo' (x ∷ xs) h b = (omega arith, b.1, b.2)

-- Every block begins at `lo` or later.
pub Blocks-lo : (f : ℕ → ℕ) (lo c : ℕ) (xs : List ℕ) → Blocks f lo xs → c ∈ xs → lo ≤ c
Blocks-lo f lo c [] b m = ground arith
Blocks-lo f lo c (x ∷ xs) b m = ground (arith, Blocks-lo f (x + f x) c xs b.2)

pub Blocks-frame :
    (f g : ℕ → ℕ) (lo : ℕ) (xs : List ℕ)
    → ((c : ℕ) → c ∈ xs → g c ≡ f c)
    → Blocks f lo xs
    → Blocks g lo xs
Blocks-frame f g lo [] h b = tt
Blocks-frame f g lo (x ∷ xs) h b =
    let e : g x ≡ f x = h x (ground arith) in
    (b.0, omega arith, rw e (Blocks-frame f g (x + f x) xs (λ c m. h c (ground arith)) b.2))

pub total-frame :
    (f g : ℕ → ℕ) (xs : List ℕ) → ((c : ℕ) → c ∈ xs → g c ≡ f c) → total g xs ≡ total f xs
total-frame f g [] h = refl
total-frame f g (x ∷ xs) h =
    omega (arith, h x (ground arith), total-frame f g xs (λ c m. h c (ground arith)))

pub covered-frame :
    (f g : ℕ → ℕ) (p : ℕ) (xs : List ℕ)
    → ((c : ℕ) → c ∈ xs → g c ≡ f c)
    → covered g p xs ≡ covered f p xs
covered-frame f g p [] h = refl
covered-frame f g p (x ∷ xs) h =
    rw (h x (ground arith), covered-frame f g p xs (λ c m. h c (ground arith))) refl

-- No page below the first block is covered.
pub covered-below :
    (f : ℕ → ℕ) (lo p : ℕ) (xs : List ℕ) → Blocks f lo xs → p < lo → covered f p xs ≡ false
covered-below f lo p [] b h = refl
covered-below f lo p (x ∷ xs) b h = ground (arith, covered-below f (x + f x) p xs b.2)

-- The block at `x` in the middle of a list, and what lies behind it.
pub Blocks-mid :
    (f : ℕ → ℕ) (lo : ℕ) (pre : List ℕ) (x : ℕ) (post : List ℕ)
    → Blocks f lo (pre ++ x ∷ post)
    → (lo ≤ x) × (0 < f x) × Blocks f (x + f x) post
Blocks-mid f lo [] x post b = b
Blocks-mid f lo (y ∷ pre) x post b =
    let m = Blocks-mid f (y + f y) pre x post b.2 in (omega arith, m.1, m.2)

-- The block at `x` without its first `n` pages.
abbrev pub shrunk : (ℕ → ℕ) → (x n : ℕ) → ℕ → ℕ
shrunk f x n = put f (x + n) (f x - n)

pub put_same {ℓ} : {A : Type ℓ} (f : ℕ → A) (a : ℕ) (v : A) → put f a v a ≡ v
put_same f a v = ground arith

pub put_ne {ℓ} : {A : Type ℓ} (f : ℕ → A) (a : ℕ) (v : A) (c : ℕ) → c ≢ a → put f a v c ≡ f c
put_ne f a v c h = ground arith

module _ (f : ℕ → ℕ) (x n : ℕ) (pos : 0 < n) (lt : n < f x) where
  shrunk-post :
      (post : List ℕ) → Blocks f (x + f x) post → (c : ℕ) → c ∈ post → shrunk f x n c ≡ f c
  shrunk-post post b c m =
      put_ne f (x + n) (f x - n) c (omega (arith, Blocks-lo f (x + f x) c post b m))

  pub Blocks-shrink :
      (lo : ℕ) (pre post : List ℕ)
      → Blocks f lo (pre ++ x ∷ post)
      → Blocks (shrunk f x n) lo (pre ++ (x + n) ∷ post)
  Blocks-shrink lo [] post b =
      let e = put_same f (x + n) (f x - n) in
      let end : x + n + (f x - n) ≡ x + f x = omega arith in
      (
        omega arith,
        rw e (omega arith),
        rw (e, end) (Blocks-frame f (shrunk f x n) (x + f x) post (shrunk-post post b.2) b.2),
      )
  Blocks-shrink lo (y ∷ pre) post b =
      let m = Blocks-mid f (y + f y) pre x post b.2 in
      let e = put_ne f (x + n) (f x - n) y (omega arith) in
      (b.0, rw e b.1, rw e (Blocks-shrink (y + f y) pre post b.2))

  pub total-shrink :
      (lo : ℕ) (pre post : List ℕ)
      → Blocks f lo (pre ++ x ∷ post)
      → total (shrunk f x n) (pre ++ (x + n) ∷ post) + n ≡ total f (pre ++ x ∷ post)
  total-shrink lo [] post b = omega (
    arith,
    put_same f (x + n) (f x - n),
    total-frame f (shrunk f x n) post (shrunk-post post b.2),
  )
  total-shrink lo (y ∷ pre) post b =
      let m = Blocks-mid f (y + f y) pre x post b.2 in
      omega (arith, put_ne f (x + n) (f x - n) y (omega arith), total-shrink (y + f y) pre post b.2)

  pub covered-shrink :
      (lo : ℕ) (pre post : List ℕ) (p : ℕ)
      → Blocks f lo (pre ++ x ∷ post)
      → covered (shrunk f x n) p (pre ++ (x + n) ∷ post)
        ≡ (covered f p (pre ++ x ∷ post) && not (within x n p))
  covered-shrink lo [] post p b = ground (
    arith,
    put_same f (x + n) (f x - n),
    covered-frame f (shrunk f x n) p post (shrunk-post post b.2),
    covered-below f (x + f x) p post b.2,
  )
  covered-shrink lo (y ∷ pre) post p b =
      let m = Blocks-mid f (y + f y) pre x post b.2 in
      ground
        (arith, put_ne f (x + n) (f x - n) y (omega arith), covered-shrink (y + f y) pre post p b.2)
