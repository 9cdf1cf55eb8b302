-- ===== src/Pmm/Joins.antt =====
-- More facts on blocks, apart from the pointers: removing one, joining two, and inserting one.
use nku_os.Base.{ℕ, ◌+◌, ◌≤◌, ◌<◌, ◌≡◌, not, ◌&&◌, ◌||◌, List, [], ◌∷◌, ◌++◌, arith, ◌∈◌}
use nku_os.Links.{put}
use nku_os.Pmm.Blocks.{
  Blocks, total, within, covered, Blocks-weaken, Blocks-lo, Blocks-frame, total-frame,
  covered-frame, covered-below, Blocks-mid, put_same, put_ne,
}

module _ (f : ℕ → ℕ) (x : ℕ) where
  pub Blocks-remove :
      (lo : ℕ) (pre post : List ℕ) → Blocks f lo (pre ++ x ∷ post) → Blocks f lo (pre ++ post)
  Blocks-remove lo [] post b = Blocks-weaken f (x + f x) lo post (omega arith) b.2
  Blocks-remove lo (y ∷ pre) post b = (b.0, b.1, Blocks-remove (y + f y) pre post b.2)

  pub total-remove : (pre post : List ℕ) → total f (pre ++ post) + f x ≡ total f (pre ++ x ∷ post)
  total-remove [] post = omega arith
  total-remove (y ∷ pre) post = omega (arith, total-remove pre post)

  pub covered-remove :
      (lo : ℕ) (pre post : List ℕ) (p : ℕ)
      → Blocks f lo (pre ++ x ∷ post)
      → covered f p (pre ++ post) ≡ (covered f p (pre ++ x ∷ post) && not (within x (f x) p))
  covered-remove lo [] post p b = ground (arith, covered-below f (x + f x) p post b.2)
  covered-remove lo (y ∷ pre) post p b =
      let m = Blocks-mid f (y + f y) pre x post b.2 in
      ground (arith, covered-remove (y + f y) pre post p b.2)

-- The blocks at `q` and `b`, which touch, as one block.
module _ (f : ℕ → ℕ) (q b : ℕ) (touch : q + f q ≡ b) where
  abbrev pub joined : ℕ → ℕ
  joined = put f q (f q + f b)

  joined-post :
      (post : List ℕ) → Blocks f (b + f b) post → 0 < f b → (c : ℕ) → c ∈ post → joined c ≡ f c
  joined-post post bl pos c m =
      put_ne f q (f q + f b) c (omega (arith, Blocks-lo f (b + f b) c post bl m))

  pub Blocks-join :
      (lo : ℕ) (pre post : List ℕ)
      → Blocks f lo (pre ++ q ∷ b ∷ post)
      → Blocks joined lo (pre ++ q ∷ post)
  Blocks-join lo [] post bl =
      let e = put_same f q (f q + f b) in
      let end : q + (f q + f b) ≡ b + f b = omega arith in
      (
        bl.0,
        rw e (omega arith),
        rw (e, end) (Blocks-frame f joined (b + f b) post (joined-post post bl.2.2 bl.2.1) bl.2.2),
      )
  Blocks-join lo (y ∷ pre) post bl =
      let m = Blocks-mid f (y + f y) pre q (b ∷ post) bl.2 in
      let e = put_ne f q (f q + f b) y (omega arith) in
      (bl.0, rw e bl.1, rw e (Blocks-join (y + f y) pre post bl.2))

  pub total-join :
      (lo : ℕ) (pre post : List ℕ)
      → Blocks f lo (pre ++ q ∷ b ∷ post)
      → total joined (pre ++ q ∷ post) ≡ total f (pre ++ q ∷ b ∷ post)
  total-join lo [] post bl =
      omega (
        arith,
        put_same f q (f q + f b),
        total-frame f joined post (joined-post post bl.2.2 bl.2.1),
      )
  total-join lo (y ∷ pre) post bl =
      let m = Blocks-mid f (y + f y) pre q (b ∷ post) bl.2 in
      omega (arith, put_ne f q (f q + f b) y (omega arith), total-join (y + f y) pre post bl.2)

  pub covered-join :
      (lo : ℕ) (pre post : List ℕ) (p : ℕ)
      → Blocks f lo (pre ++ q ∷ b ∷ post)
      → covered joined p (pre ++ q ∷ post) ≡ covered f p (pre ++ q ∷ b ∷ post)
  covered-join lo [] post p bl = ground (
    arith,
    put_same f q (f q + f b),
    covered-frame f joined p post (joined-post post bl.2.2 bl.2.1),
  )
  covered-join lo (y ∷ pre) post p bl =
      let m = Blocks-mid f (y + f y) pre q (b ∷ post) bl.2 in
      ground (arith, put_ne f q (f q + f b) y (omega arith), covered-join (y + f y) pre post p bl.2)

-- A new block of `n` pages at `b`, between the blocks of `pre` and those of `post`.
module _ (f : ℕ → ℕ) (b n : ℕ) (pos : 0 < n) where
  abbrev pub inserted : ℕ → ℕ
  inserted = put f b n

  -- `pre` ends before the new block and `post` begins behind it.
  abbrev pub Fits : ℕ → List ℕ → List ℕ → Type 0
  Fits lo [] post = (lo ≤ b) × Blocks f (b + n) post
  Fits lo (y ∷ pre) post = (lo ≤ y) × (0 < f y) × (y + f y ≤ b) × Fits (y + f y) pre post

  inserted-post : (post : List ℕ) → Blocks f (b + n) post → (c : ℕ) → c ∈ post → inserted c ≡ f c
  inserted-post post bl c m = put_ne f b n c (omega (arith, Blocks-lo f (b + n) c post bl m))

  pub Blocks-insert :
      (lo : ℕ) (pre post : List ℕ) → Fits lo pre post → Blocks inserted lo (pre ++ b ∷ post)
  Blocks-insert lo [] post h =
      let e = put_same f b n in
      (h.0, rw e pos, rw e (Blocks-frame f inserted (b + n) post (inserted-post post h.1) h.1))
  Blocks-insert lo (y ∷ pre) post h =
      let e = put_ne f b n y (omega arith) in
      (h.0, rw e h.1, rw e (Blocks-insert (y + f y) pre post h.3))

  pub total-insert :
      (lo : ℕ) (pre post : List ℕ)
      → Fits lo pre post
      → total inserted (pre ++ b ∷ post) ≡ total f (pre ++ post) + n
  total-insert lo [] post h =
      omega (arith, put_same f b n, total-frame f inserted post (inserted-post post h.1))
  total-insert lo (y ∷ pre) post h =
      omega (arith, put_ne f b n y (omega arith), total-insert (y + f y) pre post h.3)

  pub covered-insert :
      (lo : ℕ) (pre post : List ℕ) (p : ℕ)
      → Fits lo pre post
      → covered inserted p (pre ++ b ∷ post) ≡ (covered f p (pre ++ post) || within b n p)
  covered-insert lo [] post p h =
      ground (arith, put_same f b n, covered-frame f inserted p post (inserted-post post h.1))
  covered-insert lo (y ∷ pre) post p h =
      ground (arith, put_ne f b n y (omega arith), covered-insert (y + f y) pre post p h.3)
