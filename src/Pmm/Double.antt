-- ===== src/Pmm/Double.antt =====
-- What follows from the missing `break`: a block freed behind all others stays in the free list
-- when it is allocated, and is handed out again.
use nku_os.Base.{
  ℕ, zero, suc, ◌+◌, ◌-◌, ◌*◌, ◌^◌, ◌≤◌, ◌<◌, ◌≡◌, ◌≢◌, refl, false, List, [], ◌∷◌, ◌++◌, arith,
  some, length, ltb, lt→ltb, ne→==, ◌∉◌, ◌∈◌, leb, le→leb, append-nil, ◌∙◌, has-append, sym, ap,
}
use nku_os.Links.{Links, list_add, list_empty}
use nku_os.Links.Chain.{Chain, last, Ring, Chain-next}
use nku_os.Links.Ops.{ne_of_mem}
use nku_os.Links.Rings.{list_add-Ring}
use nku_os.Pmm.{
  Pmm, link_block, default_free_pages, default_alloc_pages, mark_block, find_first, take_block,
  merge_prev, merge_next,
}
use nku_os.Pmm.Inv.{IsValid, AllBelow}
use nku_os.Pmm.Alloc.{mem-ne}
use nku_os.Pmm.Joins.{Fits}
use nku_os.Pmm.Insert.{UpTo, UpTo-Fits, fresh, clear_allocated-SameButRef}
use nku_os.Pmm.Tail.{twice, insert_scan-tail, next_twice, next_base}

-- The `next` pointers lead from `a` through `xs` to `b`.
abbrev pub Walk : (ℕ → ℕ) → ℕ → List ℕ → ℕ → Type 0
Walk next a [] b = next a ≡ b
Walk next a (x ∷ xs) b = (next a ≡ x) × Walk next x xs b

Walk-frame :
    (f g : ℕ → ℕ) (a : ℕ) (xs : List ℕ) (b : ℕ)
    → ((c : ℕ) → c ∈ (a ∷ xs) → g c ≡ f c)
    → Walk f a xs b
    → Walk g a xs b
Walk-frame f g a [] b h w = ground (arith, h a)
Walk-frame f g a (x ∷ xs) b h w =
    (ground (arith, h a), Walk-frame f g x xs b (λ c m. h c (ground arith)) w.1)

Chain-Walk :
    (h : Links) (a : ℕ) (xs : List ℕ) (b : ℕ) (ys : List ℕ) (c : ℕ)
    → Chain h a (xs ++ b ∷ ys) c
    → Walk h.next a xs b
Chain-Walk h a [] b ys c k = k.0
Chain-Walk h a (x ∷ xs) b ys c k = (k.0, Chain-Walk h x xs b ys c k.2)

find_first-skip :
    (s : Pmm) (m k a : ℕ) (xs : List ℕ) (b : ℕ)
    → Walk s.links.next a xs b
    → AllBelow s.property m xs
    → UpTo b xs
    → 0 < b
    → m ≤ s.property b
    → length xs < k
    → find_first k m a s ≡ some b
unfolding find_first
find_first-skip s m zero a xs b w small u z fit fu = absurd (omega arith)
find_first-skip s m (suc k) a [] b w small u z fit fu =
    rw (w, ne→== b 0 (omega arith), le→leb m (s.property b) fit)
find_first-skip s m (suc k) a (x ∷ xs) b w small u z fit fu =
    let no_fit : leb m (s.property x) ≡ false = ground (arith, small.0) in
    rw (w.0, ne→== x 0 (omega (arith, u.0)), no_fit)
      (find_first-skip s m k x xs b w.1 small.1 u.2 z fit (omega arith))

-- The block at `base` is last in the free list and points back at itself, and no block before it
-- has `m` pages.
pub record Stuck (base m : ℕ) (xs : List ℕ) (s : Pmm) : Type 0 where
  pub walk : Walk s.links.next 0 xs base
  pub back : s.links.prev base ≡ base
  pub onward : s.links.next base ≢ base
  pub small : AllBelow s.property m xs
  pub fit : m ≤ s.property base

AllBelow-frame :
    (f g : ℕ → ℕ) (m : ℕ) (xs : List ℕ)
    → ((c : ℕ) → c ∈ xs → g c ≡ f c)
    → AllBelow f m xs
    → AllBelow g m xs
AllBelow-frame f g m [] h a = tt
AllBelow-frame f g m (x ∷ xs) h a =
    (ground (arith, h x), AllBelow-frame f g m xs (λ c i. h c (ground arith)) a.1)

UpTo-mem : (base c : ℕ) (xs : List ℕ) → UpTo base xs → c ∈ xs → c ≤ base
UpTo-mem base c [] u i = ground arith
UpTo-mem base c (x ∷ xs) u i = ground (arith, u.1, UpTo-mem base c xs u.2)

module _ (base m : ℕ) (xs : List ℕ) (z : 0 < base) (pos : 0 < m) (u : UpTo base xs)
    (out : base ∉ xs) where
  -- Taking the block does not take it off the list.
  take_block-Stuck :
      (s : Pmm)
      → Stuck base m xs s
      → (s' : Pmm) × (take_block base m s ≡ (base, s'))
        × Stuck base m xs s'
        × (s'.nr_free ≡ s.nr_free - m)
  unfolding take_block
  take_block-Stuck s k = (
    (take_block base m s).1,
    ground (arith, k.back, k.onward, k.fit),
    record {
      walk =
          Walk-frame s.links.next (take_block base m s).1.links.next 0 xs base
            (λ c i. ground (
              arith,
              k.back,
              k.onward,
              UpTo-mem base c xs u,
              ne_of_mem base c (0 ∷ xs) (ground arith) i,
            ))
            k.walk;
      back = ground (arith, k.back, k.onward, k.fit);
      onward = ground (arith, k.back, k.onward, k.fit);
      small =
          AllBelow-frame s.property (take_block base m s).1.property m xs
            (λ c i. ground (arith, UpTo-mem base c xs u i)) k.small;
      fit = ground (arith, k.back, k.onward, k.fit);
    },
    ground (arith, k.back, k.onward, k.fit),
  )

  alloc-Stuck :
      (fuel : ℕ) (s : Pmm)
      → Stuck base m xs s
      → m ≤ s.nr_free
      → length xs < fuel
      → (s' : Pmm) × (default_alloc_pages fuel m s ≡ some (base, s'))
        × Stuck base m xs s'
        × (s'.nr_free ≡ s.nr_free - m)
  unfolding default_alloc_pages
  alloc-Stuck fuel s k enough fu =
      let (s', e, k', f) = take_block-Stuck s k in
      let found = find_first-skip s m fuel 0 xs base k.walk k.small u z k.fit fu in
      let room : ltb s.nr_free m ≡ false = ground arith in
      (s', rw (lt→ltb 0 m pos, room, found, e), k', f)

module _ (h : Links) (t base : ℕ) (xs : List ℕ) (r : Ring h 0 xs) (is_last : t ≡ last 0 xs)
    (out : base ∉ (0 ∷ xs)) where
  tail-next : h.next t ≡ 0
  tail-next = rw is_last (Chain-next h 0 xs [] 0 (rw append-nil r.chain))

  twice-Walk : Walk (twice t base h).next 0 xs base
  twice-Walk =
      let r₀ : Ring h 0 (xs ++ []) = rw append-nil r in
      let r₁ = list_add-Ring base xs [] r₀ (ground (arith, has-append base xs [])) in
      Walk-frame (list_add t base h).next (twice t base h).next 0 xs base
        (λ c i. next_twice t base h tail-next c)
        (rw is_last (Chain-Walk (list_add (last 0 xs) base h) 0 xs base [] 0 r₁.chain))

  twice-back : (twice t base h).prev base ≡ base
  unfolding list_add
  twice-back = ground arith

  twice-end : (twice t base h).next base ≡ 0
  twice-end = next_twice t base h tail-next base ∙ next_base t base h tail-next

-- Neither merge happens: the block before `base` seems to be `base`, and none comes after it.
no_merge :
    (base : ℕ) (s : Pmm)
    → base ≢ 0
    → s.links.prev base ≡ base
    → s.links.next base ≡ 0
    → 0 < s.property base
    → merge_next (merge_prev base s).0 (merge_prev base s).1 ≡ s
unfolding merge_prev merge_next
no_merge base s nz back end pos = ground arith

-- Freeing `n` pages behind all blocks of a free list that is not empty makes such a block.
free-Stuck :
    (s : Pmm) (x : ℕ) (xs : List ℕ) (fuel base n m : ℕ) (pos : 0 < n)
    → IsValid s (x ∷ xs)
    → Fits s.property base n pos 1 (x ∷ xs) []
    → ((c : ℕ) → base ≤ c → c < base + n → (s.reserved c ≡ false) × (s.is_property c ≡ false))
    → s.nr_free + n < 2 ^ 32
    → length xs + 3 < fuel
    → m ≤ n
    → AllBelow s.property m (x ∷ xs)
    → (s' : Pmm) × (default_free_pages fuel base n s ≡ some s')
      × Stuck base m (x ∷ xs) s'
      × (s'.nr_free ≡ s.nr_free + n)
unfolding default_free_pages link_block list_empty
free-Stuck s x xs fuel base n m pos v fits clear room fu mn small =
    let (s₁, e₁, same) = clear_allocated-SameButRef n base s clear in
    let out : base ∉ (0 ∷ x ∷ xs) =
      rw append-nil at (fresh s.property base n pos (x ∷ xs) [] fits) in
    let u = UpTo-Fits s.property base n 1 pos (x ∷ xs) [] (omega arith) fits in
    let h = twice (last x xs) base s.links in
    let walk = twice-Walk s.links (last x xs) base (x ∷ xs) v.ring refl out in
    let back = twice-back s.links (last x xs) base (x ∷ xs) v.ring refl out in
    let end = twice-end s.links (last x xs) base (x ∷ xs) v.ring refl out in
    let nz : base ≢ 0 = ground arith in
    let full : list_empty 0 s.links ≡ false = ground arith in
    let scan = insert_scan-tail base fuel 0 x s.links xs v.ring.chain u (ground arith) fu in
    let s₂ = record (mark_block base n s₁) { links = h } in
    (
      s₂,
      rw (lt→ltb 0 n pos, e₁, same.links, full, scan)
          (ap some (no_merge base s₂ nz back end (ground arith))),
      record {
        walk = walk;
        back = back;
        onward = λ q. nz (sym q ∙ end);
        small =
            AllBelow-frame s.property s₂.property m (x ∷ xs)
              (λ c i. ground (arith, same.property, mem-ne base c (x ∷ xs) (ground arith) i)) small;
        fit = ground arith;
      },
      omega (arith, same.nr_free),
    )

-- Freeing `n` pages from `base` on, none of them reserved or marked as the head of a free block,
-- behind all blocks of a valid free list that is not empty, and then allocating twice `m` pages,
-- `0 < m`, `m` at most `n`, where no block of the old list has as many and the count of free pages
-- is enough for both and stays below 2 ^ 32, hands out the same pages twice: all three calls return,
-- given three rounds more than blocks, and both allocations return `base`.
pub free-alloc-alloc :
    (s : Pmm) (x : ℕ) (xs : List ℕ) (fuel base n m : ℕ) (pos : 0 < n)
    → IsValid s (x ∷ xs)
    → Fits s.property base n pos 1 (x ∷ xs) []
    → ((c : ℕ) → base ≤ c → c < base + n → (s.reserved c ≡ false) × (s.is_property c ≡ false))
    → s.nr_free + n < 2 ^ 32
    → length xs + 3 < fuel
    → 0 < m
    → m ≤ n
    → AllBelow s.property m (x ∷ xs)
    → 2 * m ≤ s.nr_free + n
    → (s₁ : Pmm) × (s₂ : Pmm) × (s₃ : Pmm) × (default_free_pages fuel base n s ≡ some s₁)
      × (default_alloc_pages fuel m s₁ ≡ some (base, s₂))
      × (default_alloc_pages fuel m s₂ ≡ some (base, s₃))
free-alloc-alloc s x xs fuel base n m pos v fits clear room fu mpos mn small enough =
    let out : base ∉ (0 ∷ x ∷ xs) =
      rw append-nil at (fresh s.property base n pos (x ∷ xs) [] fits) in
    let u = UpTo-Fits s.property base n 1 pos (x ∷ xs) [] (omega arith) fits in
    let z : 0 < base = ground arith in
    let o : base ∉ (x ∷ xs) = ground arith in
    let (s₁, e₁, k₁, f₁) = free-Stuck s x xs fuel base n m pos v fits clear room fu mn small in
    let (s₂, e₂, k₂, f₂) =
      alloc-Stuck base m (x ∷ xs) z mpos u o fuel s₁ k₁ (omega arith) (omega arith) in
    let (s₃, e₃, k₃, f₃) =
      alloc-Stuck base m (x ∷ xs) z mpos u o fuel s₂ k₂ (omega arith) (omega arith) in
    (s₁, s₂, s₃, e₁, e₂, e₃)
