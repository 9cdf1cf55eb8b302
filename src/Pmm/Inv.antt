-- ===== src/Pmm/Inv.antt =====
-- The invariant of the allocators, and the search for a block.
use nku_os.Base.{
  ℕ, zero, suc, ◌+◌, ◌^◌, ◌≤◌, ◌<◌, ◌≡◌, ◌≢◌, refl, Bool, true, List, [], ◌∷◌, ◌++◌, arith, leb,
  ◌∈◌, some, length, Bool-cases, inl, inr, leb→le, ap, ◌∉◌, has,
}
use nku_os.Links.Chain.{Chain, Ring}
use nku_os.Pmm.{Pmm, find_first}
use nku_os.Pmm.Blocks.{Blocks, total, Blocks-lo, Blocks-mid}

-- Every head of a block has its flag set.
abbrev pub Marked : (ℕ → Bool) → List ℕ → Type 0
Marked g [] = Unit
Marked g (x ∷ xs) = (g x ≡ true) × Marked g xs

-- The free list holds the blocks at `xs`: a circular list in ascending order, with no overlap, and
-- `nr_free` counts their pages.
pub record IsValid (s : Pmm) (xs : List ℕ) : Type 0 where
  pub ring : Ring s.links 0 xs
  pub blocks : Blocks s.property 1 xs
  pub counted : s.nr_free ≡ total s.property xs
  pub small : s.nr_free < 2 ^ 32
  pub marked : Marked s.is_property xs

pub Marked-frame :
    (f g : ℕ → Bool) (xs : List ℕ) → ((c : ℕ) → c ∈ xs → g c ≡ f c) → Marked f xs → Marked g xs
Marked-frame f g [] h m = tt
Marked-frame f g (x ∷ xs) h m =
    (ground (arith, h x), Marked-frame f g xs (λ c i. h c (ground arith)) m.1)

-- What a search for `n` pages finds: the first block that is large enough.
pub data FirstFit (f : ℕ → ℕ) (n : ℕ) : List ℕ → ℕ → Type 0 where
  nowhere : FirstFit f n [] 0
  here : {x : ℕ} {xs : List ℕ} → n ≤ f x → FirstFit f n (x ∷ xs) x
  later : {x y : ℕ} {xs : List ℕ} → f x < n → FirstFit f n xs y → FirstFit f n (x ∷ xs) y

-- The loop of `default_alloc_pages` finds it, in as many rounds as there are blocks, and one.
pub find_first-FirstFit :
    (s : Pmm) (n k le lo : ℕ) (xs : List ℕ)
    → 0 < lo
    → Chain s.links le xs 0
    → Blocks s.property lo xs
    → length xs < k
    → (y : ℕ) × (find_first k n le s ≡ some y) × FirstFit s.property n xs y
unfolding find_first
find_first-FirstFit s n zero le lo xs p c b fuel = absurd (omega arith)
find_first-FirstFit s n (suc k) le lo [] p c b fuel = (0, ground arith, nowhere)
find_first-FirstFit s n (suc k) le lo (x ∷ xs) p c b fuel =
    elim (Bool-cases (leb n (s.property x))) [
      | inl e ↦ (x, ground arith, here (leb→le n (s.property x) e))
      | inr e ↦
          let ih =
            find_first-FirstFit s n k x (x + s.property x) xs (omega arith) c.2 b.2 (omega arith) in
          (ih.0, ground (arith, ih.1), later (ground arith) ih.2)
    ]

-- All blocks before the found one are too small; if none is found, all are.
abbrev pub AllBelow : (ℕ → ℕ) → ℕ → List ℕ → Type 0
AllBelow f n [] = Unit
AllBelow f n (x ∷ xs) = (f x < n) × AllBelow f n xs

pub FirstFit-none :
    (f : ℕ → ℕ) (n lo : ℕ) (xs : List ℕ)
    → 0 < lo
    → Blocks f lo xs
    → {y : ℕ} → FirstFit f n xs y
    → y ≡ 0
    → AllBelow f n xs
FirstFit-none f n lo [] p b w e = tt
FirstFit-none f n lo (x ∷ xs) p b (here h) e = absurd (omega arith)
FirstFit-none f n lo (x ∷ xs) p b (later h w) e =
    (h, FirstFit-none f n (x + f x) xs (omega arith) b.2 w e)

pub FirstFit-split :
    {f : ℕ → ℕ} {n y : ℕ} {xs : List ℕ}
    → FirstFit f n xs y
    → y ≢ 0
    → (pre : List ℕ) × (post : List ℕ) × (xs ≡ pre ++ y ∷ post) × (n ≤ f y) × AllBelow f n pre
FirstFit-split nowhere ne = absurd (ne refl)
FirstFit-split (here {x} {xs} h) ne = ([], xs, refl, h, tt)
FirstFit-split (later {x} h w) ne =
    let (pre, post, e, l, a) = FirstFit-split w ne in (x ∷ pre, post, ap (λ t. x ∷ t) e, l, (h, a))

pub Blocks-not_mem :
    (f : ℕ → ℕ) (lo : ℕ) (pre : List ℕ) (c : ℕ) (post : List ℕ)
    → Blocks f lo (pre ++ c ∷ post)
    → c ∉ (pre ++ post)
Blocks-not_mem f lo [] c post b = elim (Bool-cases (has c post)) [
  | inl m ↦ absurd (omega (arith, Blocks-lo f (c + f c) c post b.2 m))
  | inr m ↦ m
]
Blocks-not_mem f lo (y ∷ pre) c post b =
    ground (arith, Blocks-not_mem f (y + f y) pre c post b.2, Blocks-mid f (y + f y) pre c post b.2)

pub Marked-insert :
    (g : ℕ → Bool) (pre : List ℕ) (c : ℕ) (post : List ℕ)
    → Marked g (pre ++ post)
    → g c ≡ true
    → Marked g (pre ++ c ∷ post)
Marked-insert g [] c post m t = (t, m)
Marked-insert g (y ∷ pre) c post m t = (m.0, Marked-insert g pre c post m.1 t)

pub Marked-remove :
    (g : ℕ → Bool) (pre : List ℕ) (c : ℕ) (post : List ℕ)
    → Marked g (pre ++ c ∷ post)
    → Marked g (pre ++ post)
Marked-remove g [] c post m = m.1
Marked-remove g (y ∷ pre) c post m = (m.0, Marked-remove g pre c post m.1)
