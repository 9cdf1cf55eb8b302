-- ===== src/Pmm/Tests.antt =====
-- The theorems on the page allocators at small free lists.
use nku_os.Base.{
  ℕ, ◌≡◌, ◌≢◌, refl, List, [], ◌∷◌, arith, ◌==◌, if◌then◌else◌, true, false, some, ◌⊎◌, ◌||◌,
}
use nku_os.Pmm.{Pmm, default_alloc_pages, default_free_pages, default_init_memmap}
use nku_os.Pmm.Blocks.{covered, within}
use nku_os.Pmm.Inv.{IsValid, AllBelow}
use nku_os.Pmm.FirstFit.{Allocates, default_alloc_pages_lem}
use nku_os.Pmm.Free.{GaveBack, default_free_pages_lem}
use nku_os.Pmm.Double.{free-alloc-alloc}
use nku_os.Pmm.Init.{default_init_memmap_lem}
use nku_os.Pmm.BestFit.{best_fit_alloc_pages}
use nku_os.Pmm.BestFit.Search.{NoneBetter}
use nku_os.Pmm.BestFit.Laws.{best_fit_alloc_pages_lem}

-- Two free blocks: 2 pages from page 1 on, and 4 pages from page 10 on.
abbrev two_blocks : Pmm
two_blocks = record {
  links = record {
    next = λ a. if a == 0 then 1 else if a == 1 then 10 else 0;
    prev = λ a. if a == 0 then 10 else if a == 10 then 1 else 0;
  };
  property = λ p. if p == 1 then 2 else if p == 10 then 4 else 0;
  is_property = λ p. (p == 1) || (p == 10);
  reserved = λ p. false;
  ref = λ p. 0;
  nr_free = 6;
}

two_blocks-IsValid : IsValid two_blocks (1 ∷ 10 ∷ [])
two_blocks-IsValid = record {
  ring = record { chain = omega arith; apart = refl; nodup = (refl, (refl, tt)) };
  blocks = omega arith;
  counted = refl;
  small = omega arith;
  marked = (refl, (refl, tt));
}

-- No page is free, and all are reserved.
abbrev no_blocks : Pmm
no_blocks = record {
  links = record { next = λ a. 0; prev = λ a. 0 };
  property = λ p. 0;
  is_property = λ p. false;
  reserved = λ p. true;
  ref = λ p. 0;
  nr_free = 0;
}

no_blocks-IsValid : IsValid no_blocks []
no_blocks-IsValid = record {
  ring = record { chain = (refl, refl); apart = refl; nodup = tt };
  blocks = tt;
  counted = refl;
  small = omega arith;
  marked = tt;
}

default_alloc_pages_example :
    ((default_alloc_pages 3 3 two_blocks ≡ some (0, two_blocks))
      × AllBelow two_blocks.property 3 (1 ∷ 10 ∷ []))
    ⊎ ((x : ℕ) × (pre : List ℕ) × (post : List ℕ) × (s' : Pmm) × (default_alloc_pages 3 3 two_blocks
          ≡ some (x, s'))
        × (x ≢ 0)
        × AllBelow two_blocks.property 3 pre
        × Allocates two_blocks 3 (1 ∷ 10 ∷ []) pre x post s')
default_alloc_pages_example =
    default_alloc_pages_lem two_blocks (1 ∷ 10 ∷ []) 3 3 two_blocks-IsValid (omega arith)
      (omega arith)

best_fit_alloc_pages_example :
    ((best_fit_alloc_pages 3 1 two_blocks ≡ some (0, two_blocks))
      × AllBelow two_blocks.property 1 (1 ∷ 10 ∷ []))
    ⊎ ((x : ℕ) × (pre : List ℕ) × (post : List ℕ) × (s' : Pmm) × (best_fit_alloc_pages 3 1
            two_blocks
          ≡ some (x, s'))
        × (x ≢ 0)
        × NoneBetter two_blocks.property 1 (two_blocks.property x) (1 ∷ 10 ∷ [])
        × Allocates two_blocks 1 (1 ∷ 10 ∷ []) pre x post s')
best_fit_alloc_pages_example =
    best_fit_alloc_pages_lem two_blocks (1 ∷ 10 ∷ []) 3 1 two_blocks-IsValid (omega arith)
      (omega arith) (omega arith)

-- Pages 3 to 9 fill the gap between the two blocks.
default_free_pages_example :
    (s' : Pmm) × (xs' : List ℕ) × (default_free_pages 3 3 7 two_blocks ≡ some s')
    × GaveBack two_blocks (1 ∷ 10 ∷ []) 3 7 s' xs'
default_free_pages_example =
    default_free_pages_lem two_blocks (1 ∷ []) (10 ∷ []) 3 3 7 (omega arith) two_blocks-IsValid
      (omega arith) tt (λ c lo hi. (refl, ground arith)) (omega arith) (omega arith)

-- The 8 pages from 20 on go behind both blocks; then 7 pages are asked for twice.
free-alloc-alloc_example :
    (s₁ : Pmm) × (s₂ : Pmm) × (s₃ : Pmm) × (default_free_pages 9 20 8 two_blocks ≡ some s₁)
    × (default_alloc_pages 9 7 s₁ ≡ some (20, s₂))
    × (default_alloc_pages 9 7 s₂ ≡ some (20, s₃))
free-alloc-alloc_example =
    free-alloc-alloc two_blocks 1 (10 ∷ []) 9 20 8 7 (omega arith) two_blocks-IsValid (omega arith)
      (λ c lo hi. (refl, ground arith)) (omega arith) (omega arith) (omega arith) (omega arith)
      (omega arith) (omega arith)

default_init_memmap_example :
    (s' : Pmm) × (default_init_memmap 1 5 9 no_blocks ≡ some s')
    × IsValid s' (5 ∷ [])
    × ((p : ℕ) → covered s'.property p (5 ∷ []) ≡ within 5 9 p)
    × (s'.nr_free ≡ 9)
default_init_memmap_example =
    default_init_memmap_lem no_blocks 1 5 9 no_blocks-IsValid (omega arith) (omega arith)
      (omega arith) (λ c lo hi. refl) (omega arith)
