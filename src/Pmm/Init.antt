-- ===== src/Pmm/Init.antt =====
-- `init_memmap` on an empty free list.
use nku_os.Base.{
  u32, ℕ, zero, suc, ◌+◌, ◌^◌, ◌≤◌, ◌<◌, ◌≡◌, refl, true, [], ◌∷◌, arith, some, lt→ltb,
}
use nku_os.Links.Rings.{list_init-Ring}
use nku_os.Pmm.{Pmm, default_init, default_init_memmap, reset_reserved, reset_page, mark_block}
use nku_os.Pmm.Blocks.{covered, within, put_same}
use nku_os.Pmm.Inv.{IsValid}
use nku_os.Pmm.Insert.{link_block-Ring}

-- After `default_init` the allocator is valid and has no free page.
pub default_init-IsValid : (s : Pmm) → IsValid (default_init s) [] × ((default_init s).nr_free ≡ 0)
unfolding default_init
default_init-IsValid s = (
  record {
    ring = list_init-Ring s.links 0;
    blocks = tt;
    counted = refl;
    small = omega arith;
    marked = tt;
  },
  refl,
)

-- The loop over the pages passes if all are reserved, and leaves the free list and its count.
reset_reserved-keeps :
    (n p : ℕ) (s : Pmm)
    → ((c : ℕ) → p ≤ c → c < p + n → s.reserved c ≡ true)
    → (s' : Pmm) × (reset_reserved n p s ≡ some s')
      × (s'.links ≡ s.links)
      × (s'.nr_free ≡ s.nr_free)
unfolding reset_reserved
reset_reserved-keeps zero p s h = (s, refl, refl, refl)
reset_reserved-keeps (suc n) p s h =
    let (s', e, l, f) =
      reset_reserved-keeps n (p + 1) (reset_page p s)
        (λ c lo hi. ground (arith, h c (omega arith) (omega arith))) in
    (s', rw (h p (omega arith) (omega arith), e), l, f)

-- `default_init_memmap` of `n` reserved pages from `base` on, `0 < base`, `0 < n < 2 ^ 32`, on an
-- empty free list with at least one round of fuel returns a valid state, whose only block is these
-- pages and whose count of free pages is `n`.
pub default_init_memmap_lem :
    (s : Pmm) (fuel base n : ℕ)
    → IsValid s []
    → 0 < base
    → 0 < n
    → n < 2 ^ 32
    → ((c : ℕ) → base ≤ c → c < base + n → s.reserved c ≡ true)
    → 0 < fuel
    → (s' : Pmm) × (default_init_memmap fuel base n s ≡ some s')
      × IsValid s' (base ∷ [])
      × ((p : ℕ) → covered s'.property p (base ∷ []) ≡ within base n p)
      × (s'.nr_free ≡ n)
unfolding default_init_memmap
default_init_memmap_lem s fuel base n v z pos small reserved fu =
    let (s₁, e₁, l, f) = reset_reserved-keeps n base s reserved in
    let (h, e₂, ring) =
      link_block-Ring s.property base n pos s.links fuel [] [] v.ring (omega arith) tt fu in
    let e : u32 n ≡ n = omega arith in
    (
      record (mark_block base n s₁) { links = h },
      rw (lt→ltb 0 n pos, e₁, l, e₂),
      record {
        ring = ring;
        blocks = (z, rw (put_same s₁.property base (u32 n), e) pos, tt);
        counted = ground (arith, f, v.counted);
        small = ground (arith, f, v.counted);
        marked = (put_same s₁.is_property base true, tt);
      },
      λ p. ground arith,
      ground (arith, f, v.counted),
    )
