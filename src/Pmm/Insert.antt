-- ===== src/Pmm/Insert.antt =====
-- Putting a freed block into the free list: the loops of `init_memmap` and `free_pages`.
use nku_os.Base.{
  u32, ℕ, zero, suc, ◌+◌, ◌^◌, ◌≤◌, ◌<◌, ◌≡◌, ◌≢◌, refl, true, false, List, [], ◌∷◌, ◌++◌, arith,
  ltb, some, length, ◌==◌, ◌∉◌, ne→==, lt→ltb, length-append, ◌||◌,
}
use nku_os.Links.{Links, put, list_add, list_add_before, list_empty}
use nku_os.Links.Chain.{Chain, Ring}
use nku_os.Links.Rings.{list_add_before-Ring, list_add-Ring}
use nku_os.Pmm.{Pmm, insert_scan, link_block, clear_allocated, clear_page, mark_block}
use nku_os.Pmm.Blocks.{covered, within, put_same, Blocks-mid}
use nku_os.Pmm.Joins.{Fits, Blocks-insert, total-insert, covered-insert, inserted}
use nku_os.Pmm.Inv.{IsValid, Marked-frame, Marked-insert, Blocks-not_mem}
use nku_os.Pmm.Alloc.{mem-ne}

-- The blocks lie at `base` or before it, and none is the page 0.
abbrev pub UpTo : ℕ → List ℕ → Type 0
UpTo base [] = Unit
UpTo base (x ∷ xs) = (0 < x) × (x ≤ base) × UpTo base xs

pub UpTo-Fits :
    (f : ℕ → ℕ) (base n lo : ℕ) (pos : 0 < n) (pre post : List ℕ)
    → 0 < lo
    → Fits f base n pos lo pre post
    → UpTo base pre
UpTo-Fits f base n lo pos [] post z h = tt
UpTo-Fits f base n lo pos (x ∷ pre) post z h =
    (omega arith, omega arith, UpTo-Fits f base n (x + f x) pos pre post (omega arith) h.3)

-- If a block lies above `base`, the loop puts `base` before the first such block.
pub insert_scan-before :
    (base y k le : ℕ) (h : Links) (pre post : List ℕ)
    → Chain h le (pre ++ y ∷ post) 0
    → UpTo base pre
    → base < y
    → length pre < k
    → insert_scan k le base h ≡ some (list_add_before y base h)
unfolding insert_scan
insert_scan-before base y zero le h pre post c u lt fu = absurd (omega arith)
insert_scan-before base y (suc k) le h [] post c u lt fu =
    rw (c.0, ne→== y 0 (omega arith), lt→ltb base y lt)
insert_scan-before base y (suc k) le h (x ∷ pre) post c u lt fu =
    let nz : (h.next x == 0) ≡ false = ne→== (h.next x) 0 (next_ne pre c.2 u.2) in
    let nb : ltb base x ≡ false = ground (arith, u.1) in
    rw (c.0, ne→== x 0 (omega arith), nb, nz)
      (insert_scan-before base y k x h pre post c.2 u.2 lt (omega arith))
  where
    next_ne : (pre' : List ℕ) → Chain h x (pre' ++ y ∷ post) 0 → UpTo base pre' → h.next x ≢ 0
    next_ne [] c' u' = ground arith
    next_ne (z ∷ pre') c' u' = ground arith

-- The loop that checks and clears the pages of a freed block passes if none is reserved or free, and
-- leaves all but `ref` as it was.
pub record SameButRef (s s' : Pmm) : Type 0 where
  pub links : s'.links ≡ s.links
  pub property : s'.property ≡ s.property
  pub nr_free : s'.nr_free ≡ s.nr_free
  pub flags : (c : ℕ) → s'.is_property c ≡ s.is_property c

pub clear_allocated-SameButRef :
    (n base : ℕ) (s : Pmm)
    → ((c : ℕ) → base ≤ c → c < base + n → (s.reserved c ≡ false) × (s.is_property c ≡ false))
    → (s' : Pmm) × (clear_allocated n base s ≡ some s') × SameButRef s s'
unfolding clear_allocated
clear_allocated-SameButRef zero base s h =
    (s, refl, record { links = refl; property = refl; nr_free = refl; flags = λ c. refl })
clear_allocated-SameButRef (suc n) base s h =
    let hb = h base (omega arith) (omega arith) in
    let (s', e, same) = clear_allocated-SameButRef n (base + 1) (clear_page base s) (λ c lo hi. (
      ground (arith, h c (omega arith) (omega arith)),
      ground (arith, h c (omega arith) (omega arith)),
    )) in
    (
      s',
      rw (hb.0, hb.1, e),
      record {
        links = same.links;
        property = same.property;
        nr_free = same.nr_free;
        flags = λ c. ground (arith, same.flags c, hb.1);
      },
    )

-- The place of the new block is not behind all others, unless the list is empty.
abbrev pub NotLast : List ℕ → List ℕ → Type 0
NotLast pre (y ∷ post) = Unit
NotLast [] [] = Unit
NotLast (x ∷ pre) [] = ⊥

module _ (f : ℕ → ℕ) (base n : ℕ) (pos : 0 < n) where
  pub fresh : (pre post : List ℕ) → Fits f base n pos 1 pre post → base ∉ (0 ∷ pre ++ post)
  fresh pre post fits =
      let bl = Blocks-insert f base n pos 1 pre post fits in
      ground (
        arith,
        Blocks-not_mem (inserted f base n pos) 1 pre base post bl,
        (Blocks-mid (inserted f base n pos) 1 pre base post bl).0,
      )

  Fits-lt :
      (lo : ℕ) (pre : List ℕ) (y : ℕ) (post : List ℕ)
      → Fits f base n pos lo pre (y ∷ post)
      → base < y
  Fits-lt lo [] y post h = omega arith
  Fits-lt lo (x ∷ pre) y post h = Fits-lt (x + f x) pre y post h.3

  link_before :
      (h : Links) (k : ℕ) (pre : List ℕ) (y : ℕ) (post : List ℕ)
      → list_empty 0 h ≡ false
      → Ring h 0 (pre ++ y ∷ post)
      → Fits f base n pos 1 pre (y ∷ post)
      → length (pre ++ y ∷ post) < k
      → (h' : Links) × (link_block k base h ≡ some h') × Ring h' 0 (pre ++ base ∷ y ∷ post)
  unfolding link_block
  link_before h k pre y post full r fits fu = (
    list_add_before y base h,
    rw full (
        insert_scan-before base y k 0 h pre post r.chain
          (UpTo-Fits f base n 1 pos pre (y ∷ post) (omega arith) fits) (Fits-lt 1 pre y post fits)
          (omega (arith, length-append pre (y ∷ post)))),
    list_add_before-Ring base pre (y ∷ post) r (fresh pre (y ∷ post) fits),
  )

  pub link_block-Ring :
      (h : Links) (k : ℕ) (pre post : List ℕ)
      → Ring h 0 (pre ++ post)
      → Fits f base n pos 1 pre post
      → NotLast pre post
      → length (pre ++ post) < k
      → (h' : Links) × (link_block k base h ≡ some h') × Ring h' 0 (pre ++ base ∷ post)
  unfolding link_block list_empty
  link_block-Ring h k [] [] r fits nl fu =
      (list_add 0 base h, rw (r.chain.0), list_add-Ring base [] [] r (fresh [] [] fits))
  link_block-Ring h k (x ∷ pre) [] r fits nl fu = elim nl [ ]
  link_block-Ring h k [] (y ∷ post) r fits nl fu =
      link_before h k [] y post (ground arith) r fits fu
  link_block-Ring h k (x ∷ pre) (y ∷ post) r fits nl fu =
      link_before h k (x ∷ pre) y post (ground arith) r fits fu

-- After the flags are set and the block is linked, the free list is valid again.
pub mark_block-IsValid :
    (s s' : Pmm) (h : Links) (base n : ℕ) (pos : 0 < n) (pre post : List ℕ)
    → IsValid s (pre ++ post)
    → SameButRef s s'
    → Fits s.property base n pos 1 pre post
    → s.nr_free + n < 2 ^ 32
    → Ring h 0 (pre ++ base ∷ post)
    → IsValid (record (mark_block base n s') { links = h }) (pre ++ base ∷ post)
      × ((p : ℕ)
          → covered (mark_block base n s').property p (pre ++ base ∷ post)
            ≡ (covered s.property p (pre ++ post) || within base n p))
mark_block-IsValid s s' h base n pos pre post v same fits room r =
    let e : u32 n ≡ n = omega arith in
    let out =
      Blocks-not_mem (inserted s.property base n pos) 1 pre base post
        (Blocks-insert s.property base n pos 1 pre post fits) in
    rw (same.property, e)
      (
        record {
          ring = r;
          blocks = Blocks-insert s.property base n pos 1 pre post fits;
          counted =
              omega (
                arith,
                same.nr_free,
                v.counted,
                total-insert s.property base n pos 1 pre post fits,
              );
          small = omega (arith, same.nr_free);
          marked =
              Marked-insert (put s'.is_property base true) pre base post
                (Marked-frame s.is_property (put s'.is_property base true) (pre ++ post)
                  (λ c m. ground (arith, same.flags c, mem-ne base c (pre ++ post) out m)) v.marked)
                (put_same s'.is_property base true);
        },
        λ p. covered-insert s.property base n pos 1 pre post p fits,
      )
