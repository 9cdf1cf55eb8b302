-- ===== src/Pmm.antt =====
-- lab8/kern/mm/default_pmm.c (first fit) and lab2/kern/mm/best_fit_pmm.c (best fit): the allocators
-- of physical pages, over the pointer model of list.h.
-- The page `pages[i]` is the number i + 1. Its `page_link` has the same number as its address, so
-- `le2page` is the identity, the sentinel `free_list` is the address 0, and 0 as a page is NULL.
pub mod Blocks
pub mod Joins
pub mod Inv
pub mod Alloc
pub mod Insert
pub mod Merge
pub mod Free
pub mod Tail
pub mod Double
pub mod Init
mod Tests
pub mod FirstFit
pub mod BestFit
use nku_os.Base.{
  ℕ, zero, suc, ◌+◌, ◌-◌, ◌%◌, ◌^◌, ◌≤◌, ◌<◌, Bool, true, false, Option, none, some, ◌==◌, ltb, leb,
  if◌then◌else◌, List, [], ◌∷◌, not, ◌&&◌, u32, ◌>>=◌, ◌>>◌, assert,
}
use nku_os.Links.{Links, put, list_init, list_add, list_add_before, list_del, list_next, list_prev}
use nku_os.Links.{list_empty}

-- The fields of `struct Page` that the allocators use, for every page, and `free_area`.
-- The two bits of `flags` are `reserved` and `is_property`; no other bit is ever set.
pub record Pmm : Type 0 where
  pub links : Links
  pub property : ℕ → ℕ
  pub is_property : ℕ → Bool
  pub reserved : ℕ → Bool
  pub ref : ℕ → ℕ
  pub nr_free : ℕ

unfoldable pub default_init : Pmm → Pmm
unfolding list_init
default_init s = record s { links = list_init 0 s.links; nr_free = 0 }

-- One round of the first loop of `init_memmap`: `flags = property = 0` and `ref = 0`.
abbrev pub reset_page : ℕ → Pmm → Pmm
reset_page p s = record s {
  is_property = put s.is_property p false;
  reserved = put s.reserved p false;
  property = put s.property p 0;
  ref = put s.ref p 0;
}

-- The pages from `p` on, with `n` left.
unfoldable pub reset_reserved : (n p : ℕ) → Pmm → Option Pmm
reset_reserved zero p s = some s
reset_reserved (suc n) p s =
    let rest = reset_reserved n (p + 1) (reset_page p s) in if s.reserved p then rest else none

-- The same loop of `free_pages`, which keeps `property`.
abbrev pub clear_page : ℕ → Pmm → Pmm
clear_page p s = record s {
  is_property = put s.is_property p false;
  reserved = put s.reserved p false;
  ref = put s.ref p 0;
}

unfoldable pub clear_allocated : (n p : ℕ) → Pmm → Option Pmm
clear_allocated zero p s = some s
clear_allocated (suc n) p s =
    let rest = clear_allocated n (p + 1) (clear_page p s) in
    if not (s.reserved p) && not (s.is_property p) then rest else none

-- The loop that looks for the place of `base`, entered with `le` before its `list_next`. It goes on
-- after the insertion at the end, as the code does, which has no `break` there.
unfoldable pub insert_scan : (fuel le base : ℕ) → Links → Option Links
unfolding list_add list_add_before
insert_scan zero le base h = none
insert_scan (suc k) le base h =
    let le' = list_next le h in
    let h' = if list_next le' h == 0 then list_add le' base h else h in
    let rest = insert_scan k le' base h' in
    if le' == 0 then some h else if ltb base le' then some (list_add_before le' base h) else rest

-- The insertion of `base` into the free list, the same text in `init_memmap` and in `free_pages`.
unfoldable pub link_block : (fuel base : ℕ) → Links → Option Links
unfolding insert_scan list_empty
link_block fuel base h =
    let scan = insert_scan fuel 0 base h in
    if list_empty 0 h then some (list_add 0 base h) else scan

-- `base->property = n; SetPageProperty(base); nr_free += n;`
abbrev pub mark_block : (base n : ℕ) → Pmm → Pmm
mark_block base n s = record s {
  property = put s.property base (u32 n);
  is_property = put s.is_property base true;
  nr_free = u32 (s.nr_free + n);
}

unfoldable pub default_init_memmap : (fuel base n : ℕ) → Pmm → Option Pmm
unfolding reset_reserved link_block
default_init_memmap fuel base n s = do
  assert (ltb 0 n)
  s ← reset_reserved n base s
  let s = mark_block base n s
  h ← link_block fuel base s.links
  some (record s { links = h })

-- The search for the first block of at least `n` pages; 0 if there is none.
unfoldable pub find_first : (fuel n le : ℕ) → Pmm → Option ℕ
find_first zero n le s = none
find_first (suc k) n le s =
    let le' = list_next le s.links in
    let rest = find_first k n le' s in
    if le' == 0 then some 0 else if leb n (s.property le') then some le' else rest

-- The block found at `page` leaves the list, and what it has beyond `n` pages goes back in its place.
unfoldable pub take_block : (page n : ℕ) → Pmm → ℕ × Pmm
unfolding list_del list_add
take_block page n s =
    let prev = list_prev page s.links in
    let h = list_del page s.links in
    let split = record s {
      links = list_add prev (page + n) h;
      property = put s.property (page + n) (u32 (s.property page - n));
      is_property = put s.is_property (page + n) true;
    } in
    let whole = record s { links = h } in
    let s' = if ltb n (s.property page) then split else whole in
    let taken = record s' {
      nr_free = s.nr_free - n;
      is_property = put s'.is_property page false;
    } in
    if page == 0 then (0, s) else (page, taken)

unfoldable pub default_alloc_pages : (fuel n : ℕ) → Pmm → Option (ℕ × Pmm)
unfolding find_first take_block
default_alloc_pages fuel n s = do
  assert (ltb 0 n)
  if ltb s.nr_free n
      then some (0, s)
      else do page ← find_first fuel n 0 s; some (take_block page n s)

-- The freed block joins the one before it; the head of the joined block is returned.
unfoldable pub merge_prev : ℕ → Pmm → ℕ × Pmm
unfolding list_del
merge_prev base s =
    let p = list_prev base s.links in
    let joined = record s {
      property = put s.property p (u32 (s.property p + s.property base));
      is_property = put s.is_property base false;
      links = list_del base s.links;
    } in
    if p == 0 then (base, s) else if p + s.property p == base then (p, joined) else (base, s)

-- The block after `base` joins it.
unfoldable pub merge_next : ℕ → Pmm → Pmm
unfolding list_del
merge_next base s =
    let p = list_next base s.links in
    let joined = record s {
      property = put s.property base (u32 (s.property base + s.property p));
      is_property = put s.is_property p false;
      links = list_del p s.links;
    } in
    if p == 0 then s else if base + s.property base == p then joined else s

unfoldable pub default_free_pages : (fuel base n : ℕ) → Pmm → Option Pmm
unfolding clear_allocated link_block merge_prev merge_next
default_free_pages fuel base n s = do
  assert (ltb 0 n)
  s ← clear_allocated n base s
  let s = mark_block base n s
  h ← link_block fuel base s.links
  let (base, s) = merge_prev base (record s { links = h })
  some (merge_next base s)

abbrev pub default_nr_free_pages : Pmm → ℕ
default_nr_free_pages s = s.nr_free
