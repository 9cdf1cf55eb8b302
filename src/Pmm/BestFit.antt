-- ===== src/Pmm/BestFit.antt =====
-- lab2/kern/mm/best_fit_pmm.c: the best fit allocator. Its insertion and its merging are the text
-- of the first fit allocator, and its search keeps the smallest block that is large enough.
pub mod Search
pub mod Laws
use nku_os.Base.{
  u32, ℕ, zero, suc, ◌+◌, Bool, true, false, ◌&&◌, not, Option, none, some, ltb, leb, ◌==◌,
  if◌then◌else◌, ◌>>=◌, ◌>>◌, assert,
}
use nku_os.Links.{put, list_init, list_next}
use nku_os.Pmm.{
  Pmm, clear_page, mark_block, link_block, clear_allocated, take_block, merge_prev, merge_next,
}

unfoldable pub best_fit_init : Pmm → Pmm
unfolding list_init
best_fit_init s = record s { links = list_init 0 s.links; nr_free = 0 }

-- The loop of `init_memmap`, which asserts that the page is reserved and clears flags and `ref`.
-- (The code asserts it twice in a row.)
unfoldable pub clear_reserved : (n p : ℕ) → Pmm → Option Pmm
clear_reserved zero p s = some s
clear_reserved (suc n) p s =
    let rest = clear_reserved n (p + 1) (clear_page p s) in if s.reserved p then rest else none

unfoldable pub best_fit_init_memmap : (fuel base n : ℕ) → Pmm → Option Pmm
unfolding clear_reserved link_block
best_fit_init_memmap fuel base n s = do
  assert (ltb 0 n)
  s ← clear_reserved n base s
  let s = mark_block base n s
  h ← link_block fuel base s.links
  some (record s { links = h })

-- The loop of `best_fit_alloc_pages`, with its variables `le`, `page` and `min_size`.
unfoldable pub best_scan : (fuel n le page min_size : ℕ) → Pmm → Option ℕ
best_scan zero n le page min_size s = none
best_scan (suc k) n le page min_size s =
    let p = list_next le s.links in
    let better = leb n (s.property p) && ltb (s.property p) min_size in
    let rest =
      best_scan k n p (if better then p else page) (if better then s.property p else min_size) s in
    if p == 0 then some page else rest

unfoldable pub best_fit_alloc_pages : (fuel n : ℕ) → Pmm → Option (ℕ × Pmm)
unfolding best_scan take_block
best_fit_alloc_pages fuel n s = do
  assert (ltb 0 n)
  if ltb s.nr_free n
      then some (0, s)
      else do page ← best_scan fuel n 0 0 (u32 (s.nr_free + 1)) s; some (take_block page n s)

unfoldable pub best_fit_free_pages : (fuel base n : ℕ) → Pmm → Option Pmm
unfolding clear_allocated link_block merge_prev merge_next
best_fit_free_pages fuel base n s = do
  assert (ltb 0 n)
  s ← clear_allocated n base s
  let s = mark_block base n s
  h ← link_block fuel base s.links
  let (base, s) = merge_prev base (record s { links = h })
  some (merge_next base s)

abbrev pub best_fit_nr_free_pages : Pmm → ℕ
best_fit_nr_free_pages s = s.nr_free
