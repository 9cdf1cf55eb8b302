-- ===== src/Swap.antt =====
-- The page replacement policies of lab3/kern/mm: swap_fifo.c, swap_lru.c and swap_clock.c. A page is
-- known by the address of its `pra_page_link`, never 0, and the list head has the address 1.
pub mod Fifo
pub mod Clock
pub mod Round
pub mod Victim
mod Tests
use nku_os.Base.{
  ℕ, zero, suc, Bool, true, false, not, ◌&&◌, Option, none, some, ◌==◌, if◌then◌else◌, ◌>>=◌, ◌>>◌,
  assert,
}
use nku_os.Links.{Links, put, list_init, list_add, list_del, list_next, list_prev}

abbrev pub pra_list_head : ℕ
pra_list_head = 1

-- The links, `mm->sm_priv`, the bit `visited` of every page, and the hand of the clock.
pub record Pra : Type 0 where
  pub links : Links
  pub sm_priv : ℕ
  pub visited : ℕ → Bool
  pub curr_ptr : ℕ

unfoldable pub fifo_init_mm : Pra → Pra
unfolding list_init
fifo_init_mm s = record s { links = list_init pra_list_head s.links; sm_priv = pra_list_head }

unfoldable pub fifo_map_swappable : (page : ℕ) → Pra → Option Pra
unfolding list_add
fifo_map_swappable page s = do
  assert (not (page == 0) && not (s.sm_priv == 0))
  some (record s { links = list_add s.sm_priv page s.links })

-- The victim, 0 if there is none. `in_tick` is the argument that must be 0.
unfoldable pub fifo_swap_out_victim : (in_tick : ℕ) → Pra → Option (ℕ × Pra)
unfolding list_del
fifo_swap_out_victim in_tick s = do
  let head = s.sm_priv
  assert (not (head == 0))
  assert (in_tick == 0)
  let entry = list_prev head s.links
  some
      (if not (entry == head) then (entry, record s { links = list_del entry s.links }) else (0, s))

-- swap_lru.c. Its page fault handler, which moves a page that was used to the front, is not modelled.
unfoldable pub lru_init_mm : Pra → Pra
unfolding list_init
lru_init_mm s = record s { links = list_init pra_list_head s.links; sm_priv = pra_list_head }

unfoldable pub lru_map_swappable : (page : ℕ) → Pra → Option Pra
unfolding list_add
lru_map_swappable page s = do
  assert (not (page == 0) && not (s.sm_priv == 0))
  some (record s { links = list_add s.sm_priv page s.links })

unfoldable pub lru_swap_out_victim : (in_tick : ℕ) → Pra → Option (ℕ × Pra)
unfolding list_del
lru_swap_out_victim in_tick s = do
  let head = s.sm_priv
  assert (not (head == 0))
  assert (in_tick == 0)
  let entry = list_prev head s.links
  some
      (if not (entry == head) then (entry, record s { links = list_del entry s.links }) else (0, s))

unfoldable pub clock_init_mm : Pra → Pra
unfolding list_init
clock_init_mm s = record s {
  links = list_init pra_list_head s.links;
  curr_ptr = pra_list_head;
  sm_priv = pra_list_head;
}

unfoldable pub clock_map_swappable : (page : ℕ) → Pra → Option Pra
unfolding list_add
clock_map_swappable page s = do
  assert (not (page == 0) && not (s.curr_ptr == 0))
  some (record s {
    links = list_add (list_prev s.sm_priv s.links) page s.links;
    visited = put s.visited page true;
  })

-- The `while (1)` of `_clock_swap_out_victim`.
unfoldable pub clock_loop : (fuel : ℕ) → Pra → Option (ℕ × Pra)
unfolding list_del
clock_loop zero s = none
clock_loop (suc n) s =
    let ptr = if s.curr_ptr == pra_list_head then list_next s.curr_ptr s.links else s.curr_ptr in
    let next = list_next ptr s.links in
    let rest = clock_loop n (record s { visited = put s.visited ptr false; curr_ptr = next }) in
    if s.visited ptr
    then rest
    else some (ptr, record s { curr_ptr = next; links = list_del (list_prev next s.links) s.links })

unfoldable pub clock_swap_out_victim : (fuel in_tick : ℕ) → Pra → Option (ℕ × Pra)
unfolding clock_loop
clock_swap_out_victim fuel in_tick s = do
  assert (not (s.sm_priv == 0))
  assert (in_tick == 0)
  clock_loop fuel s
