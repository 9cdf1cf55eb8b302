-- ===== src/Swap/Tests.antt =====
-- The theorems on page replacement at the pages 5, 6 and 7.
use nku_os.Base.{◌≡◌, refl, [], ◌∷◌, arith, ◌==◌, if◌then◌else◌, some, ◌||◌}
use nku_os.Swap.{Pra, fifo_init_mm, clock_swap_out_victim}
use nku_os.Swap.Fifo.{IsPra, arrive, give_up, fifo-order}
use nku_os.Swap.Clock.{IsClock}
use nku_os.Swap.Round.{Victim}
use nku_os.Swap.Victim.{clock_swap_out_victim_lem}

-- 5 and 7 are visited, and the hand is at 7.
abbrev three_pages : Pra
three_pages = record {
  links = record {
    next = λ a. if a == 1 then 5 else if a == 5 then 6 else if a == 6 then 7 else 1;
    prev = λ a. if a == 1 then 7 else if a == 7 then 6 else if a == 6 then 5 else 1;
  };
  sm_priv = 1;
  visited = λ p. (p == 5) || (p == 7);
  curr_ptr = 7;
}

three_pages-IsClock : IsClock three_pages (5 ∷ 6 ∷ []) (7 ∷ [])
three_pages-IsClock = record {
  ring = record { chain = omega arith; apart = refl; nodup = (refl, (refl, (refl, tt))) };
  hand = refl;
}

fifo-order_example :
    (s₁ : Pra) × (s₂ : Pra) × (arrive (5 ∷ 6 ∷ 7 ∷ []) (fifo_init_mm three_pages) ≡ some s₁)
    × (give_up 3 s₁ ≡ some (5 ∷ 6 ∷ 7 ∷ [], s₂))
    × IsPra s₂ []
fifo-order_example =
    fifo-order three_pages (5 ∷ 6 ∷ 7 ∷ []) (refl, (refl, (refl, (refl, (refl, tt)))))

clock_swap_out_victim_lem_example :
    Victim three_pages (5 ∷ 6 ∷ []) (7 ∷ []) (clock_swap_out_victim 4 0 three_pages)
clock_swap_out_victim_lem_example =
    clock_swap_out_victim_lem three_pages 4 (5 ∷ 6 ∷ []) (7 ∷ []) three_pages-IsClock (ground arith)
      (omega arith) (omega arith)
