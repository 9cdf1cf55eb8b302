-- ===== src/Swap/Victim.antt =====
-- `_clock_swap_out_victim` returns, and takes the page that the clock policy promises.
use nku_os.Base.{
  ℕ, zero, suc, ◌+◌, ◌<◌, ◌≡◌, ◌≢◌, refl, false, List, [], ◌∷◌, ◌++◌, arith, length, length-append,
  ne→==, inl, inr, append-nil, sym, subst, ◌∙◌, ap,
}
use nku_os.Links.{put}
use nku_os.Links.Ops.{NoDup-apart}
use nku_os.Swap.{Pra, clock_loop, clock_swap_out_victim}
use nku_os.Swap.Clock.{IsClock, AllVisited, AllVisited-cleared, cleared-in, look}
use nku_os.Swap.Round.{
  Victim, clock_victim, unvisited-none, AllVisited-append, Victim-ahead, Victim-behind, wrap,
  stop_in, go_on,
}

-- All pages are visited, and the hand is at `q`.
Victim-round :
    (m : ℕ) (s : Pra) (pre : List ℕ) (q : ℕ) (post : List ℕ)
    → IsClock s pre (q ∷ post)
    → AllVisited s.visited (q ∷ post)
    → AllVisited s.visited pre
    → length pre + length (q ∷ post) < m
    → Victim s pre (q ∷ post) (clock_loop m s)
unfolding clock_victim
Victim-round m s pre q post v b a fu =
    let (s₁, k, e, l, c₁, bits) =
      wrap m s pre (q ∷ post) v b (omega (arith, length-append pre (q ∷ post))) (omega arith) in
    let still : AllVisited s₁.visited pre = rw bits (
      AllVisited-cleared s.visited (q ∷ post) pre
        (λ c i. NoDup-apart c pre (q ∷ post) v.ring.nodup i) a) in
    let fresh : s₁.visited q ≡ false =
      rw bits (cleared-in (put s.visited q false) post q (ground arith)) in
    let (s', r, c) = stop_in (suc k) s₁ [] pre q post c₁ still fresh (omega (arith, l)) in
    record {
      page = q;
      after = s';
      left = pre;
      right = post;
      returns = e ∙ r;
      parts = refl;
      clock = c;
      choice = sym (
          unvisited-none s.visited (q ∷ post ++ pre) q
            (AllVisited-append s.visited (q ∷ post) pre b a));
    }

-- All pages are visited, and the hand is at the head.
Victim-from_head :
    (m : ℕ) (s : Pra) (p : ℕ) (ps : List ℕ)
    → IsClock s (p ∷ ps) []
    → AllVisited s.visited (p ∷ ps)
    → length (p ∷ ps) < m
    → Victim s (p ∷ ps) [] (clock_loop m s)
Victim-from_head zero s p ps v a fu = absurd (omega arith)
Victim-from_head (suc n) s p ps v a fu =
    let (s₁, e, t) = go_on n s (p ∷ ps) v (omega arith) in
    let b : AllVisited s₁.visited (p ∷ ps) = subst (λ f. AllVisited f (p ∷ ps)) (sym t.bits) a in
    let w = Victim-round (suc n) s₁ [] p ps t.clock b tt (omega arith) in
    record {
      page = w.page;
      after = w.after;
      left = w.left;
      right = w.right;
      returns = e ∙ w.returns;
      parts = rw append-nil w.parts;
      clock = w.clock;
      choice =
          rw append-nil at (subst (λ f. w.page ≡ clock_victim f (p ∷ ps ++ [])) t.bits w.choice);
    }

clock_loop-Victim :
    (m : ℕ) (s : Pra) (pre post : List ℕ)
    → IsClock s pre post
    → 0 < length (pre ++ post)
    → length pre + length post < m
    → Victim s pre post (clock_loop m s)
clock_loop-Victim m s pre post v h fu = elim (look s.visited post) [
  | inr w ↦
      subst (λ l. Victim s pre l (clock_loop m s)) (sym w.parts)
        (Victim-ahead m s pre w.passed w.page w.behind (subst (IsClock s pre) w.parts v) w.visited
          w.fresh (omega (arith, length-append w.passed (w.page ∷ w.behind), ap length w.parts)))
  | inl b ↦ elim (look s.visited pre) [
    | inr w ↦
        subst (λ l. Victim s l post (clock_loop m s)) (sym w.parts)
          (Victim-behind m s w.passed w.page w.behind post (subst (λ l. IsClock s l post) w.parts v)
            b w.visited w.fresh (omega (arith, ap length w.parts)))
    | inl a ↦ all_visited pre post v h b a fu
  ]
]
  where
    all_visited :
        (pre post : List ℕ)
        → IsClock s pre post
        → 0 < length (pre ++ post)
        → AllVisited s.visited post
        → AllVisited s.visited pre
        → length pre + length post < m
        → Victim s pre post (clock_loop m s)
    all_visited [] [] v h b a fu = absurd (omega arith)
    all_visited (p ∷ ps) [] v h b a fu = Victim-from_head m s p ps v a (omega arith)
    all_visited pre (q ∷ post) v h b a fu = Victim-round m s pre q post v b a fu

-- On a valid list that is not empty, with the hand between `pre` and `post` and a list head given to
-- the mm (not NULL), `_clock_swap_out_victim` returns, when given more rounds than pages: it takes,
-- from the hand on and round the list, the first page that is not visited, and the page at the hand
-- if all are; the list is left without it, and the hand stands behind it.
pub clock_swap_out_victim_lem :
    (s : Pra) (fuel : ℕ) (pre post : List ℕ)
    → IsClock s pre post
    → s.sm_priv ≢ 0
    → 0 < length (pre ++ post)
    → length (pre ++ post) < fuel
    → Victim s pre post (clock_swap_out_victim fuel 0 s)
unfolding clock_swap_out_victim
clock_swap_out_victim_lem s fuel pre post v nz h fu =
    rw (ne→== s.sm_priv 0 nz)
      (clock_loop-Victim fuel s pre post v h (omega (arith, length-append pre post)))
