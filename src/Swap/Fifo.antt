-- ===== src/Swap/Fifo.antt =====
-- The FIFO policy gives up the pages in the order in which they came.
use nku_os.Base.{
  ℕ, zero, suc, ◌≡◌, refl, false, List, [], ◌∷◌, ◌++◌, arith, Option, some, length, ◌==◌, ◌∉◌,
  has-append, NoDup, ◌>>=◌, append-nil, subst,
}
use nku_os.Links.{list_add, list_del}
use nku_os.Links.Chain.{Ring, last, Chain-prev}
use nku_os.Links.Ops.{has-insert, NoDup-insert}
use nku_os.Links.Rings.{list_add-Ring, list_del-Ring, list_init-Ring}
use nku_os.Swap.{Pra, pra_list_head, fifo_init_mm, fifo_map_swappable, fifo_swap_out_victim}

-- The list holds the pages `ps`, the newest first.
pub record IsPra (s : Pra) (ps : List ℕ) : Type 0 where
  pub ring : Ring s.links pra_list_head ps
  pub head : s.sm_priv ≡ pra_list_head

pub fifo_init_mm-IsPra : (s : Pra) → IsPra (fifo_init_mm s) []
unfolding fifo_init_mm
fifo_init_mm-IsPra s = record { ring = list_init-Ring s.links 1; head = refl }

pub fifo_map_swappable-IsPra :
    (s : Pra) (ps : List ℕ) (p : ℕ)
    → IsPra s ps
    → p ∉ (0 ∷ 1 ∷ ps)
    → (s' : Pra) × (fifo_map_swappable p s ≡ some s') × IsPra s' (p ∷ ps)
unfolding fifo_map_swappable
fifo_map_swappable-IsPra s ps p v out =
    let nz : (p == 0) ≡ false = ground arith in
    (
      record s { links = list_add 1 p s.links },
      rw (nz, v.head) refl,
      record {
        ring = list_add-Ring {h = s.links} {hd = 1} p [] ps v.ring (ground arith);
        head = v.head;
      },
    )

pub last-snoc : (a : ℕ) (ps : List ℕ) (p : ℕ) → last a (ps ++ p ∷ []) ≡ p
last-snoc a [] p = refl
last-snoc a (x ∷ ps) p = last-snoc x ps p

-- The oldest page is the victim.
pub fifo_swap_out_victim-IsPra :
    (s : Pra) (ps : List ℕ) (p : ℕ)
    → IsPra s (ps ++ p ∷ [])
    → (s' : Pra) × (fifo_swap_out_victim 0 s ≡ some (p, s')) × IsPra s' ps
unfolding fifo_swap_out_victim
fifo_swap_out_victim-IsPra s ps p v =
    let entry = Chain-prev s.links 1 (ps ++ p ∷ []) [] 1 (rw append-nil v.ring.chain) in
    let nh : (p == 1) ≡ false = ground (arith, v.ring.apart, has-append 1 ps (p ∷ [])) in
    (
      record s { links = list_del p s.links },
      rw (v.head, entry, last-snoc 1 ps p, nh) refl,
      record {
        ring = rw append-nil at (list_del-Ring {h = s.links} {hd = 1} p ps [] v.ring);
        head = v.head;
      },
    )

-- The pages `ps` become swappable, one after the other.
pub arrive : List ℕ → Pra → Option Pra
arrive [] s = some s
arrive (p ∷ ps) s = fifo_map_swappable p s >>= arrive ps

-- `n` victims, one after the other.
pub give_up : ℕ → Pra → Option (List ℕ × Pra)
give_up zero s = some ([], s)
give_up (suc n) s = do (p, s) ← fifo_swap_out_victim 0 s; (ps, s) ← give_up n s; some (p ∷ ps, s)

newest_first : (ps qs : List ℕ) → List ℕ
newest_first [] qs = qs
newest_first (p ∷ ps) qs = newest_first ps (p ∷ qs)

newest_first-append : (ps qs rs : List ℕ) → newest_first ps (qs ++ rs) ≡ newest_first ps qs ++ rs
unfolding newest_first
newest_first-append [] qs rs = refl
newest_first-append (p ∷ ps) qs rs = newest_first-append ps (p ∷ qs) rs

arrive-IsPra :
    (s : Pra) (ps qs : List ℕ)
    → IsPra s qs
    → NoDup (0 ∷ 1 ∷ ps ++ qs)
    → (s' : Pra) × (arrive ps s ≡ some s') × IsPra s' (newest_first ps qs)
unfolding arrive newest_first
arrive-IsPra s [] qs v nd = (s, refl, v)
arrive-IsPra s (p ∷ ps) qs v nd =
    let (s₁, e₁, v₁) = fifo_map_swappable-IsPra s qs p v (ground (arith, has-append p ps qs, nd)) in
    let moved : NoDup (0 ∷ 1 ∷ ps ++ p ∷ qs) = (
      ground (arith, has-insert 0 p ps qs, nd),
      (ground (arith, has-insert 1 p ps qs, nd), NoDup-insert p ps qs nd.1.1.1 nd.1.1.0),
    ) in
    let (s₂, e₂, v₂) = arrive-IsPra s₁ ps (p ∷ qs) v₁ moved in (s₂, rw (e₁, e₂) refl, v₂)

give_up-IsPra :
    (s : Pra) (ps : List ℕ)
    → IsPra s (newest_first ps [])
    → (s' : Pra) × (give_up (length ps) s ≡ some (ps, s')) × IsPra s' []
unfolding give_up newest_first
give_up-IsPra s [] v = (s, refl, v)
give_up-IsPra s (p ∷ ps) v =
    let (s₁, e₁, v₁) =
      fifo_swap_out_victim-IsPra s (newest_first ps []) p
        (subst (IsPra s) (newest_first-append ps [] (p ∷ [])) v) in
    let (s₂, e₂, v₂) = give_up-IsPra s₁ ps v₁ in (s₂, rw (e₁, e₂) refl, v₂)

-- When different pages, none of them NULL or the head, become swappable on an initialised list, and
-- as many victims are taken, all calls return, and the victims are these pages in the order in which
-- they came.
pub fifo-order :
    (s : Pra) (ps : List ℕ)
    → NoDup (0 ∷ 1 ∷ ps)
    → (s₁ : Pra) × (s₂ : Pra) × (arrive ps (fifo_init_mm s) ≡ some s₁)
      × (give_up (length ps) s₁ ≡ some (ps, s₂))
      × IsPra s₂ []
fifo-order s ps nd =
    let (s₁, e₁, v₁) =
      arrive-IsPra (fifo_init_mm s) ps [] (fifo_init_mm-IsPra s) (rw append-nil nd) in
    let (s₂, e₂, v₂) = give_up-IsPra s₁ ps v₁ in (s₁, s₂, e₁, e₂, v₂)
