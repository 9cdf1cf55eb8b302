-- ===== src/Swap/Clock.antt =====
-- The clock policy: the hand passes the visited pages, clears their bit, and stops at the first page
-- that is not visited, after one round at the latest.
use nku_os.Base.{
  ℕ, suc, ◌≡◌, refl, Bool, true, false, ◌⊎◌, List, [], ◌∷◌, ◌++◌, arith, some, ◌==◌, ◌∉◌, ◌∈◌,
  has-append, Bool-cases, inl, inr, append_assoc, append-nil, subst, ◌∙◌, ap,
}
use nku_os.Links.{put, list_del}
use nku_os.Links.Chain.{Ring, first, Chain-prev, Chain-next, Chain-next_mid}
use nku_os.Links.Ops.{has-insert, NoDup-right}
use nku_os.Links.Rings.{list_del-Ring}
use nku_os.Swap.Fifo.{last-snoc}
use nku_os.Swap.{Pra, clock_loop}

-- The hand stands at `post` in the list `pre ++ post`, at the head if `post` is empty.
pub record IsClock (s : Pra) (pre post : List ℕ) : Type 0 where
  pub ring : Ring s.links 1 (pre ++ post)
  pub hand : s.curr_ptr ≡ first post 1

abbrev pub AllVisited : (ℕ → Bool) → List ℕ → Type 0
AllVisited f [] = Unit
AllVisited f (p ∷ ps) = (f p ≡ true) × AllVisited f ps

-- The bits of `ps` are cleared.
abbrev pub cleared : (ℕ → Bool) → List ℕ → ℕ → Bool
cleared f [] = f
cleared f (p ∷ ps) = cleared (put f p false) ps

-- The hand has stopped at `p` in the list `pre ++ p ∷ post`.
pub record Stopped (s : Pra) (f : ℕ → Bool) (pre post : List ℕ) (s' : Pra) : Type 0 where
  pub clock : IsClock s' pre post
  pub bits : s'.visited ≡ f
  pub priv : s'.sm_priv ≡ s.sm_priv

pub stop_at :
    (n : ℕ) (s : Pra) (pre : List ℕ) (p : ℕ) (post : List ℕ)
    → IsClock s pre (p ∷ post)
    → s.visited p ≡ false
    → (s' : Pra) × (clock_loop (suc n) s ≡ some (p, s')) × Stopped s s.visited pre post s'
unfolding clock_loop
stop_at n s pre p post v f =
    let nx = Chain-next_mid s.links 1 pre p post 1 v.ring.chain in
    let out : (p == 1) ≡ false = ground (arith, v.ring.apart, has-insert 1 p pre post) in
    let before =
      Chain-prev s.links 1 (pre ++ p ∷ []) post 1
        (rw (append_assoc pre (p ∷ []) post) v.ring.chain) in
    let back : s.links.prev (s.links.next p) ≡ p =
      ap s.links.prev nx ∙ (before ∙ last-snoc 1 pre p) in
    (
      record s { curr_ptr = s.links.next p; links = list_del p s.links },
      rw (v.hand, out, f, back) refl,
      record {
        clock = record { ring = list_del-Ring {h = s.links} {hd = 1} p pre post v.ring; hand = nx };
        bits = refl;
        priv = refl;
      },
    )

step_over :
    (n : ℕ) (s : Pra) (pre : List ℕ) (p : ℕ) (post : List ℕ)
    → IsClock s pre (p ∷ post)
    → s.visited p ≡ true
    → (s₁ : Pra) × (clock_loop (suc n) s ≡ clock_loop n s₁)
      × Stopped s (put s.visited p false) (pre ++ p ∷ []) post s₁
unfolding clock_loop
step_over n s pre p post v f =
    let nx = Chain-next_mid s.links 1 pre p post 1 v.ring.chain in
    let out : (p == 1) ≡ false = ground (arith, v.ring.apart, has-insert 1 p pre post) in
    (
      record s { visited = put s.visited p false; curr_ptr = first post 1 },
      rw (v.hand, out, nx, f) refl,
      record {
        clock = record { ring = rw (append_assoc pre (p ∷ []) post) v.ring; hand = refl };
        bits = refl;
        priv = refl;
      },
    )

-- From the head the hand goes on at the first page.
pub from_head :
    (n : ℕ) (s : Pra) (p : ℕ) (ps : List ℕ)
    → IsClock s (p ∷ ps) []
    → (s₁ : Pra) × (clock_loop (suc n) s ≡ clock_loop (suc n) s₁)
      × Stopped s s.visited [] (p ∷ ps) s₁
unfolding clock_loop
from_head n s p ps v =
    let nx = Chain-next s.links 1 [] (p ∷ ps) 1 (rw append-nil at v.ring.chain) in
    let out : (p == 1) ≡ false = ground (arith, v.ring.apart) in
    (
      record s { curr_ptr = p },
      rw (v.hand, nx, out) refl,
      record {
        clock = record { ring = rw append-nil at v.ring; hand = refl };
        bits = refl;
        priv = refl;
      },
    )

AllVisited-put :
    (f : ℕ → Bool) (p : ℕ) (ps : List ℕ) → p ∉ ps → AllVisited f ps → AllVisited (put f p false) ps
AllVisited-put f p [] o a = tt
AllVisited-put f p (q ∷ ps) o a = (ground (arith, a.0), AllVisited-put f p ps (ground arith) a.1)

pub cleared-out : (f : ℕ → Bool) (ps : List ℕ) (c : ℕ) → c ∉ ps → cleared f ps c ≡ f c
cleared-out f [] c o = refl
cleared-out f (p ∷ ps) c o = cleared-out (put f p false) ps c (ground arith) ∙ ground arith

pub cleared-in : (f : ℕ → Bool) (ps : List ℕ) (c : ℕ) → f c ≡ false → cleared f ps c ≡ false
cleared-in f [] c o = o
cleared-in f (p ∷ ps) c o = cleared-in (put f p false) ps c (ground arith)

pub AllVisited-cleared :
    (f : ℕ → Bool) (ps qs : List ℕ)
    → ((c : ℕ) → c ∈ qs → c ∉ ps)
    → AllVisited f qs
    → AllVisited (cleared f ps) qs
AllVisited-cleared f ps [] h a = tt
AllVisited-cleared f ps (q ∷ qs) h a = (
  cleared-out f ps q (h q (ground arith)) ∙ a.0,
  AllVisited-cleared f ps qs (λ c i. h c (ground arith)) a.1,
)

-- One round for each of `vs`, and `n`.
abbrev pub more : List ℕ → ℕ → ℕ
more [] n = n
more (v ∷ vs) n = suc (more vs n)

-- The hand passes visited pages.
pub walk :
    (n : ℕ) (s : Pra) (pre vs post : List ℕ)
    → IsClock s pre (vs ++ post)
    → AllVisited s.visited vs
    → (s₁ : Pra) × (clock_loop (more vs n) s ≡ clock_loop n s₁)
      × Stopped s (cleared s.visited vs) (pre ++ vs) post s₁
walk n s pre [] post v a = (s, refl, record { clock = rw append-nil v; bits = refl; priv = refl })
walk n s pre (p ∷ vs) post v a =
    let (s₁, e₁, t₁) = step_over (more vs n) s pre p (vs ++ post) v a.0 in
    let nd : p ∉ (vs ++ post) = (NoDup-right pre (p ∷ vs ++ post) v.ring.nodup).0 in
    let out : p ∉ vs = ground (arith, has-append p vs post) in
    let still : AllVisited s₁.visited vs = rw t₁.bits (AllVisited-put s.visited p vs out a.1) in
    let (s₂, e₂, t₂) = walk n s₁ (pre ++ p ∷ []) vs post t₁.clock still in
    (
      s₂,
      e₁ ∙ e₂,
      record {
        clock = subst (λ l. IsClock s₂ l post) (append_assoc pre (p ∷ []) vs) t₂.clock;
        bits = t₂.bits ∙ ap (λ f. cleared f vs) t₁.bits;
        priv = t₂.priv ∙ t₁.priv;
      },
    )

-- The first page that is not visited, if there is one.
pub record Found (f : ℕ → Bool) (ps : List ℕ) : Type 0 where
  pub passed : List ℕ
  pub page : ℕ
  pub behind : List ℕ
  pub parts : ps ≡ passed ++ page ∷ behind
  pub visited : AllVisited f passed
  pub fresh : f page ≡ false

pub look : (f : ℕ → Bool) (ps : List ℕ) → AllVisited f ps ⊎ Found f ps
look f [] = inl tt
look f (p ∷ ps) = elim (Bool-cases (f p)) [
  | inl e ↦ elim (look f ps) [
    | inl a ↦ inl (e, a)
    | inr w ↦ inr (record {
      passed = p ∷ w.passed;
      page = w.page;
      behind = w.behind;
      parts = ap (λ l. p ∷ l) w.parts;
      visited = (e, w.visited);
      fresh = w.fresh;
    })
  ]
  | inr e ↦
      inr (record { passed = []; page = p; behind = ps; parts = refl; visited = tt; fresh = e })
]
