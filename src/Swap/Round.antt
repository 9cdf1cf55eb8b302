-- ===== src/Swap/Round.antt =====
-- One call of the clock policy: which page it takes, and that it comes to an end.
use nku_os.Base.{
  ℕ, zero, suc, ◌+◌, ◌<◌, ◌≡◌, refl, Bool, false, List, [], ◌∷◌, ◌++◌, arith, Option, some, length,
  length-append, ◌∉◌, has-append, NoDup, if◌then◌else◌, append_assoc, append-nil, sym, subst, ◌∙◌,
  ap,
}
use nku_os.Links.Chain.{first}
use nku_os.Links.Ops.{NoDup-apart, NoDup-right}
use nku_os.Swap.{Pra, clock_loop}
use nku_os.Swap.Clock.{
  IsClock, AllVisited, AllVisited-cleared, cleared, cleared-in, cleared-out, more, Stopped, walk,
  stop_at, from_head,
}

-- The first page of a list that is not visited, `d` if there is none.
unfoldable pub unvisited : (ℕ → Bool) → List ℕ → ℕ → ℕ
unvisited f [] d = d
unvisited f (p ∷ ps) d = if f p then unvisited f ps d else p

-- What the clock policy promises: seen from the hand, the first page that is not visited, and if all
-- are, the first page.
unfoldable pub clock_victim : (ℕ → Bool) → List ℕ → ℕ
clock_victim f ps = unvisited f ps (first ps 0)

pub record Victim (s : Pra) (pre post : List ℕ) (r : Option (ℕ × Pra)) : Type 0 where
  pub page : ℕ
  pub after : Pra
  pub left : List ℕ
  pub right : List ℕ
  pub returns : r ≡ some (page, after)
  pub parts : pre ++ post ≡ left ++ page ∷ right
  pub clock : IsClock after left right
  pub choice : page ≡ clock_victim s.visited (post ++ pre)

pub unvisited-pass :
    (f : ℕ → Bool) (vs ps : List ℕ) (d : ℕ)
    → AllVisited f vs
    → unvisited f (vs ++ ps) d ≡ unvisited f ps d
unfolding unvisited
unvisited-pass f [] ps d a = refl
unvisited-pass f (v ∷ vs) ps d a = rw a.0 (unvisited-pass f vs ps d a.1)

unvisited-here : (f : ℕ → Bool) (p d : ℕ) (ps : List ℕ) → f p ≡ false → unvisited f (p ∷ ps) d ≡ p
unfolding unvisited
unvisited-here f p d ps e = rw e refl

-- The hand goes over `vs` to the page `p`, and stops there.
walk_and_stop :
    (n : ℕ) (s : Pra) (pre vs : List ℕ) (p : ℕ) (post : List ℕ)
    → IsClock s pre (vs ++ p ∷ post)
    → AllVisited s.visited vs
    → p ∉ vs
    → s.visited p ≡ false
    → (s' : Pra) × (clock_loop (more vs (suc n)) s ≡ some (p, s')) × IsClock s' (pre ++ vs) post
walk_and_stop n s pre vs p post v a out fresh =
    let (s₁, e₁, t₁) = walk (suc n) s pre vs (p ∷ post) v a in
    let f : s₁.visited p ≡ false =
      ap (λ g. g p) t₁.bits ∙ (cleared-out s.visited vs p out ∙ fresh) in
    let (s₂, e₂, t₂) = stop_at n s₁ (pre ++ vs) p post t₁.clock f in (s₂, e₁ ∙ e₂, t₂.clock)

found_apart : (xs vs : List ℕ) (p : ℕ) (ys : List ℕ) → NoDup (xs ++ (vs ++ p ∷ ys)) → p ∉ vs
found_apart xs [] p ys nd = refl
found_apart xs (v ∷ vs) p ys nd =
    let nd' = NoDup-right xs (v ∷ (vs ++ p ∷ ys)) nd in
    let ne : v ∉ (vs ++ p ∷ ys) = nd'.0 in
    ground (arith, found_apart [] vs p ys nd'.1, has-append v vs (p ∷ ys))

-- Fuel for more than the pages `vs`.
more_fuel :
    (vs : List ℕ) (m : ℕ)
    → length vs < m
    → (n : ℕ) × (m ≡ more vs (suc n)) × (n + suc (length vs) ≡ m)
more_fuel vs zero h = absurd (omega arith)
more_fuel [] (suc m) h = (m, refl, omega arith)
more_fuel (v ∷ vs) (suc m) h =
    let (n, e, l) = more_fuel vs m (omega arith) in (n, ap suc e, omega (arith, l))

pub stop_in :
    (m : ℕ) (s : Pra) (pre vs : List ℕ) (p : ℕ) (post : List ℕ)
    → IsClock s pre (vs ++ p ∷ post)
    → AllVisited s.visited vs
    → s.visited p ≡ false
    → length vs < m
    → (s' : Pra) × (clock_loop m s ≡ some (p, s')) × IsClock s' (pre ++ vs) post
stop_in m s pre vs p post v a fresh fu =
    let (n, e, l) = more_fuel vs m fu in
    let (s', r, c) =
      walk_and_stop n s pre vs p post v a (found_apart pre vs p post v.ring.nodup) fresh in
    (s', ap (λ k. clock_loop k s) e ∙ r, c)

-- The hand is at the head.
pub go_on :
    (n : ℕ) (s : Pra) (ps : List ℕ)
    → IsClock s ps []
    → 0 < length ps
    → (s₁ : Pra) × (clock_loop (suc n) s ≡ clock_loop (suc n) s₁) × Stopped s s.visited [] ps s₁
go_on n s [] v h = absurd (omega arith)
go_on n s (p ∷ ps) v h = from_head n s p ps v

-- The hand goes over all of `post` and the head.
pub wrap :
    (m : ℕ) (s : Pra) (pre post : List ℕ)
    → IsClock s pre post
    → AllVisited s.visited post
    → 0 < length (pre ++ post)
    → length post < m
    → (s₁ : Pra) × (k : ℕ) × (clock_loop m s ≡ clock_loop (suc k) s₁)
      × (k + suc (length post) ≡ m)
      × IsClock s₁ [] (pre ++ post)
      × (s₁.visited ≡ cleared s.visited post)
wrap m s pre post v a h fu =
    let (n, e, l) = more_fuel post m fu in
    let (s₁, e₁, t₁) = walk (suc n) s pre post [] (rw append-nil v) a in
    let (s₂, e₂, t₂) = go_on n s₁ (pre ++ post) t₁.clock h in
    (s₂, n, ap (λ k. clock_loop k s) e ∙ (e₁ ∙ e₂), l, t₂.clock, t₂.bits ∙ t₁.bits)

pub unvisited-none : (f : ℕ → Bool) (ps : List ℕ) (d : ℕ) → AllVisited f ps → unvisited f ps d ≡ d
unfolding unvisited
unvisited-none f [] d a = refl
unvisited-none f (p ∷ ps) d a = rw a.0 (unvisited-none f ps d a.1)

pub AllVisited-append :
    (f : ℕ → Bool) (ps qs : List ℕ) → AllVisited f ps → AllVisited f qs → AllVisited f (ps ++ qs)
AllVisited-append f [] qs a b = b
AllVisited-append f (p ∷ ps) qs a b = (a.0, AllVisited-append f ps qs a.1 b)

unvisited-found :
    (f : ℕ → Bool) (vs : List ℕ) (p : ℕ) (ps : List ℕ) (d : ℕ)
    → AllVisited f vs
    → f p ≡ false
    → unvisited f (vs ++ p ∷ ps) d ≡ p
unvisited-found f vs p ps d a e = unvisited-pass f vs (p ∷ ps) d a ∙ unvisited-here f p d ps e

-- A page that is not visited stands before the head.
pub Victim-ahead :
    (m : ℕ) (s : Pra) (pre vs : List ℕ) (p : ℕ) (bs : List ℕ)
    → IsClock s pre (vs ++ p ∷ bs)
    → AllVisited s.visited vs
    → s.visited p ≡ false
    → length vs < m
    → Victim s pre (vs ++ p ∷ bs) (clock_loop m s)
unfolding clock_victim
Victim-ahead m s pre vs p bs v a fresh fu =
    let (s', r, c) = stop_in m s pre vs p bs v a fresh fu in
    record {
      page = p;
      after = s';
      left = pre ++ vs;
      right = bs;
      returns = r;
      parts = sym (append_assoc pre vs (p ∷ bs));
      clock = c;
      choice = sym (
          ap (λ l. unvisited s.visited l (first (vs ++ p ∷ bs ++ pre) 0))
            (append_assoc vs (p ∷ bs) pre)
          ∙ unvisited-found s.visited vs p (bs ++ pre) (first (vs ++ p ∷ bs ++ pre) 0) a fresh);
    }

-- Only behind the head there is one.
pub Victim-behind :
    (m : ℕ) (s : Pra) (vs : List ℕ) (p : ℕ) (bs post : List ℕ)
    → IsClock s (vs ++ p ∷ bs) post
    → AllVisited s.visited post
    → AllVisited s.visited vs
    → s.visited p ≡ false
    → length (vs ++ p ∷ bs) + length post < m
    → Victim s (vs ++ p ∷ bs) post (clock_loop m s)
unfolding clock_victim
Victim-behind m s vs p bs post v b a fresh fu =
    let sizes = length-append vs (p ∷ bs) in
    let total = length-append (vs ++ p ∷ bs) post in
    let (s₁, k, e, l, c₁, bits) =
      wrap m s (vs ++ p ∷ bs) post v b (omega (arith, sizes, total)) (omega (arith, sizes)) in
    let back = append_assoc vs (p ∷ bs) post in
    let c₂ : IsClock s₁ [] (vs ++ p ∷ (bs ++ post)) = subst (IsClock s₁ []) back c₁ in
    let nd = subst NoDup back v.ring.nodup in
    let still : AllVisited s₁.visited vs = rw bits (
      AllVisited-cleared s.visited post vs
        (λ c i. ground (arith, NoDup-apart c vs (p ∷ (bs ++ post)) nd i, has-append c bs post))
        a) in
    let fresh₁ : s₁.visited p ≡ false = rw bits (cleared-in s.visited post p fresh) in
    let (s', r, c) =
      stop_in (suc k) s₁ [] vs p (bs ++ post) c₂ still fresh₁ (omega (arith, l, sizes)) in
    record {
      page = p;
      after = s';
      left = vs;
      right = bs ++ post;
      returns = e ∙ r;
      parts = back;
      clock = c;
      choice = sym (
          unvisited-pass s.visited post (vs ++ p ∷ bs) (first (post ++ (vs ++ p ∷ bs)) 0) b
          ∙ unvisited-found s.visited vs p bs (first (post ++ (vs ++ p ∷ bs)) 0) a fresh);
    }
