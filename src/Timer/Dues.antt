-- ===== src/Timer/Dues.antt =====
-- What the timer list means: for each timer the number of ticks until it expires.
use nku_os.Base.{
  ℕ, zero, suc, ◌+◌, ◌-◌, ◌≤◌, ◌<◌, ◌≡◌, refl, false, List, [], ◌∷◌, ◌++◌, arith, some, length,
  ◌==◌, ltb, ◌∉◌, ◌∈◌, NoDup, if◌then◌else◌, Bool-cases, inl, inr, ap, ◌∙◌, lt→ltb, ltb→lt,
}
use mathlib.Core.Path.{ap₂}
use nku_os.Links.Ops.{ne_of_mem}
use nku_os.Links.{Links, put}
use nku_os.Links.Chain.{Chain, first, Chain-next}
use nku_os.Timer.{add_scan}

-- The timers with the ticks that are left, `b` of which pass before the first one starts counting.
abbrev pub dues : (ℕ → ℕ) → ℕ → List ℕ → List (ℕ × ℕ)
dues e b [] = []
dues e b (t ∷ ts) = (t, b + e t) ∷ dues e (b + e t) ts

-- Putting a timer before the first that expires after it.
unfoldable pub insert_due : (t d : ℕ) → List (ℕ × ℕ) → List (ℕ × ℕ)
insert_due t d [] = (t, d) ∷ []
insert_due t d ((u, c) ∷ ds) = if ltb d c then (t, d) ∷ (u, c) ∷ ds else (u, c) ∷ insert_due t d ds

pub dues-frame :
    (e f : ℕ → ℕ) (b : ℕ) (ts : List ℕ) → ((c : ℕ) → c ∈ ts → f c ≡ e c) → dues f b ts ≡ dues e b ts
dues-frame e f b [] h = refl
dues-frame e f b (t ∷ ts) h =
    rw (h t (ground arith), dues-frame e f (b + e t) ts (λ c i. h c (ground arith)))

-- What the loop of `add_timer` returns on the timers `ts` behind those that it has passed.
pub record Scanned (e : ℕ → ℕ) (t b : ℕ) (ts : List ℕ) (le : ℕ) (e' : ℕ → ℕ) : Type 0 where
  pub pre : List ℕ
  pub post : List ℕ
  pub parts : ts ≡ pre ++ post
  pub place : le ≡ first post 0
  pub others : (c : ℕ) → c ∉ (t ∷ ts) → e' c ≡ e c
  pub order : dues e' b (pre ++ t ∷ post) ≡ insert_due t (b + e t) (dues e b ts)

insert_due-end : (t d : ℕ) → (t, d) ∷ [] ≡ insert_due t d []
unfolding insert_due
insert_due-end t d = refl

insert_due-stop :
    (t d u c : ℕ) (ds : List (ℕ × ℕ)) → d < c → insert_due t d ((u, c) ∷ ds) ≡ (t, d) ∷ (u, c) ∷ ds
unfolding insert_due
insert_due-stop t d u c ds h = rw (lt→ltb d c h)

insert_due-pass :
    (t d u c : ℕ) (ds : List (ℕ × ℕ))
    → c ≤ d
    → insert_due t d ((u, c) ∷ ds) ≡ (u, c) ∷ insert_due t d ds
unfolding insert_due
insert_due-pass t d u c ds h = let f : ltb d c ≡ false = ground arith in rw f

-- The timer goes before `u`, which counts from it from now on.
stop_order :
    (e : ℕ → ℕ) (t b u : ℕ) (us : List ℕ)
    → t ∉ (u ∷ us)
    → u ∉ us
    → e t < e u
    → dues (put e u (e u - e t)) b (t ∷ u ∷ us) ≡ insert_due t (b + e t) (dues e b (u ∷ us))
stop_order e t b u us out nu lt =
    let e' = put e u (e u - e t) in
    let at_t : e' t ≡ e t = ground arith in
    let at_u : b + e' t + e' u ≡ b + e u = ground arith in
    let rest : dues e' (b + e u) us ≡ dues e (b + e u) us =
      dues-frame e e' (b + e u) us (λ c i. ground (arith, ne_of_mem u c us nu i)) in
    rw (insert_due-stop t (b + e t) u (b + e u) (dues e (b + e u) us) (omega arith))
      (λ i. (t, b + at_t i) ∷ (u, at_u i) ∷ (ap (λ k. dues e' k us) at_u ∙ rest) i)

-- The timer goes behind `u`, and counts on from it.
pass_order :
    (e e₁ e' : ℕ → ℕ) (t b u : ℕ) (us ts : List ℕ)
    → e u ≤ e t
    → e' u ≡ e u
    → b + e u + e₁ t ≡ b + e t
    → dues e₁ (b + e u) us ≡ dues e (b + e u) us
    → dues e' (b + e u) ts ≡ insert_due t (b + e u + e₁ t) (dues e₁ (b + e u) us)
    → dues e' b (u ∷ ts) ≡ insert_due t (b + e t) (dues e b (u ∷ us))
pass_order e e₁ e' t b u us ts le at_u at_t rest ih =
    rw (insert_due-pass t (b + e t) u (b + e u) (dues e (b + e u) us) (omega arith)) (λ i.
      (u, b + at_u i) ∷ (ap (λ k. dues e' (b + k) ts) at_u ∙ (ih ∙ ap₂ (insert_due t) at_t rest)) i)

pub add_scan-Scanned :
    (h : Links) (n t a b : ℕ) (ts : List ℕ) (e : ℕ → ℕ)
    → Chain h a ts 0
    → 0 ∉ ts
    → t ∉ ts
    → NoDup ts
    → length ts < n
    → (le : ℕ) × (e' : ℕ → ℕ) × (add_scan n (first ts 0) t h e ≡ some (le, e'))
      × Scanned e t b ts le e'
unfolding add_scan
add_scan-Scanned h zero t a b ts e c z out nd fu = absurd (omega arith)
add_scan-Scanned h (suc n) t a b [] e c z out nd fu = (
  0,
  e,
  refl,
  record {
    pre = [];
    post = [];
    parts = refl;
    place = refl;
    others = λ c o. refl;
    order = insert_due-end t (b + e t);
  },
)
add_scan-Scanned h (suc n) t a b (u ∷ us) e c z out nd fu =
    let nz : (u == 0) ≡ false = ground arith in
    elim (Bool-cases (ltb (e t) (e u))) [
      | inl lt ↦ (
        u,
        put e u (e u - e t),
        rw (nz, lt),
        record {
          pre = [];
          post = u ∷ us;
          parts = refl;
          place = refl;
          others = λ c o. ground arith;
          order = stop_order e t b u us out nd.0 (ltb→lt (e t) (e u) lt);
        },
      )
      | inr ge ↦
          let e₁ = put e t (e t - e u) in
          let nx = Chain-next h u [] us 0 c.2 in
          let (le, e', eq, s) =
            add_scan-Scanned h n t u (b + e u) us e₁ c.2 (ground arith) (ground arith) nd.1
              (omega arith) in
          (
            le,
            e',
            rw (nz, ge, nx) eq,
            record {
              pre = u ∷ s.pre;
              post = s.post;
              parts = ap (λ l. u ∷ l) s.parts;
              place = s.place;
              others = λ d o. ground (arith, s.others d);
              order =
                  pass_order e e₁ e' t b u us (s.pre ++ t ∷ s.post) (ground arith)
                    (ground (arith, s.others u, nd.0)) (ground arith)
                    (dues-frame e e₁ (b + e u) us
                      (λ d i. ground (arith, ne_of_mem t d us (ground arith) i)))
                    s.order;
            },
          )
    ]
