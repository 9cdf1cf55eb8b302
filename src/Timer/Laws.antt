-- ===== src/Timer/Laws.antt =====
-- `add_timer` and `del_timer` on a valid timer list.
use nku_os.Base.{
  ℕ, ◌+◌, ◌^◌, ◌<◌, ◌≡◌, ◌≢◌, refl, true, false, List, [], ◌∷◌, ◌++◌, arith, some, length, ◌==◌,
  ltb, ◌∉◌, ◌∈◌, NoDup, if◌then◌else◌, Bool-cases, inl, inr, ap, ◌∙◌, lt→ltb, ne→==, ==-refl, u32,
  ◌||◌, has-append, subst, sym,
}
use nku_os.Links.{put, list_add_before, list_del_init, list_empty}
use nku_os.Links.Chain.{Ring, first, Chain-next, Chain-next_mid}
use nku_os.Links.Ops.{ne_of_mem, first-mem, NoDup-delete, has-insert, NoDup-right, NoDup-apart}
use nku_os.Links.Rings.{list_add_before-Ring, list_del_init-Ring}
use nku_os.Links.Loose.{Loose, Loose-add_before, Loose-del_init}
use nku_os.Sched.{Kernel}
use nku_os.Timer.{add_timer, del_timer}
use nku_os.Timer.Dues.{dues, dues-frame, insert_due, add_scan-Scanned}

-- Every timer has ticks left, and their number fits the field.
abbrev pub Pending : List (ℕ × ℕ) → Type 0
Pending [] = Unit
Pending ((t, d) ∷ ds) = (0 < d) × (d < 2 ^ 32) × Pending ds

-- The timer list holds the timers `ts`; all other entries are loose.
pub record IsTimers (k : Kernel) (ts : List ℕ) : Type 0 where
  pub ring : Ring k.timer_links 0 ts
  pub loose : (t : ℕ) → t ∉ (0 ∷ ts) → Loose k.timer_links t
  pub pending : Pending (dues k.expires 0 ts)

Pending-insert_due :
    (t d : ℕ) (ds : List (ℕ × ℕ)) → 0 < d → d < 2 ^ 32 → Pending ds → Pending (insert_due t d ds)
unfolding insert_due
Pending-insert_due t d [] z m p = (z, m, tt)
Pending-insert_due t d ((u, c) ∷ ds) z m p = elim (Bool-cases (ltb d c)) [
  | inl e ↦ rw e (z, m, p)
  | inr e ↦ rw e (p.0, p.1, Pending-insert_due t d ds z m p.2)
]

-- Linking the timer `t` between `pre` and `post`.
link_lem :
    (k : Kernel) (e' : ℕ → ℕ) (t le : ℕ) (pre post : List ℕ)
    → IsTimers k (pre ++ post)
    → t ∉ (0 ∷ (pre ++ post))
    → le ≡ first post 0
    → Pending (dues e' 0 (pre ++ t ∷ post))
    → IsTimers
        (record k { expires = e'; timer_links = list_add_before le t k.timer_links })
        (pre ++ t ∷ post)
link_lem k e' t le pre post v out place p = rw place record {
  ring = list_add_before-Ring {h = k.timer_links} {hd = 0} t pre post v.ring out;
  loose = λ q o.
      Loose-add_before k.timer_links 0 q pre post t v.ring o
        (v.loose q (ground (arith, has-insert q t pre post)));
  pending = p;
}

-- Adding a loose timer of `d` ticks, `0 < d < 2 ^ 32`, that has a process, to a valid timer list
-- returns when the rounds given are more than the timers; afterwards the list holds the timer before
-- the first that expires later, with `d` ticks left, and all others in their order, each with as many
-- ticks left as before.
pub add_timer_lem :
    (k : Kernel) (ts : List ℕ) (fuel t : ℕ)
    → IsTimers k ts
    → t ∉ (0 ∷ ts)
    → 0 < k.expires t
    → k.expires t < 2 ^ 32
    → k.timer_proc t ≢ 0
    → length ts < fuel
    → (k' : Kernel) × (ts' : List ℕ) × (add_timer fuel t k ≡ some k')
      × IsTimers k' ts'
      × (dues k'.expires 0 ts' ≡ insert_due t (k.expires t) (dues k.expires 0 ts))
unfolding add_timer list_empty
add_timer_lem k ts fuel t v out pos small np fu =
    let h = k.timer_links in
    let (le, e', eq, s) =
      add_scan-Scanned h fuel t 0 0 ts k.expires v.ring.chain v.ring.apart (ground arith)
        v.ring.nodup fu in
    let self : (h.next t == t) ≡ true = ground (arith, v.loose t out) in
    let whole : 0 + k.expires t ≡ k.expires t = omega arith in
    let order =
      subst (λ c. dues e' 0 (s.pre ++ t ∷ s.post) ≡ insert_due t c (dues k.expires 0 ts)) whole
        s.order in
    let head : h.next 0 ≡ first ts 0 = Chain-next h 0 [] ts 0 v.ring.chain in
    (
      record k { expires = e'; timer_links = list_add_before le t h },
      s.pre ++ t ∷ s.post,
      rw (lt→ltb 0 (k.expires t) pos, ne→== (k.timer_proc t) 0 np, self, head, eq),
      link_lem k e' t le s.pre s.post (subst (IsTimers k) s.parts v)
          (subst (λ l. t ∉ (0 ∷ l)) s.parts out) s.place
          (subst Pending (sym order)
            (Pending-insert_due t (k.expires t) (dues k.expires 0 ts) pos small v.pending)),
      order,
    )

-- Taking a timer off.
unfoldable pub remove_due : ℕ → List (ℕ × ℕ) → List (ℕ × ℕ)
remove_due t [] = []
remove_due t ((u, c) ∷ ds) = if t == u then ds else (u, c) ∷ remove_due t ds

Pending-remove_due : (t : ℕ) (ds : List (ℕ × ℕ)) → Pending ds → Pending (remove_due t ds)
unfolding remove_due
Pending-remove_due t [] p = tt
Pending-remove_due t ((u, c) ∷ ds) p = elim (Bool-cases (t == u)) [
  | inl e ↦ rw e p.2
  | inr e ↦ rw e (p.0, p.1, Pending-remove_due t ds p.2)
]

-- `f` gives the ticks of `t` to the timer behind it.
abbrev Passed : (e f : ℕ → ℕ) → ℕ → List ℕ → Type 0
Passed e f t [] = Unit
Passed e f t (u ∷ us) = (f u ≡ e t + e u) × ((c : ℕ) → c ∈ us → f c ≡ e c)

remove_due-here : (t d : ℕ) (ds : List (ℕ × ℕ)) → remove_due t ((t, d) ∷ ds) ≡ ds
unfolding remove_due
remove_due-here t d ds = rw (==-refl t)

remove_due-there :
    (t u d : ℕ) (ds : List (ℕ × ℕ)) → t ≢ u → remove_due t ((u, d) ∷ ds) ≡ (u, d) ∷ remove_due t ds
unfolding remove_due
remove_due-there t u d ds ne = rw (ne→== t u ne)

del_order :
    (e f : ℕ → ℕ) (t b : ℕ) (pre post : List ℕ)
    → t ∉ pre
    → ((c : ℕ) → c ∈ pre → f c ≡ e c)
    → Passed e f t post
    → dues f b (pre ++ post) ≡ remove_due t (dues e b (pre ++ t ∷ post))
del_order e f t b [] [] out same p = rw (remove_due-here t (b + e t) [])
del_order e f t b [] (u ∷ us) out same p =
    let at_u : b + f u ≡ b + e t + e u = ground (arith, p.0) in
    rw (remove_due-here t (b + e t) (dues e (b + e t) (u ∷ us)))
      (λ i. (u, at_u i) ∷ (ap (λ c. dues f c us) at_u ∙ dues-frame e f (b + e t + e u) us p.1) i)
del_order e f t b (x ∷ pre) post out same p =
    let at_x : f x ≡ e x = same x (ground arith) in
    let ne : t ≢ x = ground arith in
    let ih = del_order e f t (b + e x) pre post (ground arith) (λ c i. same c (ground arith)) p in
    rw (remove_due-there t x (b + e x) (dues e (b + e x) (pre ++ t ∷ post)) ne, at_x)
      (ap (λ l. (x, b + e x) ∷ l) ih)

Pending-fits :
    (e : ℕ → ℕ) (t b u : ℕ) (pre us : List ℕ)
    → Pending (dues e b (pre ++ t ∷ u ∷ us))
    → e t + e u < 2 ^ 32
Pending-fits e t b u [] us p = let d : b + e t + e u < 2 ^ 32 = p.2.1 in omega (arith, d)
Pending-fits e t b u (x ∷ pre) us p = Pending-fits e t (b + e x) u pre us p.2

-- What `del_timer` writes to `expires`.
abbrev passed : (ℕ → ℕ) → (t le : ℕ) → ℕ → ℕ
passed e t le = if (e t == 0) || (le == 0) then e else put e le (u32 (e le + e t))

passed-Passed :
    (e : ℕ → ℕ) (t : ℕ) (pre post : List ℕ)
    → 0 ∉ post
    → NoDup (pre ++ t ∷ post)
    → Pending (dues e 0 (pre ++ t ∷ post))
    → Passed e (passed e t (first post 0)) t post
      × ((c : ℕ) → c ∈ pre → passed e t (first post 0) c ≡ e c)
passed-Passed e t pre [] z nd p = elim (Bool-cases (e t == 0)) [
  | inl h ↦ rw h (tt, λ c i. refl)
  | inr h ↦ rw h (tt, λ c i. refl)
]
passed-Passed e t pre (u ∷ us) z nd p =
    let fits = Pending-fits e t 0 u pre us p in
    let nu = NoDup-right pre (t ∷ u ∷ us) nd in
    let nz : (u == 0) ≡ false = ground arith in
    elim (Bool-cases (e t == 0)) [
      | inl h ↦ rw h ((ground arith, λ c i. refl), λ c i. refl)
      | inr h ↦
          rw (h, nz)
            (
              (ground arith, λ c i. ground (arith, ne_of_mem u c us nu.1.0 i)),
              λ c i. ground (arith, NoDup-apart c pre (t ∷ u ∷ us) nd i),
            )
    ]

del_timer-linked :
    (k : Kernel) (t le : ℕ)
    → k.timer_links.next t ≡ le
    → (le == t) ≡ false
    → del_timer t k
      ≡ record k { expires = passed k.expires t le; timer_links = list_del_init t k.timer_links }
unfolding del_timer list_empty
del_timer-linked k t le n b = rw (n, b)

-- Unlinking the timer.
unlink_lem :
    (k : Kernel) (e' : ℕ → ℕ) (t : ℕ) (pre post : List ℕ)
    → IsTimers k (pre ++ t ∷ post)
    → Pending (dues e' 0 (pre ++ post))
    → IsTimers
        (record k { expires = e'; timer_links = list_del_init t k.timer_links })
        (pre ++ post)
unlink_lem k e' t pre post v p = record {
  ring = (list_del_init-Ring {h = k.timer_links} {hd = 0} t pre post v.ring).0;
  loose = λ q o. Loose-del_init k.timer_links 0 q pre post t v.ring o (v.loose q);
  pending = p;
}

-- Taking a timer off a valid timer list leaves the list without it and the timer outside the list;
-- each timer that remains has as many ticks left as before, although they count from each other.
pub del_timer_lem :
    (k : Kernel) (t : ℕ) (pre post : List ℕ)
    → IsTimers k (pre ++ t ∷ post)
    → IsTimers (del_timer t k) (pre ++ post)
      × (t ∉ (pre ++ post))
      × (dues (del_timer t k).expires 0 (pre ++ post)
          ≡ remove_due t (dues k.expires 0 (pre ++ t ∷ post)))
del_timer_lem k t pre post v =
    let nx = Chain-next_mid k.timer_links 0 pre t post 0 v.ring.chain in
    let nd = v.ring.nodup in
    let gone = NoDup-delete t pre post nd in
    let out0 : 0 ∉ (pre ++ t ∷ post) = v.ring.apart in
    let z : 0 ∉ post = ground (arith, has-append 0 pre (t ∷ post)) in
    let away : t ∉ (0 ∷ post) =
      ground (arith, has-append t pre post, gone.1, has-append 0 pre (t ∷ post)) in
    let other = ne_of_mem t (first post 0) (0 ∷ post) away (first-mem post 0) in
    let busy = ne→== (first post 0) t (λ q. other (sym q)) in
    let (p, same) = passed-Passed k.expires t pre post z nd v.pending in
    let out : t ∉ pre = ground (arith, has-append t pre post, gone.1) in
    let e' = passed k.expires t (first post 0) in
    let order = del_order k.expires e' t 0 pre post out same p in
    let rest =
      subst Pending (sym order)
        (Pending-remove_due t (dues k.expires 0 (pre ++ t ∷ post)) v.pending) in
    rw (del_timer-linked k t (first post 0) nx busy)
      (unlink_lem k e' t pre post v rest, gone.1, order)
