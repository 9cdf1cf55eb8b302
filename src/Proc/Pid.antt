-- ===== src/Proc/Pid.antt =====
-- `get_pid` returns a pid that no process has.
use nku_os.Base.{
  ℕ, zero, suc, ◌+◌, ◌-◌, ◌*◌, ◌<◌, ◌≤◌, ◌≡◌, ◌≢◌, refl, false, ◌&&◌, ◌||◌, ◌⊎◌, List, [], ◌∷◌,
  ◌++◌, arith, length, ◌==◌, ltb, leb, if◌then◌else◌, inl, inr, Bool-cases, Option, some, subst,
  sym, append_assoc, append-nil, has-append, ap,
}
use nku_os.Links.Chain.{Ring, first, Chain-next_mid, Chain-next}
use nku_os.Proc.{Table, pid_scan, get_pid, pid_hashfn}

-- No process of `ps` has a pid in [a, b).
abbrev pub Clear : (ℕ → ℕ) → (a b : ℕ) → List ℕ → Type 0
Clear pid a b [] = Unit
Clear pid a b (p ∷ ps) = ((pid p < a) ⊎ (b ≤ pid p)) × Clear pid a b ps

abbrev pub Unused : (ℕ → ℕ) → ℕ → List ℕ → Type 0
Unused pid a [] = Unit
Unused pid a (p ∷ ps) = (pid p ≢ a) × Unused pid a ps

Clear-snoc :
    (pid : ℕ → ℕ) (a b : ℕ) (ps : List ℕ) (p : ℕ)
    → Clear pid a b ps
    → (pid p < a) ⊎ (b ≤ pid p)
    → Clear pid a b (ps ++ p ∷ [])
Clear-snoc pid a b [] p c h = (h, tt)
Clear-snoc pid a b (q ∷ ps) p c h = (c.0, Clear-snoc pid a b ps p c.1 h)

Clear-narrow :
    (pid : ℕ → ℕ) (a b a' b' : ℕ) (ps : List ℕ)
    → a ≤ a'
    → b' ≤ b
    → Clear pid a b ps
    → Clear pid a' b' ps
Clear-narrow pid a b a' b' [] la lb c = tt
Clear-narrow pid a b a' b' (p ∷ ps) la lb c =
    (ground (arith, c.0), Clear-narrow pid a b a' b' ps la lb c.1)

Clear-Unused : (pid : ℕ → ℕ) (a b : ℕ) (ps : List ℕ) → a < b → Clear pid a b ps → Unused pid a ps
Clear-Unused pid a b [] h c = tt
Clear-Unused pid a b (p ∷ ps) h c = ((ground (arith, c.0)), Clear-Unused pid a b ps h c.1)

Unused-mid :
    (pid : ℕ → ℕ) (a : ℕ) (ps : List ℕ) (p : ℕ) (qs : List ℕ)
    → Unused pid a (ps ++ p ∷ qs)
    → pid p ≢ a
Unused-mid pid a [] p qs u = u.0
Unused-mid pid a (x ∷ ps) p qs u = Unused-mid pid a ps p qs u.1

-- The steps from the pid `last` up to the unused pid `free`, with the turn from `max_pid - 1` to 1.
abbrev steps : (last free : ℕ) → ℕ
steps last free = if leb last free then free - last else 8191 - last + free

-- Rounds enough for `d` times a whole list of `l` processes.
abbrev pub budget : (d l : ℕ) → ℕ
budget zero l = 0
budget (suc d) l = suc l + budget d l

-- The scan has come to `last` and `safe`.
pub record Scan (t : Table) (ps : List ℕ) (r : Option (ℕ × ℕ)) : Type 0 where
  pub last : ℕ
  pub safe : ℕ
  pub returns : r ≡ some (last, safe)
  pub positive : 0 < last
  pub below : last < safe
  pub bound : safe ≤ 8192
  pub clear : Clear t.pid last safe ps

module _ (t : Table) (free : ℕ) (positive : 0 < free) (small : free < 8192) where
  -- One step nearer to the unused pid.
  turn :
      (last d : ℕ)
      → last ≢ free
      → last < 8192
      → steps last free ≡ d
      → (d' : ℕ) × (d ≡ suc d') × (steps (if leb 8192 (last + 1) then 1 else last + 1) free ≡ d')
  turn last d ne b s = (d - 1, ground arith, ground arith)

  pid_scan-Scan :
      (fuel d le last safe : ℕ) (pre post : List ℕ)
      → Ring t.links 0 (pre ++ post)
      → t.links.next le ≡ first post 0
      → Unused t.pid free (pre ++ post)
      → 0 < last
      → last < safe
      → safe ≤ 8192
      → Clear t.pid last safe pre
      → steps last free ≡ d
      → budget d (length (pre ++ post)) + length post < fuel
      → Scan t (pre ++ post) (pid_scan fuel le last safe t)
  unfolding pid_scan
  pid_scan-Scan zero d le last safe pre post r e u z b m c s fu = absurd (omega arith)
  pid_scan-Scan (suc n) d le last safe pre [] r e u z b m c s fu = record {
    last = last;
    safe = safe;
    returns = rw e refl;
    positive = z;
    below = b;
    bound = m;
    clear = rw append-nil c;
  }
  pid_scan-Scan (suc n) d le last safe pre (x ∷ post) r e u z b m c s fu =
      let back = append_assoc pre (x ∷ []) post in
      let len = ap length back in
      let nx = Chain-next_mid t.links 0 pre x post 0 r.chain in
      let nh : (x == 0) ≡ false = ground (arith, r.apart, has-append 0 pre (x ∷ post)) in
      let go : (d' last' safe' : ℕ)
          → 0 < last'
          → last' < safe'
          → safe' ≤ 8192
          → Clear t.pid last' safe' (pre ++ x ∷ [])
          → steps last' free ≡ d'
          → budget d' (length (pre ++ x ∷ post)) + length post < n
          → Scan t (pre ++ x ∷ post) (pid_scan n x last' safe' t) =
        λ d' last' safe' z b m c s fu'.
          subst (λ l. Scan t l (pid_scan n x last' safe' t)) back
            (pid_scan-Scan n d' x last' safe' (pre ++ x ∷ []) post
              (subst (Ring t.links 0) (sym back) r) nx (subst (Unused t.pid free) (sym back) u) z b
              m c s (subst (λ k. budget d' k + length post < n) (sym len) fu')) in
      elim (Bool-cases (t.pid x == last)) [
        | inl same ↦
            let ne : last ≢ free = λ q. Unused-mid t.pid free pre x post u (ground arith) in
            let (d', ds, st) = turn last d ne (omega arith) s in
            let room : budget d' (length (pre ++ x ∷ post)) + length (pre ++ x ∷ post) + length post
                < n =
              subst
                (λ k.
                  budget k (length (pre ++ x ∷ post)) + length (x ∷ post) < suc n
                  → budget d' (length (pre ++ x ∷ post)) + length (pre ++ x ∷ post) + length post
                    < n)
                (sym ds) (λ h. omega (arith, h)) fu in
            elim (Bool-cases (leb safe (last + 1))) [
              | inl full ↦
                  rw (e, nh, same, full)
                    (pid_scan-Scan n d' 0 (if leb 8192 (last + 1) then 1 else last + 1) 8192 []
                      (pre ++ x ∷ post) r (Chain-next t.links 0 [] (pre ++ x ∷ post) 0 r.chain) u
                      (ground arith) (ground arith) (omega arith) tt st (omega (arith, room)))
              | inr clear ↦
                  let on : steps (last + 1) free ≡ d' = ground (arith, st) in
                  rw (e, nh, same, clear)
                    (go d' (last + 1) safe (omega arith) (ground arith) m
                      (Clear-snoc t.pid (last + 1) safe pre x
                        (Clear-narrow t.pid last safe (last + 1) safe pre (omega arith)
                          (omega arith) c)
                        (inl (ground arith)))
                      on (omega (arith, room)))
            ]
        | inr other ↦ elim (Bool-cases (ltb last (t.pid x) && ltb (t.pid x) safe)) [
          | inl within ↦
              rw (e, nh, other, within)
                (go d last (t.pid x) z (ground arith) (ground arith)
                  (Clear-snoc t.pid last (t.pid x) pre x
                    (Clear-narrow t.pid last safe last (t.pid x) pre (omega arith) (ground arith) c)
                    (inr (omega arith)))
                  s (omega arith))
          | inr beyond ↦
              rw (e, nh, other, beyond)
                (go d last safe z b m (Clear-snoc t.pid last safe pre x c (ground arith)) s
                  (omega arith))
        ]
      ]

budget_le : (d k l : ℕ) → d ≤ k → budget d l ≤ k * suc l
budget_le zero k l h = omega arith
budget_le (suc d) zero l h = absurd (omega arith)
budget_le (suc d) (suc k) l h = omega (arith, budget_le d k l (omega arith))

-- No process has a pid between the last one given out and `next_safe`.
pub record IsSafe (t : Table) (ps : List ℕ) : Type 0 where
  pub last : t.last_pid ≤ 8192
  pub safe : t.next_safe ≤ 8192
  pub clear : Clear t.pid (t.last_pid + 1) t.next_safe ps

-- In a valid process list, where no process has a pid strictly between `last_pid` and `next_safe`, where
-- some positive pid below MAX_PID is unused, and given 8192 rounds for each process and 8192 more, `get_pid`
-- returns: the pid is positive, below MAX_PID and unused, and `last_pid` and `next_safe` are as
-- valid as before.
pub get_pid_lem :
    (fuel : ℕ) (t : Table) (ps : List ℕ) (free : ℕ)
    → Ring t.links 0 ps
    → IsSafe t ps
    → 0 < free
    → free < 8192
    → Unused t.pid free ps
    → 8192 * suc (length ps) ≤ fuel
    → (a : ℕ) × (t' : Table) × (get_pid fuel t ≡ some (a, t'))
      × (0 < a)
      × (a < 8192)
      × Unused t.pid a ps
      × IsSafe t' ps
unfolding get_pid
get_pid_lem fuel t ps free r v z b u fu =
    elim (Bool-cases (leb 8192 (t.last_pid + 1) || leb t.next_safe (t.last_pid + 1))) [
      | inl scan ↦
          let start = if leb 8192 (t.last_pid + 1) then 1 else t.last_pid + 1 in
          let few : steps start free ≤ 8191 = ground arith in
          let w =
            pid_scan-Scan t free z b fuel (steps start free) 0 start 8192 [] ps r
              (Chain-next t.links 0 [] ps 0 r.chain) u (ground arith) (ground arith) (omega arith)
              tt refl (omega (arith, budget_le (steps start free) 8191 (length ps) few)) in
          (
            w.last,
            record t { last_pid = w.last; next_safe = w.safe },
            rw (scan, w.returns) refl,
            w.positive,
            omega (arith, w.below, w.bound),
            Clear-Unused t.pid w.last w.safe ps w.below w.clear,
            record {
              last = omega (arith, w.below, w.bound);
              safe = w.bound;
              clear =
                  Clear-narrow t.pid w.last w.safe (w.last + 1) w.safe ps (omega arith)
                    (omega arith) w.clear;
            },
          )
      | inr known ↦
          let low : leb 8192 (t.last_pid + 1) ≡ false = ground arith in
          (
            t.last_pid + 1,
            record t { last_pid = t.last_pid + 1 },
            rw (known, low) refl,
            omega arith,
            ground arith,
            Clear-Unused t.pid (t.last_pid + 1) t.next_safe ps (ground arith) v.clear,
            record {
              last = ground arith;
              safe = v.safe;
              clear =
                  Clear-narrow t.pid (t.last_pid + 1) t.next_safe (t.last_pid + 1 + 1) t.next_safe
                    ps (omega arith) (omega arith) v.clear;
            },
          )
    ]

-- The index `pid_hashfn` of a hash list is below HASH_LIST_SIZE, whatever the pid.
pub pid_hashfn_lem : (x : ℕ) → pid_hashfn x < 1024
unfolding pid_hashfn
pid_hashfn_lem x = omega arith
