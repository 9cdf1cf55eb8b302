-- ===== src/Sched/Turns.antt =====
-- No process starves under the round robin class: repeated scheduling reaches every queued process.
use nku_os.Base.{
  ℕ, zero, suc, ◌+◌, ◌^◌, ◌<◌, ◌≡◌, List, [], ◌∷◌, ◌++◌, arith, Option, some, length, length-append,
  ◌⊎◌, inl, inr, Bool-cases, ◌>>=◌, append_assoc, ◌==◌, not, ◌&&◌, ◌∙◌, subst,
}
use nku_os.Links.Chain.{first}
use nku_os.Sched.{Kernel, schedule, is_runnable}
use nku_os.Sched.Fair.{IsSched, ready, schedule_lem, SchedulesTo}

-- `n` calls of `schedule`, one after the other.
pub schedules : ℕ → Kernel → Option Kernel
schedules zero k = some k
schedules (suc n) k = schedule k >>= schedules n

ready-cases : (k : Kernel) (xs : List ℕ) → (ready k xs ≡ xs) ⊎ (ready k xs ≡ xs ++ k.current ∷ [])
ready-cases k xs =
    elim (Bool-cases (is_runnable (k.state k.current) && not (k.current == k.idleproc))) [
      | inl e ↦ inr (rw e)
      | inr e ↦ inl (rw e)
    ]

first_ready : (k : Kernel) (p : ℕ) (post : List ℕ) → first (ready k (p ∷ post)) k.idleproc ≡ p
first_ready k p post = ground arith

-- One call from a state with the ready processes `x, pre, p, post`.
after_first :
    (k : Kernel) (x : ℕ) (pre : List ℕ) (p : ℕ) (post : List ℕ)
    → SchedulesTo k (x ∷ pre ++ p ∷ post) (schedule k)
    → (k₁ : Kernel) × (schedule k ≡ some k₁) × IsSched k₁ (pre ++ p ∷ post)
after_first k x pre p post (k₁, e, v, c, same) = (k₁, e, v)

-- In a valid state with fewer than 2 ^ 32 - 1 processes queued, of which `pre` stand before `p`, one
-- more call of `schedule` than `pre` has processes leads to a state in which `p` runs.
pub schedules-turn :
    (k : Kernel) (pre : List ℕ) (p : ℕ) (post : List ℕ)
    → IsSched k (pre ++ p ∷ post)
    → length (pre ++ p ∷ post) + 1 < 2 ^ 32
    → (k' : Kernel) × (schedules (suc (length pre)) k ≡ some k') × (k'.current ≡ p)
unfolding schedules
schedules-turn k [] p post v small =
    let (k', e, w, c, same) = schedule_lem k (p ∷ post) v small in
    (k', rw e, c ∙ first_ready k p post)
schedules-turn k (x ∷ pre) p post v small = elim (ready-cases k (x ∷ pre ++ p ∷ post)) [
  | inl e ↦
      let (k₁, s₁, v₁) = after_first k x pre p post (
        subst (λ t. SchedulesTo k t (schedule k)) e
          (schedule_lem k (x ∷ pre ++ p ∷ post) v small)) in
      let (k', s', c) = schedules-turn k₁ pre p post v₁ (omega arith) in (k', rw s₁ s', c)
  | inr e ↦
      let back = append_assoc (x ∷ pre) (p ∷ post) (k.current ∷ []) in
      let (k₁, s₁, v₁) = after_first k x pre p (post ++ k.current ∷ []) (
        subst (λ t. SchedulesTo k t (schedule k)) (e ∙ back)
          (schedule_lem k (x ∷ pre ++ p ∷ post) v small)) in
      let (k', s', c) = schedules-turn k₁ pre p (post ++ k.current ∷ []) v₁ (
        omega (
          arith,
          length-append pre (p ∷ post),
          length-append pre (p ∷ post ++ k.current ∷ []),
          length-append post (k.current ∷ []),
        )) in
      (k', rw s₁ s', c)
]
