-- ===== src/Sync/Waits.antt =====
-- A wait queue is a queue of sleeping processes.
use nku_os.Base.{
  ℕ, ◌≡◌, ◌≢◌, refl, List, [], ◌∷◌, ◌++◌, arith, ◌==◌, ◌∉◌, ◌∈◌, NoDup, Bool-cases, inl, inr, map,
  ap,
}
use nku_os.Links.Chain.{Ring, first}
use nku_os.Sched.{sleeping}
use nku_os.Sync.{Sync, wait_queue_first}

-- Each wait belongs to the queue, and its process sleeps in the given wait state.
abbrev pub Waiting : Sync → (q state : ℕ) → List ℕ → Type 0
Waiting s q st [] = Unit
Waiting s q st (w ∷ ws) =
    (s.wait_queue w ≡ q)
    × (s.proc w ≢ 0)
    × (s.kernel.state (s.proc w) ≡ sleeping)
    × (s.kernel.wait_state (s.proc w) ≡ st)
    × Waiting s q st ws

-- The wait queue `q` holds the waits `ws`, first come first, of different processes.
pub record IsWaits (s : Sync) (q st : ℕ) (ws : List ℕ) : Type 0 where
  pub ring : Ring s.links q ws
  pub waiting : Waiting s q st ws
  pub procs : NoDup (map s.proc ws)
  pub no_null : 0 ∉ (q ∷ ws)

pub wait_queue_first-first :
    (s : Sync) (q st : ℕ) (ws : List ℕ) → IsWaits s q st ws → wait_queue_first q s ≡ first ws 0
unfolding wait_queue_first
wait_queue_first-first s q st [] v = ground (arith, v.ring.chain)
wait_queue_first-first s q st (w ∷ ws) v = ground (arith, v.ring.chain, v.ring.apart)

pub has-map : (s : Sync) (w : ℕ) (ws : List ℕ) → w ∈ ws → s.proc w ∈ map s.proc ws
has-map s w (x ∷ ws) i = elim (Bool-cases (w == x)) [
  | inl e ↦ let same : w ≡ x = ground arith in rw same (ground arith)
  | inr e ↦ ground (arith, has-map s w ws (ground arith))
]
has-map s w [] i = absurd (ground arith)

-- What holds of the waits does not depend on other processes and waits.
pub Waiting-frame :
    (s s' : Sync) (q st : ℕ) (ws : List ℕ)
    → ((w : ℕ)
        → w ∈ ws
        → (s'.wait_queue w ≡ s.wait_queue w)
          × (s'.proc w ≡ s.proc w)
          × (s'.kernel.state (s.proc w) ≡ s.kernel.state (s.proc w))
          × (s'.kernel.wait_state (s.proc w) ≡ s.kernel.wait_state (s.proc w)))
    → Waiting s q st ws
    → Waiting s' q st ws
Waiting-frame s s' q st [] h v = tt
Waiting-frame s s' q st (w ∷ ws) h v =
    let (a, b, c, d) = h w (ground arith) in
    (
      rw a v.0,
      rw b v.1,
      rw (b, c) v.2,
      rw (b, d) v.3,
      Waiting-frame s s' q st ws (λ x i. h x (ground arith)) v.4,
    )

pub map-frame : (f g : ℕ → ℕ) (ws : List ℕ) → ((w : ℕ) → w ∈ ws → g w ≡ f w) → map g ws ≡ map f ws
map-frame f g [] h = refl
map-frame f g (w ∷ ws) h = rw (h w (ground arith), map-frame f g ws (λ x i. h x (ground arith)))

pub map-snoc : (f : ℕ → ℕ) (ws : List ℕ) (w : ℕ) → map f (ws ++ w ∷ []) ≡ map f ws ++ f w ∷ []
map-snoc f [] w = refl
map-snoc f (x ∷ ws) w = ap (λ l. f x ∷ l) (map-snoc f ws w)

pub Waiting-snoc :
    (s : Sync) (q st : ℕ) (ws : List ℕ) (w : ℕ)
    → Waiting s q st ws
    → Waiting s q st (w ∷ [])
    → Waiting s q st (ws ++ w ∷ [])
Waiting-snoc s q st [] w v u = u
Waiting-snoc s q st (x ∷ ws) w v u = (v.0, v.1, v.2, v.3, Waiting-snoc s q st ws w v.4 u)
