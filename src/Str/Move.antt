-- ===== src/Str/Move.antt =====
-- Copying and filling blocks of memory.
use nku_os.Base.{
  ℕ, zero, suc, ◌+◌, ◌-◌, ◌<◌, ◌≤◌, ◌≡◌, ◌&&◌, ◌⊎◌, arith, ltb, leb, if◌then◌else◌, inl, inr, ◌∙◌,
  Bool-cases,
}
use nku_os.Links.{put}
use nku_os.Str.{copy_up, copy_down, memmove, memcpy, memset}

-- The `n` bytes at `src` as they are in `m`, moved to `dst`.
abbrev pub moved : (dst src n : ℕ) → (ℕ → ℕ) → ℕ → ℕ
moved dst src n m a = if leb dst a && ltb a (dst + n) then m (src + (a - dst)) else m a

copy_up-moved :
    (d s n : ℕ) (m : ℕ → ℕ) (a : ℕ) → (d ≤ s) ⊎ (s + n ≤ d) → copy_up d s n m a ≡ moved d s n m a
unfolding copy_up
copy_up-moved d s zero m a h = ground arith
copy_up-moved d s (suc n) m a (inl h) =
    copy_up-moved (d + 1) (s + 1) n (put m d (m s)) a (inl (omega arith)) ∙ ground arith
copy_up-moved d s (suc n) m a (inr h) =
    copy_up-moved (d + 1) (s + 1) n (put m d (m s)) a (inr (omega arith)) ∙ ground arith

copy_down-moved :
    (d s n : ℕ) (m : ℕ → ℕ) (a : ℕ) → s < d → copy_down (d + n) (s + n) n m a ≡ moved d s n m a
unfolding copy_down
copy_down-moved d s zero m a h = ground arith
copy_down-moved d s (suc n) m a h =
    let at_d : d + suc n - 1 ≡ d + n = omega arith in
    let at_s : s + suc n - 1 ≡ s + n = omega arith in
    rw (at_d, at_s) (copy_down-moved d s n (put m (d + n) (m (s + n))) a h ∙ ground arith)

-- `memmove` leaves at `dst` the `n` bytes that were at `src`, whether or not the blocks overlap, and
-- every other byte as it was.
pub memmove_lem : (dst src n : ℕ) (m : ℕ → ℕ) (a : ℕ) → memmove dst src n m a ≡ moved dst src n m a
unfolding memmove
memmove_lem dst src n m a = elim (Bool-cases (ltb src dst && ltb dst (src + n))) [
  | inl e ↦ rw e (copy_down-moved dst src n m a (ground arith))
  | inr e ↦ elim (Bool-cases (ltb src dst)) [
    | inl f ↦ rw e (copy_up-moved dst src n m a (inr (ground arith)))
    | inr f ↦ rw e (copy_up-moved dst src n m a (inl (ground arith)))
  ]
]

-- `memcpy` leaves at `dst` the `n` bytes that were at `src`, and every other byte as it was, when the
-- destination does not begin inside the source.
pub memcpy_lem :
    (dst src n : ℕ) (m : ℕ → ℕ) (a : ℕ)
    → (dst ≤ src) ⊎ (src + n ≤ dst)
    → memcpy dst src n m a ≡ moved dst src n m a
unfolding memcpy
memcpy_lem dst src n m a h = copy_up-moved dst src n m a h

-- `memset` leaves `c` in the `n` bytes from `s` on, and every other byte as it was.
pub memset_lem :
    (s c n : ℕ) (m : ℕ → ℕ) (a : ℕ)
    → memset s c n m a ≡ (if leb s a && ltb a (s + n) then c else m a)
unfolding memset
memset_lem s c zero m a = ground arith
memset_lem s c (suc n) m a = memset_lem (s + 1) c n (put m s c) a ∙ ground arith
