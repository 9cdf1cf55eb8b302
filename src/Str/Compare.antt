-- ===== src/Str/Compare.antt =====
-- Comparing and searching strings.
use nku_os.Base.{
  ℕ, zero, suc, ◌+◌, ◌-◌, ◌<◌, ◌≡◌, ◌↔◌, refl, List, [], ◌∷◌, arith, some, length, ◌==◌, ltb,
  if◌then◌else◌, inl, inr, ◌∙◌, Bool-cases, ne→==, ==→ne, ==-refl, ap, sym,
}
use nku_os.Str.{ℤ, pos, negsuc, difference, strcmp, strchr}
use nku_os.Str.Strings.{IsString}

difference-zero : (a b : ℕ) → difference a b ≡ pos 0 → a ≡ b
unfolding difference
difference-zero a b h = elim (Bool-cases (ltb a b)) [
  | inl e ↦ let q : negsuc (b - a - 1) ≡ pos 0 = rw e at h in ground arith
  | inr e ↦ let q : pos (a - b) ≡ pos 0 = rw e at h in ground arith
]

-- How two strings compare: the difference of the first bytes that differ, an end counting as 0.
unfoldable pub order : List ℕ → List ℕ → ℤ
unfolding difference
order [] [] = pos 0
order [] (b ∷ bs) = difference 0 b
order (c ∷ cs) [] = difference c 0
order (c ∷ cs) (b ∷ bs) = if c == b then order cs bs else difference c b

strcmp-order :
    (fuel s1 s2 : ℕ) (m : ℕ → ℕ) (cs bs : List ℕ)
    → IsString m s1 cs
    → IsString m s2 bs
    → length cs < fuel
    → strcmp fuel s1 s2 m ≡ some (order cs bs)
unfolding strcmp order
strcmp-order zero s1 s2 m cs bs v w fu = absurd (omega arith)
strcmp-order (suc n) s1 s2 m [] [] v w fu = rw (v, w) refl
strcmp-order (suc n) s1 s2 m [] (b ∷ bs) v w fu = rw (v, w.0) refl
strcmp-order (suc n) s1 s2 m (c ∷ cs) [] v w fu = rw (v.0, w, ne→== c 0 v.1) refl
strcmp-order (suc n) s1 s2 m (c ∷ cs) (b ∷ bs) v w fu = elim (Bool-cases (c == b)) [
  | inl e ↦
      rw (v.0, w.0, ne→== c 0 v.1, e)
        (strcmp-order n (s1 + 1) (s2 + 1) m cs bs v.2 w.2 (omega arith))
  | inr e ↦ rw (v.0, w.0, ne→== c 0 v.1, e) refl
]

order-zero :
    (m : ℕ → ℕ) (s1 s2 : ℕ) (cs bs : List ℕ)
    → IsString m s1 cs
    → IsString m s2 bs
    → order cs bs ≡ pos 0
    → cs ≡ bs
unfolding order
order-zero m s1 s2 [] [] v w h = refl
order-zero m s1 s2 [] (b ∷ bs) v w h = absurd (w.1 (sym (difference-zero 0 b h)))
order-zero m s1 s2 (c ∷ cs) [] v w h = absurd (v.1 (difference-zero c 0 h))
order-zero m s1 s2 (c ∷ cs) (b ∷ bs) v w h = elim (Bool-cases (c == b)) [
  | inl e ↦
      let same : c ≡ b = ground arith in
      let rest : order cs bs ≡ pos 0 = rw e at h in
      let ih = order-zero m (s1 + 1) (s2 + 1) cs bs v.2 w.2 rest in λ i. same i ∷ ih i
  | inr e ↦
      let d : difference c b ≡ pos 0 = rw e at h in absurd (==→ne c b e (difference-zero c b d))
]

order_refl : (cs : List ℕ) → order cs cs ≡ pos 0
unfolding order
order_refl [] = refl
order_refl (c ∷ cs) = rw (==-refl c) (order_refl cs)

-- Given more rounds than the first string has bytes, `strcmp` returns the difference of the first bytes
-- in which the strings differ, an end counting as 0; that is 0 for equal strings only.
pub strcmp_lem :
    (fuel s1 s2 : ℕ) (m : ℕ → ℕ) (cs bs : List ℕ)
    → IsString m s1 cs
    → IsString m s2 bs
    → length cs < fuel
    → (strcmp fuel s1 s2 m ≡ some (order cs bs)) × ((order cs bs ≡ pos 0) ↔ (cs ≡ bs))
strcmp_lem fuel s1 s2 m cs bs v w fu = (
  strcmp-order fuel s1 s2 m cs bs v w fu,
  (order-zero m s1 s2 cs bs v w, λ e. ap (order cs) (sym e) ∙ order_refl cs),
)

-- The place of the first `c` in a string at `s`, 0 if there is none.
pub place : (s c : ℕ) → List ℕ → ℕ
place s c [] = 0
place s c (b ∷ bs) = if b == c then s else place (s + 1) c bs

-- Given more rounds than the string has bytes, `strchr` returns the address of the first `c` in it, and
-- NULL if there is none.
pub strchr_lem :
    (fuel s c : ℕ) (m : ℕ → ℕ) (cs : List ℕ)
    → IsString m s cs
    → length cs < fuel
    → strchr fuel s c m ≡ some (place s c cs)
unfolding strchr place
strchr_lem zero s c m cs v fu = absurd (omega arith)
strchr_lem (suc n) s c m [] v fu = rw v refl
strchr_lem (suc n) s c m (b ∷ bs) v fu = elim (Bool-cases (b == c)) [
  | inl e ↦ rw (v.0, ne→== b 0 v.1, e) refl
  | inr e ↦ rw (v.0, ne→== b 0 v.1, e) (strchr_lem n (s + 1) c m bs v.2 (omega arith))
]
