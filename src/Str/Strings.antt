-- ===== src/Str/Strings.antt =====
-- The length and the copying of strings.
use nku_os.Base.{
  ℕ, zero, suc, ◌+◌, ◌<◌, ◌≤◌, ◌≡◌, ◌≢◌, refl, true, false, ◌⊎◌, List, [], ◌∷◌, ◌++◌, arith, some,
  length, ◌==◌, inl, ◌∙◌, ne→==, subst, sym,
}
use nku_os.Links.{put}
use nku_os.Str.{strlen, strlen_loop, strcpy, strcat}

-- The string `cs` stands at `s`, with its end.
abbrev pub IsString : (ℕ → ℕ) → ℕ → List ℕ → Type 0
IsString m s [] = m s ≡ 0
IsString m s (c ∷ cs) = (m s ≡ c) × (c ≢ 0) × IsString m (s + 1) cs

strlen_loop_lem :
    (fuel s cnt : ℕ) (m : ℕ → ℕ) (cs : List ℕ)
    → IsString m s cs
    → length cs < fuel
    → strlen_loop fuel s cnt m ≡ some (cnt + length cs)
unfolding strlen_loop
strlen_loop_lem zero s cnt m cs h fu = absurd (omega arith)
strlen_loop_lem (suc n) s cnt m [] h fu = let e : cnt + 0 ≡ cnt = omega arith in rw (h, e) refl
strlen_loop_lem (suc n) s cnt m (c ∷ cs) h fu =
    let e : cnt + 1 + length cs ≡ cnt + suc (length cs) = omega arith in
    rw (h.0, ne→== c 0 h.1, strlen_loop_lem n (s + 1) (cnt + 1) m cs h.2 (omega arith), e) refl

-- Given more rounds than the string has bytes, `strlen` returns their number.
pub strlen_lem :
    (fuel s : ℕ) (m : ℕ → ℕ) (cs : List ℕ)
    → IsString m s cs
    → length cs < fuel
    → strlen fuel s m ≡ some (length cs)
unfolding strlen
strlen_lem fuel s m cs h fu =
    let e : 0 + length cs ≡ length cs = omega arith in
    strlen_loop_lem fuel s 0 m cs h fu ∙ rw e refl

-- A string survives writes outside it.
pub IsString-frame :
    (m m' : ℕ → ℕ) (s : ℕ) (cs : List ℕ)
    → ((a : ℕ) → s ≤ a → a ≤ s + length cs → m' a ≡ m a)
    → IsString m s cs
    → IsString m' s cs
IsString-frame m m' s [] h v = h s (omega arith) (omega arith) ∙ v
IsString-frame m m' s (c ∷ cs) h v = (
  h s (omega arith) (omega arith) ∙ v.0,
  v.1,
  IsString-frame m m' (s + 1) cs (λ a lo hi. h a (omega arith) (omega arith)) v.2,
)

-- Given more rounds than the string at `src` has bytes, and room for it at `dst` apart from it,
-- `strcpy` returns; afterwards the string stands at `dst`, and every byte outside is as it was.
pub strcpy_lem :
    (fuel dst src : ℕ) (m : ℕ → ℕ) (cs : List ℕ)
    → IsString m src cs
    → length cs < fuel
    → (src + length cs < dst) ⊎ (dst + length cs < src)
    → (m' : ℕ → ℕ) × (strcpy fuel dst src m ≡ some m')
      × IsString m' dst cs
      × ((a : ℕ) → (a < dst) ⊎ (dst + length cs < a) → m' a ≡ m a)
unfolding strcpy
strcpy_lem zero dst src m cs h fu apart = absurd (omega arith)
strcpy_lem (suc n) dst src m [] h fu apart =
    let zero_read : (m src == 0) ≡ true = ground arith in
    (put m dst (m src), rw zero_read refl, ground arith, λ a out. ground arith)
strcpy_lem (suc n) dst src m (c ∷ cs) h fu apart =
    let m₁ = put m dst (m src) in
    let more : (m src == 0) ≡ false = ne→== (m src) 0 (subst (λ k. k ≢ 0) (sym h.0) h.1) in
    let h₁ : IsString m₁ (src + 1) cs =
      IsString-frame m m₁ (src + 1) cs (λ a lo hi. ground arith) h.2 in
    let apart₁ : (src + 1 + length cs < dst + 1) ⊎ (dst + 1 + length cs < src + 1) = ground arith in
    let (m', e, v, out) = strcpy_lem n (dst + 1) (src + 1) m₁ cs h₁ (omega arith) apart₁ in
    let at_dst : m' dst ≡ c = out dst (inl (omega arith)) ∙ ground (arith, h.0) in
    (m', rw more e, (at_dst, h.1, v), λ a o. out a (ground arith) ∙ ground arith)

join-IsString :
    (m m' : ℕ → ℕ) (s : ℕ) (cs bs : List ℕ)
    → IsString m s cs
    → ((a : ℕ) → s ≤ a → a < s + length cs → m' a ≡ m a)
    → IsString m' (s + length cs) bs
    → IsString m' s (cs ++ bs)
join-IsString m m' s [] bs v h w =
    let e : s + 0 ≡ s = omega arith in subst (λ k. IsString m' k bs) e w
join-IsString m m' s (c ∷ cs) bs v h w =
    let e : s + suc (length cs) ≡ s + 1 + length cs = omega arith in
    (
      h s (omega arith) (omega arith) ∙ v.0,
      v.1,
      join-IsString m m' (s + 1) cs bs v.2 (λ a lo hi. h a (omega arith) (omega arith))
          (subst (λ k. IsString m' k bs) e w),
    )

-- Given more rounds than either string has bytes, and room behind the string at `dst` apart from the
-- one at `src`, `strcat` returns; afterwards the two strings stand at `dst`, one behind the other, and
-- every byte outside is as it was.
pub strcat_lem :
    (fuel dst src : ℕ) (m : ℕ → ℕ) (cs bs : List ℕ)
    → IsString m dst cs
    → IsString m src bs
    → length cs < fuel
    → length bs < fuel
    → (src + length bs < dst) ⊎ (dst + length cs + length bs < src)
    → (m' : ℕ → ℕ) × (strcat fuel dst src m ≡ some m')
      × IsString m' dst (cs ++ bs)
      × ((a : ℕ) → (a < dst) ⊎ (dst + length cs + length bs < a) → m' a ≡ m a)
unfolding strcat
strcat_lem fuel dst src m cs bs v w fc fb apart =
    let (m', e, u, out) = strcpy_lem fuel (dst + length cs) src m bs w fb (ground arith) in
    (
      m',
      rw (strlen_lem fuel dst m cs v fc) e,
      join-IsString m m' dst cs bs v (λ a lo hi. out a (inl hi)) u,
      λ a o. out a (ground arith),
    )
