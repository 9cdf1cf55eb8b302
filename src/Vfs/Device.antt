-- ===== src/Vfs/Device.antt =====
-- get_device on a path that names a device.
use nku_os.Base.{
  ℕ, zero, suc, ◌+◌, ◌<◌, ◌≡◌, ◌≢◌, refl, List, [], ◌∷◌, ◌++◌, arith, some, length, ◌==◌,
  Bool-cases, inl, inr, ne→==, sym, subst, ap, ◌∙◌, if◌then◌else◌,
}
use nku_os.Links.{put}
use nku_os.Str.Strings.{IsString, IsString-frame}
use nku_os.Vfs.{Nodes, Ops}
use nku_os.Vfs.Lookup.{colon, neither, find_mark, skip_slashes, get_device}

-- No byte is a colon or a slash.
abbrev pub NoMark : List ℕ → Type 0
NoMark [] = Unit
NoMark (c ∷ cs) = (c ≢ b':') × (c ≢ b'/') × NoMark cs

-- A path without the slashes that it begins with.
abbrev pub drop_slashes : List ℕ → List ℕ
drop_slashes [] = []
drop_slashes (c ∷ cs) = if c == b'/' then drop_slashes cs else c ∷ cs

find_mark-colon :
    (fuel i path : ℕ) (m : ℕ → ℕ) (cs rest : List ℕ)
    → IsString m (path + i) (cs ++ b':' ∷ rest)
    → NoMark cs
    → length cs < fuel
    → find_mark fuel i path m ≡ some (colon (i + length cs))
unfolding find_mark
find_mark-colon zero i path m cs rest h plain fu = absurd (omega arith)
find_mark-colon (suc n) i path m [] rest h plain fu =
    let e : i + 0 ≡ i = omega arith in rw (h.0, e) refl
find_mark-colon (suc n) i path m (c ∷ cs) rest h plain fu =
    let at : path + i + 1 ≡ path + (i + 1) = omega arith in
    let e : i + 1 + length cs ≡ i + suc (length cs) = omega arith in
    rw (h.0, ne→== c 0 h.1, ne→== c b':' plain.0, ne→== c b'/' plain.1)
      (find_mark-colon n (i + 1) path m cs rest
          (subst (λ a. IsString m a (cs ++ b':' ∷ rest)) at h.2) plain.2 (omega arith)
        ∙ rw e refl)

find_mark-neither :
    (fuel i path : ℕ) (m : ℕ → ℕ) (cs : List ℕ)
    → IsString m (path + i) cs
    → NoMark cs
    → length cs < fuel
    → find_mark fuel i path m ≡ some neither
unfolding find_mark
find_mark-neither zero i path m cs h plain fu = absurd (omega arith)
find_mark-neither (suc n) i path m [] h plain fu = rw h refl
find_mark-neither (suc n) i path m (c ∷ cs) h plain fu =
    let at : path + i + 1 ≡ path + (i + 1) = omega arith in
    rw (h.0, ne→== c 0 h.1, ne→== c b':' plain.0, ne→== c b'/' plain.1)
      (find_mark-neither n (i + 1) path m cs (subst (λ a. IsString m a cs) at h.2) plain.2
        (omega arith))

pub skip_slashes_lem :
    (fuel p : ℕ) (m : ℕ → ℕ) (cs : List ℕ)
    → IsString m (p + 1) cs
    → length cs < fuel
    → (sub : ℕ) × (skip_slashes fuel p m ≡ some sub) × IsString m sub (drop_slashes cs)
unfolding skip_slashes
skip_slashes_lem zero p m cs h fu = absurd (omega arith)
skip_slashes_lem (suc n) p m [] h fu = (p + 1, rw h refl, h)
skip_slashes_lem (suc n) p m (c ∷ cs) h fu = elim (Bool-cases (c == b'/')) [
  | inl skip ↦
      let (sub, e, w) = skip_slashes_lem n (p + 1) m cs h.2 (omega arith) in
      (sub, rw (h.0, skip) e, rw skip w)
  | inr other ↦ (p + 1, rw (h.0, other) refl, rw other h)
]

after_colon :
    (m : ℕ → ℕ) (path : ℕ) (dev rest : List ℕ)
    → IsString m path (dev ++ b':' ∷ rest)
    → IsString m (path + length dev + 1) rest
after_colon m path [] rest h =
    let e : path + 1 ≡ path + 0 + 1 = omega arith in subst (λ a. IsString m a rest) e h.2
after_colon m path (c ∷ dev) rest h =
    let e : path + 1 + length dev + 1 ≡ path + suc (length dev) + 1 = omega arith in
    subst (λ a. IsString m a rest) e (after_colon m (path + 1) dev rest h.2)

-- The name of the device, cut off at the colon.
IsString-cut :
    (m : ℕ → ℕ) (path : ℕ) (dev rest : List ℕ)
    → IsString m path (dev ++ b':' ∷ rest)
    → IsString (put m (path + length dev) 0) path dev
IsString-cut m path [] rest h = ground arith
IsString-cut m path (c ∷ dev) rest h =
    let e : path + 1 + length dev ≡ path + suc (length dev) = omega arith in
    (
      ground (arith, h.0),
      h.1,
      subst (λ a. IsString (put m a 0) (path + 1) dev) e (IsString-cut m (path + 1) dev rest h.2),
    )

module _ {W : Type 0} (v : Ops W) where
  -- Let `vfs_get_root` leave the memory of paths as it is. On the path `dev:rest`, where `dev` is not
  -- empty and has no colon or slash, and given more rounds than `rest` and `dev` with the colon have
  -- bytes, `get_device` asks for the root of `dev`, and the subpath is `rest` without its first
  -- slashes. The colon has become the path's end, so a second call on the same path starts from the
  -- current directory, with the name of the device as its subpath.
  pub get_device_twice :
      (fuel path : ℕ) (dev rest : List ℕ) (s : Nodes W)
      → ((p : ℕ) (s : Nodes W) → (v.vfs_get_root p s).2.mem ≡ s.mem)
      → IsString s.mem path (dev ++ b':' ∷ rest)
      → NoMark dev
      → dev ≢ []
      → length dev + length rest + 1 < fuel
      → let s₁ = record s { mem = put s.mem (path + length dev) 0 } in
        let (ret, node, s₂) = v.vfs_get_root path s₁ in
        let (ret', node', s₃) = v.vfs_get_curdir s₂ in
        (sub : ℕ) × (get_device v fuel path s ≡ some (ret, sub, node, s₂))
        × IsString s₂.mem sub (drop_slashes rest)
        × IsString s₂.mem path dev
        × (get_device v fuel path s₂ ≡ some (ret', path, node', s₃))
  unfolding get_device
  get_device_twice fuel path [] rest s keep named plain nonempty fu = absurd (nonempty refl)
  get_device_twice fuel path (c ∷ dev) rest s keep named plain nonempty fu =
      let colon_at = path + suc (length dev) in
      let m₁ = put s.mem colon_at 0 in
      let (ret, node, s₂) = v.vfs_get_root path (record s { mem = m₁ }) in
      let start : path ≡ path + 0 = omega arith in
      let index : 0 + suc (length dev) ≡ suc (length dev) = omega arith in
      let marked : find_mark fuel 0 path s.mem ≡ some (colon (suc (length dev))) =
        find_mark-colon fuel 0 path s.mem (c ∷ dev) rest
          (subst (λ a. IsString s.mem a (c ∷ dev ++ b':' ∷ rest)) start named) plain (omega arith)
        ∙ ap (λ k. some (colon k)) index in
      let tail : IsString m₁ (colon_at + 1) rest =
        IsString-frame s.mem m₁ (colon_at + 1) rest (λ a lo hi. ground arith)
          (after_colon s.mem path (c ∷ dev) rest named) in
      let (sub, e, w) = skip_slashes_lem fuel colon_at m₁ rest tail (omega arith) in
      let mem = keep path (record s { mem = m₁ }) in
      let cut = IsString-cut s.mem path (c ∷ dev) rest named in
      let unmarked : find_mark fuel 0 path m₁ ≡ some neither =
        find_mark-neither fuel 0 path m₁ (c ∷ dev) (subst (λ a. IsString m₁ a (c ∷ dev)) start cut)
          plain (omega arith) in
      (
        sub,
        rw (marked, e) refl,
        subst (λ m. IsString m sub (drop_slashes rest)) (sym mem) w,
        subst (λ m. IsString m path (c ∷ dev)) (sym mem) cut,
        rw (mem, unmarked) refl,
      )
