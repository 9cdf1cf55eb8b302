-- ===== src/Links/Chain.antt =====
-- What a sequence of entries means in the store: the entries of `xs` lie between `a` and `b`, and
-- the two pointer fields agree along the way.
use nku_os.Base.{ℕ, ◌≡◌, List, [], ◌∷◌, ◌++◌, arith, ◌∈◌, ◌∉◌, NoDup}
use nku_os.Links.{Links}

abbrev pub Chain : Links → ℕ → List ℕ → ℕ → Type 0
Chain h a [] b = (h.next a ≡ b) × (h.prev b ≡ a)
Chain h a (x ∷ xs) b = (h.next a ≡ x) × (h.prev x ≡ a) × Chain h x xs b

-- The last entry of `a, xs`, and the first of `ys, b`.
abbrev pub last : ℕ → List ℕ → ℕ
last a [] = a
last a (x ∷ xs) = last x xs

abbrev pub first : List ℕ → ℕ → ℕ
first [] b = b
first (y ∷ ys) b = y

-- The circular list with sentinel `hd` holds exactly `xs`, in this order.
pub record Ring (h : Links) (hd : ℕ) (xs : List ℕ) : Type 0 where
  pub chain : Chain h hd xs hd
  pub apart : hd ∉ xs
  pub nodup : NoDup xs

pub last-mem : (x : ℕ) (xs : List ℕ) → last x xs ∈ (x ∷ xs)
last-mem x [] = ground arith
last-mem x (y ∷ ys) = ground (arith, last-mem y ys)

-- A chain survives writes that spare its own fields.
pub Chain-frame :
    (h g : Links) (a : ℕ) (xs : List ℕ) (b : ℕ)
    → ((c : ℕ) → c ∈ (a ∷ xs) → g.next c ≡ h.next c)
    → ((c : ℕ) → c ∈ (b ∷ xs) → g.prev c ≡ h.prev c)
    → Chain h a xs b
    → Chain g a xs b
Chain-frame h g a [] b n p c = ground (arith, n a, p b)
Chain-frame h g a (x ∷ xs) b n p c = (
  ground (arith, n a),
  ground (arith, p x),
  Chain-frame h g x xs b (λ d m. n d (ground arith)) (λ d m. p d (ground arith)) c.2,
)

pub Chain-next :
    (h : Links) (a : ℕ) (xs ys : List ℕ) (b : ℕ)
    → Chain h a (xs ++ ys) b
    → h.next (last a xs) ≡ first ys b
Chain-next h a [] [] b c = c.0
Chain-next h a [] (y ∷ ys) b c = c.0
Chain-next h a (x ∷ xs) ys b c = Chain-next h x xs ys b c.2

pub Chain-prev :
    (h : Links) (a : ℕ) (xs ys : List ℕ) (b : ℕ)
    → Chain h a (xs ++ ys) b
    → h.prev (first ys b) ≡ last a xs
Chain-prev h a [] [] b c = c.1
Chain-prev h a [] (y ∷ ys) b c = c.1
Chain-prev h a (x ∷ xs) ys b c = Chain-prev h x xs ys b c.2

pub Chain-next_mid :
    (h : Links) (a : ℕ) (xs : List ℕ) (e : ℕ) (ys : List ℕ) (b : ℕ)
    → Chain h a (xs ++ e ∷ ys) b
    → h.next e ≡ first ys b
Chain-next_mid h a [] e [] b c = c.2.0
Chain-next_mid h a [] e (y ∷ ys) b c = c.2.0
Chain-next_mid h a (x ∷ xs) e ys b c = Chain-next_mid h x xs e ys b c.2
