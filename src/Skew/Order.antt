-- ===== src/Skew/Order.antt =====
-- Heap order.
use nku_os.Base.{ℕ, ◌+◌, ◌≤◌, ◌≡◌, ◌⊎◌, false, true, arith, ◌==◌, inl, inr, Bool-cases}
use nku_os.Str.{ℤ}
use nku_os.Skew.{minus_one}
use nku_os.Skew.Trees.{Tree, leaf, node, count}

-- The test `comp(a, b) == -1` says that `a` comes strictly before `b`, in an order in which any two
-- entries can be compared.
pub record IsOrder (comp : ℕ → ℕ → ℤ) : Type 0 where
  pub asym : (a b : ℕ) → minus_one (comp a b) ≡ true → minus_one (comp b a) ≡ false
  pub trans :
      (a b c : ℕ)
      → minus_one (comp b a) ≡ false
      → minus_one (comp c b) ≡ false
      → minus_one (comp c a) ≡ false

module _ (comp : ℕ → ℕ → ℤ) where
  -- No entry of the tree comes before `x`.
  abbrev pub IsAbove : ℕ → Tree → Type 0
  IsAbove x t = (y : ℕ) → 1 ≤ count y t → minus_one (comp y x) ≡ false

  abbrev pub IsOrdered : Tree → Type 0
  IsOrdered leaf = Unit
  IsOrdered (node l x r) = IsAbove x l × IsAbove x r × IsOrdered l × IsOrdered r

  module _ (order : IsOrder comp) where
    -- An ordered tree with the root `b` is above what `b` is not before.
    pub IsOrdered-IsAbove :
        (a : ℕ) (l : Tree) (b : ℕ) (r : Tree)
        → IsOrdered (node l b r)
        → minus_one (comp b a) ≡ false
        → IsAbove a (node l b r)
    unfolding count
    IsOrdered-IsAbove a l b r o before y k = elim (Bool-cases (y == b)) [
      | inl e ↦ let e : y ≡ b = ground arith in rw e before
      | inr ne ↦
          let m : (1 ≤ count y l) ⊎ (1 ≤ count y r) = ground arith in
          elim m [
            | inl kl ↦ order.trans a b y before (o.0 y kl)
            | inr kr ↦ order.trans a b y before (o.1 y kr)
          ]
    ]

    -- What holds of two trees holds of one with the entries of both.
    pub IsAbove-join :
        (x : ℕ) (s t u : Tree)
        → ((y : ℕ) → count y u ≡ count y s + count y t)
        → IsAbove x s
        → IsAbove x t
        → IsAbove x u
    IsAbove-join x s t u e p q y k =
        let m : (1 ≤ count y s) ⊎ (1 ≤ count y t) = ground (arith, e y) in
        elim m [ inl ks ↦ p y ks | inr kt ↦ q y kt ]
