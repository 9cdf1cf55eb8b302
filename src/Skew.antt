-- ===== src/Skew.antt =====
-- lab8/libs/skew_heap.h: heaps of entries linked by pointers. An entry is its address, 0 is NULL. The
-- comparison is a parameter, which the users of the heap pass; the recursion of `skew_heap_merge` runs
-- on fuel.
pub mod Trees
pub mod Link
pub mod Order
pub mod Merge
pub mod Find
pub mod Swap
pub mod Remove
mod Tests
use nku_os.Base.{
  ℕ, zero, suc, Bool, true, false, not, Option, none, some, ◌==◌, if◌then◌else◌, ◌>>=◌,
}
use nku_os.Links.{put}
use nku_os.Str.{ℤ, pos, negsuc}

-- `struct skew_heap_entry`, for every address.
pub record Pointers : Type 0 where
  pub parent : ℕ → ℕ
  pub left : ℕ → ℕ
  pub right : ℕ → ℕ

-- `== -1`.
abbrev pub minus_one : ℤ → Bool
minus_one (negsuc zero) = true
minus_one _ = false

unfoldable pub skew_heap_init : ℕ → Pointers → Pointers
skew_heap_init a h = record {
  parent = put h.parent a 0;
  left = put h.left a 0;
  right = put h.right a 0;
}

-- `a->left = l; a->right = r; if (l) l->parent = a;`
unfoldable pub link : (a l r : ℕ) → Pointers → Pointers
link a l r h = record {
  left = put h.left a l;
  right = put h.right a r;
  parent = if not (l == 0) then put h.parent l a else h.parent;
}

module _ (comp : ℕ → ℕ → ℤ) where
  unfoldable pub skew_heap_merge : (fuel a b : ℕ) → Pointers → Option (ℕ × Pointers)
  unfolding link
  skew_heap_merge zero a b h = none
  skew_heap_merge (suc n) a b h =
      let under_a = do (l, h') ← skew_heap_merge n (h.right a) b h; some (a, link a l (h.left a) h')
      in let under_b = do
        (l, h') ← skew_heap_merge n a (h.right b) h
        some (b, link b l (h.left b) h')
        in if a == 0
          then some (b, h)
          else if b == 0
          then some (a, h)
          else if minus_one (comp a b)
          then under_a
          else under_b

  unfoldable pub skew_heap_insert : (fuel a b : ℕ) → Pointers → Option (ℕ × Pointers)
  unfolding skew_heap_init
  skew_heap_insert fuel a b h = skew_heap_merge fuel a b (skew_heap_init b h)

  unfoldable pub skew_heap_remove : (fuel a b : ℕ) → Pointers → Option (ℕ × Pointers)
  skew_heap_remove fuel a b h = do
    let p = h.parent b
    (rep, h) ← skew_heap_merge fuel (h.left b) (h.right b) h
    let h = record h { parent = if not (rep == 0) then put h.parent rep p else h.parent }
    some (
        if not (p == 0)
        then (
          a,
          if h.left p == b
              then record h { left = put h.left p rep }
              else record h { right = put h.right p rep },
        )
        else (rep, h))
