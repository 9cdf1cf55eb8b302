-- ===== src/Skew/Tests.antt =====
-- The theorems on heaps at the heap of 1 above 2 and 3, and the heap of 5, smaller addresses first.
use nku_os.Base.{ℕ, ◌≡◌, arith, refl, some, ltb, ◌==◌, if◌then◌else◌, inr, inl}
use nku_os.Str.{ℤ, pos, negsuc}
use nku_os.Skew.{Pointers, skew_heap_merge, skew_heap_remove}
use nku_os.Skew.Trees.{Tree, leaf, node, count, size, IsAt}
use nku_os.Skew.Merge.{Joined, skew_heap_merge_lem}
use nku_os.Skew.Remove.{Removed, skew_heap_remove_lem}

abbrev by_address : ℕ → ℕ → ℤ
by_address a b = if ltb a b then negsuc 0 else pos 1

abbrev two_heaps : Pointers
two_heaps = record {
  parent = λ x. if x == 2 then 1 else if x == 3 then 1 else 0;
  left = λ x. if x == 1 then 2 else 0;
  right = λ x. if x == 1 then 3 else 0;
}

abbrev three : Tree
three = node (node leaf 2 leaf) 1 (node leaf 3 leaf)

three-IsAt : IsAt two_heaps three 1
three-IsAt = (
  refl,
  omega arith,
  (refl, omega arith, refl, refl, inl refl, inl refl),
  (refl, omega arith, refl, refl, inl refl, inl refl),
  inr refl,
  inr refl,
)

five-IsAt : IsAt two_heaps (node leaf 5 leaf) 5
five-IsAt = (refl, omega arith, refl, refl, inl refl, inl refl)

skew_heap_merge_lem_example :
    (h' : Pointers) × (root : ℕ) × (t : Tree) × (skew_heap_merge by_address 5 1 5 two_heaps
      ≡ some (root, h'))
    × Joined by_address three (node leaf 5 leaf) 1 5 two_heaps h' root t
unfolding count size
skew_heap_merge_lem_example =
    skew_heap_merge_lem by_address 5 three (node leaf 5 leaf) 1 5 two_heaps (omega arith) three-IsAt
      five-IsAt (λ y. ground arith)

skew_heap_remove_lem_example :
    (h' : Pointers) × (root : ℕ) × (t' : Tree) × (skew_heap_remove by_address 3 1 2 two_heaps
      ≡ some (root, h'))
    × Removed by_address three 2 two_heaps h' root t'
unfolding count size
skew_heap_remove_lem_example =
    skew_heap_remove_lem by_address 3 three 1 2 two_heaps (omega arith) three-IsAt
      (λ y. ground arith) (ground arith) refl
