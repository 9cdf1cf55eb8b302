-- ===== src/Vmm/Areas.antt =====
-- Valid address spaces: the areas stand in order and do not overlap.
use nku_os.Base.{ℕ, ◌<◌, ◌≤◌, ◌≡◌, false, ◌⊎◌, List, [], ◌∷◌, length, ◌∈◌, ◌∉◌}
use nku_os.Links.Chain.{Ring}
use nku_os.Vmm.{Mm, mmap_list, contains}

-- The areas `vs` are not empty, and stand in order from `lo` on, none reaching into the next.
abbrev pub Ordered : Mm → ℕ → List ℕ → Type 0
Ordered mm lo [] = Unit
Ordered mm lo (v ∷ vs) =
    (lo ≤ mm.vm_start v) × (mm.vm_start v < mm.vm_end v) × Ordered mm (mm.vm_end v) vs

-- The address space has the areas `vs`; the cache is empty or one of them.
pub record IsMm (mm : Mm) (vs : List ℕ) : Type 0 where
  pub ring : Ring mm.links mmap_list vs
  pub ordered : Ordered mm 0 vs
  pub no_null : 0 ∉ vs
  pub cache : (mm.mmap_cache ≡ 0) ⊎ (mm.mmap_cache ∈ vs)
  pub count : mm.map_count ≡ length vs

-- No area of `vs` contains `addr`.
abbrev pub Outside : Mm → ℕ → List ℕ → Type 0
Outside mm addr [] = Unit
Outside mm addr (v ∷ vs) = (contains v addr mm ≡ false) × Outside mm addr vs

-- No area of `vs` meets `[s, e)`.
abbrev pub Apart : Mm → (s e : ℕ) → List ℕ → Type 0
Apart mm s e [] = Unit
Apart mm s e (v ∷ vs) = ((mm.vm_end v ≤ s) ⊎ (e ≤ mm.vm_start v)) × Apart mm s e vs
