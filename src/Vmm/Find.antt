-- ===== src/Vmm/Find.antt =====
-- `find_vma` finds the area of an address.
use nku_os.Base.{
  ℕ, zero, suc, ◌<◌, ◌≡◌, ◌≢◌, refl, true, false, not, ◌&&◌, ◌⊎◌, List, [], ◌∷◌, arith, length,
  ◌==◌, ◌∈◌, ◌∉◌, inl, inr, Bool-cases, some,
}
use nku_os.Links.Chain.{Chain}
use nku_os.Vmm.{Mm, contains, find_vma, find_loop}
use nku_os.Vmm.Areas.{IsMm, Ordered, Outside}

-- `v` is the area of `addr` among `vs`, 0 if there is none.
abbrev pub AreaOf : Mm → (addr v : ℕ) → List ℕ → Type 0
AreaOf mm addr v vs =
    ((v ∈ vs) × (v ≢ 0) × (contains v addr mm ≡ true)) ⊎ ((v ≡ 0) × Outside mm addr vs)

find_loop-AreaOf :
    (fuel le addr : ℕ) (mm : Mm) (vs : List ℕ)
    → Chain mm.links le vs 1
    → 0 ∉ vs
    → 1 ∉ vs
    → length vs < fuel
    → (v : ℕ) × (find_loop fuel le addr mm ≡ some v) × AreaOf mm addr v vs
unfolding find_loop
find_loop-AreaOf zero le addr mm vs c z o fu = absurd (omega arith)
find_loop-AreaOf (suc n) le addr mm [] c z o fu = (0, rw c.0 refl, inr (refl, tt))
find_loop-AreaOf (suc n) le addr mm (x ∷ vs) c z o fu =
    let nh : (x == 1) ≡ false = ground arith in
    elim (Bool-cases (contains x addr mm)) [
      | inl e ↦ (x, rw (c.0, nh, e) refl, inl (ground arith, (ground arith), e))
      | inr e ↦
          let (v, r, a) =
            find_loop-AreaOf n x addr mm vs c.2 (ground arith) (ground arith) (omega arith) in
          (
            v,
            rw (c.0, nh, e) r,
            elim a [ inl h ↦ inl (ground (arith, h.0), h.1, h.2) | inr h ↦ inr (h.0, (e, h.1)) ],
          )
    ]

-- On a valid address space, given more rounds than areas, `find_vma` returns the area that contains
-- `addr`, or NULL if none does, whether or not the cache holds it; the areas stay as they are and
-- valid.
pub find_vma_lem :
    (fuel addr : ℕ) (mm : Mm) (vs : List ℕ)
    → IsMm mm vs
    → length vs < fuel
    → (v : ℕ) × (mm' : Mm) × (find_vma fuel addr mm ≡ some (v, mm'))
      × AreaOf mm addr v vs
      × IsMm mm' vs
      × (mm'.vm_start ≡ mm.vm_start)
      × (mm'.vm_end ≡ mm.vm_end)
unfolding find_vma
find_vma_lem fuel addr mm vs w fu =
    elim (Bool-cases (not (mm.mmap_cache == 0) && contains mm.mmap_cache addr mm)) [
      | inl hit ↦
          let c = mm.mmap_cache in
          let nz : (c == 0) ≡ false = ground arith in
          let inside : contains c addr mm ≡ true = ground arith in
          let member : c ∈ vs = ground (arith, w.cache) in
          (
            c,
            record mm { mmap_cache = c },
            rw (hit, nz) refl,
            inl (member, (ground arith), inside),
            cached c (inr member),
            refl,
            refl,
          )
      | inr miss ↦
          let (v, r, a) =
            find_loop-AreaOf fuel 1 addr mm vs w.ring.chain w.no_null w.ring.apart fu in
          elim (Bool-cases (v == 0)) [
            | inl z ↦ (v, mm, rw (miss, r, z) refl, a, w, refl, refl)
            | inr nz ↦
                let member : v ∈ vs = ground (arith, a) in
                (
                  v,
                  record mm { mmap_cache = v },
                  rw (miss, r, nz) refl,
                  a,
                  cached v (inr member),
                  refl,
                  refl,
                )
          ]
    ]
  where
    keep :
        (c : ℕ) (us : List ℕ) (lo : ℕ)
        → Ordered mm lo us
        → Ordered (record mm { mmap_cache = c }) lo us
    keep c [] lo o = tt
    keep c (u ∷ us) lo o = (o.0, o.1, keep c us (mm.vm_end u) o.2)

    cached : (c : ℕ) → (c ≡ 0) ⊎ (c ∈ vs) → IsMm (record mm { mmap_cache = c }) vs
    cached c h = record {
      ring = w.ring;
      ordered = keep c vs 0 w.ordered;
      no_null = w.no_null;
      cache = h;
      count = w.count;
    }
