-- ===== src/Vmm/Tests.antt =====
-- The theorems on address spaces at the areas 5, [4096, 8192), and 6, [12288, 16384), and the new one 9,
-- [8192, 12288).
use nku_os.Base.{
  ℕ, ◌≡◌, refl, List, [], ◌∷◌, ◌++◌, arith, ◌==◌, if◌then◌else◌, true, some, inl, inr,
}
use nku_os.Vmm.{Mm, find_vma, insert_vma_struct}
use nku_os.Vmm.Areas.{IsMm}
use nku_os.Vmm.Find.{AreaOf, find_vma_lem}
use nku_os.Vmm.Insert.{insert_vma_struct_lem}

abbrev two_areas : Mm
two_areas = record {
  links = record {
    next = λ a. if a == 1 then 5 else if a == 5 then 6 else 1;
    prev = λ a. if a == 1 then 6 else if a == 6 then 5 else 1;
  };
  mmap_cache = 6;
  map_count = 2;
  vm_start = λ v. if v == 5 then 4096 else if v == 6 then 12288 else 8192;
  vm_end = λ v. if v == 5 then 8192 else if v == 6 then 16384 else 12288;
  vm_flags = λ v. 0;
  in_mm = λ v. true;
}

two_areas-IsMm : IsMm two_areas (5 ∷ 6 ∷ [])
two_areas-IsMm = record {
  ring = record { chain = omega arith; apart = refl; nodup = (refl, (refl, tt)) };
  ordered = omega arith;
  no_null = refl;
  cache = inr refl;
  count = refl;
}

find_vma_lem_example :
    (v : ℕ) × (mm' : Mm) × (find_vma 3 5000 two_areas ≡ some (v, mm'))
    × AreaOf two_areas 5000 v (5 ∷ 6 ∷ [])
    × IsMm mm' (5 ∷ 6 ∷ [])
    × (mm'.vm_start ≡ two_areas.vm_start)
    × (mm'.vm_end ≡ two_areas.vm_end)
find_vma_lem_example = find_vma_lem 3 5000 two_areas (5 ∷ 6 ∷ []) two_areas-IsMm (omega arith)

insert_vma_struct_lem_example :
    (mm' : Mm) × (pre : List ℕ) × (post : List ℕ) × (insert_vma_struct 3 9 two_areas ≡ some mm')
    × (5 ∷ 6 ∷ [] ≡ pre ++ post)
    × IsMm mm' (pre ++ 9 ∷ post)
    × (mm'.vm_start ≡ two_areas.vm_start)
    × (mm'.vm_end ≡ two_areas.vm_end)
insert_vma_struct_lem_example =
    insert_vma_struct_lem 3 9 two_areas (5 ∷ 6 ∷ []) two_areas-IsMm refl (omega arith)
      (inl (omega arith), (inr (omega arith), tt)) (omega arith)
