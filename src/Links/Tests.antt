-- ===== src/Links/Tests.antt =====
-- A list with the sentinel 0 and the entries 1, 2, 3.
use nku_os.Base.{refl, [], ◌∷◌, arith, ◌==◌, if◌then◌else◌}
use nku_os.Links.{Links, list_add_before, list_del_init}
use nku_os.Links.Chain.{Ring}
use nku_os.Links.Rings.{list_add_before-Ring, list_del_init-Ring}

abbrev three : Links
three = record {
  next = λ a. if a == 0 then 1 else if a == 1 then 2 else if a == 2 then 3 else 0;
  prev = λ a. if a == 0 then 3 else if a == 3 then 2 else if a == 2 then 1 else 0;
}

three-Ring : Ring three 0 (1 ∷ 2 ∷ 3 ∷ [])
three-Ring = record { chain = omega arith; apart = refl; nodup = (refl, (refl, (refl, tt))) }

list_add_before-Ring_example : Ring (list_add_before 2 9 three) 0 (1 ∷ 9 ∷ 2 ∷ 3 ∷ [])
list_add_before-Ring_example = list_add_before-Ring 9 (1 ∷ []) (2 ∷ 3 ∷ []) three-Ring refl

list_del_init-Ring_example :
    Ring (list_del_init 2 three) 0 (1 ∷ 3 ∷ []) × Ring (list_del_init 2 three) 2 []
list_del_init-Ring_example = list_del_init-Ring 2 (1 ∷ []) (3 ∷ []) three-Ring
