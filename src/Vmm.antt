-- ===== src/Vmm.antt =====
-- The areas of an address space: `mm_create`, `vma_create`, `find_vma`, `insert_vma_struct`, `mm_map` and
-- `mm_destroy` of lab8/kern/mm/vmm.c. A `vma_struct` is known by the address of its `list_link`; NULL is
-- 0, and the list head `mmap_list` has the address 1. The allocator `kmalloc` is a parameter: what it
-- returns is an argument, 0 if it fails.
pub mod Areas
pub mod Find
pub mod Insert
mod Tests
use nku_os.Base.{
  ℕ, zero, suc, ◌+◌, ◌-◌, ◌*◌, ◌%◌, ◌^◌, Bool, true, false, not, ◌&&◌, ◌||◌, List, [], ◌∷◌, Option,
  none, some, ◌==◌, ltb, leb, if◌then◌else◌, ◌>>=◌, ◌>>◌, assert,
}
use nku_os.Links.{Links, put, list_init, list_add_after, list_del, list_next}

abbrev pub mmap_list : ℕ
mmap_list = 1

-- The `mm_struct`, and the fields of every `vma_struct`. `in_mm v` says that `v->vm_mm` is this one.
pub record Mm : Type 0 where
  pub links : Links
  pub mmap_cache : ℕ
  pub map_count : ℕ
  pub vm_start : ℕ → ℕ
  pub vm_end : ℕ → ℕ
  pub vm_flags : ℕ → ℕ
  pub in_mm : ℕ → Bool

-- `mm_create` when `kmalloc` succeeds.
unfoldable pub mm_create : Mm → Mm
unfolding list_init
mm_create mm = record mm { links = list_init mmap_list mm.links; mmap_cache = 0; map_count = 0 }

-- `vma` is what `kmalloc` returns.
unfoldable pub vma_create : (vma vm_start vm_end vm_flags : ℕ) → Mm → Mm
vma_create vma s e f mm =
    if not (vma == 0)
    then record mm {
      vm_start = put mm.vm_start vma s;
      vm_end = put mm.vm_end vma e;
      vm_flags = put mm.vm_flags vma f;
    }
    else mm

-- `vma->vm_start <= addr && addr < vma->vm_end`.
abbrev pub contains : (vma addr : ℕ) → Mm → Bool
contains vma addr mm = leb (mm.vm_start vma) addr && ltb addr (mm.vm_end vma)

-- The search through the list, from behind `le` on.
unfoldable pub find_loop : (fuel le addr : ℕ) → Mm → Option ℕ
find_loop zero le addr mm = none
find_loop (suc n) le addr mm =
    let le' = list_next le mm.links in
    let rest = find_loop n le' addr mm in
    if le' == mmap_list then some 0 else if contains le' addr mm then some le' else rest

-- `find_vma` of an mm that is not NULL.
unfoldable pub find_vma : (fuel addr : ℕ) → Mm → Option (ℕ × Mm)
unfolding find_loop
find_vma fuel addr mm = do
  let hit = not (mm.mmap_cache == 0) && contains mm.mmap_cache addr mm
  vma ← if not hit then find_loop fuel mmap_list addr mm else some mm.mmap_cache
  some (vma, if not (vma == 0) then record mm { mmap_cache = vma } else mm)

unfoldable pub check_vma_overlap : (prev next : ℕ) → Mm → Option (Unit {0})
check_vma_overlap prev next mm = do
  assert (ltb (mm.vm_start prev) (mm.vm_end prev))
  assert (leb (mm.vm_end prev) (mm.vm_start next))
  assert (ltb (mm.vm_start next) (mm.vm_end next))

-- The loop of `insert_vma_struct` from behind `le` on, which returns `le_prev`.
unfoldable pub place_loop : (fuel le le_prev vma : ℕ) → Mm → Option ℕ
place_loop zero le le_prev vma mm = none
place_loop (suc n) le le_prev vma mm =
    let le' = list_next le mm.links in
    let rest = place_loop n le' le' vma mm in
    if le' == mmap_list
    then some le_prev
    else if ltb (mm.vm_start vma) (mm.vm_start le')
    then some le_prev
    else rest

unfoldable pub insert_vma_struct : (fuel vma : ℕ) → Mm → Option Mm
unfolding place_loop list_add_after
insert_vma_struct fuel vma mm = do
  assert (ltb (mm.vm_start vma) (mm.vm_end vma))
  le_prev ← place_loop fuel mmap_list mmap_list vma mm
  let le_next = list_next le_prev mm.links
  (if not (le_prev == mmap_list) then check_vma_overlap le_prev vma mm else some tt)
  (if not (le_next == mmap_list) then check_vma_overlap vma le_next mm else some tt)
  some (record mm {
    in_mm = put mm.in_mm vma true;
    links = list_add_after le_prev vma mm.links;
    map_count = mm.map_count + 1;
  })

-- ROUNDDOWN and ROUNDUP to PGSIZE, of 64-bit addresses.
abbrev pub round_down : ℕ → ℕ
round_down a = a - a % 4096

abbrev pub round_up : ℕ → ℕ
round_up a = round_down ((a + 4095) % 2 ^ 64)

-- USER_ACCESS, with USERBASE and USERTOP.
abbrev pub user_access : (start end : ℕ) → Bool
user_access s e = leb (2 ^ 21) s && (ltb s e && leb e (2 ^ 31))

-- What `mm_map` returns.
pub data Mapped : Type 0 where
  mapped einval enomem : Mapped

-- `mm_map` with `vma` from `kmalloc`; `vma_store` gets `vma` where the result is `mapped`.
unfoldable pub mm_map : (fuel vma addr len vm_flags : ℕ) → Mm → Option (Mapped × Mm)
unfolding find_vma vma_create insert_vma_struct
mm_map fuel vma addr len flags mm =
    let s = round_down addr in
    let e = round_up ((addr + len) % 2 ^ 64) in
    let found = do
      (old, mm) ← find_vma fuel s mm
      let made = do mm ← insert_vma_struct fuel vma (vma_create vma s e flags mm); some (mapped, mm)
      if not (old == 0) && ltb (mm.vm_start old) e
          then some (einval, mm)
          else if vma == 0
          then some (enomem, mm)
          else made
    in if not (user_access s e) then some (einval, mm) else found

-- The loop of `mm_destroy`; the areas that go to `kfree`, in order.
unfoldable pub destroy_loop : (fuel : ℕ) → Mm → Option (List ℕ × Mm)
unfolding list_del
destroy_loop zero mm = none
destroy_loop (suc n) mm = do
  let le = list_next mmap_list mm.links
  let rest = destroy_loop n (record mm { links = list_del le mm.links })
  if le == mmap_list then some ([], mm) else do (freed, mm) ← rest; some (le ∷ freed, mm)
