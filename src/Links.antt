-- ===== src/Links.antt =====
-- lab8/libs/list.h: circular doubly linked lists. An entry is its address, and the two pointer
-- fields of all entries are the two functions of a store.
pub mod Chain
pub mod Ops
pub mod Rings
pub mod Loose
mod Tests
use nku_os.Base.{ℕ, Bool, ◌==◌, if◌then◌else◌}

-- A write of a field at one address.
abbrev pub put {ℓ} : {A : Type ℓ} → (ℕ → A) → ℕ → A → ℕ → A
put f a v x = if x == a then v else f x

-- `struct list_entry`, for every address.
pub record Links : Type 0 where
  pub next : ℕ → ℕ
  pub prev : ℕ → ℕ

abbrev pub set_next : ℕ → ℕ → Links → Links
set_next a v h = record h { next = put h.next a v }

abbrev pub set_prev : ℕ → ℕ → Links → Links
set_prev a v h = record h { prev = put h.prev a v }

unfoldable pub list_init : ℕ → Links → Links
list_init elm h = set_prev elm elm (set_next elm elm h)

-- `__list_add`, assignment by assignment.
unfoldable pub insert_between : (elm prev next : ℕ) → Links → Links
insert_between elm p n h = set_prev elm p (set_next elm n (set_next p elm (set_prev n elm h)))

unfoldable pub list_add_before : (listelm elm : ℕ) → Links → Links
unfolding insert_between
list_add_before listelm elm h = insert_between elm (h.prev listelm) listelm h

unfoldable pub list_add_after : (listelm elm : ℕ) → Links → Links
unfolding insert_between
list_add_after listelm elm h = insert_between elm listelm (h.next listelm) h

unfoldable pub list_add : (listelm elm : ℕ) → Links → Links
unfolding list_add_after
list_add listelm elm h = list_add_after listelm elm h

-- `__list_del`.
unfoldable pub unlink_between : (prev next : ℕ) → Links → Links
unlink_between p n h = set_prev n p (set_next p n h)

unfoldable pub list_del : ℕ → Links → Links
unfolding unlink_between
list_del listelm h = unlink_between (h.prev listelm) (h.next listelm) h

unfoldable pub list_del_init : ℕ → Links → Links
unfolding list_del list_init
list_del_init listelm h = list_init listelm (list_del listelm h)

unfoldable pub list_empty : ℕ → Links → Bool
list_empty list h = h.next list == list

abbrev pub list_next : ℕ → Links → ℕ
list_next listelm h = h.next listelm

abbrev pub list_prev : ℕ → Links → ℕ
list_prev listelm h = h.prev listelm
