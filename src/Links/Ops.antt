-- ===== src/Links/Ops.antt =====
-- The list operations of list.h on circular lists: insertion at any place, and deletion.
use nku_os.Base.{
  Bool-cases, inl, inr, has-append, ℕ, ◌≡◌, ◌≢◌, List, [], ◌∷◌, ◌++◌, arith, ◌∈◌, ◌∉◌, NoDup, has,
  has-append, ◌==◌, ◌||◌, refl,
}
use nku_os.Links.{Links, insert_between, unlink_between}
use nku_os.Links.Chain.{Chain, last, first, Chain-frame, last-mem}

pub not-mem-append-left : (a : ℕ) (xs ys : List ℕ) → a ∉ (xs ++ ys) → a ∉ xs
not-mem-append-left a xs ys h = ground (arith, has-append a xs ys)

pub not-mem-append-right : (a : ℕ) (xs ys : List ℕ) → a ∉ (xs ++ ys) → a ∉ ys
not-mem-append-right a xs ys h = ground (arith, has-append a xs ys)

-- The neighbours of the new entry are rewritten, all other links stand.
insert-Chain-front :
    (h : Links) (e a : ℕ) (ys : List ℕ) (b : ℕ)
    → Chain h a ys b
    → a ∉ ys
    → b ∉ ys
    → NoDup ys
    → e ∉ ys
    → e ≢ a
    → e ≢ b
    → Chain (insert_between e a (first ys b) h) a (e ∷ ys) b
unfolding insert_between
insert-Chain-front h e a [] b c na nb nd ne ea eb = ground arith
insert-Chain-front h e a (y ∷ ys) b c na nb nd ne ea eb = (
  ground arith,
  ground arith,
  (
    ground arith,
    ground arith,
    Chain-frame h (insert_between e a y h) y ys b (λ d m. ground arith) (λ d m. ground arith) c.2,
  ),
)

pub first-mem : (ys : List ℕ) (b : ℕ) → first ys b ∈ (b ∷ ys)
first-mem [] b = ground arith
first-mem (y ∷ ys) b = ground arith

pub ne_of_mem : (x p : ℕ) (xs : List ℕ) → x ∉ xs → p ∈ xs → x ≢ p
ne_of_mem x p (y ∷ ys) h m = ground (arith, ne_of_mem x p ys)
ne_of_mem x p [] h m = ground arith

pub insert-Chain :
    (h : Links) (e a : ℕ) (xs ys : List ℕ) (b : ℕ)
    → Chain h a (xs ++ ys) b
    → a ∉ (xs ++ ys)
    → b ∉ (xs ++ ys)
    → NoDup (xs ++ ys)
    → e ∉ (xs ++ ys)
    → e ≢ a
    → e ≢ b
    → Chain (insert_between e (last a xs) (first ys b) h) a (xs ++ e ∷ ys) b
unfolding insert_between
insert-Chain h e a [] ys b c na nb nd ne ea eb = insert-Chain-front h e a ys b c na nb nd ne ea eb
insert-Chain h e a (x ∷ xs) ys b c na nb nd ne ea eb = (
  ground (
    arith,
    last-mem x xs,
    has-append a xs ys,
    ne_of_mem a (last x xs) (x ∷ xs) (not-mem-append-left a (x ∷ xs) ys na),
  ),
  ground (
    arith,
    first-mem ys b,
    has-append x xs ys,
    ne_of_mem x (first ys b) (b ∷ ys) (ground (arith, has-append x xs ys)),
  ),
  insert-Chain h e x xs ys b c.2 nd.0 (ground arith) nd.1 (ground arith) (ground arith) eb,
)

unlink-Chain-front :
    (h : Links) (e a : ℕ) (ys : List ℕ) (b : ℕ)
    → Chain h a (e ∷ ys) b
    → a ∉ (e ∷ ys)
    → b ∉ (e ∷ ys)
    → NoDup (e ∷ ys)
    → Chain (unlink_between a (first ys b) h) a ys b
unfolding unlink_between
unlink-Chain-front h e a [] b c na nb nd = ground arith
unlink-Chain-front h e a (y ∷ ys) b c na nb nd = (
  ground arith,
  ground arith,
  Chain-frame h (unlink_between a y h) y ys b (λ d m. ground arith) (λ d m. ground arith) c.2.2,
)

pub unlink-Chain :
    (h : Links) (e a : ℕ) (xs ys : List ℕ) (b : ℕ)
    → Chain h a (xs ++ e ∷ ys) b
    → a ∉ (xs ++ e ∷ ys)
    → b ∉ (xs ++ e ∷ ys)
    → NoDup (xs ++ e ∷ ys)
    → Chain (unlink_between (last a xs) (first ys b) h) a (xs ++ ys) b
unfolding unlink_between
unlink-Chain h e a [] ys b c na nb nd = unlink-Chain-front h e a ys b c na nb nd
unlink-Chain h e a (x ∷ xs) ys b c na nb nd = (
  ground (
    arith,
    last-mem x xs,
    has-append a xs (e ∷ ys),
    ne_of_mem a (last x xs) (x ∷ xs) (not-mem-append-left a (x ∷ xs) (e ∷ ys) na),
  ),
  ground (
    arith,
    first-mem ys b,
    has-append x xs (e ∷ ys),
    ne_of_mem x (first ys b) (b ∷ ys) (ground (arith, has-append x xs (e ∷ ys))),
  ),
  unlink-Chain h e x xs ys b c.2 nd.0 (ground arith) nd.1,
)

-- Membership and freedom from repetition, with an entry put in the middle.
pub has-insert : (a e : ℕ) (xs ys : List ℕ) → has a (xs ++ e ∷ ys) ≡ ((a == e) || has a (xs ++ ys))
has-insert a e [] ys = refl
has-insert a e (x ∷ xs) ys = ground (arith, has-insert a e xs ys)

pub NoDup-insert :
    (e : ℕ) (xs ys : List ℕ) → NoDup (xs ++ ys) → e ∉ (xs ++ ys) → NoDup (xs ++ e ∷ ys)
NoDup-insert e [] ys nd ne = (ne, nd)
NoDup-insert e (x ∷ xs) ys nd ne =
    (ground (arith, has-insert x e xs ys), NoDup-insert e xs ys nd.1 (ground arith))

pub NoDup-delete :
    (e : ℕ) (xs ys : List ℕ) → NoDup (xs ++ e ∷ ys) → NoDup (xs ++ ys) × (e ∉ (xs ++ ys))
NoDup-delete e [] ys nd = (nd.1, nd.0)
NoDup-delete e (x ∷ xs) ys nd =
    let ih = NoDup-delete e xs ys nd.1 in
    let nx : x ∉ (xs ++ e ∷ ys) = nd.0 in
    ((ground (arith, has-insert x e xs ys), ih.0), ground (arith, has-insert x e xs ys, ih.1))

pub NoDup-right : (xs ys : List ℕ) → NoDup (xs ++ ys) → NoDup ys
NoDup-right [] ys nd = nd
NoDup-right (x ∷ xs) ys nd = NoDup-right xs ys nd.1

pub NoDup-apart : (c : ℕ) (xs ys : List ℕ) → NoDup (xs ++ ys) → c ∈ xs → c ∉ ys
NoDup-apart c [] ys nd i = absurd (ground arith)
NoDup-apart c (x ∷ xs) ys nd i = elim (Bool-cases (c == x)) [
  | inl e ↦
      let out : x ∉ (xs ++ ys) = nd.0 in
      let same : c ≡ x = ground arith in rw same (ground (arith, has-append x xs ys))
  | inr e ↦ NoDup-apart c xs ys nd.1 (ground arith)
]
