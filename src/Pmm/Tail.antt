-- ===== src/Pmm/Tail.antt =====
-- The insertion loop has no `break` after it appends a block at the end of the free list. It runs
-- once more, on the block itself, and adds it after itself.
use nku_os.Base.{
  ℕ, zero, suc, ◌+◌, ◌≤◌, ◌<◌, ◌≡◌, ◌≢◌, false, List, [], ◌∷◌, arith, some, length, ltb, ne→==, ◌∉◌,
  ◌∙◌,
}
use nku_os.Links.{Links, list_add}
use nku_os.Links.Chain.{Chain, last}
use nku_os.Pmm.{insert_scan}
use nku_os.Pmm.Insert.{UpTo}

-- One round of the loop, by what it meets.
insert_scan-stop :
    (base k le : ℕ) (h : Links) → h.next le ≡ 0 → insert_scan (suc k) le base h ≡ some h
unfolding insert_scan
insert_scan-stop base k le h e = rw e

insert_scan-pass :
    (base k le x y : ℕ) (h : Links)
    → h.next le ≡ x
    → 0 < x
    → x ≤ base
    → h.next x ≡ y
    → 0 < y
    → insert_scan (suc k) le base h ≡ insert_scan k x base h
unfolding insert_scan
insert_scan-pass base k le x y h e z u f w =
    let nb : ltb base x ≡ false = ground arith in
    rw (e, ne→== x 0 (omega arith), nb, f, ne→== y 0 (omega arith))

insert_scan-append :
    (base k le x : ℕ) (h : Links)
    → h.next le ≡ x
    → 0 < x
    → x ≤ base
    → h.next x ≡ 0
    → insert_scan (suc k) le base h ≡ insert_scan k x base (list_add x base h)
unfolding insert_scan
insert_scan-append base k le x h e z u f =
    let nb : ltb base x ≡ false = ground arith in rw (e, ne→== x 0 (omega arith), nb, f)

-- The pointers after the block was appended behind `t`, and then added after itself.
abbrev pub twice : (t base : ℕ) → Links → Links
twice t base h = list_add base base (list_add t base h)

next_x : (x base : ℕ) (h : Links) → x ≢ base → (list_add x base h).next x ≡ base
unfolding list_add
next_x x base h ne = ground arith

pub next_base : (x base : ℕ) (h : Links) → h.next x ≡ 0 → (list_add x base h).next base ≡ 0
unfolding list_add
next_base x base h e = ground arith

-- Along the `next` pointers nothing is wrong after the second insertion.
pub next_twice :
    (x base : ℕ) (h : Links)
    → h.next x ≡ 0
    → (c : ℕ) → (twice x base h).next c ≡ (list_add x base h).next c
unfolding list_add
next_twice x base h e c = ground arith

pub insert_scan-tail :
    (base k le x : ℕ) (h : Links) (xs : List ℕ)
    → Chain h le (x ∷ xs) 0
    → UpTo base (x ∷ xs)
    → base ∉ (x ∷ xs)
    → length xs + 3 < k
    → insert_scan k le base h ≡ some (twice (last x xs) base h)
insert_scan-tail base (suc (suc (suc k))) le x h [] c u out fu =
    insert_scan-append base (suc (suc k)) le x h c.0 u.0 u.1 c.2.0
    ∙ (insert_scan-append base (suc k) x base (list_add x base h) (next_x x base h (ground arith))
          (omega (arith, u.0, u.1)) (omega arith) (next_base x base h c.2.0)
        ∙ insert_scan-stop base k base (twice x base h)
            (next_twice x base h c.2.0 base ∙ next_base x base h c.2.0))
insert_scan-tail base (suc k) le x h (y ∷ ys) c u out fu =
    insert_scan-pass base k le x y h c.0 u.0 u.1 c.2.0 u.2.0
    ∙ insert_scan-tail base k x y h ys c.2 u.2 (ground arith) (omega arith)
insert_scan-tail base zero le x h xs c u out fu = absurd (omega arith)
insert_scan-tail base (suc zero) le x h [] c u out fu = absurd (omega arith)
insert_scan-tail base (suc (suc zero)) le x h [] c u out fu = absurd (omega arith)
