-- ===== src/Proc/Waiting.antt =====
-- What do_wait of lab5/kern/process/proc.c makes of the sequence of the children.
use nku_os.Base.{
  ℕ, zero, suc, ◌<◌, ◌≡◌, refl, Bool, true, false, not, ◌||◌, ◌&&◌, List, [], ◌∷◌, arith, ◌==◌,
  if◌then◌else◌, ne→==, some, none, length, inl, inr, Bool-cases,
}
use nku_os.Links.{put}
use nku_os.Errors.{e_bad_proc}
use nku_os.Sched.{ProcState, is_zombie, sleeping}
use nku_os.Proc.{Table}
use nku_os.Proc.Life.{Life, wt_child, with_state}
use nku_os.Proc.Wait.{returned, asleep, wait_scan, reap, do_wait}
use nku_os.Proc.Family.{Olders}

-- The first zombie of a sequence of processes, or 0.
abbrev pub first_zombie : (ℕ → ProcState) → List ℕ → ℕ
first_zombie state [] = 0
first_zombie state (x ∷ xs) = if is_zombie (state x) then x else first_zombie state xs

abbrev pub is_empty : List ℕ → Bool
is_empty [] = true
is_empty (x ∷ xs) = false

or-true : (b : Bool) → (b || true) ≡ true
or-true true = refl
or-true false = refl

and-false : (b : Bool) → (b && false) ≡ false
and-false true = refl
and-false false = refl

wait_scan_lem :
    (n c : ℕ) (b : Bool) (t : Table) (xs : List ℕ)
    → Olders t.optr c xs
    → length xs < n
    → wait_scan n c b t ≡ some (b || not (is_empty xs), first_zombie t.state xs)
unfolding wait_scan
wait_scan_lem zero c b t xs h enough = ground arith
wait_scan_lem (suc n) c true t [] h enough = rw h refl
wait_scan_lem (suc n) c false t [] h enough = rw h refl
wait_scan_lem (suc n) c b t (x ∷ xs) h enough =
    let rest = wait_scan_lem n (t.optr x) true t xs h.2 (ground arith) in
    elim (Bool-cases (is_zombie (t.state x))) [
      | inl z ↦ rw (h.0, ne→== x 0 h.1, z, or-true b) refl
      | inr z ↦ rw (h.0, ne→== x 0 h.1, z, rest, or-true b) refl
    ]

-- `do_wait` for any child (pid 0), with the children `xs`, by the first zombie among them.
pub do_wait_scan :
    (fuel : ℕ) (hash_head : ℕ → ℕ) (code_store : ℕ) (s : Life) (xs : List ℕ)
    → Olders s.table.optr (s.table.cptr s.current) xs
    → length xs < fuel
    → let z = first_zombie s.table.state xs in
      let sleep = record (with_state s.current sleeping s) {
        wait_state = put s.wait_state s.current wt_child;
      } in
      do_wait fuel hash_head 0 code_store true s ≡ (
        if not (z == 0)
        then reap code_store z s
        else if is_empty xs
        then some (returned e_bad_proc none, s)
        else some (asleep, sleep))
unfolding do_wait
do_wait_scan fuel hash_head code_store s [] h enough =
    let trusted = and-false (not (code_store == 0)) in
    rw (wait_scan_lem fuel _ false s.table [] h enough, trusted) refl
do_wait_scan fuel hash_head code_store s (x ∷ xs) h enough =
    let trusted = and-false (not (code_store == 0)) in
    rw (wait_scan_lem fuel _ false s.table (x ∷ xs) h enough, trusted) refl
