-- ===== src/File/Alloc.antt =====
-- fd_array_alloc: the lowest free descriptor.
use nku_os.Base.{
  ℕ, zero, suc, ◌+◌, ◌≤◌, ◌<◌, ◌≡◌, ◌≢◌, ◌⊎◌, refl, true, false, arith, Option, none, some, ◌==◌,
  Bool-cases, inl, inr, ne→==,
}
use nku_os.Links.{put}
use nku_os.Errors.{e_max_open}
use nku_os.File.{Table, Files, fd_init, is_none, no_fd, alloc_scan, fd_array_alloc}
use nku_os.File.Valid.{IsFree, IsTable}
use nku_os.File.Copies.{Filling}

-- No descriptor from `lo` on and below `hi` is free.
abbrev pub NoneFree : (lo hi : ℕ) → Table → Type 0
NoneFree lo hi t = (i : ℕ) → lo ≤ i → i < hi → is_none (t.status i) ≡ false

-- The descriptor `file` is the lowest free one from `lo` on.
pub record IsLowest (lo hi : ℕ) (t : Table) (file : ℕ) : Type 0 where
  pub lo_le : lo ≤ file
  pub lt_hi : file < hi
  pub free : is_none (t.status file) ≡ true
  pub below : NoneFree lo file t

abbrev Scanned : (lo hi : ℕ) → Table → Option ℕ → Type 0
Scanned lo hi t none = NoneFree lo hi t
Scanned lo hi t (some file) = IsLowest lo hi t file

NoneFree-step :
    (lo hi : ℕ) (t : Table)
    → is_none (t.status lo) ≡ false
    → NoneFree (lo + 1) hi t
    → NoneFree lo hi t
NoneFree-step lo hi t h rest i a b = elim (Bool-cases (i == lo)) [
  | inl e ↦ let e : i ≡ lo = ground arith in rw e h
  | inr ne ↦ rest i (ground arith) b
]

Scanned-step :
    (lo hi : ℕ) (t : Table) (o : Option ℕ)
    → is_none (t.status lo) ≡ false
    → Scanned (lo + 1) hi t o
    → Scanned lo hi t o
Scanned-step lo hi t none h s = NoneFree-step lo hi t h s
Scanned-step lo hi t (some file) h s = record {
  lo_le = omega (arith, s.lo_le);
  lt_hi = s.lt_hi;
  free = s.free;
  below = NoneFree-step lo file t h s.below;
}

alloc_scan-Scanned :
    (left fd hi : ℕ) (t : Table) → hi ≡ fd + left → Scanned fd hi t (alloc_scan left fd t)
unfolding alloc_scan
alloc_scan-Scanned zero fd hi t e = λ i lo lt. absurd (omega arith)
alloc_scan-Scanned (suc k) fd hi t e = elim (Bool-cases (is_none (t.status fd))) [
  | inl free ↦ rw free (record {
    lo_le = omega arith;
    lt_hi = omega arith;
    free = free;
    below = λ i lo lt. absurd (omega arith);
  })
  | inr busy ↦ rw busy (
      Scanned-step fd hi t (alloc_scan k (fd + 1) t) busy
        (alloc_scan-Scanned k (fd + 1) hi t (omega arith)))
]

-- The table with the entry `file` allocated.
abbrev pub allocated : ℕ → Table → Table
allocated file t = record t { status = put t.status file fd_init; node = put t.node file 0 }

pub IsFree-none :
    (n fd : ℕ) (t : Table) → IsTable n t → fd < n → is_none (t.status fd) ≡ true → IsFree t fd
IsFree-none n fd t v lt empty = elim (v.entries fd lt) [
  | inl free ↦ free
  | inr op ↦ absurd (ground (arith, op.status))
]

-- In a table in use, the descriptor that NO_FD stands for is the lowest free one; without a free one the
-- result is E_MAX_OPEN and the table is as it was.
pub fd_array_alloc_lem :
    (n : ℕ) (t : Table)
    → IsTable n t
    → t.files_count ≢ 0
    → (NoneFree 0 n t × (fd_array_alloc n no_fd t ≡ some (e_max_open, 0, t)))
      ⊎ ((file : ℕ) × IsLowest 0 n t file
          × IsFree t file
          × (fd_array_alloc n no_fd t ≡ some (0, file, allocated file t)))
unfolding fd_array_alloc
fd_array_alloc_lem n t v used =
    at_scan (alloc_scan n 0 t) (alloc_scan-Scanned n 0 n t (omega arith)) refl
  where
    at_scan :
        (o : Option ℕ)
        → Scanned 0 n t o
        → alloc_scan n 0 t ≡ o
        → (NoneFree 0 n t × (fd_array_alloc n no_fd t ≡ some (e_max_open, 0, t)))
          ⊎ ((file : ℕ) × IsLowest 0 n t file
              × IsFree t file
              × (fd_array_alloc n no_fd t ≡ some (0, file, allocated file t)))
    at_scan none s e = inl (s, rw (ne→== t.files_count 0 used, e) refl)
    at_scan (some file) s e =
        let free = IsFree-none n file t v s.lt_hi s.free in
        let unused : (t.open_count file == 0) ≡ true = ground (arith, free.unused) in
        inr (file, s, free, rw (ne→== t.files_count 0 used, e, unused) refl)

pub allocated-Filling :
    {W : Type 0} (file : ℕ) (s : Files W)
    → IsFree s.table file
    → Filling file s (record s { table = allocated file s.table })
allocated-Filling file s free = record {
  init = ground arith;
  unused = free.unused;
  others = λ i ne. record {
    status = ground arith;
    open_count = refl;
    node = ground arith;
    pos = refl;
    readable = refl;
    writable = refl;
  };
  numbers = refl;
  count = refl;
  pwd = refl;
  nodes = refl;
}
