-- ===== src/File/Valid.antt =====
-- What holds of the table of open files and the counts of inodes between two calls.
use nku_os.Base.{
  ℕ, zero, suc, ◌+◌, ◌≤◌, ◌<◌, ◌≡◌, ◌≢◌, ◌⊎◌, refl, true, false, arith, some, ◌==◌, Bool,
  Bool-cases, inl, inr, lt→ltb, ◌&&◌, ◌∙◌, ne→==, ==-refl, ==→ne,
}
use nku_os.Vfs.Counts.{IsCounted}
use nku_os.File.{Table, Files, fd_none, fd_opened, is_opened, fd2file}

abbrev pub bit : Bool → ℕ
bit true = 1
bit false = 0

-- How many of the first `n` descriptors are open on an inode.
unfoldable pub handles : (n : ℕ) → Table → (node : ℕ) → ℕ
handles zero t x = 0
handles (suc k) t x = handles k t x + bit (is_opened (t.status k) && (t.node k == x))

-- An entry is free, or it is open once, on an inode.
pub record IsFree (t : Table) (fd : ℕ) : Type 0 where
  pub status : t.status fd ≡ fd_none
  pub unused : t.open_count fd ≡ 0

pub record IsOpen (t : Table) (fd : ℕ) : Type 0 where
  pub status : t.status fd ≡ fd_opened
  pub once : t.open_count fd ≡ 1
  pub node : t.node fd ≢ 0

pub record IsTable (n : ℕ) (t : Table) : Type 0 where
  pub entries : (fd : ℕ) → fd < n → IsFree t fd ⊎ IsOpen t fd
  pub numbered : (fd : ℕ) → fd < n → t.fd fd ≡ fd

-- Every open descriptor is counted by its inode.
pub record IsHeld {W : Type 0} (n : ℕ) (s : Files W) : Type 0 where
  pub held : (node : ℕ) → handles n s.table node ≤ s.nodes.opens node
  pub counted : (node : ℕ) → IsCounted s.nodes node

pub record IsFiles {W : Type 0} (n : ℕ) (s : Files W) : Type 0 where
  pub table : IsTable n s.table
  pub nodes : IsHeld n s

-- A change of one entry.
pub handles-frame :
    (n : ℕ) (t t' : Table) (x : ℕ)
    → ((i : ℕ) → i < n → (t'.status i ≡ t.status i) × (t'.node i ≡ t.node i))
    → handles n t' x ≡ handles n t x
unfolding handles
handles-frame zero t t' x h = refl
handles-frame (suc k) t t' x h =
    let (a, b) = h k (omega arith) in
    rw (a, b, handles-frame k t t' x (λ i lt. h i (omega arith))) refl

pub handles_one :
    (n : ℕ) (t t' : Table) (fd x : ℕ)
    → fd < n
    → ((i : ℕ) → i ≢ fd → (t'.status i ≡ t.status i) × (t'.node i ≡ t.node i))
    → handles n t' x + bit (is_opened (t.status fd) && (t.node fd == x))
      ≡ handles n t x + bit (is_opened (t'.status fd) && (t'.node fd == x))
unfolding handles
handles_one zero t t' fd x lt h = absurd (omega arith)
handles_one (suc k) t t' fd x lt h = elim (Bool-cases (k == fd)) [
  | inl here ↦
      let e : k ≡ fd = ground arith in
      let rest = handles-frame fd t t' x (λ i l. h i (λ q. absurd (omega arith))) in
      rw e (omega (arith, rest))
  | inr other ↦
      let (a, b) = h k (==→ne k fd other) in
      let rest = handles_one k t t' fd x (ground arith) h in rw (a, b) (omega (arith, rest))
]

pub handles_pos : (n : ℕ) (t : Table) (fd : ℕ) → fd < n → IsOpen t fd → 1 ≤ handles n t (t.node fd)
unfolding handles
handles_pos zero t fd lt o = absurd (omega arith)
handles_pos (suc k) t fd lt o = elim (Bool-cases (k == fd)) [
  | inl here ↦ let e : k ≡ fd = ground arith in rw (e, o.status, ==-refl (t.node fd)) (omega arith)
  | inr other ↦ omega (arith, handles_pos k t fd (ground arith) o)
]

-- A valid descriptor is found, and it is open.
pub fd2file-IsOpen :
    (n fd : ℕ) (t : Table)
    → IsTable n t
    → t.files_count ≢ 0
    → fd < n
    → is_opened (t.status fd) ≡ true
    → (fd2file n fd t ≡ some (0, fd)) × IsOpen t fd
unfolding fd2file
fd2file-IsOpen n fd t v pos lt op =
    let used = ne→== t.files_count 0 pos in
    let number : (t.fd fd == fd) ≡ true = ground (arith, v.numbered fd lt) in
    elim (v.entries fd lt) [
      | inl free ↦ absurd (ground (arith, free.status))
      | inr open_entry ↦ (rw (lt→ltb fd n lt, used, op, number) refl, open_entry)
    ]

-- An entry is left alone.
pub record SameEntry (t t' : Table) (fd : ℕ) : Type 0 where
  pub status : t'.status fd ≡ t.status fd
  pub open_count : t'.open_count fd ≡ t.open_count fd
  pub node : t'.node fd ≡ t.node fd
  pub pos : t'.pos fd ≡ t.pos fd
  pub readable : t'.readable fd ≡ t.readable fd
  pub writable : t'.writable fd ≡ t.writable fd

pub SameEntry-refl : (t : Table) (i : ℕ) → SameEntry t t i
SameEntry-refl t i = record {
  status = refl;
  open_count = refl;
  node = refl;
  pos = refl;
  readable = refl;
  writable = refl;
}

pub SameEntry-trans :
    (t t' t'' : Table) (i : ℕ) → SameEntry t t' i → SameEntry t' t'' i → SameEntry t t'' i
SameEntry-trans t t' t'' i a b = record {
  status = b.status ∙ a.status;
  open_count = b.open_count ∙ a.open_count;
  node = b.node ∙ a.node;
  pos = b.pos ∙ a.pos;
  readable = b.readable ∙ a.readable;
  writable = b.writable ∙ a.writable;
}

pub IsFree-same : (t t' : Table) (i : ℕ) → SameEntry t t' i → IsFree t i → IsFree t' i
IsFree-same t t' i e f = record { status = e.status ∙ f.status; unused = e.open_count ∙ f.unused }

abbrev pub SameOthers : (t t' : Table) → (fd : ℕ) → Type 0
SameOthers t t' fd = (i : ℕ) → i ≢ fd → SameEntry t t' i

IsOpen-same : (t t' : Table) (i : ℕ) → SameEntry t t' i → IsOpen t i → IsOpen t' i
IsOpen-same t t' i e o = record {
  status = e.status ∙ o.status;
  once = e.open_count ∙ o.once;
  node = rw e.node o.node;
}

entry-same :
    (t t' : Table) (i : ℕ) → SameEntry t t' i → IsFree t i ⊎ IsOpen t i → IsFree t' i ⊎ IsOpen t' i
entry-same t t' i e (inl free) = inl (IsFree-same t t' i e free)
entry-same t t' i e (inr op) = inr (IsOpen-same t t' i e op)

pub IsTable-same :
    (n : ℕ) (t t' : Table)
    → ((i : ℕ) → SameEntry t t' i)
    → ((i : ℕ) → t'.fd i ≡ t.fd i)
    → IsTable n t
    → IsTable n t'
IsTable-same n t t' same number v = record {
  entries = λ i lt. entry-same t t' i (same i) (v.entries i lt);
  numbered = λ i lt. rw (number i) (v.numbered i lt);
}

-- A table stays valid when one entry becomes another valid one.
pub IsTable-frame :
    (n fd : ℕ) (t t' : Table)
    → IsTable n t
    → SameOthers t t' fd
    → ((i : ℕ) → t'.fd i ≡ t.fd i)
    → IsFree t' fd ⊎ IsOpen t' fd
    → IsTable n t'
IsTable-frame n fd t t' v same number here = record {
  entries = λ i lt. elim (Bool-cases (i == fd)) [
    | inl e ↦ let e : i ≡ fd = ground arith in rw e here
    | inr ne ↦ entry-same t t' i (same i (==→ne i fd ne)) (v.entries i lt)
  ];
  numbered = λ i lt. rw (number i) (v.numbered i lt);
}

pub handles-SameOthers :
    (n : ℕ) (t t' : Table) (fd x : ℕ)
    → fd < n
    → SameOthers t t' fd
    → handles n t' x + bit (is_opened (t.status fd) && (t.node fd == x))
      ≡ handles n t x + bit (is_opened (t'.status fd) && (t'.node fd == x))
handles-SameOthers n t t' fd x lt same =
    handles_one n t t' fd x lt (λ i ne. let q = same i ne in (q.status, q.node))

pub handles_none : (n : ℕ) (t : Table) (x : ℕ) → ((i : ℕ) → i < n → IsFree t i) → handles n t x ≡ 0
unfolding handles
handles_none zero t x h = refl
handles_none (suc k) t x h =
    let f = h k (omega arith) in
    rw (f.status) (omega (arith, handles_none k t x (λ i lt. h i (omega arith))))
