-- ===== src/File/Inherit.antt =====
-- The loop of dup_files: each open file of the parent becomes one of the child.
use nku_os.Base.{
  ℕ, zero, suc, ◌+◌, ◌-◌, ◌≤◌, ◌<◌, ◌≡◌, ◌⊎◌, refl, sym, arith, Option, some, ◌==◌, Bool-cases, inl,
  inr, if◌then◌else◌, ◌∙◌,
}
use nku_os.Links.{put}
use nku_os.File.{Table, Files, fd_init, is_opened, fd_array_dup}
use nku_os.File.Tables.{dup_loop}
use nku_os.File.Valid.{
  handles, IsFree, IsOpen, IsTable, SameEntry, SameEntry-refl, SameEntry-trans, IsFree-same,
}
use nku_os.File.Copies.{Copy, Added, Filling, copied, copied-Added, fd_array_dup_lem}

pub Copy-same :
    (source t t' : Table) (fd : ℕ) → SameEntry t t' fd → Copy source t fd fd → Copy source t' fd fd
Copy-same source t t' fd e c = record {
  status = e.status ∙ c.status;
  node = λ o. e.node ∙ c.node o;
  pos = λ o. e.pos ∙ c.pos o;
  readable = λ o. e.readable ∙ c.readable o;
  writable = λ o. e.writable ∙ c.writable o;
}

pub handles-Copy :
    (n : ℕ) (source t : Table) (x : ℕ)
    → ((i : ℕ) → i < n → Copy source t i i)
    → handles n t x ≡ handles n source x
unfolding handles
handles-Copy zero source t x h = refl
handles-Copy (suc k) source t x h =
    let c = h k (omega arith) in
    let rest = handles-Copy k source t x (λ i lt. h i (omega arith)) in
    rw (c.status, rest) (ground (arith, c.node))

module _ {W : Type 0} where
  -- The entries from `fd` on are copies, and counted by their inodes.
  pub record Copied (n fd : ℕ) (source : Table) (s s' : Files W) : Type 0 where
    pub table : IsTable n s'.table
    pub copies : (i : ℕ) → fd ≤ i → i < n → Copy source s'.table i i
    pub same : (i : ℕ) → i < fd → SameEntry s.table s'.table i
    pub count : s'.table.files_count ≡ s.table.files_count
    pub pwd : s'.table.pwd ≡ s.table.pwd
    pub opens :
        (x : ℕ) → s'.nodes.opens x + handles n s.table x ≡ s.nodes.opens x + handles n s'.table x
    pub refs :
        (x : ℕ)
        → s'.nodes.ref_count x + handles n s.table x ≡ s.nodes.ref_count x + handles n s'.table x

  -- One round.
  abbrev dup_entry : ℕ → Table → Files W → Option (Files W)
  dup_entry fd source s =
      let t = s.table in
      if is_opened (source.status fd)
      then fd_array_dup fd fd source
          (record s { table = record t { status = put t.status fd fd_init } })
      else some s

  Copied-step :
      (n fd : ℕ) (source : Table) (s s' s'' : Files W)
      → Added n fd fd source s s'
      → Copied n (fd + 1) source s' s''
      → Copied n fd source s s''
  Copied-step n fd source s s' s'' a c = record {
    table = c.table;
    copies = λ i lo hi. elim (Bool-cases (i == fd)) [
      | inl e ↦
          let e : i ≡ fd = ground arith in
          rw e (Copy-same source s'.table s''.table fd (c.same fd (omega arith)) a.copy)
      | inr ne ↦ c.copies i (ground arith) hi
    ];
    same = λ i lt.
        SameEntry-trans s.table s'.table s''.table i (a.others i (λ e. absurd (omega arith)))
          (c.same i (omega arith));
    count = c.count ∙ a.count;
    pwd = c.pwd ∙ a.pwd;
    opens = λ x. omega (arith, a.opens x, c.opens x);
    refs = λ x. omega (arith, a.refs x, c.refs x);
  }

  dup_entry_lem :
      (n fd : ℕ) (source : Table) (s : Files W)
      → fd < n
      → IsTable n s.table
      → IsFree s.table fd
      → IsFree source fd ⊎ IsOpen source fd
      → (s' : Files W) × (dup_entry fd source s ≡ some s') × Added n fd fd source s s'
  dup_entry_lem n fd source s lt v free (inl none) = (
    s,
    rw none.status refl,
    record {
      table = v;
      copy = record {
        status = free.status ∙ sym none.status;
        node = λ o. ground (arith, none.status);
        pos = λ o. ground (arith, none.status);
        readable = λ o. ground (arith, none.status);
        writable = λ o. ground (arith, none.status);
      };
      others = λ i ne. SameEntry-refl s.table i;
      count = refl;
      pwd = refl;
      opens = λ x. refl;
      refs = λ x. refl;
      once = λ x o. ground (arith, none.status);
      opened = λ x o. ground (arith, none.status);
    },
  )
  dup_entry_lem n fd source s lt v free (inr op) =
      let t = s.table in
      let s₁ = record s { table = record t { status = put t.status fd fd_init } } in
      let init : s₁.table.status fd ≡ fd_init = ground arith in
      let f : Filling fd s s₁ = record {
        init = init;
        unused = free.unused;
        others = λ i ne. record {
          status = ground arith;
          open_count = refl;
          node = refl;
          pos = refl;
          readable = refl;
          writable = refl;
        };
        numbers = refl;
        count = refl;
        pwd = refl;
        nodes = refl;
      } in
      (
        copied fd fd source s₁,
        rw (op.status, fd_array_dup_lem fd fd source s₁ init op) refl,
        copied-Added n fd fd source s s₁ lt v free f op,
      )

  pub dup_loop_lem :
      (left n fd : ℕ) (source : Table) (s : Files W)
      → left ≡ n - fd
      → IsTable n source
      → IsTable n s.table
      → ((i : ℕ) → fd ≤ i → i < n → IsFree s.table i)
      → (s' : Files W) × (dup_loop left fd source s ≡ some s') × Copied n fd source s s'
  unfolding dup_loop
  dup_loop_lem zero n fd source s left vs v free = (
    s,
    refl,
    record {
      table = v;
      copies = λ i lo hi. absurd (omega arith);
      same = λ i lt. SameEntry-refl s.table i;
      count = refl;
      pwd = refl;
      opens = λ x. refl;
      refs = λ x. refl;
    },
  )
  dup_loop_lem (suc k) n fd source s left vs v free =
      let lt : fd < n = omega arith in
      let (s', e, a) =
        dup_entry_lem n fd source s lt v (free fd (omega arith) lt) (vs.entries fd lt) in
      let free' = λ (i : ℕ) (lo : fd + 1 ≤ i) (hi : i < n).
        IsFree-same s.table s'.table i (a.others i (λ e. absurd (omega arith)))
          (free i (omega arith) hi) in
      let (s'', e', c) = dup_loop_lem k n (fd + 1) source s' (omega arith) vs a.table free' in
      (s'', rw (e, e') refl, Copied-step n fd source s s' s'' a c)
