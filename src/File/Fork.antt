-- ===== src/File/Fork.antt =====
-- dup_files: a process gets the open files of its parent; and files_destroy gives them back.
use nku_os.Base.{
  ℕ, ◌+◌, ◌≤◌, ◌<◌, ◌≡◌, ◌≢◌, ◌⊎◌, refl, true, arith, some, ◌==◌, Bool-cases, inl, inr, ◌&&◌,
  if◌then◌else◌, not, ne→==, ◌∙◌,
}
use nku_os.Vfs.{Ops, inode_ref_inc}
use nku_os.File.{Table, Files}
use nku_os.File.Tables.{dup_files, files_destroy}
use nku_os.File.Valid.{
  handles, handles_none, bit, IsFree, IsTable, IsFiles, SameEntry, IsTable-same, IsFree-same,
}
use nku_os.File.Copies.{Copy}
use nku_os.File.Sweep.{files_destroy_lem}
use nku_os.File.Inherit.{handles-Copy, dup_loop_lem}

module _ {W : Type 0} where
  -- The child `s'` of a process with the table `source` has copies of its open files, each counted by
  -- its inode, and the directory.
  pub record Forked (n : ℕ) (source : Table) (s s' : Files W) : Type 0 where
    pub table : IsTable n s'.table
    pub copies : (i : ℕ) → i < n → Copy source s'.table i i
    pub count : s'.table.files_count ≡ 0
    pub pwd : s'.table.pwd ≡ source.pwd
    pub held : (x : ℕ) → handles n s'.table x ≡ handles n source x
    pub opens : (x : ℕ) → s'.nodes.opens x ≡ s.nodes.opens x + handles n source x
    pub refs :
        (x : ℕ)
        → s'.nodes.ref_count x
          ≡ s.nodes.ref_count x + handles n source x + bit (not (x == 0) && (x == source.pwd))

  -- From a valid table in use, `dup_files` into an empty table succeeds: every entry of the child is a copy
  -- of the parent's, with its position and its rights, and each inode gains an opener and a reference
  -- for each descriptor that is open on it, and the directory one more reference.
  pub dup_files_lem :
      (n : ℕ) (source : Table) (s : Files W)
      → IsTable n source
      → source.files_count ≢ 0
      → IsTable n s.table
      → ((i : ℕ) → i < n → IsFree s.table i)
      → s.table.files_count ≡ 0
      → (s' : Files W) × (dup_files n source s ≡ some s') × Forked n source s s'
  unfolding dup_files inode_ref_inc
  dup_files_lem n source s vs used v free unused =
      let nodes = if not (source.pwd == 0) then inode_ref_inc source.pwd s.nodes else s.nodes in
      let s₁ = record s { table = record s.table { pwd = source.pwd }; nodes = nodes } in
      let (s', e, c) =
        dup_loop_lem n n 0 source s₁ (omega arith) vs
          (IsTable-same n s.table s₁.table (λ i. same i) (λ i. refl) v)
          (λ i lo hi. IsFree-same s.table s₁.table i (same i) (free i hi)) in
      let held =
        λ (x : ℕ). handles-Copy n source s'.table x (λ i lt. c.copies i (omega arith) lt) in
      let empty = λ (x : ℕ).
        handles_none n s₁.table x (λ i lt. IsFree-same s.table s₁.table i (same i) (free i lt)) in
      let zero_count : (s.table.files_count == 0) ≡ true = ground arith in
      (
        s',
        rw (zero_count, ne→== source.files_count 0 used, e) refl,
        record {
          table = c.table;
          copies = λ i lt. c.copies i (omega arith) lt;
          count = c.count ∙ unused;
          pwd = c.pwd;
          held = held;
          opens = λ x. omega (arith, c.opens x, held x, empty x, counted x);
          refs = λ x. ground (arith, c.refs x, held x, empty x);
        },
      )
    where
      same : (i : ℕ) → SameEntry s.table (record s.table { pwd = source.pwd }) i
      same i = record {
        status = refl;
        open_count = refl;
        node = refl;
        pos = refl;
        readable = refl;
        writable = refl;
      }

      counted :
          (x : ℕ)
          → (if not (source.pwd == 0) then inode_ref_inc source.pwd s.nodes else s.nodes).opens x
            ≡ s.nodes.opens x
      counted x = ground arith

module _ {W : Type 0} (v : Ops W) where
  -- What `dup_files` takes for a child, `files_destroy` gives back: from a valid table in use, with fewer
  -- than 2 ^ 16 references on each inode after the fork, the child's table can be destroyed, and
  -- then every inode has as many openers and references as before the fork.
  pub files_destroy-dup_files :
      (n : ℕ) (source : Table) (s : Files W)
      → IsTable n source
      → source.files_count ≢ 0
      → IsTable n s.table
      → ((i : ℕ) → i < n → IsFree s.table i)
      → s.table.files_count ≡ 0
      → ((x : ℕ) → s.nodes.opens x ≤ s.nodes.ref_count x)
      → ((x : ℕ) → s.nodes.ref_count x + handles n source x + 1 < 65536)
      → (s' s'' : Files W) × (dup_files n source s ≡ some s')
        × (files_destroy v n s' ≡ some s'')
        × ((x : ℕ) → s''.nodes.opens x ≡ s.nodes.opens x)
        × ((x : ℕ) → s''.nodes.ref_count x ≡ s.nodes.ref_count x)
  files_destroy-dup_files n source s vs used v' free unused le small =
      let (s', e, f) = dup_files_lem n source s vs used v' free unused in
      let valid : IsFiles n s' = record {
        table = f.table;
        nodes = record {
          held = λ x. omega (arith, f.held x, f.opens x);
          counted = λ x. record {
            opens_le = omega (arith, f.opens x, f.refs x, le x);
            small = ground (arith, f.refs x, small x);
          };
        };
      } in
      let spare : (s'.table.pwd ≡ 0)
          ⊎ (s'.nodes.opens s'.table.pwd + 1 ≤ s'.nodes.ref_count s'.table.pwd) =
        elim (Bool-cases (s'.table.pwd == 0)) [
          | inl null ↦ inl (ground arith)
          | inr some_dir ↦
              let d = s'.table.pwd in inr (ground (arith, f.opens d, f.refs d, f.pwd, le d))
        ] in
      let (s'', e', none, opens, refs) = files_destroy_lem v n s' valid f.count spare in
      (
        s',
        s'',
        e,
        e',
        λ x. omega (arith, opens x, f.opens x, f.held x),
        λ x. ground (arith, refs x, f.refs x, f.held x, f.pwd),
      )
