-- ===== src/File/Dup.antt =====
-- file_dup on a valid table.
use nku_os.Base.{
  ℕ, ◌+◌, ◌<◌, ◌≡◌, ◌≢◌, ◌⊎◌, refl, sym, subst, true, arith, some, ◌==◌, inl, inr, ◌∙◌, ap,
}
use nku_os.Errors.{e_max_open}
use nku_os.Vfs.{Ops}
use nku_os.File.{Table, Files, no_fd, is_opened}
use nku_os.File.Calls.{file_dup}
use nku_os.File.Valid.{bit, IsFree, IsOpen, IsFiles, fd2file-IsOpen}
use nku_os.File.Copies.{Added, Copy, copied, copied-Added, fd_array_dup_lem}
use nku_os.File.Alloc.{NoneFree, IsLowest, allocated, allocated-Filling, fd_array_alloc_lem}

-- An open entry in a table where another one has been allocated.
module _ (t : Table) (file fd : ℕ) (free : IsFree t file) (op : IsOpen t fd) where
  apart-allocated : fd ≢ file
  apart-allocated e = ground (arith, ap t.status e, free.status, op.status)

  node-allocated : (allocated file t).node fd ≡ t.node fd
  node-allocated = ground (arith, apart-allocated)

  IsOpen-allocated : IsOpen (allocated file t) fd
  IsOpen-allocated = record {
    status = ground (arith, apart-allocated, op.status);
    once = op.once;
    node = rw node-allocated op.node;
  }

-- The allocation of an entry does not touch the one that is copied.
Copy-allocated :
    (t t' : Table) (file fd : ℕ)
    → IsFree t file
    → IsOpen t fd
    → Copy (allocated file t) t' fd file
    → Copy t t' fd file
Copy-allocated t t' file fd free op c =
    let o = (IsOpen-allocated t file fd free op).status in
    let o' : is_opened ((allocated file t).status fd) ≡ true = rw o refl in
    record {
      status = c.status ∙ o ∙ sym op.status;
      node = λ h. c.node o' ∙ node-allocated t file fd free op;
      pos = λ h. c.pos o';
      readable = λ h. c.readable o';
      writable = λ h. c.writable o';
    }

module _ {W : Type 0} where
  Added-IsFiles :
      (n to from : ℕ) (source : Table) (s s' : Files W)
      → Added n to from source s s'
      → is_opened (source.status from) ≡ true
      → s.nodes.ref_count (source.node from) + 1 < 65536
      → IsFiles n s
      → IsFiles n s'
  Added-IsFiles n to from source s s' a op small v = record {
    table = a.table;
    nodes = record {
      held = λ x. omega (arith, a.opens x, v.nodes.held x);
      counted = λ x.
          let b = v.nodes.counted x in
          record {
            opens_le = omega (arith, a.opens x, a.refs x, b.opens_le);
            small = ground (arith, a.once x op, b.small);
          };
    };
  }

  -- On a valid table in use, with fewer than 2 ^ 16 - 1 references on the inode of the open descriptor
  -- `fd1`, `file_dup` to NO_FD succeeds: either every descriptor is taken, and the result is
  -- E_MAX_OPEN and nothing changes; or the lowest free descriptor becomes a copy of `fd1`, and is
  -- returned, its inode gains one opener and one reference, and the table is valid again.
  pub file_dup_lem :
      (v : Ops W) (n fd1 : ℕ) (s : Files W)
      → IsFiles n s
      → s.table.files_count ≢ 0
      → fd1 < n
      → is_opened (s.table.status fd1) ≡ true
      → s.nodes.ref_count (s.table.node fd1) + 1 < 65536
      → (NoneFree 0 n s.table × (file_dup v n fd1 no_fd s ≡ some (e_max_open, 0, s)))
        ⊎ ((fd2 : ℕ) × (s' : Files W) × IsLowest 0 n s.table fd2
            × (file_dup v n fd1 no_fd s ≡ some (0, fd2, s'))
            × Copy s.table s'.table fd1 fd2
            × (s'.table.files_count ≡ s.table.files_count)
            × ((x : ℕ) → s'.nodes.ref_count x ≡ s.nodes.ref_count x + bit (s.table.node fd1 == x))
            × ((x : ℕ) → s'.nodes.opens x ≡ s.nodes.opens x + bit (s.table.node fd1 == x))
            × IsFiles n s')
  unfolding file_dup
  file_dup_lem v n fd1 s valid used lt op small =
      let (found, entry) = fd2file-IsOpen n fd1 s.table valid.table used lt op in
      elim (fd_array_alloc_lem n s.table valid.table used) [
        | inl (full, e) ↦ inl (full, rw (found, e) refl)
        | inr (fd2, low, free, e) ↦
            let t = allocated fd2 s.table in
            let f = allocated-Filling fd2 s free in
            let from = IsOpen-allocated s.table fd2 fd1 free entry in
            let a =
              copied-Added n fd2 fd1 t s (record s { table = t }) low.lt_hi valid.table free f
                from in
            let d = fd_array_dup_lem fd2 fd1 t (record s { table = t }) f.init from in
            let number = valid.table.numbered fd2 low.lt_hi in
            let opened : is_opened (t.status fd1) ≡ true = rw from.status refl in
            let node = node-allocated s.table fd2 fd1 free entry in
            inr (
              fd2,
              copied fd2 fd1 t (record s { table = t }),
              low,
              rw (found, e, d, number) refl,
              Copy-allocated s.table _ fd2 fd1 free entry a.copy,
              a.count,
              λ x. a.once x opened ∙ ap (λ k. s.nodes.ref_count x + bit (k == x)) node,
              λ x. a.opened x opened ∙ ap (λ k. s.nodes.opens x + bit (k == x)) node,
              Added-IsFiles n fd2 fd1 t s _ a opened
                  (subst (λ k. s.nodes.ref_count k + 1 < 65536) (sym node) small) valid,
            )
      ]
