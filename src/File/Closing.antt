-- ===== src/File/Closing.antt =====
-- file_close on a valid table.
use nku_os.Base.{ℕ, ◌+◌, ◌-◌, ◌<◌, ◌≡◌, ◌≢◌, refl, true, false, arith, some, ◌==◌, inl, ==-refl}
use nku_os.Links.{put}
use nku_os.Vfs.{Ops}
use nku_os.Vfs.Counts.{IsCounted, vfs_close_lem, less_ref, less_open}
use nku_os.File.{Files, fd_none, fd_closed, is_opened, fd_array_close}
use nku_os.File.Calls.{file_close}
use nku_os.File.Valid.{
  handles_pos, bit, IsFree, IsOpen, IsFiles, SameOthers, IsTable-frame, handles-SameOthers,
  fd2file-IsOpen,
}

module _ {W : Type 0} where
  -- The descriptor `fd` of `s` is closed in `s'`: its inode loses one opener and one reference.
  pub record Closed (s s' : Files W) (fd : ℕ) : Type 0 where
    pub free : IsFree s'.table fd
    pub others : SameOthers s.table s'.table fd
    pub count : s'.table.files_count ≡ s.table.files_count
    pub numbers : (i : ℕ) → s'.table.fd i ≡ s.table.fd i
    pub opens : (x : ℕ) → s'.nodes.opens x + bit (s.table.node fd == x) ≡ s.nodes.opens x
    pub refs : (x : ℕ) → s'.nodes.ref_count x + bit (s.table.node fd == x) ≡ s.nodes.ref_count x

  pub Closed-IsFiles :
      (n fd : ℕ) (s s' : Files W)
      → fd < n
      → IsOpen s.table fd
      → Closed s s' fd
      → IsFiles n s
      → IsFiles n s'
  Closed-IsFiles n fd s s' lt op c v = record {
    table = IsTable-frame n fd s.table s'.table v.table c.others c.numbers (inl c.free);
    nodes = record {
      held = λ x. ground (
        arith,
        handles-SameOthers n s.table s'.table fd x lt c.others,
        op.status,
        c.free.status,
        c.opens x,
        v.nodes.held x,
      );
      counted = λ x.
          let b = v.nodes.counted x in
          record {
            opens_le = omega (arith, c.opens x, c.refs x, b.opens_le);
            small = omega (arith, c.refs x, b.small);
          };
    };
  }

module _ {W : Type 0} (v : Ops W) where
  pub fd_array_close_lem :
      (fd : ℕ) (s : Files W)
      → IsOpen s.table fd
      → IsCounted s.nodes (s.table.node fd)
      → 0 < s.nodes.opens (s.table.node fd)
      → (s' : Files W) × (fd_array_close v fd s ≡ some s') × Closed s s' fd
  unfolding fd_array_close
  fd_array_close_lem fd s op c pos =
      let node = s.table.node fd in
      let (w, e) = vfs_close_lem v s.nodes node op.node c pos in
      let t' = record s.table {
        status = put (put s.table.status fd fd_closed) fd fd_none;
        open_count = put s.table.open_count fd (s.table.open_count fd - 1);
      } in
      let op' : is_opened (s.table.status fd) ≡ true = ground (arith, op.status) in
      let some_open : (s.table.open_count fd == 0) ≡ false = ground (arith, op.once) in
      let last : (s.table.open_count fd - 1 == 0) ≡ true = ground (arith, op.once) in
      let cl : put s.table.status fd fd_closed fd ≡ fd_closed = ground arith in
      let co : put s.table.open_count fd (s.table.open_count fd - 1) fd ≡ 0 =
        ground (arith, op.once) in
      (
        record { table = t'; nodes = less_ref node w (less_open node w s.nodes) },
        rw (op', some_open, last, ==-refl fd, last, e) refl,
        record {
          free = record { status = ground arith; unused = co };
          others = λ i ne. record {
            status = ground arith;
            open_count = ground arith;
            node = refl;
            pos = refl;
            readable = refl;
            writable = refl;
          };
          count = refl;
          numbers = λ i. refl;
          opens = λ x. ground arith;
          refs = λ x. ground (arith, c.opens_le);
        },
      )

  pub close_held :
      (n fd : ℕ) (s : Files W)
      → IsFiles n s
      → fd < n
      → IsOpen s.table fd
      → (s' : Files W) × (fd_array_close v fd s ≡ some s') × Closed s s' fd
  close_held n fd s valid lt entry =
      let node = s.table.node fd in
      fd_array_close_lem fd s entry (valid.nodes.counted node)
        (omega (arith, handles_pos n s.table fd lt entry, valid.nodes.held node))

  -- On a valid table, `file_close` of an open descriptor succeeds: no assertion fails, the descriptor is
  -- free, its inode has one opener and one reference less, the other descriptors and inodes are as they
  -- were, and the table is valid again.
  pub file_close_lem :
      (n fd : ℕ) (s : Files W)
      → IsFiles n s
      → s.table.files_count ≢ 0
      → fd < n
      → is_opened (s.table.status fd) ≡ true
      → (s' : Files W) × (file_close v n fd s ≡ some (0, s')) × Closed s s' fd × IsFiles n s'
  unfolding file_close
  file_close_lem n fd s valid used lt op =
      let (found, entry) = fd2file-IsOpen n fd s.table valid.table used lt op in
      let node = s.table.node fd in
      let (s', e, c) =
        fd_array_close_lem fd s entry (valid.nodes.counted node)
          (omega (arith, handles_pos n s.table fd lt entry, valid.nodes.held node)) in
      (s', rw (found, e) refl, c, Closed-IsFiles n fd s s' lt entry c valid)
