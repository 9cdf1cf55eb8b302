-- ===== src/File/Transfer.antt =====
-- file_read, file_write and file_seek on a valid table, and every call on a descriptor that is not open.
use nku_os.Base.{
  ℕ, ◌+◌, ◌-◌, ◌%◌, ◌<◌, ◌^◌, ◌≡◌, ◌≢◌, refl, sym, true, false, arith, some, ◌==◌, ltb, Bool-cases,
  inl, inr, ne→==, ==-refl, ==→ne, ◌∙◌,
}
use nku_os.Links.{put}
use nku_os.Errors.{e_inval}
use nku_os.Vfs.{Ops, IoBuf, iobuf_init, iobuf_used}
use nku_os.Vfs.Counts.{IsCounted, IsCounted-check}
use nku_os.File.{Table, Files, is_opened, fd2file, fd_array_release}
use nku_os.File.Calls.{
  transfer, file_read, file_write, file_seek, file_close, file_fstat, file_fsync, file_getdirentry,
  file_dup,
}
use nku_os.File.Valid.{handles-frame, IsOpen, IsFiles, SameOthers, IsTable-frame, fd2file-IsOpen}

module _ {W : Type 0} where
  -- After a call on the open descriptor `fd` its position is `p`; nothing else changes but the world,
  -- which becomes `w`.
  pub record Moved (s s' : Files W) (fd p : ℕ) (w : W) : Type 0 where
    pub here : IsOpen s'.table fd
    pub pos : s'.table.pos fd ≡ p
    pub node : s'.table.node fd ≡ s.table.node fd
    pub readable : s'.table.readable ≡ s.table.readable
    pub writable : s'.table.writable ≡ s.table.writable
    pub others : SameOthers s.table s'.table fd
    pub numbers : (i : ℕ) → s'.table.fd i ≡ s.table.fd i
    pub count : s'.table.files_count ≡ s.table.files_count
    pub nodes : s'.nodes ≡ record s.nodes { world = w }

  pub Moved-IsFiles :
      (n fd pos : ℕ) (w : W) (s s' : Files W)
      → IsFiles n s
      → IsOpen s.table fd
      → Moved s s' fd pos w
      → IsFiles n s'
  Moved-IsFiles n fd pos w s s' v op m = record {
    table = IsTable-frame n fd s.table s'.table v.table m.others m.numbers (inr m.here);
    nodes = record {
      held = λ x.
          rw (m.nodes) (rw (handles-frame n s.table s'.table x (λ i lt. same i)) (v.nodes.held x));
      counted = λ x.
          let b = v.nodes.counted x in
          rw (m.nodes) (record { opens_le = b.opens_le; small = b.small });
    };
  }
    where
      same : (i : ℕ) → (s'.table.status i ≡ s.table.status i) × (s'.table.node i ≡ s.table.node i)
      same i = elim (Bool-cases (i == fd)) [
        | inl e ↦ let e : i ≡ fd = ground arith in rw e (m.here.status ∙ sym op.status, m.node)
        | inr ne ↦ let q = m.others i (==→ne i fd ne) in (q.status, q.node)
      ]

module _ {W : Type 0} (v : Ops W) where
  -- A descriptor that is held for a while and released again.
  abbrev pub during : (fd pos : ℕ) → W → Files W → Files W
  during fd pos w s = record {
    table = record s.table {
      open_count = put s.table.open_count fd (s.table.open_count fd + 1);
      pos = put s.table.pos fd pos;
    };
    nodes = record s.nodes { world = w };
  }

  pub fd_array_release_lem :
      (fd pos : ℕ) (w : W) (s : Files W)
      → IsOpen s.table fd
      → (s' : Files W) × (fd_array_release v fd (during fd pos w s) ≡ some s') × Moved s s' fd pos w
  unfolding fd_array_release
  fd_array_release_lem fd pos w s op =
      let t = (during fd pos w s).table in
      let held : (s.table.open_count fd + 1 == 0) ≡ false = ground arith in
      let more : (s.table.open_count fd + 1 - 1 == 0) ≡ false = ground (arith, op.once) in
      (
        record (during fd pos w s) {
          table = record t { open_count = put t.open_count fd (t.open_count fd - 1) };
        },
        rw (op.status, ==-refl fd, held, more) refl,
        record {
          here = record { status = op.status; once = ground (arith, op.once); node = op.node };
          pos = ground arith;
          node = refl;
          readable = refl;
          writable = refl;
          others = λ i ne. record {
            status = refl;
            open_count = ground arith;
            node = refl;
            pos = ground arith;
            readable = refl;
            writable = refl;
          };
          numbers = λ i. refl;
          count = refl;
          nodes = refl;
        },
      )

  transfer_lem :
      (op : IoBuf → W → ℕ × IoBuf × W) (fd base len : ℕ) (s : Files W)
      → IsOpen s.table fd
      → IsCounted s.nodes (s.table.node fd)
      → let (ret, iob, w) = op (iobuf_init base len (s.table.pos fd)) s.nodes.world in
        (s' : Files W) × (transfer v op fd base len s ≡ some (ret, iobuf_used iob, s'))
        × Moved s s' fd ((s.table.pos fd + iobuf_used iob) % 2 ^ 64) w
  unfolding transfer
  transfer_lem op fd base len s o c =
      let (ret, iob, w) = op (iobuf_init base len (s.table.pos fd)) s.nodes.world in
      let (s', e, m) = fd_array_release_lem fd ((s.table.pos fd + iobuf_used iob) % 2 ^ 64) w s o in
      (s', rw (o.status, IsCounted-check s.nodes (s.table.node fd) o.node c, o.status, e) refl, m)

  -- On a valid table in use, `file_read` of a descriptor that is open for reading succeeds in calling the
  -- file system with a buffer at the descriptor's position: it returns that call's result and the bytes
  -- it used up, the position is that much further modulo 2 ^ 64, nothing else of the table or the
  -- counts changes, and the table is valid again.
  pub file_read_lem :
      (n fd base len : ℕ) (s : Files W)
      → IsFiles n s
      → s.table.files_count ≢ 0
      → fd < n
      → is_opened (s.table.status fd) ≡ true
      → s.table.readable fd ≡ true
      → let (ret, iob, w) =
          v.vop_read (s.table.node fd) (iobuf_init base len (s.table.pos fd)) s.nodes.world in
        (s' : Files W) × (file_read v n fd base len s ≡ some (ret, iobuf_used iob, s'))
        × Moved s s' fd ((s.table.pos fd + iobuf_used iob) % 2 ^ 64) w
        × IsFiles n s'
  unfolding file_read
  file_read_lem n fd base len s valid used lt op right =
      let (found, entry) = fd2file-IsOpen n fd s.table valid.table used lt op in
      let node = s.table.node fd in
      let (ret, iob, w) = v.vop_read node (iobuf_init base len (s.table.pos fd)) s.nodes.world in
      let (s', e, m) =
        transfer_lem (v.vop_read node) fd base len s entry (valid.nodes.counted node) in
      (s', rw (found, right, e) refl, m, Moved-IsFiles n fd _ w s s' valid entry m)

  -- The same of `file_write`, of a descriptor that is open for writing.
  pub file_write_lem :
      (n fd base len : ℕ) (s : Files W)
      → IsFiles n s
      → s.table.files_count ≢ 0
      → fd < n
      → is_opened (s.table.status fd) ≡ true
      → s.table.writable fd ≡ true
      → let (ret, iob, w) =
          v.vop_write (s.table.node fd) (iobuf_init base len (s.table.pos fd)) s.nodes.world in
        (s' : Files W) × (file_write v n fd base len s ≡ some (ret, iobuf_used iob, s'))
        × Moved s s' fd ((s.table.pos fd + iobuf_used iob) % 2 ^ 64) w
        × IsFiles n s'
  unfolding file_write
  file_write_lem n fd base len s valid used lt op right =
      let (found, entry) = fd2file-IsOpen n fd s.table valid.table used lt op in
      let node = s.table.node fd in
      let (ret, iob, w) = v.vop_write node (iobuf_init base len (s.table.pos fd)) s.nodes.world in
      let (s', e, m) =
        transfer_lem (v.vop_write node) fd base len s entry (valid.nodes.counted node) in
      (s', rw (found, right, e) refl, m, Moved-IsFiles n fd _ w s s' valid entry m)

  fd2file-closed :
      (n fd : ℕ) (t : Table)
      → t.files_count ≢ 0
      → (fd < n → is_opened (t.status fd) ≡ false)
      → fd2file n fd t ≡ some (e_inval, 0)
  unfolding fd2file
  fd2file-closed n fd t used closed = elim (Bool-cases (ltb fd n)) [
    | inl lt ↦ rw (lt, ne→== t.files_count 0 used, closed (ground arith)) refl
    | inr ge ↦ rw ge refl
  ]

  -- Every call on a descriptor that is out of range, or not open, returns E_INVAL and changes nothing,
  -- in a table that is in use.
  pub calls_refused :
      (n fd a b c : ℕ) (s : Files W)
      → s.table.files_count ≢ 0
      → (fd < n → is_opened (s.table.status fd) ≡ false)
      → (file_close v n fd s ≡ some (e_inval, s))
        × (file_read v n fd a b s ≡ some (e_inval, 0, s))
        × (file_write v n fd a b s ≡ some (e_inval, 0, s))
        × (file_seek v n fd a b s ≡ some (e_inval, s))
        × (file_fstat v n fd s ≡ some (e_inval, 0, s))
        × (file_fsync v n fd s ≡ some (e_inval, s))
        × (file_getdirentry v n fd a b c s ≡ some (e_inval, c, s))
        × (file_dup v n fd a s ≡ some (e_inval, 0, s))
  unfolding file_close file_read file_write file_seek file_fstat file_fsync file_getdirentry
      file_dup
  calls_refused n fd a b c s used closed =
      let e = fd2file-closed n fd s.table used closed in
      (rw e refl, rw e refl, rw e refl, rw e refl, rw e refl, rw e refl, rw e refl, rw e refl)
