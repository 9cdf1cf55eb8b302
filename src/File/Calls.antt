-- ===== src/File/Calls.antt =====
-- lab8/kern/fs/file.c: the calls on descriptors.
use nku_os.Base.{
  ℕ, ◌+◌, ◌%◌, ◌^◌, Bool, not, Option, some, ◌==◌, if◌then◌else◌, ◌>>=◌, ◌>>◌, assert,
}
use nku_os.Links.{put}
use nku_os.Errors.{e_inval}
use nku_os.Vfs.{
  Ops, Nodes, IoBuf, vop, inode_check, vfs_close, o_accmode, o_append, iobuf_init, iobuf_used,
}
use nku_os.Vfs.Opening.{vfs_open}
use nku_os.File.{
  Files, is_opened, no_fd, fd2file, fd_array_alloc, fd_array_acquire, fd_array_release,
  fd_array_open, fd_array_free, fd_array_close, fd_array_dup,
}

module _ {W : Type 0} (v : Ops W) where
  unfoldable pub file_close : (n fd : ℕ) → Files W → Option (ℕ × Files W)
  unfolding fd2file fd_array_close
  file_close n fd s = do
    (ret, file) ← fd2file n fd s.table
    let close = do s ← fd_array_close v file s; some (0, s)
    if not (ret == 0) then some (ret, s) else close

  -- `file_open` behind `vfs_open`, with the entry `file` and the inode `node`: the error, or 0 and the
  -- descriptor.
  unfoldable pub set_up :
      (file node flags : ℕ) → (readable writable : Bool) → Files W → Option (ℕ × ℕ × Files W)
  unfolding fd_array_open
  set_up file node flags readable writable s =
      let append = do
        assert (inode_check node s.nodes)
        let (ret, size, w) = v.vop_fstat node s.nodes.world
        some (ret, size, record s.nodes { world = w })
      in do
        (ret, size, nodes) ← if o_append flags then append else some (0, 0, s.nodes)
        let failed = do
          nodes ← vfs_close v node nodes
          s ← fd_array_free v file (record s { nodes = nodes })
          some (ret, 0, s)
        let t = s.table
        let opened = do
          t ← fd_array_open file (record t {
            pos = put t.pos file size;
            node = put t.node file node;
            readable = put t.readable file readable;
            writable = put t.writable file writable;
          })
          some (0, t.fd file, record s { table = t; nodes = nodes })
        if not (ret == 0) then failed else opened

  unfoldable pub file_open : (n fuel path flags : ℕ) → Files W → Option (ℕ × ℕ × Files W)
  unfolding set_up
  file_open n fuel path flags s =
      let mode = o_accmode flags in
      let go = do
        (ret, file, t) ← fd_array_alloc n no_fd s.table
        let opened = do
          (ret, node, nodes) ← vfs_open v fuel path flags s.nodes
          let s = record s { table = t; nodes = nodes }
          let failed = do s ← fd_array_free v file s; some (ret, 0, s)
          if not (ret == 0)
              then failed
              else set_up file node flags (not (mode == 1)) (not (mode == 0)) s
        if not (ret == 0) then some (ret, 0, record s { table = t }) else opened
      in if mode == 3 then some (e_inval, 0, s) else go

  -- A transfer between `acquire` and `release`: the result, the bytes copied, and the state.
  unfoldable pub transfer :
      (IoBuf → W → ℕ × IoBuf × W) → (file base len : ℕ) → Files W → Option (ℕ × ℕ × Files W)
  unfolding fd_array_acquire fd_array_release iobuf_init iobuf_used
  transfer op file base len s = do
    t ← fd_array_acquire file s.table
    assert (inode_check (t.node file) s.nodes)
    let (ret, iob, w) = op (iobuf_init base len (t.pos file)) s.nodes.world
    let copied = iobuf_used iob
    let moved = record t { pos = put t.pos file ((t.pos file + copied) % 2 ^ 64) }
    s ← fd_array_release v file (record s {
      table = if is_opened (t.status file) then moved else t;
      nodes = record s.nodes { world = w };
    })
    some (ret, copied, s)

  unfoldable pub file_read : (n fd base len : ℕ) → Files W → Option (ℕ × ℕ × Files W)
  unfolding fd2file transfer
  file_read n fd base len s = do
    (ret, file) ← fd2file n fd s.table
    let read = transfer (v.vop_read (s.table.node file)) file base len s
    if not (ret == 0)
        then some (ret, 0, s)
        else if not (s.table.readable file)
        then some (e_inval, 0, s)
        else read

  unfoldable pub file_write : (n fd base len : ℕ) → Files W → Option (ℕ × ℕ × Files W)
  unfolding fd2file transfer
  file_write n fd base len s = do
    (ret, file) ← fd2file n fd s.table
    let written = transfer (v.vop_write (s.table.node file)) file base len s
    if not (ret == 0)
        then some (ret, 0, s)
        else if not (s.table.writable file)
        then some (e_inval, 0, s)
        else written

  -- The switch of `file_seek`: the result, the new position, and the state.
  unfoldable pub seek_pos : (file pos whence : ℕ) → Files W → Option (ℕ × ℕ × Nodes W)
  seek_pos file pos whence s =
      let at_end = do
        assert (inode_check (s.table.node file) s.nodes)
        let (ret, size, w) = v.vop_fstat (s.table.node file) s.nodes.world
        some (ret, (if ret == 0 then (pos + size) % 2 ^ 64 else pos), record s.nodes { world = w })
      in if whence == 0
        then some (0, pos, s.nodes)
        else if whence == 1
        then some (0, (pos + s.table.pos file) % 2 ^ 64, s.nodes)
        else if whence == 2
        then at_end
        else some (e_inval, pos, s.nodes)

  -- `file_seek` behind its switch.
  unfoldable pub seek_to : (file ret pos : ℕ) → Files W → Option (ℕ × Files W)
  unfolding fd_array_release
  seek_to file ret pos s =
      let t = s.table in
      let try = do
        (ret, nodes) ← vop (t.node file) (v.vop_tryseek (t.node file) pos) s.nodes
        some (ret, (if ret == 0 then record t { pos = put t.pos file pos } else t), nodes)
      in do
        (ret, t, nodes) ← if ret == 0 then try else some (ret, t, s.nodes)
        s ← fd_array_release v file (record s { table = t; nodes = nodes })
        some (ret, s)

  unfoldable pub file_seek : (n fd pos whence : ℕ) → Files W → Option (ℕ × Files W)
  unfolding fd2file fd_array_acquire seek_pos seek_to
  file_seek n fd pos whence s = do
    (ret, file) ← fd2file n fd s.table
    let seek = do
      t ← fd_array_acquire file s.table
      (ret, pos, nodes) ← seek_pos file pos whence (record s { table = t })
      seek_to file ret pos (record s { table = t; nodes = nodes })
    if not (ret == 0) then some (ret, s) else seek

  -- The result, st_size, and the state.
  unfoldable pub file_fstat : (n fd : ℕ) → Files W → Option (ℕ × ℕ × Files W)
  unfolding fd2file fd_array_acquire fd_array_release
  file_fstat n fd s = do
    (ret, file) ← fd2file n fd s.table
    let stat = do
      t ← fd_array_acquire file s.table
      assert (inode_check (t.node file) s.nodes)
      let (ret, size, w) = v.vop_fstat (t.node file) s.nodes.world
      s ← fd_array_release v file (record s { table = t; nodes = record s.nodes { world = w } })
      some (ret, size, s)
    if not (ret == 0) then some (ret, 0, s) else stat

  unfoldable pub file_fsync : (n fd : ℕ) → Files W → Option (ℕ × Files W)
  unfolding fd2file fd_array_acquire fd_array_release
  file_fsync n fd s = do
    (ret, file) ← fd2file n fd s.table
    let sync = do
      t ← fd_array_acquire file s.table
      (ret, nodes) ← vop (t.node file) (v.vop_fsync (t.node file)) s.nodes
      s ← fd_array_release v file (record s { table = t; nodes = nodes })
      some (ret, s)
    if not (ret == 0) then some (ret, s) else sync

  -- The directory entry is its name's address and size, and its offset: the result, the new offset,
  -- and the state.
  unfoldable pub file_getdirentry : (n fd name size offset : ℕ) → Files W → Option (ℕ × ℕ × Files W)
  unfolding fd2file fd_array_acquire fd_array_release iobuf_init iobuf_used
  file_getdirentry n fd name size offset s = do
    (ret, file) ← fd2file n fd s.table
    let read = do
      t ← fd_array_acquire file s.table
      assert (inode_check (t.node file) s.nodes)
      let (ret, iob, w) =
          v.vop_getdirentry (t.node file) (iobuf_init name size offset) s.nodes.world
      s ← fd_array_release v file (record s { table = t; nodes = record s.nodes { world = w } })
      some (ret, (if ret == 0 then (offset + iobuf_used iob) % 2 ^ 64 else offset), s)
    if not (ret == 0) then some (ret, offset, s) else read

  -- The error, or 0 and the descriptor.
  unfoldable pub file_dup : (n fd1 fd2 : ℕ) → Files W → Option (ℕ × ℕ × Files W)
  unfolding fd2file fd_array_alloc fd_array_dup
  file_dup n fd1 fd2 s = do
    (ret, file1) ← fd2file n fd1 s.table
    let alloc = do
      (ret, file2, t) ← fd_array_alloc n fd2 s.table
      let dup = do
        s ← fd_array_dup file2 file1 t (record s { table = t })
        some (0, s.table.fd file2, s)
      if not (ret == 0) then some (ret, 0, s) else dup
    if not (ret == 0) then some (ret, 0, s) else alloc
