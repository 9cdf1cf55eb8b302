-- ===== src/File.antt =====
-- lab8/kern/fs/file.c: the table of open files of a process, and the operations on descriptors. A
-- `struct file` is known by its index in `fd_array`; a descriptor is a 32-bit pattern, so that a
-- negative one is not below the table's size `n`, FILES_STRUCT_NENTRY; an off_t is a 64-bit pattern.
pub mod Calls
pub mod Tables
pub mod Valid
pub mod Sweep
pub mod Copies
pub mod Alloc
pub mod Inherit
pub mod Fork
pub mod Seek
pub mod Brief
pub mod Session
pub mod Closing
pub mod Transfer
pub mod Dup
pub mod Opened
pub mod Opens
mod Tests
use nku_os.Base.{
  ℕ, zero, suc, ◌+◌, ◌-◌, ◌%◌, ◌^◌, Bool, true, false, not, ◌&&◌, ◌||◌, Option, none, some, ◌==◌,
  ltb, if◌then◌else◌, ◌>>=◌, ◌>>◌, assert,
}
use nku_os.Links.{put}
use nku_os.Errors.{e_inval, e_busy, e_max_open}
use nku_os.Vfs.{
  Ops, Nodes, IoBuf, vop, inode_check, inode_ref_inc, inode_open_inc, vfs_close, o_accmode,
  o_append,
}

pub data Status : Type 0 where
  fd_none fd_init fd_opened fd_closed : Status

abbrev pub is_none : Status → Bool
is_none fd_none = true
is_none _ = false

abbrev pub is_init : Status → Bool
is_init fd_init = true
is_init _ = false

abbrev pub is_opened : Status → Bool
is_opened fd_opened = true
is_opened _ = false

abbrev pub is_closed : Status → Bool
is_closed fd_closed = true
is_closed _ = false

-- The fields of every `struct file` of the table, and those of its `files_struct`.
pub record Table : Type 0 where
  pub status : ℕ → Status
  pub readable : ℕ → Bool
  pub writable : ℕ → Bool
  pub fd : ℕ → ℕ
  pub pos : ℕ → ℕ
  pub node : ℕ → ℕ
  pub open_count : ℕ → ℕ
  pub files_count : ℕ
  pub pwd : ℕ

-- The table of the current process, and the inodes.
pub record Files (W : Type 0) : Type 0 where
  pub table : Table
  pub nodes : Nodes W

abbrev pub no_fd : ℕ
no_fd = 2 ^ 32 - 38183

-- The loop of `fd_array_init`, from `fd` on.
unfoldable pub fd_array_init : (left fd : ℕ) → Table → Table
fd_array_init zero fd t = t
fd_array_init (suc k) fd t = fd_array_init k (fd + 1) (record t {
  open_count = put t.open_count fd 0;
  status = put t.status fd fd_none;
  fd = put t.fd fd fd;
})

-- The search of `fd_array_alloc`, from `fd` on; `none` if no entry is free.
unfoldable pub alloc_scan : (left fd : ℕ) → Table → Option ℕ
alloc_scan zero fd t = none
alloc_scan (suc k) fd t =
    let rest = alloc_scan k (fd + 1) t in if is_none (t.status fd) then some fd else rest

-- `file->status = FD_INIT, file->node = NULL`, behind its assertion.
unfoldable pub found : (file : ℕ) → Table → Option (ℕ × ℕ × Table)
found file t = do
  assert (t.open_count file == 0)
  some (0, file, record t { status = put t.status file fd_init; node = put t.node file 0 })

-- The end of `fd_array_alloc` once the search for any entry is over.
unfoldable pub found_or_full : Option ℕ → Table → Option (ℕ × ℕ × Table)
unfolding found
found_or_full (some file) t = found file t
found_or_full none t = some (e_max_open, 0, t)

-- The result, the entry that goes to `file_store` if the result is 0, and the table.
unfoldable pub fd_array_alloc : (n fd : ℕ) → Table → Option (ℕ × ℕ × Table)
unfolding alloc_scan found found_or_full
fd_array_alloc n fd t = do
  assert (not (t.files_count == 0))
  let scan = found_or_full (alloc_scan n 0 t) t
  if fd == no_fd
      then scan
      else if ltb fd n
      then if is_none (t.status fd) then found fd t else some (e_busy, 0, t)
      else some (e_inval, 0, t)

-- `fd2file`: the entry of a descriptor, which is its number.
unfoldable pub fd2file : (n fd : ℕ) → Table → Option (ℕ × ℕ)
fd2file n fd t =
    let opened = do
      assert (not (t.files_count == 0))
      some (if is_opened (t.status fd) && (t.fd fd == fd) then (0, fd) else (e_inval, 0))
    in if ltb fd n then opened else some (e_inval, 0)

unfoldable pub file_testfd : (n fd : ℕ) → (readable writable : Bool) → Table → Option Bool
unfolding fd2file
file_testfd n fd readable writable t = do
  (ret, file) ← fd2file n fd t
  some (
      if not (ret == 0)
      then false
      else not (readable && not (t.readable file)) && not (writable && not (t.writable file)))

unfoldable pub fd_array_acquire : (file : ℕ) → Table → Option Table
fd_array_acquire file t = do
  assert (is_opened (t.status file))
  some (record t { open_count = put t.open_count file (t.open_count file + 1) })

unfoldable pub fd_array_open : (file : ℕ) → Table → Option Table
fd_array_open file t = do
  assert (is_init (t.status file) && not (t.node file == 0))
  some (record t {
    status = put t.status file fd_opened;
    open_count = put t.open_count file (t.open_count file + 1);
  })

module _ {W : Type 0} (v : Ops W) where
  unfoldable pub fd_array_free : (file : ℕ) → Files W → Option (Files W)
  fd_array_free file s = do
    let t = s.table
    assert (is_init (t.status file) || is_closed (t.status file))
    assert (t.open_count file == 0)
    nodes ← if is_closed (t.status file) then vfs_close v (t.node file) s.nodes else some s.nodes
    some (record s { table = record t { status = put t.status file fd_none }; nodes = nodes })

  unfoldable pub fd_array_release : (file : ℕ) → Files W → Option (Files W)
  unfolding fd_array_free
  fd_array_release file s = do
    let t = s.table
    assert (is_opened (t.status file) || is_closed (t.status file))
    assert (not (t.open_count file == 0))
    let s' = record s {
      table = record t { open_count = put t.open_count file (t.open_count file - 1) };
    }
    if t.open_count file - 1 == 0 then fd_array_free file s' else some s'

  unfoldable pub fd_array_close : (file : ℕ) → Files W → Option (Files W)
  unfolding fd_array_free
  fd_array_close file s = do
    let t = s.table
    assert (is_opened (t.status file))
    assert (not (t.open_count file == 0))
    let t' = record t {
      status = put t.status file fd_closed;
      open_count = put t.open_count file (t.open_count file - 1);
    }
    let s' = record s { table = t' }
    if t.open_count file - 1 == 0 then fd_array_free file s' else some s'

-- From an entry of one table to one of the other, which is the state's.
unfoldable pub fd_array_dup : {W : Type 0} (to from : ℕ) → Table → Files W → Option (Files W)
unfolding fd_array_open inode_ref_inc inode_open_inc
fd_array_dup to from source s = do
  let t = s.table
  assert (is_init (t.status to) && is_opened (source.status from))
  let nodes = inode_open_inc (source.node from) (inode_ref_inc (source.node from) s.nodes)
  t ← fd_array_open to (record t {
    pos = put t.pos to (source.pos from);
    readable = put t.readable to (source.readable from);
    writable = put t.writable to (source.writable from);
    node = put t.node to (source.node from);
  })
  some (record s { table = t; nodes = nodes })
