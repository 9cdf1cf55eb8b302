-- ===== src/File/Tables.antt =====
-- lab8/kern/fs/fs.c: the tables of open files of whole processes.
use nku_os.Base.{
  ℕ, zero, suc, ◌+◌, ◌-◌, not, ◌&&◌, Option, some, ◌==◌, if◌then◌else◌, ◌>>=◌, ◌>>◌, assert,
}
use nku_os.Links.{put}
use nku_os.Vfs.{Ops, inode_ref_inc, inode_ref_dec}
use nku_os.File.{
  Table, Files, fd_init, is_none, is_opened, fd_array_init, fd_array_close, fd_array_dup,
}

-- `files_create`, behind its allocation.
unfoldable pub files_create : (n : ℕ) → Table → Table
unfolding fd_array_init
files_create n t = fd_array_init n 0 (record t { files_count = 0; pwd = 0 })

-- `dup_files`: the loop, from `fd` on, into the table of the state.
unfoldable pub dup_loop : {W : Type 0} (left fd : ℕ) → (source : Table) → Files W → Option (Files W)
unfolding fd_array_dup
dup_loop zero fd source s = some s
dup_loop (suc k) fd source s = do
  let t = s.table
  let dup =
      fd_array_dup fd fd source (record s { table = record t { status = put t.status fd fd_init } })
  s ← if is_opened (source.status fd) then dup else some s
  dup_loop k (fd + 1) source s

unfoldable pub dup_files : {W : Type 0} (n : ℕ) → (source : Table) → Files W → Option (Files W)
unfolding dup_loop inode_ref_inc
dup_files n source s = do
  assert ((s.table.files_count == 0) && not (source.files_count == 0))
  let t = s.table
  let nodes = if not (source.pwd == 0) then inode_ref_inc source.pwd s.nodes else s.nodes
  dup_loop n 0 source (record s { table = record t { pwd = source.pwd }; nodes = nodes })

module _ {W : Type 0} (v : Ops W) where
  -- The loop of `files_destroy`, from `fd` on.
  unfoldable pub destroy_loop : (left fd : ℕ) → Files W → Option (Files W)
  unfolding fd_array_close
  destroy_loop zero fd s = some s
  destroy_loop (suc k) fd s = do
    s ← if is_opened (s.table.status fd) then fd_array_close v fd s else some s
    assert (is_none (s.table.status fd))
    destroy_loop k (fd + 1) s

  unfoldable pub files_destroy : (n : ℕ) → Files W → Option (Files W)
  unfolding destroy_loop inode_ref_dec
  files_destroy n s = do
    assert (s.table.files_count == 0)
    nodes ← if not (s.table.pwd == 0) then inode_ref_dec v s.table.pwd s.nodes else some s.nodes
    destroy_loop n 0 (record s { nodes = nodes })

  -- The loop of `files_closeall`, from `fd` on.
  unfoldable pub closeall_loop : (left fd : ℕ) → Files W → Option (Files W)
  unfolding fd_array_close
  closeall_loop zero fd s = some s
  closeall_loop (suc k) fd s = do
    s ← if is_opened (s.table.status fd) then fd_array_close v fd s else some s
    closeall_loop k (fd + 1) s

  -- `n` entries, the first two of which are kept.
  unfoldable pub files_closeall : (n : ℕ) → Files W → Option (Files W)
  unfolding closeall_loop
  files_closeall n s = do assert (not (s.table.files_count == 0)); closeall_loop (n - 2) 2 s
