-- ===== src/Vfs/Opening.antt =====
-- lab8/kern/fs/vfs/vfsfile.c: vfs_open.
use nku_os.Base.{ℕ, Bool, not, ◌&&◌, ◌||◌, Option, some, ◌==◌, if◌then◌else◌, ◌>>=◌, ◌>>◌, assert}
use nku_os.Errors.{e_inval, e_noent, e_exists}
use nku_os.Vfs.{
  Nodes, Ops, vop, inode_check, inode_ref_dec, inode_open_inc, inode_open_dec, o_accmode, o_creat,
  o_excl, o_trunc,
}
use nku_os.Vfs.Lookup.{vfs_lookup, vfs_lookup_parent}

module _ {W : Type 0} (v : Ops W) where
  -- The first half: the inode of the path, made if it has to be. The result of `vop_create` is
  -- overwritten by that of `vop_open` before it is read.
  unfoldable pub find_or_create :
      (fuel path : ℕ) → (excl create : Bool) → Nodes W → Option (ℕ × ℕ × Nodes W)
  find_or_create fuel path excl create s = do
    (ret, node, s) ← vfs_lookup v fuel path s
    let make = do
      (ret, dir, name, s) ← vfs_lookup_parent v fuel path s
      let made = do
        assert (inode_check dir s)
        let (ret, node, s) = v.vop_create dir name excl s
        some (0, node, s)
      if not (ret == 0) then some (ret, 0, s) else made
    if not (ret == 0)
        then if (ret == e_noent) && create then make else some (ret, 0, s)
        else if excl && create
        then some (e_exists, 0, s)
        else some (0, node, s)

  -- The second half: the inode is opened, and truncated where that is asked for.
  unfoldable pub open_node : (node flags : ℕ) → Nodes W → Option (ℕ × ℕ × Nodes W)
  unfolding inode_open_inc
  open_node node flags s = do
    assert (not (node == 0))
    (ret, s) ← vop node (v.vop_open node flags) s
    let refused = do s ← inode_ref_dec v node s; some (ret, 0, s)
    let opened = inode_open_inc node s
    let truncated = do
      (ret, s) ← vop node (v.vop_truncate node 0) opened
      let failed = do s ← inode_open_dec v node s; s ← inode_ref_dec v node s; some (ret, 0, s)
      if not (ret == 0) then failed else some (0, node, s)
    if not (ret == 0)
        then refused
        else if o_trunc flags || o_creat flags
        then truncated
        else some (0, node, opened)

  -- The result, the inode that goes to `node_store` if the result is 0, and the state.
  unfoldable pub vfs_open : (fuel path flags : ℕ) → Nodes W → Option (ℕ × ℕ × Nodes W)
  unfolding find_or_create open_node
  vfs_open fuel path flags s =
      let mode = o_accmode flags in
      let can_write = (mode == 1) || (mode == 2) in
      let go = do
        (ret, node, s) ← find_or_create fuel path (o_excl flags) (o_creat flags) s
        if not (ret == 0) then some (ret, 0, s) else open_node node flags s
      in if (mode == 3) || (o_trunc flags && not can_write) then some (e_inval, 0, s) else go
