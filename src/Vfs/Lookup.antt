-- ===== src/Vfs/Lookup.antt =====
-- lab8/kern/fs/vfs/vfslookup.c: the inode of a path. The loops over the path run on fuel.
use nku_os.Base.{
  ℕ, zero, suc, ◌+◌, not, Option, none, some, ◌==◌, if◌then◌else◌, ◌>>=◌, ◌>>◌, assert,
}
use nku_os.Links.{put}
use nku_os.Vfs.{Nodes, Ops, inode_check, inode_ref_dec}

-- Where the loop of `get_device` stops: at a colon, at a slash, or at the end of the path.
pub data Mark : Type 0 where
  colon : ℕ → Mark
  slash : ℕ → Mark
  neither : Mark

-- The loop, from the index `i` on.
unfoldable pub find_mark : (fuel i path : ℕ) → (ℕ → ℕ) → Option Mark
find_mark zero i path m = none
find_mark (suc n) i path m =
    let rest = find_mark n (i + 1) path m in
    if not (m (path + i) == 0)
    then if m (path + i) == b':'
      then some (colon i)
      else if m (path + i) == b'/'
      then some (slash i)
      else rest
    else some neither

-- `while (*(++ path) == '/');`
unfoldable pub skip_slashes : (fuel path : ℕ) → (ℕ → ℕ) → Option ℕ
skip_slashes zero path m = none
skip_slashes (suc n) path m =
    let rest = skip_slashes n (path + 1) m in if m (path + 1) == b'/' then rest else some (path + 1)

module _ {W : Type 0} (v : Ops W) where
  -- `:path`: the root of the file system of the current directory.
  unfoldable pub current_root : Nodes W → Option (ℕ × ℕ × Nodes W)
  unfolding inode_ref_dec
  current_root s =
      let (ret, node, s) = v.vfs_get_curdir s in
      let root = do
        assert (not (v.in_fs node s == 0))
        let (top, s) = v.fsop_get_root (v.in_fs node s) s
        s ← inode_ref_dec v node s
        some (0, top, s)
      in if not (ret == 0) then some (ret, 0, s) else root

  -- The part of `get_device` that follows its loop: the result, the subpath and the inode.
  unfoldable pub device_at : (fuel path : ℕ) → Mark → Nodes W → Option (ℕ × ℕ × ℕ × Nodes W)
  unfolding skip_slashes current_root
  device_at fuel path (colon (suc i)) s = do
    let s = record s { mem = put s.mem (path + suc i) 0 }
    sub ← skip_slashes fuel (path + suc i) s.mem
    let (ret, node, s) = v.vfs_get_root path s
    some (ret, sub, node, s)
  device_at fuel path (colon zero) s = do
    (ret, node, s) ← current_root s
    let found = do sub ← skip_slashes fuel path s.mem; some (0, sub, node, s)
    if not (ret == 0) then some (ret, 0, 0, s) else found
  device_at fuel path (slash zero) s = do
    let (ret, node, s) = v.vfs_get_bootfs s
    let found = do sub ← skip_slashes fuel path s.mem; some (0, sub, node, s)
    if not (ret == 0) then some (ret, 0, 0, s) else found
  device_at fuel path mark s = let (ret, node, s) = v.vfs_get_curdir s in some (ret, path, node, s)

  unfoldable pub get_device : (fuel path : ℕ) → Nodes W → Option (ℕ × ℕ × ℕ × Nodes W)
  unfolding find_mark device_at
  get_device fuel path s = do mark ← find_mark fuel 0 path s.mem; device_at fuel path mark s

  unfoldable pub vfs_lookup : (fuel path : ℕ) → Nodes W → Option (ℕ × ℕ × Nodes W)
  unfolding get_device inode_ref_dec
  vfs_lookup fuel path s = do
    (ret, sub, node, s) ← get_device fuel path s
    let walk = do
      assert (inode_check node s)
      let (ret, found, s) = v.vop_lookup node sub s
      s ← inode_ref_dec v node s
      some (ret, found, s)
    if not (ret == 0)
        then some (ret, 0, s)
        else if not (s.mem sub == 0)
        then walk
        else some (0, node, s)

  -- The result, the inode that goes to `node_store` and the path that goes to `endp`.
  unfoldable pub vfs_lookup_parent : (fuel path : ℕ) → Nodes W → Option (ℕ × ℕ × ℕ × Nodes W)
  unfolding get_device
  vfs_lookup_parent fuel path s = do
    (ret, sub, node, s) ← get_device fuel path s
    some (if not (ret == 0) then (ret, 0, 0, s) else (0, node, sub, s))
