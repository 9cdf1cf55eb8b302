-- ===== src/Vfs.antt =====
-- lab8/kern/fs/vfs/inode.c, and vfs_close of vfsfile.c: the counts of inodes. The operations of a file
-- system, the table `inode_ops`, and the choice of a first directory are parameters, which act on a
-- world of any type. A result is the number of the error, 0 if there is none: the code's -E_INVAL is
-- `e_inval`. An inode is known by its address, a path by that of its first byte.
pub mod Lookup
pub mod Opening
pub mod Counts
pub mod Device
pub mod Creating
pub mod Existing
pub mod Tests
use nku_os.Base.{
  ℕ, zero, suc, ◌+◌, ◌-◌, ◌/◌, ◌%◌, ◌^◌, Bool, true, false, not, ◌&&◌, ◌||◌, Option, none, some,
  ◌==◌, ltb, leb, if◌then◌else◌, ◌>>=◌, ◌>>◌, assert,
}
use nku_os.Links.{put}
use nku_os.Errors.{e_inval, e_noent, e_exists}

-- The counts of every inode, the bytes of the kernel's memory, and the world of the file systems.
pub record Nodes (W : Type 0) : Type 0 where
  pub ref_count : ℕ → ℕ
  pub opens : ℕ → ℕ
  pub mem : ℕ → ℕ
  pub world : W

-- `struct iobuf`.
pub record IoBuf : Type 0 where
  pub io_base : ℕ
  pub io_offset : ℕ
  pub io_len : ℕ
  pub io_resid : ℕ

unfoldable pub iobuf_init : (base len offset : ℕ) → IoBuf
iobuf_init base len offset = record {
  io_base = base;
  io_offset = offset;
  io_len = len;
  io_resid = len;
}

unfoldable pub iobuf_used : IoBuf → ℕ
iobuf_used iob = (iob.io_len + 2 ^ 64 - iob.io_resid) % 2 ^ 64

-- What a file system brings, and where a lookup starts. A function that stores an inode returns it
-- beside its result: what the caller's variable holds afterwards, whatever the result. `vop_fstat`
-- returns st_size.
pub record Ops (W : Type 0) : Type 0 where
  pub vop_open : (node flags : ℕ) → W → ℕ × W
  pub vop_close : (node : ℕ) → W → ℕ × W
  pub vop_reclaim : (node : ℕ) → W → ℕ × W
  pub vop_truncate : (node len : ℕ) → W → ℕ × W
  pub vop_read : (node : ℕ) → IoBuf → W → ℕ × IoBuf × W
  pub vop_write : (node : ℕ) → IoBuf → W → ℕ × IoBuf × W
  pub vop_getdirentry : (node : ℕ) → IoBuf → W → ℕ × IoBuf × W
  pub vop_fstat : (node : ℕ) → W → ℕ × ℕ × W
  pub vop_fsync : (node : ℕ) → W → ℕ × W
  pub vop_tryseek : (node pos : ℕ) → W → ℕ × W
  pub vop_lookup : (node path : ℕ) → Nodes W → ℕ × ℕ × Nodes W
  pub vop_create : (dir name : ℕ) → (excl : Bool) → Nodes W → ℕ × ℕ × Nodes W
  pub vfs_get_curdir : Nodes W → ℕ × ℕ × Nodes W
  pub vfs_get_bootfs : Nodes W → ℕ × ℕ × Nodes W
  pub vfs_get_root : (devname : ℕ) → Nodes W → ℕ × ℕ × Nodes W
  pub in_fs : (node : ℕ) → Nodes W → ℕ
  pub fsop_get_root : (fs : ℕ) → Nodes W → ℕ × Nodes W

-- The file access flags.
abbrev pub o_accmode : ℕ → ℕ
o_accmode flags = flags % 4

abbrev pub o_creat : ℕ → Bool
o_creat flags = flags / 4 % 2 == 1

abbrev pub o_excl : ℕ → Bool
o_excl flags = flags / 8 % 2 == 1

abbrev pub o_trunc : ℕ → Bool
o_trunc flags = flags / 16 % 2 == 1

abbrev pub o_append : ℕ → Bool
o_append flags = flags / 32 % 2 == 1

module _ {W : Type 0} where
  -- `inode_check`, which every `vop` call makes first; the operations are there.
  abbrev pub inode_check : ℕ → Nodes W → Bool
  inode_check node s =
      not (node == 0)
      && (leb (s.opens node) (s.ref_count node)
          && (ltb (s.ref_count node) 65536 && ltb (s.opens node) 65536))

  -- A `vop` call that changes the world only.
  abbrev pub vop : ℕ → (W → ℕ × W) → Nodes W → Option (ℕ × Nodes W)
  vop node f s = do
    assert (inode_check node s)
    let (ret, w) = f s.world
    some (ret, record s { world = w })

  unfoldable pub inode_ref_inc : ℕ → Nodes W → Nodes W
  inode_ref_inc node s = record s { ref_count = put s.ref_count node (s.ref_count node + 1) }

  unfoldable pub inode_open_inc : ℕ → Nodes W → Nodes W
  inode_open_inc node s = record s { opens = put s.opens node (s.opens node + 1) }

  unfoldable pub inode_init : ℕ → Nodes W → Nodes W
  unfolding inode_ref_inc
  inode_init node s =
      inode_ref_inc node
        (record s { ref_count = put s.ref_count node 0; opens = put s.opens node 0 })

  unfoldable pub inode_kill : ℕ → Nodes W → Option (Nodes W)
  inode_kill node s = do assert (s.ref_count node == 0); assert (s.opens node == 0); some s

module _ {W : Type 0} (v : Ops W) where
  -- An error of `vop_reclaim` is only printed.
  unfoldable pub inode_ref_dec : ℕ → Nodes W → Option (Nodes W)
  inode_ref_dec node s = do
    assert (ltb 0 (s.ref_count node))
    let s = record s { ref_count = put s.ref_count node (s.ref_count node - 1) }
    let reclaim = do (ret, s) ← vop node (v.vop_reclaim node) s; some s
    if s.ref_count node == 0 then reclaim else some s

  unfoldable pub inode_open_dec : ℕ → Nodes W → Option (Nodes W)
  inode_open_dec node s = do
    assert (ltb 0 (s.opens node))
    let s = record s { opens = put s.opens node (s.opens node - 1) }
    let close = do (ret, s) ← vop node (v.vop_close node) s; some s
    if s.opens node == 0 then close else some s

  unfoldable pub vfs_close : ℕ → Nodes W → Option (Nodes W)
  unfolding inode_open_dec inode_ref_dec
  vfs_close node s = do s ← inode_open_dec node s; inode_ref_dec node s
