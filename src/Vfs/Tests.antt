-- ===== src/Vfs/Tests.antt =====
-- The theorems on vfs_open at a file system that always succeeds.
use nku_os.Base.{ℕ, ◌+◌, ◌≡◌, refl, [], ◌∷◌, arith, some, ◌==◌, if◌then◌else◌}
use nku_os.Links.{put}
use nku_os.Str.Strings.{IsString}
use nku_os.Vfs.{Nodes, Ops}
use nku_os.Vfs.Lookup.{vfs_lookup, get_device}
use nku_os.Vfs.Creating.{Looked}
use nku_os.Vfs.Device.{drop_slashes, get_device_twice}

abbrev take_ref : ℕ → Nodes ℕ → ℕ × ℕ × Nodes ℕ
take_ref node s = (0, node, record s { ref_count = put s.ref_count node (s.ref_count node + 1) })

-- The current directory is the inode 40, the root of the boot file system 60, and every path leads to 50.
abbrev pub plain_fs : Ops ℕ
plain_fs = record {
  vop_open = λ node flags w. (0, w);
  vop_close = λ node w. (0, w);
  vop_reclaim = λ node w. (0, w);
  vop_truncate = λ node len w. (0, w);
  vop_read = λ node iob w. (0, record iob { io_resid = 0 }, w + 1);
  vop_write = λ node iob w. (0, record iob { io_resid = 0 }, w + 1);
  vop_getdirentry = λ node iob w. (0, iob, w);
  vop_fstat = λ node w. (0, 100, w);
  vop_fsync = λ node w. (0, w);
  vop_tryseek = λ node pos w. (0, w);
  vop_lookup = λ node path s. take_ref 50 s;
  vop_create = λ dir name excl s. take_ref 50 s;
  vfs_get_curdir = take_ref 40;
  vfs_get_bootfs = take_ref 60;
  vfs_get_root = λ name s. take_ref 60 s;
  in_fs = λ node s. 1;
  fsop_get_root = λ fs s. (60, s);
}

-- The path "/" stands at 1000, "d:x" at 2000.
abbrev pub idle_nodes : Nodes ℕ
idle_nodes = record {
  ref_count = λ node. if node == 40 then 3 else if node == 60 then 1 else 0;
  opens = λ node. if node == 40 then 2 else 0;
  mem = λ a.
      if a == 1000
      then b'/'
      else if a == 2000
      then b'd'
      else if a == 2001
      then b':'
      else if a == 2002
      then b'x'
      else 0;
  world = 0;
}

abbrev pub root_found : Nodes ℕ
root_found = (take_ref 60 idle_nodes).2

pub root_found_lem : vfs_lookup plain_fs 5 1000 idle_nodes ≡ some (0, 60, root_found)
unfolding vfs_lookup
root_found_lem = refl

pub root_found-Looked : Looked idle_nodes root_found 60
root_found-Looked = record { nonnull = omega arith; refs = refl; opens = refl }

get_device_twice_example :
    let s₁ = record idle_nodes { mem = put idle_nodes.mem 2001 0 } in
    let (ret, node, s₂) = plain_fs.vfs_get_root 2000 s₁ in
    let (ret', node', s₃) = plain_fs.vfs_get_curdir s₂ in
    (sub : ℕ) × (get_device plain_fs 5 2000 idle_nodes ≡ some (ret, sub, node, s₂))
    × IsString s₂.mem sub (drop_slashes (b'x' ∷ []))
    × IsString s₂.mem 2000 (b'd' ∷ [])
    × (get_device plain_fs 5 2000 s₂ ≡ some (ret', 2000, node', s₃))
get_device_twice_example =
    get_device_twice plain_fs 5 2000 (b'd' ∷ []) (b'x' ∷ []) idle_nodes (λ p s. refl) (omega arith)
      (omega arith) (λ e. cc) (omega arith)
