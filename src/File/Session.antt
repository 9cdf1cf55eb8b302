-- ===== src/File/Session.antt =====
-- Any sequence of calls on the descriptors of a process.
use nku_os.Base.{ℕ, ◌+◌, ◌≤◌, ◌≡◌, ◌≢◌, List, [], ◌∷◌, Option, some, ◌>>=◌}
use nku_os.Vfs.{Ops}
use nku_os.File.{Files, no_fd}
use nku_os.File.Calls.{
  file_read, file_write, file_seek, file_close, file_fstat, file_fsync, file_getdirentry, file_dup,
}
use nku_os.File.Valid.{IsFiles}

-- A call with its arguments.
pub data Call : Type 0 where
  read write : (fd base len : ℕ) → Call
  seek : (fd pos whence : ℕ) → Call
  close fstat fsync dup : (fd : ℕ) → Call
  getdirentry : (fd name size offset : ℕ) → Call

abbrev pub fd_of : Call → ℕ
fd_of (read fd base len) = fd
fd_of (write fd base len) = fd
fd_of (seek fd pos whence) = fd
fd_of (close fd) = fd
fd_of (fstat fd) = fd
fd_of (fsync fd) = fd
fd_of (dup fd) = fd
fd_of (getdirentry fd name size offset) = fd

module _ {W : Type 0} (v : Ops W) (n : ℕ) where
  -- The state that a call leaves.
  pub after : Call → Files W → Option (Files W)
  after (read fd base len) s = do (ret, copied, s) ← file_read v n fd base len s; some s
  after (write fd base len) s = do (ret, copied, s) ← file_write v n fd base len s; some s
  after (seek fd pos whence) s = do (ret, s) ← file_seek v n fd pos whence s; some s
  after (close fd) s = do (ret, s) ← file_close v n fd s; some s
  after (fstat fd) s = do (ret, size, s) ← file_fstat v n fd s; some s
  after (fsync fd) s = do (ret, s) ← file_fsync v n fd s; some s
  after (dup fd) s = do (ret, fd2, s) ← file_dup v n fd no_fd s; some s
  after (getdirentry fd name size offset) s = do
    (ret, offset, s) ← file_getdirentry v n fd name size offset s
    some s

  pub after_all : List Call → Files W → Option (Files W)
  unfolding after
  after_all [] s = some s
  after_all (c ∷ cs) s = do s ← after c s; after_all cs s

  -- A state that a call may leave: it is valid, and no inode has gained more than one reference.
  record IsNext (s s' : Files W) : Type 0 where
    valid : IsFiles n s'
    used : s'.table.files_count ≢ 0
    refs : (x : ℕ) → s'.nodes.ref_count x ≤ s.nodes.ref_count x + 1

  -- One step: the call returns, and leaves a valid state.
  abbrev Steps : Call → Files W → Type 0
  Steps c s = (s' : Files W) × (after c s ≡ some s') × IsNext s s'
