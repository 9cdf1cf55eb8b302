-- ===== src/File/Brief.antt =====
-- file_fstat, file_fsync and file_getdirentry on a valid table: the position stays.
use nku_os.Base.{ℕ, ◌+◌, ◌%◌, ◌<◌, ◌^◌, ◌≡◌, ◌≢◌, refl, true, some, ◌==◌, if◌then◌else◌}
use nku_os.Vfs.{Ops, iobuf_init, iobuf_used}
use nku_os.Vfs.Counts.{IsCounted-check}
use nku_os.File.{Files, is_opened}
use nku_os.File.Calls.{file_fstat, file_fsync, file_getdirentry}
use nku_os.File.Valid.{IsFiles, fd2file-IsOpen}
use nku_os.File.Transfer.{Moved, Moved-IsFiles}
use nku_os.File.Seek.{release_holding}

module _ {W : Type 0} (v : Ops W) (n fd : ℕ) (s : Files W) (valid : IsFiles n s)
    (used : s.table.files_count ≢ 0) (lt : fd < n) (op : is_opened (s.table.status fd) ≡ true) where
  pub file_fstat_lem :
      let (ret, size, w) = v.vop_fstat (s.table.node fd) s.nodes.world in
      (s' : Files W) × (file_fstat v n fd s ≡ some (ret, size, s'))
      × Moved s s' fd (s.table.pos fd) w
      × IsFiles n s'
  unfolding file_fstat
  file_fstat_lem =
      let (found, entry) = fd2file-IsOpen n fd s.table valid.table used lt op in
      let node = s.table.node fd in
      let (ret, size, w) = v.vop_fstat node s.nodes.world in
      let c = valid.nodes.counted node in
      let (s', e, m) = release_holding v fd s entry c w in
      (
        s',
        rw (found, entry.status, IsCounted-check s.nodes node entry.node c, e) refl,
        m,
        Moved-IsFiles n fd (s.table.pos fd) w s s' valid entry m,
      )

  pub file_fsync_lem :
      let (ret, w) = v.vop_fsync (s.table.node fd) s.nodes.world in
      (s' : Files W) × (file_fsync v n fd s ≡ some (ret, s'))
      × Moved s s' fd (s.table.pos fd) w
      × IsFiles n s'
  unfolding file_fsync
  file_fsync_lem =
      let (found, entry) = fd2file-IsOpen n fd s.table valid.table used lt op in
      let node = s.table.node fd in
      let (ret, w) = v.vop_fsync node s.nodes.world in
      let c = valid.nodes.counted node in
      let (s', e, m) = release_holding v fd s entry c w in
      (
        s',
        rw (found, entry.status, IsCounted-check s.nodes node entry.node c, e) refl,
        m,
        Moved-IsFiles n fd (s.table.pos fd) w s s' valid entry m,
      )

  pub file_getdirentry_lem :
      (name size offset : ℕ)
      → let (ret, iob, w) =
          v.vop_getdirentry (s.table.node fd) (iobuf_init name size offset) s.nodes.world in
        let offset' = if ret == 0 then (offset + iobuf_used iob) % 2 ^ 64 else offset in
        (s' : Files W) × (file_getdirentry v n fd name size offset s ≡ some (ret, offset', s'))
        × Moved s s' fd (s.table.pos fd) w
        × IsFiles n s'
  unfolding file_getdirentry
  file_getdirentry_lem name size offset =
      let (found, entry) = fd2file-IsOpen n fd s.table valid.table used lt op in
      let node = s.table.node fd in
      let (ret, iob, w) = v.vop_getdirentry node (iobuf_init name size offset) s.nodes.world in
      let c = valid.nodes.counted node in
      let (s', e, m) = release_holding v fd s entry c w in
      (
        s',
        rw (found, entry.status, IsCounted-check s.nodes node entry.node c, e) refl,
        m,
        Moved-IsFiles n fd (s.table.pos fd) w s s' valid entry m,
      )
