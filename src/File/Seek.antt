-- ===== src/File/Seek.antt =====
-- file_seek on a valid table.
use nku_os.Base.{
  ℕ, ◌+◌, ◌%◌, ◌≤◌, ◌<◌, ◌^◌, ◌≡◌, ◌≢◌, refl, true, arith, some, ◌==◌, Bool-cases, inl, inr,
  if◌then◌else◌, ◌∙◌,
}
use mathlib.Core.Path.{fun_ext}
use nku_os.Links.{put}
use nku_os.Errors.{e_inval}
use nku_os.Vfs.{Ops}
use nku_os.Vfs.Counts.{IsCounted, IsCounted-check}
use nku_os.File.{Files, is_opened, fd_array_release}
use nku_os.File.Calls.{seek_to, seek_pos, file_seek}
use nku_os.File.Valid.{IsOpen, IsFiles, fd2file-IsOpen}
use nku_os.File.Transfer.{Moved, Moved-IsFiles, fd_array_release_lem}

-- The table while the descriptor `fd` is held, with the world `w`.
abbrev pub holding : {W : Type 0} → ℕ → W → Files W → Files W
holding fd w s = record {
  table = record s.table { open_count = put s.table.open_count fd (s.table.open_count fd + 1) };
  nodes = record s.nodes { world = w };
}

module _ {W : Type 0} (v : Ops W) (fd : ℕ) (s : Files W) (op : IsOpen s.table fd)
    (c : IsCounted s.nodes (s.table.node fd)) where
  pub release_holding :
      (w : W)
      → (s' : Files W) × (fd_array_release v fd (holding fd w s) ≡ some s')
        × Moved s s' fd (s.table.pos fd) w
  release_holding w =
      let same : put s.table.pos fd (s.table.pos fd) ≡ s.table.pos = fun_ext (λ x. ground arith) in
      let (s', e, m) = fd_array_release_lem v fd (s.table.pos fd) w s op in (s', rw same at e, m)

  seek_to_lem :
      (ret p : ℕ) (w : W)
      → (ret' p' : ℕ) × (w' : W) × (s' : Files W) × (seek_to v fd ret p (holding fd w s)
          ≡ some (ret', s'))
        × Moved s s' fd p' w'
        × (ret' ≢ 0 → p' ≡ s.table.pos fd)
        × (ret' ≡ 0 → (ret ≡ 0) × (p' ≡ p))
  unfolding seek_to
  seek_to_lem ret p w =
      let node = s.table.node fd in
      let (r, w') = v.vop_tryseek node p w in
      let check = IsCounted-check s.nodes node op.node c in
      elim (Bool-cases (ret == 0)) [
        | inl go ↦ elim (Bool-cases (r == 0)) [
          | inl ok ↦
              let (s', e, m) = fd_array_release_lem v fd p w' s op in
              (
                r,
                p,
                w',
                s',
                rw (go, check, ok, e) refl,
                m,
                λ bad. absurd (ground (arith, ok)),
                λ z. (ground arith, refl),
              )
          | inr bad ↦
              let (s', e, m) = release_holding w' in
              (
                r,
                s.table.pos fd,
                w',
                s',
                rw (go, check, bad, e) refl,
                m,
                λ z. refl,
                λ z. absurd (ground (arith, bad)),
              )
        ]
        | inr failed ↦
            let (s', e, m) = release_holding w in
            (
              ret,
              s.table.pos fd,
              w,
              s',
              rw (failed, e) refl,
              m,
              λ z. refl,
              λ z. absurd (ground (arith, failed)),
            )
      ]

  seek_pos_lem :
      (pos whence : ℕ)
      → (ret p : ℕ) × (w : W) × (seek_pos v fd pos whence (holding fd s.nodes.world s)
          ≡ some (ret, p, (holding fd w s).nodes))
        × (ret ≡ 0 → whence ≤ 2)
        × (ret ≡ 0 → whence ≡ 0 → p ≡ pos)
        × (ret ≡ 0 → whence ≡ 1 → p ≡ (pos + s.table.pos fd) % 2 ^ 64)
  unfolding seek_pos
  seek_pos_lem pos whence =
      let node = s.table.node fd in
      let (r, size, w') = v.vop_fstat node s.nodes.world in
      let check = IsCounted-check s.nodes node op.node c in
      let w = s.nodes.world in
      elim (Bool-cases (whence == 0)) [
        | inl set ↦
            (0, pos, w, rw set refl, λ z. ground arith, λ z e. refl, λ z e. absurd (ground arith))
        | inr ne0 ↦ elim (Bool-cases (whence == 1)) [
          | inl cur ↦ (
            0,
            (pos + s.table.pos fd) % 2 ^ 64,
            w,
            rw (ne0, cur) refl,
            λ z. ground arith,
            λ z e. absurd (ground arith),
            λ z e. refl,
          )
          | inr ne1 ↦ elim (Bool-cases (whence == 2)) [
            | inl at_end ↦ (
              r,
              (if r == 0 then (pos + size) % 2 ^ 64 else pos),
              w',
              rw (ne0, ne1, at_end, check) refl,
              λ z. ground arith,
              λ z e. absurd (ground arith),
              λ z e. absurd (ground arith),
            )
            | inr other ↦ (
              e_inval,
              pos,
              w,
              rw (ne0, ne1, other) refl,
              λ z. absurd (ground arith),
              λ z e. absurd (ground arith),
              λ z e. absurd (ground arith),
            )
          ]
        ]
      ]

module _ {W : Type 0} (v : Ops W) where
  -- On a valid table in use, `file_seek` of an open descriptor returns. If the result is an error the
  -- position stays; if it is 0 then `whence` is LSEEK_SET, LSEEK_CUR or LSEEK_END, and the position is
  -- `pos` for the first and `pos` past the old one, modulo 2 ^ 64, for the second. Nothing else of
  -- the table or the counts changes, and the table is valid again.
  pub file_seek_lem :
      (n fd pos whence : ℕ) (s : Files W)
      → IsFiles n s
      → s.table.files_count ≢ 0
      → fd < n
      → is_opened (s.table.status fd) ≡ true
      → (ret p : ℕ) × (w : W) × (s' : Files W) × (file_seek v n fd pos whence s ≡ some (ret, s'))
        × Moved s s' fd p w
        × IsFiles n s'
        × (ret ≢ 0 → p ≡ s.table.pos fd)
        × (ret ≡ 0 → whence ≤ 2)
        × (ret ≡ 0 → whence ≡ 0 → p ≡ pos)
        × (ret ≡ 0 → whence ≡ 1 → p ≡ (pos + s.table.pos fd) % 2 ^ 64)
  unfolding file_seek
  file_seek_lem n fd pos whence s valid used lt op =
      let (found, entry) = fd2file-IsOpen n fd s.table valid.table used lt op in
      let c = valid.nodes.counted (s.table.node fd) in
      let (r, p, w, e, known, at_set, at_cur) = seek_pos_lem v fd s entry c pos whence in
      let (ret, p', w', s', e', m, kept, moved) = seek_to_lem v fd s entry c r p w in
      (
        ret,
        p',
        w',
        s',
        rw (found, entry.status, e, e') refl,
        m,
        Moved-IsFiles n fd p' w' s s' valid entry m,
        kept,
        λ z. known (moved z).0,
        λ z h. (moved z).1 ∙ at_set (moved z).0 h,
        λ z h. (moved z).1 ∙ at_cur (moved z).0 h,
      )
