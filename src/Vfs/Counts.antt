-- ===== src/Vfs/Counts.antt =====
-- The counts of inodes under `inode_ref_dec`, `inode_open_dec` and `vfs_close`.
use nku_os.Base.{
  ℕ, ◌+◌, ◌-◌, ◌≤◌, ◌<◌, ◌≡◌, ◌≢◌, refl, true, arith, some, ◌==◌, Bool-cases, inl, inr, lt→ltb,
}
use nku_os.Links.{put}
use nku_os.Vfs.{Nodes, Ops, inode_check, inode_ref_dec, inode_open_dec, vfs_close}

module _ {W : Type 0} where
  -- The counts of an inode are in order.
  pub record IsCounted (s : Nodes W) (node : ℕ) : Type 0 where
    pub opens_le : s.opens node ≤ s.ref_count node
    pub small : s.ref_count node < 65536

  pub IsCounted-check :
      (s : Nodes W) (node : ℕ) → node ≢ 0 → IsCounted s node → inode_check node s ≡ true
  IsCounted-check s node nz c = ground arith

  -- The state after a decrement, with the world `w`.
  abbrev pub less_open : ℕ → W → Nodes W → Nodes W
  less_open node w s = record s { opens = put s.opens node (s.opens node - 1); world = w }

  abbrev pub less_ref : ℕ → W → Nodes W → Nodes W
  less_ref node w s = record s {
    ref_count = put s.ref_count node (s.ref_count node - 1);
    world = w;
  }

module _ {W : Type 0} (v : Ops W) (s : Nodes W) (node : ℕ) (nz : node ≢ 0) where
  pub inode_open_dec_lem :
      IsCounted s node
      → 0 < s.opens node
      → (w : W) × (inode_open_dec v node s ≡ some (less_open node w s))
  unfolding inode_open_dec
  inode_open_dec_lem c pos =
      let s' = less_open node s.world s in
      let ok =
        IsCounted-check s' node nz
          (record { opens_le = ground (arith, c.opens_le); small = c.small }) in
      elim (Bool-cases (s'.opens node == 0)) [
        | inl last ↦ ((v.vop_close node s.world).1, rw (lt→ltb _ _ pos, last, ok) refl)
        | inr more ↦ (s.world, rw (lt→ltb _ _ pos, more) refl)
      ]

  pub inode_ref_dec_lem :
      0 < s.ref_count node
      → s.opens node + 1 ≤ s.ref_count node
      → s.ref_count node < 65536
      → (w : W) × (inode_ref_dec v node s ≡ some (less_ref node w s))
  unfolding inode_ref_dec
  inode_ref_dec_lem pos le small =
      let s' = less_ref node s.world s in
      let ok =
        IsCounted-check s' node nz (record { opens_le = ground arith; small = ground arith }) in
      elim (Bool-cases (s'.ref_count node == 0)) [
        | inl last ↦ ((v.vop_reclaim node s.world).1, rw (lt→ltb _ _ pos, last, ok) refl)
        | inr more ↦ (s.world, rw (lt→ltb _ _ pos, more) refl)
      ]

module _ {W : Type 0} (v : Ops W) (s : Nodes W) (node : ℕ) (nz : node ≢ 0) where
  -- Both counts fall by one.
  pub vfs_close_lem :
      IsCounted s node
      → 0 < s.opens node
      → (w : W) × (vfs_close v node s ≡ some (less_ref node w (less_open node w s)))
  unfolding vfs_close
  vfs_close_lem c pos =
      let (w, e) = inode_open_dec_lem v s node nz c pos in
      let s' = less_open node w s in
      let (w', e') =
        inode_ref_dec_lem v s' node nz (ground (arith, c.opens_le)) (ground (arith, c.opens_le))
          c.small in
      (w', rw (e, e') refl)
