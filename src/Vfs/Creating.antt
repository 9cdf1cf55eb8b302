-- ===== src/Vfs/Creating.antt =====
-- vfs_open of a path that is there.
use nku_os.Base.{
  ℕ, ◌+◌, ◌≤◌, ◌<◌, ◌≡◌, ◌≢◌, ◌⊎◌, refl, false, arith, some, ◌==◌, Bool-cases, inl, inr, ◌&&◌,
  ne→==, ==→ne,
}
use nku_os.Links.{put}
use nku_os.Vfs.{Nodes, Ops, inode_open_inc, o_accmode, o_trunc, o_creat, o_excl}
use nku_os.Vfs.Counts.{IsCounted, IsCounted-check, less_ref, inode_ref_dec_lem}
use nku_os.Vfs.Lookup.{vfs_lookup}
use nku_os.Vfs.Opening.{vfs_open}

-- The flags ask for neither O_CREAT nor O_TRUNC, and for a mode that there is.
pub record Plain (flags : ℕ) : Type 0 where
  pub mode : (o_accmode flags == 3) ≡ false
  pub keep : o_trunc flags ≡ false
  pub old : o_creat flags ≡ false

module _ {W : Type 0} where
  -- `s'` has one more reference to an inode than `s`, and is otherwise counted as `s` is.
  pub record Looked (s s' : Nodes W) (node : ℕ) : Type 0 where
    pub nonnull : node ≢ 0
    pub refs : s'.ref_count ≡ put s.ref_count node (s.ref_count node + 1)
    pub opens : s'.opens ≡ s.opens

module _ {W : Type 0} (v : Ops W) where
  -- Let `vfs_lookup` find an inode, and take one reference to it, where no inode has more openers than
  -- references and this one had fewer than 2 ^ 16 - 1. Without O_CREAT and O_TRUNC `vfs_open` returns
  -- the result of the inode's own open: if that is 0 the inode has one opener more, and if it is an
  -- error the reference is given back.
  pub vfs_open_lem :
      (fuel path flags node : ℕ) (s s₁ : Nodes W)
      → Plain flags
      → vfs_lookup v fuel path s ≡ some (0, node, s₁)
      → Looked s s₁ node
      → s.opens node ≤ s.ref_count node
      → s.ref_count node + 1 < 65536
      → let (r, w) = v.vop_open node flags s₁.world in
        (s' : Nodes W) × (((r ≡ 0)
            × (vfs_open v fuel path flags s ≡ some (0, node, s'))
            × (s'.ref_count ≡ put s.ref_count node (s.ref_count node + 1))
            × (s'.opens ≡ put s.opens node (s.opens node + 1)))
          ⊎ ((r ≢ 0)
              × (vfs_open v fuel path flags s ≡ some (r, 0, s'))
              × ((x : ℕ) → s'.ref_count x ≡ s.ref_count x)
              × (s'.opens ≡ s.opens)))
  unfolding vfs_open inode_open_inc
  vfs_open_lem fuel path flags node s s₁ p found l le small =
      let (r, w) = v.vop_open node flags s₁.world in
      let c : IsCounted s₁ node = record {
        opens_le = rw (l.opens, l.refs) (ground arith);
        small = rw l.refs (ground arith);
      } in
      let check = IsCounted-check s₁ node l.nonnull c in
      let nz = ne→== node 0 l.nonnull in
      let ex : (o_excl flags && false) ≡ false = ground arith in
      let s₂ = record s₁ { world = w } in
      elim (Bool-cases (r == 0)) [
        | inl ok ↦ (
          inode_open_inc node s₂,
          inl (
            ground arith,
            rw (p.mode, p.keep, found, p.old, ex, check, nz, ok) refl,
            l.refs,
            rw l.opens refl,
          ),
        )
        | inr bad ↦
            let spare : s₂.opens node + 1 ≤ s₂.ref_count node =
              rw (l.opens, l.refs) (ground arith) in
            let (w', e) = inode_ref_dec_lem v s₂ node l.nonnull (omega arith) spare c.small in
            (
              less_ref node w' s₂,
              inr (
                ==→ne r 0 bad,
                rw (p.mode, p.keep, found, p.old, ex, check, nz, bad, e) refl,
                λ x. rw l.refs (ground arith),
                l.opens,
              ),
            )
      ]
