-- ===== src/Vfs/Existing.antt =====
-- vfs_open of a path that is there, with any flags.
use nku_os.Base.{
  ℕ, ◌+◌, ◌≡◌, ◌≢◌, ◌⊎◌, true, false, some, ◌==◌, Bool, ◌&&◌, ◌||◌, not, if◌then◌else◌, Option,
}
use nku_os.Links.{put}
use nku_os.Errors.{e_exists, e_inval}
use nku_os.Vfs.{Nodes, Ops, o_accmode, o_trunc, o_creat, o_excl}

-- The flags that vfs_open refuses: the access mode 3, and truncation of a file that is only read.
abbrev pub refuses : ℕ → Bool
refuses flags =
    (o_accmode flags == 3)
    || (o_trunc flags && not ((o_accmode flags == 1) || (o_accmode flags == 2)))

-- The flags that want a new file.
abbrev pub exclusive : ℕ → Bool
exclusive flags = o_excl flags && o_creat flags

module _ {W : Type 0} where
  -- The counts have not changed.
  pub record Balanced (s s' : Nodes W) : Type 0 where
    pub refs : (x : ℕ) → s'.ref_count x ≡ s.ref_count x
    pub opens : (x : ℕ) → s'.opens x ≡ s.opens x

  -- One more reference to `node`, and as many openers as before.
  pub record Leaks (s s' : Nodes W) (node : ℕ) : Type 0 where
    pub refs : s'.ref_count ≡ put s.ref_count node (s.ref_count node + 1)
    pub opens : s'.opens ≡ s.opens

  -- One more reference to `node`, and one more opener.
  pub record Opens (s s' : Nodes W) (node : ℕ) : Type 0 where
    pub refs : s'.ref_count ≡ put s.ref_count node (s.ref_count node + 1)
    pub opens : s'.opens ≡ put s.opens node (s.opens node + 1)

module _ {W : Type 0} (v : Ops W) where
  -- What the file system says to the opening of `node`, and to its truncation where the flags ask for it.
  abbrev pub answer : (node flags : ℕ) → W → ℕ
  answer node flags w =
      let (r, w) = v.vop_open node flags w in
      if not (r == 0)
      then r
      else if o_trunc flags || o_creat flags
      then (v.vop_truncate node 0 w).0
      else 0

  -- What `vfs_open` makes of the state `s` and the inode `node`, by the call `r`.
  abbrev pub Outcome : (node flags : ℕ) → (s s₁ : Nodes W) → Option (ℕ × ℕ × Nodes W) → Type 0
  Outcome node flags s s₁ r =
      let a = answer node flags s₁.world in
      ((refuses flags ≡ true) × (r ≡ some (e_inval, 0, s)))
      ⊎ ((s' : Nodes W) × (((refuses flags ≡ false)
              × (exclusive flags ≡ true)
              × (r ≡ some (e_exists, 0, s'))
              × Leaks s s' node)
            ⊎ ((refuses flags ≡ false)
                × (exclusive flags ≡ false)
                × (((a ≡ 0) × (r ≡ some (0, node, s')) × Opens s s' node)
                    ⊎ ((a ≢ 0) × (r ≡ some (a, 0, s')) × Balanced s s')))))
