-- ===== src/File/Opens.antt =====
-- file_open of a path that is there, and file_close after it.
use nku_os.Base.{
  ℕ, ◌+◌, ◌<◌, ◌≡◌, ◌≢◌, ◌⊎◌, refl, sym, subst, true, false, arith, some, ◌==◌, Bool-cases, inl,
  inr, ne→==, ==-refl, ==→ne, ◌∙◌, ap,
}
use nku_os.Errors.{e_max_open}
use nku_os.Vfs.{Ops, Nodes, o_accmode, o_append}
use nku_os.Vfs.Lookup.{vfs_lookup}
use nku_os.Vfs.Opening.{vfs_open}
use nku_os.Vfs.Creating.{Plain, Looked, vfs_open_lem}
use nku_os.File.{Files, is_opened, is_none, fd_array_free, fd_array_open}
use nku_os.File.Calls.{file_open, file_close}
use nku_os.File.Valid.{IsFree, IsTable, IsFiles}
use nku_os.File.Alloc.{NoneFree, IsLowest, allocated, IsFree-none, fd_array_alloc_lem}
use nku_os.File.Closing.{file_close_lem}
use nku_os.File.Opened.{
  Opened, Unopened, Grown, Restored, freed, freed-Unopened, opened_at, opened_at-Opened,
  Opened-IsFiles, Closed-Restored,
}

module _ {W : Type 0} (v : Ops W) where
  -- In a valid table in use, without O_APPEND: if every descriptor is taken, `file_open` returns
  -- E_MAX_OPEN and changes nothing. Otherwise it goes by the result of `vfs_open`: on an error it returns
  -- that error, and no descriptor is open that was not; on 0 it returns the lowest free descriptor,
  -- which is open at position 0 on the inode, with the rights that the flags ask for.
  pub file_open_lem :
      (n fuel path flags ret node : ℕ) (s : Files W) (nodes : Nodes W)
      → IsTable n s.table
      → s.table.files_count ≢ 0
      → (o_accmode flags == 3) ≡ false
      → o_append flags ≡ false
      → vfs_open v fuel path flags s.nodes ≡ some (ret, node, nodes)
      → (ret ≡ 0 → node ≢ 0)
      → (NoneFree 0 n s.table × (file_open v n fuel path flags s ≡ some (e_max_open, 0, s)))
        ⊎ ((file : ℕ) × (s' : Files W) × IsLowest 0 n s.table file
            × (s'.nodes ≡ nodes)
            × (((ret ≡ 0)
                  × (file_open v n fuel path flags s ≡ some (0, file, s'))
                  × Opened s s' file node flags)
                ⊎ ((ret ≢ 0)
                    × (file_open v n fuel path flags s ≡ some (ret, 0, s'))
                    × Unopened n s s')))
  unfolding file_open fd_array_open fd_array_free
  file_open_lem n fuel path flags ret node s nodes valid used mode plain e nonnull =
      elim (fd_array_alloc_lem n s.table valid used) [
        | inl (full, a) ↦ inl (full, rw (mode, a) refl)
        | inr (file, low, free, a) ↦ elim (Bool-cases (ret == 0)) [
          | inl ok ↦
              let s₁ = record s { table = allocated file s.table; nodes = nodes } in
              let s' = opened_at file node flags s₁ in
              let zero_ret : ret ≡ 0 = ground arith in
              let number = valid.numbered file low.lt_hi in
              let nz = ne→== node 0 (nonnull zero_ret) in
              inr (
                file,
                s',
                low,
                refl,
                inl (
                  zero_ret,
                  rw (mode, a, e, ok, plain, ==-refl file, nz, number) refl,
                  opened_at-Opened s nodes file node flags free (nonnull zero_ret),
                ),
              )
          | inr bad ↦
              let unused : (s.table.open_count file == 0) ≡ true = ground (arith, free.unused) in
              let t' = freed file s.table in
              inr (
                file,
                record s { table = t'; nodes = nodes },
                low,
                refl,
                inr (
                  ==→ne ret 0 bad,
                  rw (mode, a, e, bad, ==-refl file, unused) refl,
                  freed-Unopened n s nodes file valid low.lt_hi free,
                ),
              )
        ]
      ]

module _ {W : Type 0} (v : Ops W) where
  file_open_found :
      (n fuel path flags node : ℕ) (s : Files W) (nodes : Nodes W)
      → IsFiles n s
      → s.table.files_count ≢ 0
      → (free : ℕ) → free < n
      → is_none (s.table.status free) ≡ true
      → Plain flags
      → o_append flags ≡ false
      → vfs_lookup v fuel path s.nodes ≡ some (0, node, nodes)
      → Looked s.nodes nodes node
      → s.nodes.ref_count node + 1 < 65536
      → (v.vop_open node flags nodes.world).0 ≡ 0
      → (fd : ℕ) × (s' : Files W) × (file_open v n fuel path flags s ≡ some (0, fd, s'))
        × (fd < n)
        × IsFree s.table fd
        × Opened s s' fd node flags
        × Grown s.nodes s'.nodes node
  file_open_found n fuel path flags node s nodes valid used spare room empty plain here found looked
        small ok =
      let (nodes', result) =
        vfs_open_lem v fuel path flags node s.nodes nodes plain found looked
          (valid.nodes.counted node).opens_le small in
      elim result [
        | inr (bad, _, _, _) ↦ absurd (bad ok)
        | inl (_, e, refs, opens) ↦
            elim (file_open_lem v n fuel path flags 0 node s nodes' valid.table used plain.mode here
              e (λ _. looked.nonnull)) [
                | inl (full, _) ↦ absurd (ground (arith, full spare (omega arith) room, empty))
                | inr (fd, s', low, same, result) ↦ elim result [
                  | inr (bad, _, _) ↦ absurd (bad refl)
                  | inl (_, e', o) ↦ (
                    fd,
                    s',
                    e',
                    low.lt_hi,
                    IsFree-none n fd s.table valid.table low.lt_hi low.free,
                    o,
                    record {
                      refs = ap (λ m. m.ref_count) same ∙ refs;
                      opens = ap (λ m. m.opens) same ∙ opens;
                    },
                  )
                ]
              ]
      ]

  -- On a valid table in use with a free descriptor, let `vfs_lookup` find an inode with fewer than
  -- 2 ^ 16 - 1 references, and take one, and let the inode's own open succeed. With an access mode other
  -- than 3, and without O_APPEND, O_CREAT and O_TRUNC, `file_open` returns a descriptor in a valid table, and `file_close` of it succeeds and
  -- restores which descriptors are open, and the openers and references of every inode.
  pub file_close-file_open :
      (n fuel path flags node : ℕ) (s : Files W) (nodes : Nodes W)
      → IsFiles n s
      → s.table.files_count ≢ 0
      → (free : ℕ) → free < n
      → is_none (s.table.status free) ≡ true
      → Plain flags
      → o_append flags ≡ false
      → vfs_lookup v fuel path s.nodes ≡ some (0, node, nodes)
      → Looked s.nodes nodes node
      → s.nodes.ref_count node + 1 < 65536
      → (v.vop_open node flags nodes.world).0 ≡ 0
      → (fd : ℕ) × (s' s'' : Files W) × (file_open v n fuel path flags s ≡ some (0, fd, s'))
        × IsFiles n s'
        × (file_close v n fd s' ≡ some (0, s''))
        × Restored n s s''
  file_close-file_open n fuel path flags node s nodes valid used spare room empty plain here found
        looked small ok =
      let (fd, s', e, lt, free, o, g) =
        file_open_found n fuel path flags node s nodes valid used spare room empty plain here found
          looked small ok in
      let valid' = Opened-IsFiles n fd node flags s s' valid lt free o g small in
      let op : is_opened (s'.table.status fd) ≡ true = rw o.here.status refl in
      let (s'', e', c, valid'') =
        file_close_lem v n fd s' valid' (subst (λ k. k ≢ 0) (sym o.count) used) lt op in
      (fd, s', s'', e, valid', e', Closed-Restored n fd node flags s s' s'' valid'' free o g c)
