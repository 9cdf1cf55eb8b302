-- ===== src/File/Copies.antt =====
-- The entry `to` of a table becomes a copy of the entry `from` of another table, or of the same.
use nku_os.Base.{ℕ, ◌+◌, ◌<◌, ◌≡◌, refl, sym, true, arith, some, ◌==◌, inr, ne→==, ==-refl, ◌∙◌, ap}
use nku_os.Links.{put}
use nku_os.Vfs.{inode_ref_inc, inode_open_inc}
use nku_os.File.{Table, Files, fd_init, fd_opened, is_opened, fd_array_dup}
use nku_os.File.Valid.{
  handles, bit, IsFree, IsOpen, IsTable, SameOthers, handles-SameOthers, IsTable-frame,
}

-- The entry `to` of the table `t` is a copy of the entry `from` of `source`.
pub record Copy (source t : Table) (from to : ℕ) : Type 0 where
  pub status : t.status to ≡ source.status from
  pub node : is_opened (source.status from) ≡ true → t.node to ≡ source.node from
  pub pos : is_opened (source.status from) ≡ true → t.pos to ≡ source.pos from
  pub readable : is_opened (source.status from) ≡ true → t.readable to ≡ source.readable from
  pub writable : is_opened (source.status from) ≡ true → t.writable to ≡ source.writable from

module _ {W : Type 0} where
  -- The entry `to` is a copy, counted by its inode, and the others are as they were.
  pub record Added (n to from : ℕ) (source : Table) (s s' : Files W) : Type 0 where
    pub table : IsTable n s'.table
    pub copy : Copy source s'.table from to
    pub others : SameOthers s.table s'.table to
    pub count : s'.table.files_count ≡ s.table.files_count
    pub pwd : s'.table.pwd ≡ s.table.pwd
    pub opens :
        (x : ℕ) → s'.nodes.opens x + handles n s.table x ≡ s.nodes.opens x + handles n s'.table x
    pub refs :
        (x : ℕ)
        → s'.nodes.ref_count x + handles n s.table x ≡ s.nodes.ref_count x + handles n s'.table x
    pub once :
        (x : ℕ)
        → is_opened (source.status from) ≡ true
        → s'.nodes.ref_count x ≡ s.nodes.ref_count x + bit (source.node from == x)
    pub opened :
        (x : ℕ)
        → is_opened (source.status from) ≡ true
        → s'.nodes.opens x ≡ s.nodes.opens x + bit (source.node from == x)

  -- The entry `to` is being filled in.
  pub record Filling (to : ℕ) (s₀ s : Files W) : Type 0 where
    pub init : s.table.status to ≡ fd_init
    pub unused : s.table.open_count to ≡ 0
    pub others : SameOthers s₀.table s.table to
    pub numbers : s.table.fd ≡ s₀.table.fd
    pub count : s.table.files_count ≡ s₀.table.files_count
    pub pwd : s.table.pwd ≡ s₀.table.pwd
    pub nodes : s.nodes ≡ s₀.nodes

  abbrev pub copied : (to from : ℕ) → Table → Files W → Files W
  copied to from source s =
      let t = s.table in
      record s {
        table = record t {
          status = put t.status to fd_opened;
          open_count = put t.open_count to (t.open_count to + 1);
          pos = put t.pos to (source.pos from);
          readable = put t.readable to (source.readable from);
          writable = put t.writable to (source.writable from);
          node = put t.node to (source.node from);
        };
        nodes = inode_open_inc (source.node from) (inode_ref_inc (source.node from) s.nodes);
      }

  pub fd_array_dup_lem :
      (to from : ℕ) (source : Table) (s : Files W)
      → s.table.status to ≡ fd_init
      → IsOpen source from
      → fd_array_dup to from source s ≡ some (copied to from source s)
  unfolding fd_array_dup
  fd_array_dup_lem to from source s init op =
      rw (init, op.status, ==-refl to, ne→== (source.node from) 0 op.node) refl

  pub copied-Added :
      (n to from : ℕ) (source : Table) (s₀ s : Files W)
      → to < n
      → IsTable n s₀.table
      → IsFree s₀.table to
      → Filling to s₀ s
      → IsOpen source from
      → Added n to from source s₀ (copied to from source s)
  unfolding inode_open_inc inode_ref_inc
  copied-Added n to from source s₀ s lt v free f op =
      let s' = copied to from source s in
      let others : SameOthers s₀.table s'.table to = λ i ne.
        let q = f.others i ne in
        record {
          status = ground (arith, q.status);
          open_count = ground (arith, q.open_count);
          node = ground (arith, q.node);
          pos = ground (arith, q.pos);
          readable = ground (arith, q.readable);
          writable = ground (arith, q.writable);
        } in
      let now : IsOpen s'.table to = record {
        status = ground arith;
        once = ground (arith, f.unused);
        node = ground (arith, op.node);
      } in
      let node : s'.table.node to ≡ source.node from = ground arith in
      let moved = λ (x : ℕ). handles-SameOthers n s₀.table s'.table to x lt others in
      record {
        table =
            IsTable-frame n to s₀.table s'.table v others (λ i. ap (λ g. g i) f.numbers) (inr now);
        copy = record {
          status = now.status ∙ sym op.status;
          node = λ o. node;
          pos = λ o. ground arith;
          readable = λ o. ground arith;
          writable = λ o. ground arith;
        };
        others = others;
        count = f.count;
        pwd = f.pwd;
        opens = λ x. rw f.nodes (ground (arith, moved x, free.status, now.status, node));
        refs = λ x. rw f.nodes (ground (arith, moved x, free.status, now.status, node));
        once = λ x o. rw f.nodes (ground arith);
        opened = λ x o. rw f.nodes (ground arith);
      }
