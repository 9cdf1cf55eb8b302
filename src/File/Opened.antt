-- ===== src/File/Opened.antt =====
-- An entry of the table that is opened, and one whose opening failed.
use nku_os.Base.{
  ℕ, ◌+◌, ◌<◌, ◌≡◌, ◌≢◌, refl, sym, arith, ◌==◌, Bool-cases, inl, inr, not, ==→ne, ◌∙◌, ap,
}
use nku_os.Links.{put}
use nku_os.Vfs.{Nodes, o_accmode}
use nku_os.File.{Table, Files, fd_none, fd_init, fd_opened}
use nku_os.File.Valid.{
  IsFree, IsOpen, IsTable, IsFiles, SameOthers, IsTable-frame, handles-SameOthers,
}
use nku_os.File.Alloc.{allocated}
use nku_os.File.Closing.{Closed}

abbrev pub freed : (file : ℕ) → Table → Table
freed file t = record t {
  status = put (put t.status file fd_init) file fd_none;
  node = put t.node file 0;
}

module _ {W : Type 0} where
  -- The descriptor `file` is open at position 0 on `node`, with the rights of the flags.
  pub record Opened (s s' : Files W) (file node flags : ℕ) : Type 0 where
    pub here : IsOpen s'.table file
    pub on : s'.table.node file ≡ node
    pub pos : s'.table.pos file ≡ 0
    pub readable : s'.table.readable file ≡ not (o_accmode flags == 1)
    pub writable : s'.table.writable file ≡ not (o_accmode flags == 0)
    pub others : SameOthers s.table s'.table file
    pub numbers : (i : ℕ) → s'.table.fd i ≡ s.table.fd i
    pub count : s'.table.files_count ≡ s.table.files_count

  -- No descriptor has been opened.
  pub record Unopened (n : ℕ) (s s' : Files W) : Type 0 where
    pub table : IsTable n s'.table
    pub status : (i : ℕ) → i < n → s'.table.status i ≡ s.table.status i
    pub open_count : s'.table.open_count ≡ s.table.open_count

  abbrev pub opened_at : (file node flags : ℕ) → Files W → Files W
  opened_at file node flags s =
      let t = s.table in
      record s {
        table = record t {
          pos = put t.pos file 0;
          node = put t.node file node;
          readable = put t.readable file (not (o_accmode flags == 1));
          writable = put t.writable file (not (o_accmode flags == 0));
          status = put t.status file fd_opened;
          open_count = put t.open_count file (t.open_count file + 1);
        };
      }

  pub opened_at-Opened :
      (s : Files W) (nodes : Nodes W) (file node flags : ℕ)
      → IsFree s.table file
      → node ≢ 0
      → Opened s
          (opened_at file node flags (record s { table = allocated file s.table; nodes = nodes }))
          file
          node
          flags
  opened_at-Opened s nodes file node flags free nz = record {
    here = record {
      status = ground arith;
      once = ground (arith, free.unused);
      node = ground arith;
    };
    on = ground arith;
    pos = ground arith;
    readable = ground arith;
    writable = ground arith;
    others = λ i ne. record {
      status = ground arith;
      open_count = ground arith;
      node = ground arith;
      pos = ground arith;
      readable = ground arith;
      writable = ground arith;
    };
    numbers = λ i. refl;
    count = refl;
  }

  pub freed-Unopened :
      (n : ℕ) (s : Files W) (nodes : Nodes W) (file : ℕ)
      → IsTable n s.table
      → file < n
      → IsFree s.table file
      → Unopened n s (record s { table = freed file s.table; nodes = nodes })
  freed-Unopened n s nodes file v lt free = record {
    table =
        IsTable-frame n file s.table (freed file s.table) v
          (λ i ne. record {
            status = ground arith;
            open_count = refl;
            node = ground arith;
            pos = refl;
            readable = refl;
            writable = refl;
          })
          (λ i. refl) (inl (record { status = ground arith; unused = free.unused }));
    status = λ i hi. ground (arith, free.status);
    open_count = refl;
  }

module _ {W : Type 0} where
  -- The counts of `s'` are those of `s`, and one opener and one reference more for an inode.
  pub record Grown (s s' : Nodes W) (node : ℕ) : Type 0 where
    pub refs : s'.ref_count ≡ put s.ref_count node (s.ref_count node + 1)
    pub opens : s'.opens ≡ put s.opens node (s.opens node + 1)

  pub Opened-IsFiles :
      (n file node flags : ℕ) (s s' : Files W)
      → IsFiles n s
      → file < n
      → IsFree s.table file
      → Opened s s' file node flags
      → Grown s.nodes s'.nodes node
      → s.nodes.ref_count node + 1 < 65536
      → IsFiles n s'
  Opened-IsFiles n file node flags s s' v lt free o g small = record {
    table = IsTable-frame n file s.table s'.table v.table o.others o.numbers (inr o.here);
    nodes = record {
      held = λ x. rw g.opens (
          ground (
            arith,
            handles-SameOthers n s.table s'.table file x lt o.others,
            free.status,
            o.here.status,
            o.on,
            v.nodes.held x,
          ));
      counted = λ x.
          let b = v.nodes.counted x in
          record {
            opens_le = rw (g.opens, g.refs) (ground (arith, b.opens_le));
            small = rw g.refs (ground (arith, b.small));
          };
    };
  }

  -- What a descriptor that was opened and closed again leaves behind.
  pub record Restored (n : ℕ) (s s' : Files W) : Type 0 where
    pub valid : IsFiles n s'
    pub status : (i : ℕ) → i < n → s'.table.status i ≡ s.table.status i
    pub opens : (x : ℕ) → s'.nodes.opens x ≡ s.nodes.opens x
    pub refs : (x : ℕ) → s'.nodes.ref_count x ≡ s.nodes.ref_count x

  pub Closed-Restored :
      (n file node flags : ℕ) (s s' s'' : Files W)
      → IsFiles n s''
      → IsFree s.table file
      → Opened s s' file node flags
      → Grown s.nodes s'.nodes node
      → Closed s' s'' file
      → Restored n s s''
  Closed-Restored n file node flags s s' s'' v free o g c = record {
    valid = v;
    status = λ i lt. elim (Bool-cases (i == file)) [
      | inl e ↦ let e : i ≡ file = ground arith in rw e (c.free.status ∙ sym free.status)
      | inr ne ↦ let q = ==→ne i file ne in (c.others i q).status ∙ (o.others i q).status
    ];
    opens = λ x.
        let h : s'.nodes.opens x ≡ put s.nodes.opens node (s.nodes.opens node + 1) x =
          ap (λ f. f x) g.opens in
        ground (arith, c.opens x, h, o.on);
    refs = λ x.
        let h : s'.nodes.ref_count x ≡ put s.nodes.ref_count node (s.nodes.ref_count node + 1) x =
          ap (λ f. f x) g.refs in
        ground (arith, c.refs x, h, o.on);
  }
