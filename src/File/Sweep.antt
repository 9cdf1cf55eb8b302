-- ===== src/File/Sweep.antt =====
-- files_closeall and files_destroy on a valid table.
use nku_os.Base.{
  ℕ, zero, suc, ◌+◌, ◌-◌, ◌≤◌, ◌<◌, ◌≡◌, ◌≢◌, ◌⊎◌, refl, true, arith, some, ◌==◌, Bool-cases, inl,
  inr, ◌&&◌, if◌then◌else◌, not, ne→==, ==→ne,
}
use nku_os.Vfs.{Nodes, Ops, inode_ref_dec}
use nku_os.Vfs.Counts.{inode_ref_dec_lem, less_ref}
use nku_os.File.{Files, is_opened, fd_array_close}
use nku_os.File.Tables.{closeall_loop, destroy_loop, files_closeall, files_destroy}
use nku_os.File.Valid.{
  handles, handles_none, bit, IsFree, IsFiles, SameEntry, SameOthers, SameEntry-refl,
  SameEntry-trans, IsFree-same, handles-SameOthers,
}
use nku_os.File.Closing.{Closed-IsFiles, close_held}

module _ {W : Type 0} where
  -- The descriptors from `fd` on have been closed: each inode lost as many openers and references as
  -- descriptors were open on it and are no more.
  pub record Swept (n fd : ℕ) (s s' : Files W) : Type 0 where
    pub valid : IsFiles n s'
    pub free : (i : ℕ) → fd ≤ i → i < n → IsFree s'.table i
    pub same : (i : ℕ) → i < fd → SameEntry s.table s'.table i
    pub opens :
        (x : ℕ) → s'.nodes.opens x + handles n s.table x ≡ s.nodes.opens x + handles n s'.table x
    pub refs :
        (x : ℕ)
        → s'.nodes.ref_count x + handles n s.table x ≡ s.nodes.ref_count x + handles n s'.table x

  -- One round: the entry `fd` is free afterwards, the others are the same.
  record Round (n fd : ℕ) (s s' : Files W) : Type 0 where
    valid : IsFiles n s'
    free : IsFree s'.table fd
    others : SameOthers s.table s'.table fd
    opens :
        (x : ℕ) → s'.nodes.opens x + handles n s.table x ≡ s.nodes.opens x + handles n s'.table x
    refs :
        (x : ℕ)
        → s'.nodes.ref_count x + handles n s.table x ≡ s.nodes.ref_count x + handles n s'.table x

  Round-Swept :
      (n fd : ℕ) (s s' s'' : Files W) → Round n fd s s' → Swept n (fd + 1) s' s'' → Swept n fd s s''
  Round-Swept n fd s s' s'' r w = record {
    valid = w.valid;
    free = λ i lo hi. elim (Bool-cases (i == fd)) [
      | inl e ↦
          let e : i ≡ fd = ground arith in
          rw e (IsFree-same s'.table s''.table fd (w.same fd (omega arith)) r.free)
      | inr ne ↦ w.free i (ground arith) hi
    ];
    same = λ i lt.
        SameEntry-trans s.table s'.table s''.table i (r.others i (λ e. absurd (omega arith)))
          (w.same i (omega arith));
    opens = λ x. omega (arith, r.opens x, w.opens x);
    refs = λ x. omega (arith, r.refs x, w.refs x);
  }

  Swept-refl : (n fd : ℕ) (s : Files W) → n ≤ fd → IsFiles n s → Swept n fd s s
  Swept-refl n fd s le v = record {
    valid = v;
    free = λ i lo hi. absurd (omega arith);
    same = λ i lt. SameEntry-refl s.table i;
    opens = λ x. refl;
    refs = λ x. refl;
  }

module _ {W : Type 0} (v : Ops W) where
  round_lem :
      (n fd : ℕ) (s : Files W)
      → IsFiles n s
      → fd < n
      → (s' : Files W) × ((if is_opened (s.table.status fd) then fd_array_close v fd s else some s)
          ≡ some s')
        × Round n fd s s'
  round_lem n fd s valid lt = elim (valid.table.entries fd lt) [
    | inl free ↦ (
      s,
      rw free.status refl,
      record {
        valid = valid;
        free = free;
        others = λ i ne. SameEntry-refl s.table i;
        opens = λ x. refl;
        refs = λ x. refl;
      },
    )
    | inr op ↦
        let (s', e, c) = close_held v n fd s valid lt op in
        (
          s',
          rw (op.status, e) refl,
          record {
            valid = Closed-IsFiles n fd s s' lt op c valid;
            free = c.free;
            others = c.others;
            opens = λ x. ground (
              arith,
              handles-SameOthers n s.table s'.table fd x lt c.others,
              op.status,
              c.free.status,
              c.opens x,
            );
            refs = λ x. ground (
              arith,
              handles-SameOthers n s.table s'.table fd x lt c.others,
              op.status,
              c.free.status,
              c.refs x,
            );
          },
        )
  ]

  closeall_loop_lem :
      (left n fd : ℕ) (s : Files W)
      → IsFiles n s
      → left ≡ n - fd
      → (s' : Files W) × (closeall_loop v left fd s ≡ some s') × Swept n fd s s'
  unfolding closeall_loop
  closeall_loop_lem zero n fd s valid left = (s, refl, Swept-refl n fd s (omega arith) valid)
  closeall_loop_lem (suc k) n fd s valid left =
      let (s', e, r) = round_lem n fd s valid (omega arith) in
      let (s'', e', w) = closeall_loop_lem k n (fd + 1) s' r.valid (omega arith) in
      (s'', rw (e, e') refl, Round-Swept n fd s s' s'' r w)

  -- On a valid table in use, `files_closeall` succeeds: every descriptor from 2 on is free, the first two
  -- are as they were, each inode loses an opener and a reference for each descriptor closed on it, and the
  -- table is valid again.
  pub files_closeall_lem :
      (n : ℕ) (s : Files W)
      → IsFiles n s
      → s.table.files_count ≢ 0
      → (s' : Files W) × (files_closeall v n s ≡ some s') × Swept n 2 s s'
  unfolding files_closeall
  files_closeall_lem n s valid used =
      let (s', e, w) = closeall_loop_lem (n - 2) n 2 s valid refl in
      (s', rw (ne→== s.table.files_count 0 used, e) refl, w)

  destroy_loop_lem :
      (left n fd : ℕ) (s : Files W)
      → IsFiles n s
      → left ≡ n - fd
      → (s' : Files W) × (destroy_loop v left fd s ≡ some s') × Swept n fd s s'
  unfolding destroy_loop
  destroy_loop_lem zero n fd s valid left = (s, refl, Swept-refl n fd s (omega arith) valid)
  destroy_loop_lem (suc k) n fd s valid left =
      let (s', e, r) = round_lem n fd s valid (omega arith) in
      let (s'', e', w) = destroy_loop_lem k n (fd + 1) s' r.valid (omega arith) in
      (s'', rw (e, r.free.status, e') refl, Round-Swept n fd s s' s'' r w)

  -- The reference of the directory, given back.
  record Left (n : ℕ) (s : Files W) (nodes : Nodes W) : Type 0 where
    valid : IsFiles n (record s { nodes = nodes })
    opens : (x : ℕ) → nodes.opens x ≡ s.nodes.opens x
    refs :
        (x : ℕ) → nodes.ref_count x + bit (not (x == 0) && (x == s.table.pwd)) ≡ s.nodes.ref_count x

  leave_pwd :
      (n : ℕ) (s : Files W)
      → IsFiles n s
      → (s.table.pwd ≡ 0) ⊎ (s.nodes.opens s.table.pwd + 1 ≤ s.nodes.ref_count s.table.pwd)
      → (nodes : Nodes W) × ((if not (s.table.pwd == 0)
            then inode_ref_dec v s.table.pwd s.nodes
            else some s.nodes)
          ≡ some nodes)
        × Left n s nodes
  leave_pwd n s valid dir = elim (Bool-cases (s.table.pwd == 0)) [
    | inl null ↦ (
      s.nodes,
      rw null refl,
      record { valid = valid; opens = λ x. refl; refs = λ x. ground arith },
    )
    | inr pwd ↦
        let d = s.table.pwd in
        let spare : s.nodes.opens d + 1 ≤ s.nodes.ref_count d = ground arith in
        let nz = ==→ne d 0 pwd in
        let (w, e) =
          inode_ref_dec_lem v s.nodes d nz (omega arith) spare (valid.nodes.counted d).small in
        (
          less_ref d w s.nodes,
          rw (pwd, e) refl,
          record {
            valid = record {
              table = valid.table;
              nodes = record {
                held = valid.nodes.held;
                counted = λ x.
                    let b = valid.nodes.counted x in
                    record {
                      opens_le = ground (arith, b.opens_le);
                      small = ground (arith, b.small);
                    };
              };
            };
            opens = λ x. refl;
            refs = λ x. ground arith;
          },
        )
  ]

  -- On a valid table out of use, whose directory is NULL or has a reference to spare, `files_destroy`
  -- succeeds: every descriptor is free, and each inode loses an opener and a reference for each
  -- descriptor that was open on it, and the directory one more reference.
  pub files_destroy_lem :
      (n : ℕ) (s : Files W)
      → IsFiles n s
      → s.table.files_count ≡ 0
      → (s.table.pwd ≡ 0) ⊎ (s.nodes.opens s.table.pwd + 1 ≤ s.nodes.ref_count s.table.pwd)
      → (s' : Files W) × (files_destroy v n s ≡ some s')
        × ((i : ℕ) → i < n → IsFree s'.table i)
        × ((x : ℕ) → s'.nodes.opens x + handles n s.table x ≡ s.nodes.opens x)
        × ((x : ℕ)
            → s'.nodes.ref_count x + handles n s.table x + bit (not (x == 0) && (x == s.table.pwd))
              ≡ s.nodes.ref_count x)
  unfolding files_destroy
  files_destroy_lem n s valid unused dir =
      let zero_count : (s.table.files_count == 0) ≡ true = ground arith in
      let (nodes, e, l) = leave_pwd n s valid dir in
      let (s', e', w) = destroy_loop_lem n n 0 (record s { nodes = nodes }) l.valid (omega arith) in
      let none = λ (x : ℕ). handles_none n s'.table x (λ i lt. w.free i (omega arith) lt) in
      (
        s',
        rw (zero_count, e, e') refl,
        λ i lt. w.free i (omega arith) lt,
        λ x. omega (arith, none x, w.opens x, l.opens x),
        λ x. omega (arith, none x, w.refs x, l.refs x),
      )
