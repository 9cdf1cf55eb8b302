-- ===== src/Proc/Reap.antt =====
-- do_wait of lab5/kern/process/proc.c when a child has ended: nothing of the child is left.
use nku_os.Base.{
  ℕ, ◌-◌, ◌≤◌, ◌≡◌, ◌≢◌, refl, false, not, List, [], ◌∷◌, ◌++◌, arith, ◌==◌, if◌then◌else◌, ne→==,
  Option, some, none, length, length-append, NoDup, le→leb,
}
use nku_os.Links.{put}
use nku_os.Links.Chain.{Ring}
use nku_os.Links.Rings.{list_del-Ring}
use nku_os.Sched.{ProcState, is_zombie}
use nku_os.Proc.{remove_links, unhash_proc}
use nku_os.Proc.Life.{Life, kern_base, put_kstack}
use nku_os.Proc.Wait.{returned, reap}
use nku_os.Proc.Family.{Children}
use nku_os.Proc.Leave.{remove_links-Children}

-- No process of the sequence is a zombie.
abbrev pub NoZombie : (ℕ → ProcState) → List ℕ → Type 0
NoZombie state [] = Unit
NoZombie state (x ∷ xs) = (is_zombie (state x) ≡ false) × NoZombie state xs

-- The process `z` is gone: the children of the running process are `xs`, the list of all processes holds
-- `ps`, its hash list with the head `head` holds `hs`, and its structure and its stack are free.
pub record Reaped (s s' : Life) (z head : ℕ) (xs ps hs : List ℕ) : Type 0 where
  pub children : Children s'.table s.current xs
  pub listed : Ring s'.table.links 0 ps
  pub counted : s'.table.nr_process ≡ length ps
  pub hashed : Ring s'.table.hash_links head hs
  pub proc_free : s'.in_use z ≡ false
  pub stack_free : s'.in_use (s.kstack z) ≡ false
  pub others : (a : ℕ) → a ≢ z → a ≢ s.kstack z → s'.in_use a ≡ s.in_use a

-- What goes to `*code_store`.
abbrev pub stored : (code_store code : ℕ) → Option ℕ
stored code_store code = if not (code_store == 0) then some code else none

pub reap_lem :
    (code_store : ℕ) (s : Life) (head : ℕ) (pre : List ℕ) (z : ℕ) (post ls rs hs hs' : List ℕ)
    → NoDup (pre ++ z ∷ post)
    → Children s.table s.current (pre ++ z ∷ post)
    → z ≢ s.idleproc
    → z ≢ s.initproc
    → kern_base ≤ s.kstack z
    → Ring s.table.links 0 (ls ++ z ∷ rs)
    → s.table.nr_process ≡ length (ls ++ z ∷ rs)
    → Ring s.table.hash_links head (hs ++ z ∷ hs')
    → (s' : Life) × (reap code_store z s
        ≡ some (returned 0 (stored code_store (s.exit_code z)), s'))
      × Reaped s s' z head (pre ++ post) (ls ++ rs) (hs ++ hs')
unfolding reap put_kstack remove_links unhash_proc
reap_lem code_store s head pre z post ls rs hs hs' once kids idle init high listed counted hashed =
    let t = unhash_proc z s.table in
    let same : Children t s.current (pre ++ z ∷ post) = record {
      older = kids.older;
      younger = kids.younger;
    } in
    let shorter : s.table.nr_process - 1 ≡ length (ls ++ rs) =
      omega (arith, counted, length-append ls (z ∷ rs), length-append ls rs) in
    (
      record s { table = remove_links z t; in_use = put (put s.in_use (s.kstack z) false) z false },
      rw (ne→== z s.idleproc idle, ne→== z s.initproc init, le→leb _ _ high) refl,
      record {
        children = remove_links-Children t s.current pre z post once same;
        listed = list_del-Ring z ls rs listed;
        counted = shorter;
        hashed = list_del-Ring z hs hs' hashed;
        proc_free = ground arith;
        stack_free = ground arith;
        others = λ a nz nk. ground (arith, nz, nk);
      },
    )
