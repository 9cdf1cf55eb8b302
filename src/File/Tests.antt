-- ===== src/File/Tests.antt =====
-- The theorems on open files at a table of four, the first two of which are open on the inode 40.
use nku_os.Base.{
  ℕ, ◌+◌, ◌≡◌, ◌⊎◌, inl, inr, refl, Bool-cases, arith, some, ◌==◌, ltb, if◌then◌else◌, true,
}
use nku_os.Errors.{e_inval, e_max_open}
use nku_os.Vfs.Tests.{plain_fs, idle_nodes, root_found, root_found_lem, root_found-Looked}
use nku_os.File.{Table, Files, fd_none, fd_opened, no_fd}
use nku_os.File.Calls.{
  file_open, file_close, file_read, file_write, file_seek, file_fstat, file_fsync, file_getdirentry,
  file_dup,
}
use nku_os.File.Tables.{dup_files, files_destroy}
use nku_os.File.Valid.{IsTable, IsFiles, handles, bit}
use nku_os.File.Copies.{Copy}
use nku_os.File.Alloc.{NoneFree, IsLowest}
use nku_os.File.Dup.{file_dup_lem}
use nku_os.File.Fork.{files_destroy-dup_files}
use nku_os.File.Opens.{file_close-file_open}
use nku_os.File.Opened.{Restored}
use nku_os.File.Transfer.{calls_refused}

abbrev two_open : Table
two_open = record {
  status = λ i. if ltb i 2 then fd_opened else fd_none;
  readable = λ i. true;
  writable = λ i. true;
  fd = λ i. i;
  pos = λ i. 0;
  node = λ i. 40;
  open_count = λ i. if ltb i 2 then 1 else 0;
  files_count = 1;
  pwd = 40;
}

two_open-IsTable : IsTable 4 two_open
two_open-IsTable = record {
  entries = λ i lt. elim (Bool-cases (ltb i 2)) [
    | inl low ↦ inr (record { status = rw low refl; once = rw low refl; node = omega arith })
    | inr high ↦ inl (record { status = rw high refl; unused = rw high refl })
  ];
  numbered = λ i lt. refl;
}

abbrev files : Files ℕ
files = record { table = two_open; nodes = idle_nodes }

files-IsFiles : IsFiles 4 files
unfolding handles
files-IsFiles = record {
  table = two_open-IsTable;
  nodes = record {
    held = λ x. ground arith;
    counted = λ x. record { opens_le = ground arith; small = ground arith };
  };
}

-- The table of a child that has just been created.
abbrev none_open : Table
none_open = record two_open { status = λ i. fd_none; open_count = λ i. 0; files_count = 0; pwd = 0 }

none_open-IsTable : IsTable 4 none_open
none_open-IsTable = record {
  entries = λ i lt. inl (record { status = refl; unused = refl });
  numbered = λ i lt. refl;
}

abbrev child : Files ℕ
child = record { table = none_open; nodes = idle_nodes }

files_destroy-dup_files_example :
    (s' s'' : Files ℕ) × (dup_files 4 two_open child ≡ some s')
    × (files_destroy plain_fs 4 s' ≡ some s'')
    × ((x : ℕ) → s''.nodes.opens x ≡ idle_nodes.opens x)
    × ((x : ℕ) → s''.nodes.ref_count x ≡ idle_nodes.ref_count x)
unfolding handles
files_destroy-dup_files_example =
    files_destroy-dup_files plain_fs 4 two_open child two_open-IsTable (omega arith)
      none_open-IsTable (λ i lt. record { status = refl; unused = refl }) refl (λ x. ground arith)
      (λ x. ground arith)

file_close-file_open_example :
    (fd : ℕ) × (s' s'' : Files ℕ) × (file_open plain_fs 4 5 1000 0 files ≡ some (0, fd, s'))
    × IsFiles 4 s'
    × (file_close plain_fs 4 fd s' ≡ some (0, s''))
    × Restored 4 files s''
file_close-file_open_example =
    file_close-file_open plain_fs 4 5 1000 0 60 files root_found files-IsFiles (omega arith) 2
      (omega arith) refl (record { mode = refl; keep = refl; old = refl }) refl root_found_lem
      root_found-Looked (omega arith) refl

file_dup_lem_example :
    (NoneFree 0 4 two_open × (file_dup plain_fs 4 1 no_fd files ≡ some (e_max_open, 0, files)))
    ⊎ ((fd2 : ℕ) × (s' : Files ℕ) × IsLowest 0 4 two_open fd2
        × (file_dup plain_fs 4 1 no_fd files ≡ some (0, fd2, s'))
        × Copy two_open s'.table 1 fd2
        × (s'.table.files_count ≡ 1)
        × ((x : ℕ) → s'.nodes.ref_count x ≡ idle_nodes.ref_count x + bit (40 == x))
        × ((x : ℕ) → s'.nodes.opens x ≡ idle_nodes.opens x + bit (40 == x))
        × IsFiles 4 s')
file_dup_lem_example =
    file_dup_lem plain_fs 4 1 files files-IsFiles (omega arith) (omega arith) refl (omega arith)

calls_refused_example :
    (file_close plain_fs 4 3 files ≡ some (e_inval, files))
    × (file_read plain_fs 4 3 0 0 files ≡ some (e_inval, 0, files))
    × (file_write plain_fs 4 3 0 0 files ≡ some (e_inval, 0, files))
    × (file_seek plain_fs 4 3 0 0 files ≡ some (e_inval, files))
    × (file_fstat plain_fs 4 3 files ≡ some (e_inval, 0, files))
    × (file_fsync plain_fs 4 3 files ≡ some (e_inval, files))
    × (file_getdirentry plain_fs 4 3 0 0 0 files ≡ some (e_inval, 0, files))
    × (file_dup plain_fs 4 3 0 files ≡ some (e_inval, 0, files))
calls_refused_example = calls_refused plain_fs 4 3 0 0 0 files (omega arith) (λ lt. refl)
