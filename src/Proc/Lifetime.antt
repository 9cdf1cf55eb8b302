-- ===== src/Proc/Lifetime.antt =====
-- From do_exit of a child of initproc to do_wait of initproc, lab5/kern/process/proc.c.
use nku_os.Proc.Life.{Life}
