-- ===== src/Errors.antt =====
-- The error numbers of lab8/libs/error.h that the modelled code returns. A result is such a number, 0
-- if there is no error, where the code returns the negative number.
use nku_os.Base.{ℕ}

abbrev pub e_bad_proc : ℕ
e_bad_proc = 2

abbrev pub e_inval : ℕ
e_inval = 3

abbrev pub e_no_mem : ℕ
e_no_mem = 4

abbrev pub e_no_free_proc : ℕ
e_no_free_proc = 5

abbrev pub e_killed : ℕ
e_killed = 9

abbrev pub e_busy : ℕ
e_busy = 15

abbrev pub e_noent : ℕ
e_noent = 16

abbrev pub e_max_open : ℕ
e_max_open = 22

abbrev pub e_exists : ℕ
e_exists = 23
