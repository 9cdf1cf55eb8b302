-- ===== src/Rand.antt =====
-- lab8/libs/rand.c: the linear congruential generator, with its state as argument and result.
use nku_os.Base.{ℕ, ◌+◌, ◌*◌, ◌/◌, ◌%◌, ◌^◌}

-- The number, and the new state; `& ((1LL << 48) - 1)` is the remainder by 2 ^ 48, RAND_MAX + 1 is
-- 2 ^ 31.
unfoldable pub rand : (next : ℕ) → ℕ × ℕ
rand next =
    let next' = (next * 25214903917 + 11) % 2 ^ 64 % 2 ^ 48 in (next' / 2 ^ 12 % 2 ^ 31, next')

unfoldable pub srand : (seed next : ℕ) → ℕ
srand seed next = seed % 2 ^ 32
