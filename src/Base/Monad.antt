-- ===== src/Base/Monad.antt =====
-- Code that may fail, and 32-bit unsigned arithmetic.
use Prim.Native.Nat.{ℕ, ◌%◌, ◌^◌}
use mathlib.Core.Bool.{Bool, true, false}
use mathlib.Core.Option.{Option, none, some}

-- The value of an expression of type `uint32_t`.
abbrev pub u32 : ℕ → ℕ
u32 x = x % 2 ^ 32

-- A failed assertion or a loop that runs out of fuel is `none`.
infixl 5 ◌>>=◌
abbrev pub ◌>>=◌ {ℓ κ} : {A : Type ℓ} {B : Type κ} → Option A → (A → Option B) → Option B
none >>= f = none
some a >>= f = f a

abbrev pub assert : Bool → Option (Unit {0})
assert true = some tt
assert false = none

infixl 5 ◌>>◌
abbrev pub ◌>>◌ {ℓ} : {B : Type ℓ} → Option (Unit {0}) → Option B → Option B
m >> k = m >>= λ _. k
