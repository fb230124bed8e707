-- ===== src/Prelude/Faults.antt =====
-- Code that may stop the process. `none` is an `abort()` by `assert` or `verify`, or a signed
-- overflow, whose result the language leaves undefined.
use Prim.Native.Nat.{ℕ, ◌+◌, ◌^◌, ◌<◌}
use mathlib.Core.Path.{◌≡◌}
use mathlib.Core.Bool.{Bool, true, false}
use mathlib.Core.Option.{Option, none, some}
use native.Mathlib.Omega.{arith}
use vncproxy.Prelude.Tests.{ltb, if◌then◌else◌}

infixl 5 ◌>>=◌ ◌>>◌
abbrev pub ◌>>=◌ {ℓ κ} : {A : Type ℓ} {B : Type κ} → Option A → (A → Option B) → Option B
none >>= f = none
some a >>= f = f a

abbrev pub ◌>>◌ {ℓ} : {B : Type ℓ} → Option (Unit {0}) → Option B → Option B
m >> k = m >>= λ _. k

-- `assert(b)` and `verify(b)`
abbrev pub require : Bool → Option (Unit {0})
require true = some tt
require false = none

-- one past the largest `int`
abbrev pub int_limit : ℕ
int_limit = 2 ^ 31

-- `a + b` of two non-negative `int`s
unfoldable pub add_int : ℕ → ℕ → Option ℕ
add_int a b = if ltb (a + b) int_limit then some (a + b) else none

pub add_int-eq : (a b : ℕ) → a + b < int_limit → add_int a b ≡ some (a + b)
unfolding add_int
add_int-eq a b h = ground arith
