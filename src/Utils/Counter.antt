-- ===== src/Utils/Counter.antt =====
-- Class Counter of utils.h. A call of `next` is one step: the mutex makes it one.
use vncproxy.Prelude.{
  ℕ, zero, suc, ◌+◌, ◌^◌, ◌≡◌, ◌<◌, Option, none, some, List, [], ◌∷◌, ◌>>=◌, if◌then◌else◌, ltb,
  arith, Bool-cases, inl, inr,
}

-- one past the largest `i64`
abbrev pub i64_limit : ℕ
i64_limit = 2 ^ 63

-- `next_` at the start
unfoldable pub new_counter : ℕ
new_counter = 0

-- The result and `next_` after it; `next_++` past an i64 has no result.
unfoldable pub next : ℕ → Option (ℕ × ℕ)
next n = if ltb (suc n) i64_limit then some (n, suc n) else none

-- The results of calls one after the other, by whatever threads
unfoldable pub draws : ℕ → ℕ → Option (List ℕ × ℕ)
draws zero c = some ([], c)
draws (suc n) c = do out ← next c; rest ← draws n out.1; some (out.0 ∷ rest.0, rest.1)

-- `n` numbers from `c` on
unfoldable pub upward : ℕ → ℕ → List ℕ
upward zero c = []
upward (suc n) c = c ∷ upward n (suc c)

draws-upward :
    (n c : ℕ)
    → c < i64_limit
    → draws n c ≡ (if ltb (n + c) i64_limit then some (upward n c, n + c) else none)
unfolding draws next upward
draws-upward zero c h = ground (arith, h)
draws-upward (suc n) c h = elim (Bool-cases (ltb (suc c) i64_limit)) [
  | inl z ↦ let rest = draws-upward n (suc c) (ground (arith, z)) in ground (arith, z, rest)
  | inr z ↦ ground (arith, z)
]

-- The calls of a new counter give 0, 1, 2 and so on, up to the limit of an i64, and no result past
-- it.
pub draws_lem :
    (n : ℕ) → draws n new_counter ≡ (if ltb n i64_limit then some (upward n 0, n) else none)
unfolding new_counter
draws_lem n = ground (arith, draws-upward n 0 (omega arith))
