-- ===== src/Utils/Log.antt =====
-- Class Log of utils.h and utils.cc. Each function is one step: its mutex makes it one, but for the
-- test of the level. What `vfprintf` makes of the format and its arguments is given.
use vncproxy.Prelude.{
  ℕ, zero, suc, ◌==◌, Bool, true, false, Option, none, some, List, [], ◌∷◌, ◌++◌, ◌>>=◌, ◌>>◌,
  require, leb, not, if◌then◌else◌,
}

-- An `int`: `negsuc n` is `-1 - n`.
pub data ℤ : Type 0 where
  pos : ℕ → ℤ
  negsuc : ℕ → ℤ

unfoldable pub int_leb : ℤ → ℤ → Bool
int_leb (pos a) (pos b) = leb a b
int_leb (pos a) (negsuc b) = false
int_leb (negsuc a) (pos b) = true
int_leb (negsuc a) (negsuc b) = leb b a

-- `Log::level`, `Log::fp` and what was printed: each line with its file, in order.
pub record Log : Type 0 where
  pub level : ℤ
  pub fp : ℕ
  pub lines : List (ℕ × List ℕ)

-- The static members at the start; `stdout` is the address of the file.
unfoldable pub new_log : ℕ → Log
new_log stdout = record { level = pos 4; fp = stdout; lines = [] }

unfoldable pub set_level : ℤ → Log → Log
set_level level log = record log { level = level }

unfoldable pub set_file : ℕ → Log → Option Log
set_file fp log = do require (not (fp == 0)); some (record log { fp = fp })

-- The character at the index
unfoldable pub nth : List ℕ → ℕ → Option ℕ
nth [] i = none
nth (x ∷ xs) zero = some x
nth (x ∷ xs) (suc i) = nth xs i

-- `indicator[level]`: 'F', 'E', 'W', 'I' and 'D'. Outside the array nothing is defined.
unfoldable pub indicator : ℤ → Option ℕ
indicator (pos n) = nth (70 ∷ 69 ∷ 87 ∷ 73 ∷ 68 ∷ []) n
indicator (negsuc n) = none

-- The line with its mark, a colon and a space, and the message
unfoldable pub print_line : ℤ → List ℕ → Log → Option Log
print_line level message log = do
  mark ← indicator level
  some (record log { lines = log.lines ++ (log.fp, mark ∷ 58 ∷ 32 ∷ message ++ 10 ∷ []) ∷ [] })

unfoldable pub log_v : ℤ → List ℕ → Log → Option Log
log_v level message log = do
  require (int_leb level (pos 4))
  if int_leb level log.level then print_line level message log else some log

-- `Log::log`
unfoldable pub log : ℤ → List ℕ → Log → Option Log
log level message l = log_v level message l

unfoldable pub fatal : List ℕ → Log → Option Log
fatal = log_v (pos 0)

unfoldable pub error : List ℕ → Log → Option Log
error = log_v (pos 1)

unfoldable pub warn : List ℕ → Log → Option Log
warn = log_v (pos 2)

unfoldable pub info : List ℕ → Log → Option Log
info = log_v (pos 3)

unfoldable pub debug : List ℕ → Log → Option Log
debug = log_v (pos 4)
