-- ===== src/Kernel.antt =====
-- The system calls on file descriptors that the program makes: `read`, `write` and `close`. They
-- are parameters. The laws are what their manual pages promise.
pub mod Pipes
use vncproxy.Prelude.{ℕ, ◌+◌, ◌≤◌, ◌≡◌, List, [], ◌++◌, length, take, arith, ◌==◌, if◌then◌else◌}

-- What `read` returns, with the bytes that it stored: `r > 0`, `r = 0` (`got []`, end of file) or
-- `r < 0`.
pub data ReadResult : Type 0 where
  got : List ℕ → ReadResult
  read_failed : ReadResult

pub data WriteResult : Type 0 where
  wrote : ℕ → WriteResult
  write_failed : WriteResult

abbrev pub bytes_of : ReadResult → List ℕ
bytes_of (got bs) = bs
bytes_of read_failed = []

abbrev pub count_of : WriteResult → ℕ
count_of (wrote n) = n
count_of write_failed = 0

-- Bytes that pass through the descriptor `fd`, as the descriptor `j` sees them.
abbrev pub on_fd : ℕ → ℕ → List ℕ → List ℕ
on_fd fd j bs = if fd == j then bs else []

pub on_fd-append :
    (fd j : ℕ) (xs ys : List ℕ) → on_fd fd j (xs ++ ys) ≡ on_fd fd j xs ++ on_fd fd j ys
on_fd-append fd j xs ys = ground arith

-- `received s fd` is every byte that the process has read from `fd` so far, and `sent s fd` every
-- byte that it has written.
pub record Kernel : Type 1 where
  pub State : Type 0
  pub sys_read : ℕ → ℕ → State → ReadResult × State
  pub sys_write : ℕ → List ℕ → State → WriteResult × State
  pub received : State → ℕ → List ℕ
  pub sent : State → ℕ → List ℕ
  pub read_le : (fd n : ℕ) (s : State) → length (bytes_of (sys_read fd n s).0) ≤ n
  pub received-read :
      (fd n : ℕ) (s : State) (j : ℕ)
      → received (sys_read fd n s).1 j ≡ received s j ++ on_fd fd j (bytes_of (sys_read fd n s).0)
  pub sent-read : (fd n : ℕ) (s : State) (j : ℕ) → sent (sys_read fd n s).1 j ≡ sent s j
  pub write_le : (fd : ℕ) (bs : List ℕ) (s : State) → count_of (sys_write fd bs s).0 ≤ length bs
  pub sent-write :
      (fd : ℕ) (bs : List ℕ) (s : State) (j : ℕ)
      → sent (sys_write fd bs s).1 j
        ≡ sent s j ++ on_fd fd j (take (count_of (sys_write fd bs s).0) bs)
  pub received-write :
      (fd : ℕ) (bs : List ℕ) (s : State) (j : ℕ) → received (sys_write fd bs s).1 j ≡ received s j

-- A descriptor with finitely many bytes to read: each `read` takes its bytes from those.
pub record Drains (k : Kernel) : Type 0 where
  pub pending : k.State → ℕ → ℕ
  pub pending-read :
      (fd n : ℕ) (s : k.State)
      → pending (k.sys_read fd n s).1 fd + length (bytes_of (k.sys_read fd n s).0) ≤ pending s fd
