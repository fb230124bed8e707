-- ===== src/Kernel/Pipes.antt =====
-- Descriptors that meet the laws of `Kernel`: each has bytes to read, and takes three bytes at most
-- in one write.
use vncproxy.Prelude.{
  ℕ, ◌+◌, ◌≤◌, refl, List, [], ◌∷◌, ◌++◌, arith, length, take, drop, min, length-take, length-drop,
  ◌==◌, if◌then◌else◌,
}
use vncproxy.Kernel.{Kernel, ReadResult, WriteResult, got, wrote, bytes_of, count_of, on_fd, Drains}

pub record Pipes : Type 0 where
  pub inbox : ℕ → List ℕ
  pub read_log : ℕ → List ℕ
  pub write_log : ℕ → List ℕ

abbrev pub pipe_read : ℕ → ℕ → Pipes → ReadResult × Pipes
pipe_read fd n s = (
  got (take n (s.inbox fd)),
  record s {
    inbox = λ j. if fd == j then drop n (s.inbox j) else s.inbox j;
    read_log = λ j. s.read_log j ++ on_fd fd j (take n (s.inbox fd));
  },
)

abbrev pub pipe_write : ℕ → List ℕ → Pipes → WriteResult × Pipes
pipe_write fd bs s = (
  wrote (min 3 (length bs)),
  record s { write_log = λ j. s.write_log j ++ on_fd fd j (take (min 3 (length bs)) bs) },
)

pub pipe_read_le : (fd n : ℕ) (s : Pipes) → length (bytes_of (pipe_read fd n s).0) ≤ n
pipe_read_le fd n s = omega (arith, length-take {0} n (s.inbox fd))

pub pipe_write_le : (fd : ℕ) (bs : List ℕ) (s : Pipes) → count_of (pipe_write fd bs s).0 ≤ length bs
pipe_write_le fd bs s = omega arith

abbrev pub pipes : Kernel
pipes = record {
  State = Pipes;
  sys_read = pipe_read;
  sys_write = pipe_write;
  received = λ s. s.read_log;
  sent = λ s. s.write_log;
  read_le = pipe_read_le;
  received-read = λ fd n s j. refl;
  sent-read = λ fd n s j. refl;
  write_le = pipe_write_le;
  sent-write = λ fd bs s j. refl;
  received-write = λ fd bs s j. refl;
}

pub pipe_pending :
    (fd n : ℕ) (s : Pipes)
    → length ((pipe_read fd n s).1.inbox fd) + length (bytes_of (pipe_read fd n s).0)
      ≤ length (s.inbox fd)
pipe_pending fd n s = ground (arith, length-take n (s.inbox fd), length-drop n (s.inbox fd))

abbrev pub pipes_drain : Drains pipes
pipes_drain = record { pending = λ s fd. length (s.inbox fd); pending-read = pipe_pending }

-- Five bytes to read from descriptor 7.
abbrev pub five_bytes : Pipes
five_bytes = record {
  inbox = λ fd. if fd == 7 then 1 ∷ 2 ∷ 3 ∷ 4 ∷ 5 ∷ [] else [];
  read_log = λ _. [];
  write_log = λ _. [];
}
