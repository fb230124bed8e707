-- ===== src/Chunk/Io.antt =====
-- `Chunk::write_to_fd` and `Chunk::read_from_fd` on a valid chunk.
use vncproxy.Prelude.{ℕ, ◌≡◌, some, arith, drop-take}
use vncproxy.Kernel.{Kernel, bytes_of, count_of}
use vncproxy.Chunk.{Chunk, write_to_fd, read_from_fd}
use vncproxy.Chunk.Contents.{
  IsValid, content, room, length-content, advance-IsValid, append-IsValid,
}
use vncproxy.Chunk.Methods.{
  Appends, Advances, appended, advanced, appended-Appends, advanced-Advances, valid-in_order,
}

module _ (k : Kernel) where
  open k use {State, sys_read, sys_write, read_le, write_le}

  -- The call is handed the content, and what it takes leaves the front.
  pub write_to_fd-eq :
      (fd : ℕ) (c : Chunk) (s : State)
      → IsValid c
      → let out = sys_write fd (content c) s in
        write_to_fd k fd c s ≡ some (out.0, advanced c (count_of out.0), out.1)
  unfolding write_to_fd
  write_to_fd-eq fd c s v = rw (
    valid-in_order c v,
    ← drop-take c.read_idx c.write_idx c.bytes,
    valid-in_order (advanced c (count_of (sys_write fd (content c) s).0))
        (advance-IsValid c _ v (omega (arith, write_le fd (content c) s, length-content c v))),
  )

  pub write_to_fd-Advances :
      (fd : ℕ) (c : Chunk) (s : State)
      → IsValid c
      → let n = count_of (sys_write fd (content c) s).0 in Advances n c (advanced c n)
  write_to_fd-Advances fd c s v =
      advanced-Advances c _ v (omega (arith, write_le fd (content c) s, length-content c v))

  -- The call is handed the room behind the content, and what it stores is appended.
  pub read_from_fd-eq :
      (fd : ℕ) (c : Chunk) (s : State)
      → IsValid c
      → let out = sys_read fd (room c) s in
        read_from_fd k fd c s ≡ some (out.0, appended c (bytes_of out.0), out.1)
  unfolding read_from_fd
  read_from_fd-eq fd c s v = rw (
    valid-in_order c v,
    valid-in_order (appended c (bytes_of (sys_read fd (room c) s).0))
        (append-IsValid c _ v (read_le fd (room c) s)),
  )

  pub read_from_fd-Appends :
      (fd : ℕ) (c : Chunk) (s : State)
      → IsValid c
      → let bs = bytes_of (sys_read fd (room c) s).0 in Appends bs c (appended c bs)
  read_from_fd-Appends fd c s v = appended-Appends c _ v (read_le fd (room c) s)
