-- ===== src/Marshal/Io.antt =====
-- `Marshal::write_to_fd` and `Marshal::read_from_fd` of marshal.cc.
use vncproxy.Prelude.{
  ℕ, zero, suc, true, false, Option, none, some, List, [], ◌∷◌, length, ◌>>=◌, ◌>>◌, add_int, ltb,
}
use vncproxy.Kernel.{Kernel, ReadResult, bytes_of, count_of}
use vncproxy.Chunk
use vncproxy.Chunk.{Chunk}
use vncproxy.Marshal.{Marshal}
use vncproxy.Marshal.Chunks.{on_back, front_live, drop_read, make_room}
use vncproxy.Marshal.Valid.{contents}

module _ (k : Kernel) where
  open k use {State}

  unfoldable pub write_fd_loop : ℕ → ℕ → ℕ → List Chunk → State → Option (ℕ × List Chunk × State)
  write_fd_loop fd zero n_write cs s = none
  write_fd_loop fd (suc fuel) n_write [] s = some (n_write, [], s)
  write_fd_loop fd (suc fuel) n_write (c ∷ cs) s = do
    out ← Chunk.write_to_fd k fd c s
    left ← drop_read (out.1 ∷ cs)
    elim (ltb 0 (count_of out.0)) [
      | false ↦ some (n_write, left, out.2)
      | true ↦ do
        n_write' ← add_int n_write (count_of out.0)
        write_fd_loop fd fuel n_write' left out.2
    ]

  -- Each round but the last writes a byte: one more round than there are bytes is enough.
  unfoldable pub write_to_fd : ℕ → Marshal → State → Option (ℕ × Marshal × State)
  unfolding write_fd_loop
  write_to_fd fd m s = do
    front_live m.chunks
    out ← write_fd_loop fd (suc (length (contents m))) 0 m.chunks s
    front_live out.1
    some (out.0, record m { chunks = out.1 }, out.2)

  -- `chunk_.back()->read_from_fd(fd)`, with the state beside the result.
  unfoldable pub read_back : ℕ → State → Chunk → Option ((ReadResult × State) × Chunk)
  read_back fd s c = do out ← Chunk.read_from_fd k fd c s; some ((out.0, out.2), out.1)

  unfoldable pub read_fd_loop : ℕ → ℕ → ℕ → List Chunk → State → Option (ℕ × List Chunk × State)
  unfolding read_back
  read_fd_loop fd zero n_read cs s = none
  read_fd_loop fd (suc fuel) n_read cs s = do
    roomy ← make_room cs
    out ← on_back (read_back fd s) roomy
    elim (ltb 0 (length (bytes_of out.0.0))) [
      | false ↦ some (n_read, out.1, out.0.1)
      | true ↦ do
        n_read' ← add_int n_read (length (bytes_of out.0.0))
        read_fd_loop fd fuel n_read' out.1 out.0.1
    ]

  -- The loop has no bound of its own: `fuel` is how many rounds the descriptor is given.
  unfoldable pub read_from_fd : ℕ → ℕ → Marshal → State → Option (ℕ × Marshal × State)
  unfolding read_fd_loop
  read_from_fd fuel fd m s = do
    front_live m.chunks
    out ← read_fd_loop fd fuel 0 m.chunks s
    front_live out.1
    some (out.0, record m { chunks = out.1 }, out.2)
