-- ===== src/Chunk.antt =====
-- class Chunk of marshal.h: one fixed array with a read index and a write index.
pub mod Contents
pub mod Methods
pub mod Io
use vncproxy.Prelude.{
  ℕ, zero, ◌+◌, ◌-◌, min, max, Bool, Option, none, some, List, length, take, drop, replicate,
  copy_at, ◌>>=◌, ◌>>◌, require, leb, ◌==◌,
}
use vncproxy.Kernel.{Kernel, ReadResult, WriteResult, bytes_of, count_of}

-- `Chunk::min_size`
unfoldable pub min_size : ℕ
min_size = 8192

-- `data_` holds `size_` bytes. A byte that nothing wrote yet is 0 here.
pub record Chunk : Type 0 where
  pub bytes : List ℕ
  pub size : ℕ
  pub read_idx : ℕ
  pub write_idx : ℕ

-- `Chunk(int size)`
unfoldable pub new_chunk : ℕ → Chunk
new_chunk n =
    let size = max min_size n in
    record { bytes = replicate size 0; size = size; read_idx = 0; write_idx = 0 }

-- `Chunk(const void* p, int n)`
pub copy_chunk : List ℕ → Chunk
copy_chunk p =
    let size = max min_size (length p) in
    record {
      bytes = copy_at (replicate size 0) 0 p;
      size = size;
      read_idx = 0;
      write_idx = length p;
    }

-- The two assertions that open and close the methods.
unfoldable pub in_order : Chunk → Option (Unit {0})
in_order c = do require (leb c.write_idx c.size); require (leb c.read_idx c.write_idx)

unfoldable pub content_size : Chunk → Option ℕ
unfolding in_order
content_size c = do in_order c; some (c.write_idx - c.read_idx)

-- The reserved byte's address is its index in `data_`.
unfoldable pub set_bookmark : Chunk → Option (ℕ × Chunk)
unfolding in_order
set_bookmark c = do
  in_order c
  let c' = record c { write_idx = c.write_idx + 1 }
  in_order c'
  some (c.write_idx, c')

pub write : List ℕ → Chunk → Option (ℕ × Chunk)
unfolding in_order
write p c = do
  in_order c
  let n_write = min (length p) (c.size - c.write_idx)
  let c' = record c {
    bytes = copy_at c.bytes c.write_idx (take n_write p);
    write_idx = c.write_idx + n_write;
  }
  in_order c'
  some (n_write, c')

-- The bytes copied out; their number is the result of the method.
pub read : ℕ → Chunk → Option (List ℕ × Chunk)
unfolding in_order
read n c = do
  in_order c
  let n_read = min n (c.write_idx - c.read_idx)
  let c' = record c { read_idx = c.read_idx + n_read }
  in_order c'
  some (take n_read (drop c.read_idx c.bytes), c')

pub peek : ℕ → Chunk → Option (List ℕ)
unfolding in_order
peek n c = do
  in_order c
  let n_peek = min n (c.write_idx - c.read_idx)
  some (take n_peek (drop c.read_idx c.bytes))

pub read_from_chunk : Chunk → Chunk → ℕ → Option (ℕ × Chunk × Chunk)
unfolding in_order
read_from_chunk c chnk n = do
  in_order c
  in_order chnk
  let n_read = min (min (c.size - c.write_idx) (chnk.write_idx - chnk.read_idx)) n
  let c' = record c {
    bytes = copy_at c.bytes c.write_idx (take n_read (drop chnk.read_idx chnk.bytes));
    write_idx = c.write_idx + n_read;
  }
  let chnk' = record chnk { read_idx = chnk.read_idx + n_read }
  in_order c'
  in_order chnk'
  some (n_read, c', chnk')

unfoldable pub fully_written : Chunk → Option Bool
unfolding in_order
fully_written c = do in_order c; some (c.write_idx == c.size)

unfoldable pub fully_read : Chunk → Option Bool
unfolding in_order
fully_read c = do in_order c; some (c.read_idx == c.size)

module _ (k : Kernel) where
  open k use {State, sys_read, sys_write}

  -- `r` bytes leave the chunk if the call wrote `r > 0`.
  pub write_to_fd : ℕ → Chunk → State → Option (WriteResult × Chunk × State)
  unfolding in_order
  write_to_fd fd c s = do
    in_order c
    let (r, s') = sys_write fd (take (c.write_idx - c.read_idx) (drop c.read_idx c.bytes)) s
    let c' = record c { read_idx = c.read_idx + count_of r }
    in_order c'
    some (r, c', s')

  unfoldable pub read_from_fd : ℕ → Chunk → State → Option (ReadResult × Chunk × State)
  unfolding in_order
  read_from_fd fd c s = do
    in_order c
    let (r, s') = sys_read fd (c.size - c.write_idx) s
    let c' = record c {
      bytes = copy_at c.bytes c.write_idx (bytes_of r);
      write_idx = c.write_idx + length (bytes_of r);
    }
    in_order c'
    some (r, c', s')
