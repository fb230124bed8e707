-- ===== src/Marshal.antt =====
-- class Marshal of marshal.h and marshal.cc: a byte queue over a list of chunks.
-- A loop takes fuel and returns `none` when it runs out; the modules below prove that it does not.
pub mod Chunks
pub mod Valid
pub mod Front
pub mod Reading
pub mod Sizes
pub mod Writing
pub mod Room
pub mod Extends
pub mod Places
pub mod Io
pub mod Transfer
pub mod FdWrites
pub mod Emptied
pub mod Bookmark
pub mod Reserved
pub mod Bookmarked
pub mod FdReads
mod Tests
use vncproxy.Prelude.{
  ℕ, zero, suc, ◌+◌, ◌-◌, Bool, true, false, Option, none, some, List, [], ◌∷◌, ◌++◌, length, take,
  drop, ◌>>=◌, ◌>>◌, require, add_int, ltb, leb, ◌==◌, if◌then◌else◌,
}
use vncproxy.Kernel.{Kernel, bytes_of, count_of}
use vncproxy.Chunk
use vncproxy.Chunk.{Chunk, new_chunk, copy_chunk, min_size}
use Chunks.{back_full, on_back, front_live, drop_read, make_room}

pub record Marshal : Type 0 where
  pub chunks : List Chunk
  pub write_counter : ℕ

-- `Marshal()` and `Marshal(const std::string&)`
unfoldable pub empty : Marshal
empty = record { chunks = []; write_counter = 0 }

unfoldable pub of_string : List ℕ → Marshal
of_string p = record { chunks = copy_chunk p ∷ []; write_counter = 0 }

-- `get_write_counter_and_reset`
unfoldable pub take_write_counter : Marshal → ℕ × Marshal
take_write_counter m = (m.write_counter, record m { write_counter = 0 })

-- The branch of `write` that has a chunk to fill first.
unfoldable pub fill_back : List ℕ → List Chunk → Option (List Chunk)
fill_back p cs = do
  out ← on_back (Chunk.write p) cs
  require (ltb 0 out.0)
  some (if ltb out.0 (length p) then out.1 ++ copy_chunk (drop out.0 p) ∷ [] else out.1)

unfoldable pub write : List ℕ → Marshal → Option (ℕ × Marshal)
unfolding fill_back
write p m = do
  front_live m.chunks
  full ← back_full m.chunks
  cs ← if full then some (m.chunks ++ copy_chunk p ∷ []) else fill_back p m.chunks
  counter ← add_int m.write_counter (length p)
  some (length p, record { chunks = cs; write_counter = counter })

-- The loop of `read`, from `n_read` bytes read: the bytes that it goes on to read.
unfoldable pub read_loop : ℕ → ℕ → ℕ → List Chunk → Option (List ℕ × List Chunk)
read_loop zero n n_read cs = none
read_loop (suc fuel) n n_read [] = some ([], [])
read_loop (suc fuel) n n_read (c ∷ cs) = elim (ltb n_read n) [
  | false ↦ some ([], c ∷ cs)
  | true ↦ do
    out ← Chunk.read (n - n_read) c
    left ← drop_read (out.1 ∷ cs)
    elim (length out.0 == 0) [
      | true ↦ some ([], left)
      | false ↦ do
        n_read' ← add_int n_read (length out.0)
        more ← read_loop fuel n n_read' left
        some (out.0 ++ more.0, more.1)
    ]
]

unfoldable pub read : ℕ → Marshal → Option (List ℕ × Marshal)
unfolding read_loop
read n m = do
  front_live m.chunks
  out ← read_loop (suc n) n 0 m.chunks
  require (leb (length out.0) n)
  front_live out.1
  some (out.0, record m { chunks = out.1 })

unfoldable pub peek_loop : ℕ → ℕ → List Chunk → Option (List ℕ)
peek_loop n n_peek [] = some []
peek_loop n n_peek (c ∷ cs) = do
  bs ← Chunk.peek (n - n_peek) c
  elim (length bs == 0) [
    | true ↦ some []
    | false ↦ do
      n_peek' ← add_int n_peek (length bs)
      elim (n_peek' == n) [
        | true ↦ some bs
        | false ↦ do more ← peek_loop n n_peek' cs; some (bs ++ more)
      ]
  ]

unfoldable pub peek : ℕ → Marshal → Option (List ℕ)
unfolding peek_loop
peek n m = do
  front_live m.chunks
  out ← peek_loop n 0 m.chunks
  require (leb (length out) n)
  front_live m.chunks
  some out

unfoldable pub size_loop : ℕ → List Chunk → Option ℕ
size_loop size [] = some size
size_loop size (c ∷ cs) = do n ← Chunk.content_size c; size' ← add_int size n; size_loop size' cs

unfoldable pub content_size : Marshal → Option ℕ
unfolding size_loop
content_size m = size_loop 0 m.chunks

unfoldable pub gt_loop : ℕ → ℕ → List Chunk → Option Bool
gt_loop size visited [] = some (ltb size visited)
gt_loop size visited (c ∷ cs) = do
  n ← Chunk.content_size c
  visited' ← add_int visited n
  elim (ltb size visited') [ true ↦ some true | false ↦ gt_loop size visited' cs ]

unfoldable pub content_size_gt : ℕ → Marshal → Option Bool
unfolding gt_loop
content_size_gt size m = gt_loop size 0 m.chunks

unfoldable pub dump_loop : List Chunk → Option (List ℕ)
dump_loop [] = some []
dump_loop (c ∷ cs) = do
  n ← Chunk.content_size c
  more ← dump_loop cs
  some (take n (drop c.read_idx c.bytes) ++ more)

unfoldable pub dump : Marshal → Option (List ℕ)
unfolding content_size dump_loop
dump m = do
  _ ← content_size m
  s ← dump_loop m.chunks
  total ← content_size m
  require (length s == total)
  some s
