-- ===== src/Marshal/Transfer.antt =====
-- `Marshal::read_from_marshal` of marshal.cc, between two marshals that share nothing.
pub mod Moves
pub mod Loop
use vncproxy.Prelude.{
  ℕ, zero, suc, ◌+◌, ◌-◌, Bool, true, false, Option, none, some, List, [], ◌∷◌, ◌++◌, length, ◌>>=◌,
  ◌>>◌, add_int, ltb, ◌==◌,
}
use vncproxy.Chunk
use vncproxy.Chunk.{Chunk, new_chunk, min_size}
use vncproxy.Marshal.{Marshal}
use vncproxy.Marshal.Chunks.{back_full, on_back, front_live, drop_read}

-- `chunk_.back()->read_from_chunk(*m.chunk_.front(), n)`, with the other chunk beside the count.
unfoldable pub copy_back : Chunk → ℕ → Chunk → Option ((ℕ × Chunk) × Chunk)
copy_back h n c = do out ← Chunk.read_from_chunk c h n; some ((out.0, out.2), out.1)

abbrev pub Outcome : Type 0
Outcome = Option (ℕ × List Chunk × List Chunk)

-- The part of a round that copies from the front `h` into the back of `cs`. `again` goes on.
unfoldable pub copy_round :
    (ℕ → List Chunk → List Chunk → Outcome) → ℕ → ℕ → List Chunk → Chunk → List Chunk → Outcome
unfolding copy_back
copy_round again n n_read cs h t = do
  out ← on_back (copy_back h (n - n_read)) cs
  left ← drop_read (out.0.1 ∷ t)
  elim (out.0.0 == 0) [
    | true ↦ some (n_read, out.1, left)
    | false ↦ do n_read' ← add_int n_read out.0.0; again n_read' out.1 left
  ]

-- A chunk that is wanted whole is moved without a copy.
unfoldable pub transfer_loop : ℕ → ℕ → ℕ → List Chunk → List Chunk → Outcome
unfolding copy_round
transfer_loop zero n n_read cs ms = none
transfer_loop (suc fuel) n n_read cs [] = some (n_read, cs, [])
transfer_loop (suc fuel) n n_read cs (h ∷ t) = elim (ltb n_read n) [
  | false ↦ some (n_read, cs, h ∷ t)
  | true ↦ do
    full ← back_full cs
    elim full [
      | false ↦ copy_round (transfer_loop fuel n) n n_read cs h t
      | true ↦ do
        head_size ← Chunk.content_size h
        elim (ltb head_size (n - n_read)) [
          | false ↦ copy_round (transfer_loop fuel n) n n_read (cs ++ new_chunk min_size ∷ []) h t
          | true ↦ do
            n_read' ← add_int n_read head_size
            transfer_loop fuel n n_read' (cs ++ h ∷ []) t
        ]
    ]
]

-- Each round moves a byte, takes a chunk off the other marshal, or is the last.
unfoldable pub read_from_marshal : ℕ → Marshal → Marshal → Option (ℕ × Marshal × Marshal)
unfolding transfer_loop
read_from_marshal n self m = do
  front_live self.chunks
  front_live m.chunks
  out ← transfer_loop (suc (n + length m.chunks)) n 0 self.chunks m.chunks
  front_live out.1
  front_live out.2
  some (out.0, record self { chunks = out.1 }, record m { chunks = out.2 })
