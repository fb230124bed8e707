-- ===== src/Marshal/Bookmark.antt =====
-- `Marshal::set_bookmark` and `Marshal::write_bookmark` of marshal.cc. A pointer into a chunk is the
-- place of the chunk in `chunk_` and the index in its `data_`: while the pointer is used, no chunk is
-- dropped from the front.
use vncproxy.Prelude.{
  ℕ, zero, suc, ◌-◌, ◌==◌, Bool, false, Option, none, some, List, [], ◌∷◌, ◌>>=◌, ◌>>◌, require,
  ltb, length, copy_at,
}
use vncproxy.Chunk
use vncproxy.Chunk.{Chunk}
use vncproxy.Marshal.{Marshal}
use vncproxy.Marshal.Chunks.{on_back, front_live, make_room}

abbrev pub Pointer : Type 0
Pointer = ℕ × ℕ

-- A round of `set_bookmark`
unfoldable pub reserve : List Chunk → Option (Pointer × List Chunk)
reserve cs = do
  roomy ← make_room cs
  out ← on_back Chunk.set_bookmark roomy
  some ((length roomy - 1, out.0), out.1)

unfoldable pub reserve_all : ℕ → List Chunk → Option (List Pointer × List Chunk)
reserve_all zero cs = some ([], cs)
reserve_all (suc n) cs = do
  out ← reserve cs
  rest ← reserve_all n out.1
  some (out.0 ∷ rest.0, rest.1)

unfoldable pub set_bookmark : ℕ → Marshal → Option (List Pointer × Marshal)
set_bookmark size m = do
  require (m.write_counter == 0)
  front_live m.chunks
  out ← reserve_all size m.chunks
  some (out.0, record m { chunks = out.1 })

-- `*p = b` in a chunk
abbrev pub put : ℕ → ℕ → Chunk → Chunk
put j b c = record c { bytes = copy_at c.bytes j (b ∷ []) }

-- Whether the pointer points into a chunk.
unfoldable pub within : ℕ → ℕ → List Chunk → Bool
within i j [] = false
within zero j (c ∷ cs) = ltb j c.size
within (suc i) j (c ∷ cs) = within i j cs

unfoldable pub poked : ℕ → ℕ → ℕ → List Chunk → List Chunk
poked i j b [] = []
poked zero j b (c ∷ cs) = put j b c ∷ cs
poked (suc i) j b (c ∷ cs) = c ∷ poked i j b cs

-- `*(bmark->ptr_[i]) = pc[i];` for each pointer
unfoldable pub write_all : List Pointer → List ℕ → List Chunk → Option (List Chunk)
write_all [] bs cs = some cs
write_all (p ∷ ps) [] cs = none
write_all (p ∷ ps) (b ∷ bs) cs = do
  require (within p.0 p.1 cs)
  write_all ps bs (poked p.0 p.1 b cs)

unfoldable pub write_bookmark : List Pointer → List ℕ → Marshal → Option Marshal
write_bookmark ps bs m = do chunks ← write_all ps bs m.chunks; some (record m { chunks = chunks })
