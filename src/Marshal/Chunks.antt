-- ===== src/Marshal/Chunks.antt =====
-- What the methods of class Marshal do to the list `chunk_`, whose back is written and whose front
-- is read.
use vncproxy.Prelude.{
  Bool, true, not, Option, none, some, List, [], ◌∷◌, ◌++◌, ◌>>=◌, require, if◌then◌else◌,
}
use vncproxy.Chunk.{Chunk, fully_written, fully_read, new_chunk, min_size}

-- `chunk_.empty() || chunk_.back()->fully_written()`
unfoldable pub back_full : List Chunk → Option Bool
back_full [] = some true
back_full (c ∷ []) = fully_written c
back_full (c ∷ d ∷ cs) = back_full (d ∷ cs)

-- A method called on `chunk_.back()`. The back of an empty list is undefined.
unfoldable pub on_back {ℓ} :
    {R : Type ℓ} → (Chunk → Option (R × Chunk)) → List Chunk → Option (R × List Chunk)
on_back f [] = none
on_back f (c ∷ []) = f c >>= λ out. some (out.0, out.1 ∷ [])
on_back f (c ∷ d ∷ cs) = on_back f (d ∷ cs) >>= λ out. some (out.0, c ∷ out.1)

-- `assert(chunk_.empty() || !chunk_.front()->fully_read())`
unfoldable pub front_live : List Chunk → Option (Unit {0})
front_live [] = some tt
front_live (c ∷ cs) = do b ← fully_read c; require (not b)

-- `if (chunk_.front()->fully_read()) { delete chunk_.front(); chunk_.pop_front(); }`
unfoldable pub drop_read : List Chunk → Option (List Chunk)
drop_read [] = none
drop_read (c ∷ cs) = do b ← fully_read c; some (if b then cs else c ∷ cs)

-- `if (chunk_.empty() || chunk_.back()->fully_written()) chunk_.push_back(new Chunk);`
unfoldable pub make_room : List Chunk → Option (List Chunk)
make_room cs = do full ← back_full cs; some (if full then cs ++ new_chunk min_size ∷ [] else cs)
