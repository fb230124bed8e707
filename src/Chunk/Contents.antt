-- ===== src/Chunk/Contents.antt =====
-- A chunk in order, the bytes that it holds, and what each method of class Chunk does to them.
use vncproxy.Prelude.{
  List, [], ap, arith, copy_at, drop, drop-append_le, drop-drop, drop-take, length, length-copy_at,
  length-drop, length-replicate, length-take, max, refl, replicate, some, sym, take, take-append_le,
  take-copy_at, take-take, take_of_length_le, ℕ, ◌++◌, ◌+◌, ◌-◌, ◌<◌, ◌∙◌, ◌≡◌, ◌≤◌,
}
use vncproxy.Chunk.{Chunk, min_size, new_chunk, copy_chunk, in_order}

pub record IsValid (c : Chunk) : Type 0 where
  pub fits : c.write_idx ≤ c.size
  pub ordered : c.read_idx ≤ c.write_idx
  pub storage : length c.bytes ≡ c.size

-- The content range [read_idx_, write_idx_).
abbrev pub content : Chunk → List ℕ
content c = drop c.read_idx (take c.write_idx c.bytes)

-- The bytes that can still be written.
abbrev pub room : Chunk → ℕ
room c = c.size - c.write_idx

pub length-content : (c : Chunk) → IsValid c → length (content c) ≡ c.write_idx - c.read_idx
length-content c v = omega (
  arith,
  length-drop {0} c.read_idx (take c.write_idx c.bytes),
  length-take {0} c.write_idx c.bytes,
)

-- What `memcpy(p, data_ + read_idx_, n)` copies, up to the end of the content.
pub take-content :
    (c : Chunk) (n : ℕ)
    → n ≤ c.write_idx - c.read_idx
    → take n (drop c.read_idx c.bytes) ≡ take n (content c)
take-content c n h = sym (
    ap (take n) (drop-take c.read_idx c.write_idx c.bytes)
    ∙ take-take n (c.write_idx - c.read_idx) (drop c.read_idx c.bytes) h)

-- The bytes appended at `write_idx_` come after the content.
pub content-append :
    (c : Chunk) (src : List ℕ)
    → IsValid c
    → length src ≤ room c
    → content
        (record c { bytes = copy_at c.bytes c.write_idx src; write_idx = c.write_idx + length src })
      ≡ content c ++ src
content-append c src v h =
    ap (drop c.read_idx) (take-copy_at c.bytes c.write_idx src (omega (arith, v.fits, v.storage)))
    ∙ drop-append_le c.read_idx (take c.write_idx c.bytes) src
        (omega (arith, v.fits, v.ordered, v.storage, length-take {0} c.write_idx c.bytes))

pub append-IsValid :
    (c : Chunk) (src : List ℕ)
    → IsValid c
    → length src ≤ room c
    → IsValid
        (record c { bytes = copy_at c.bytes c.write_idx src; write_idx = c.write_idx + length src })
append-IsValid c src v h = record {
  fits = omega (arith, v.fits);
  ordered = omega (arith, v.ordered);
  storage = length-copy_at c.bytes c.write_idx src (omega (arith, v.fits, v.storage)) ∙ v.storage;
}

-- Moving the read index on drops the front of the content.
pub content-advance :
    (c : Chunk) (n : ℕ) → content (record c { read_idx = c.read_idx + n }) ≡ drop n (content c)
content-advance c n = sym (drop-drop n c.read_idx (take c.write_idx c.bytes))

pub advance-IsValid :
    (c : Chunk) (n : ℕ)
    → IsValid c
    → n ≤ c.write_idx - c.read_idx
    → IsValid (record c { read_idx = c.read_idx + n })
advance-IsValid c n v h = record {
  fits = v.fits;
  ordered = omega (arith, v.ordered);
  storage = v.storage;
}

pub in_order-eq :
    (c : Chunk) → c.write_idx ≤ c.size → c.read_idx ≤ c.write_idx → in_order c ≡ some tt
unfolding in_order
in_order-eq c h k = ground arith

-- A new chunk is valid and empty, and not full.
pub min_size-pos : 0 < min_size
unfolding min_size
min_size-pos = omega arith

pub new_chunk-IsValid : (n : ℕ) → IsValid (new_chunk n)
unfolding new_chunk
new_chunk-IsValid n = record {
  fits = omega arith;
  ordered = omega arith;
  storage = length-replicate (max min_size n) 0;
}

pub content-new_chunk : (n : ℕ) → content (new_chunk n) ≡ []
unfolding new_chunk
content-new_chunk n = refl

pub new_chunk-live : (n : ℕ) → (new_chunk n).read_idx < (new_chunk n).size
unfolding new_chunk
new_chunk-live n = omega (arith, min_size-pos)

pub new_chunk-room : (n : ℕ) → 0 < room (new_chunk n)
unfolding new_chunk
new_chunk-room n = omega (arith, min_size-pos)

-- A chunk copied from a buffer holds that buffer.
pub copy_chunk-IsValid : (p : List ℕ) → IsValid (copy_chunk p)
unfolding copy_chunk
copy_chunk-IsValid p =
    let size = max min_size (length p) in
    let zeros : length {A = ℕ} (replicate size 0) ≡ size = length-replicate size 0 in
    record {
      fits = omega arith;
      ordered = omega arith;
      storage = length-copy_at (replicate size 0) 0 p (omega (arith, zeros)) ∙ zeros;
    }

pub content-copy_chunk : (p : List ℕ) → content (copy_chunk p) ≡ p
unfolding copy_chunk
content-copy_chunk p =
    take-append_le (length p) p _ (omega arith) ∙ take_of_length_le (length p) p (omega arith)

pub copy_chunk-live : (p : List ℕ) → (copy_chunk p).read_idx < (copy_chunk p).size
unfolding copy_chunk
copy_chunk-live p = omega (arith, min_size-pos)
