-- ===== src/Chunk/Methods.antt =====
-- The methods of class Chunk on a valid chunk: each returns, and either appends to the content or
-- takes from its front.
use vncproxy.Prelude.{
  ℕ, ◌+◌, ◌-◌, ◌≤◌, ◌<◌, min, ◌≡◌, refl, sym, ap, ◌∙◌, some, List, ◌++◌, arith, length, take, drop,
  copy_at, ◌==◌, length-take, take-min-length, take-length-take,
}
use vncproxy.Chunk.{
  Chunk, content_size, set_bookmark, write, read, peek, read_from_chunk, fully_written, fully_read,
  in_order,
}
use vncproxy.Chunk.Contents.{
  IsValid, content, room, length-content, take-content, content-append, append-IsValid,
  content-advance, advance-IsValid, in_order-eq,
}

-- `c'` is `c` with `src` written behind its content.
pub record Appends (src : List ℕ) (c : Chunk) (c' : Chunk) : Type 0 where
  pub valid : IsValid c'
  pub contents : content c' ≡ content c ++ src
  pub same_read : c'.read_idx ≡ c.read_idx
  pub same_size : c'.size ≡ c.size
  pub moved : c'.write_idx ≡ c.write_idx + length src

-- `c'` is `c` with `n` bytes taken from the front of its content.
pub record Advances (n : ℕ) (c : Chunk) (c' : Chunk) : Type 0 where
  pub valid : IsValid c'
  pub contents : content c' ≡ drop n (content c)
  pub moved : c'.read_idx ≡ c.read_idx + n
  pub same_size : c'.size ≡ c.size
  pub same_write : c'.write_idx ≡ c.write_idx

abbrev pub appended : Chunk → List ℕ → Chunk
appended c src = record c {
  bytes = copy_at c.bytes c.write_idx src;
  write_idx = c.write_idx + length src;
}

abbrev pub advanced : Chunk → ℕ → Chunk
advanced c n = record c { read_idx = c.read_idx + n }

pub appended-Appends :
    (c : Chunk) (src : List ℕ) → IsValid c → length src ≤ room c → Appends src c (appended c src)
appended-Appends c src v h = record {
  valid = append-IsValid c src v h;
  contents = content-append c src v h;
  same_read = refl;
  same_size = refl;
  moved = refl;
}

pub advanced-Advances :
    (c : Chunk) (n : ℕ) → IsValid c → n ≤ c.write_idx - c.read_idx → Advances n c (advanced c n)
advanced-Advances c n v h = record {
  valid = advance-IsValid c n v h;
  contents = content-advance c n;
  moved = refl;
  same_size = refl;
  same_write = refl;
}

-- On a valid chunk the assertions pass.
pub valid-in_order : (c : Chunk) → IsValid c → in_order c ≡ some tt
valid-in_order c v = in_order-eq c v.fits v.ordered

pub content_size-eq : (c : Chunk) → IsValid c → content_size c ≡ some (length (content c))
unfolding content_size
content_size-eq c v = rw (valid-in_order c v, length-content c v)

pub fully_written-eq : (c : Chunk) → IsValid c → fully_written c ≡ some (c.write_idx == c.size)
unfolding fully_written
fully_written-eq c v = rw (valid-in_order c v)

pub fully_read-eq : (c : Chunk) → IsValid c → fully_read c ≡ some (c.read_idx == c.size)
unfolding fully_read
fully_read-eq c v = rw (valid-in_order c v)

abbrev pub taken : Chunk → ℕ → ℕ
taken c n = min n (c.write_idx - c.read_idx)

take-taken :
    (c : Chunk) (n : ℕ)
    → IsValid c
    → take (taken c n) (drop c.read_idx c.bytes) ≡ take n (content c)
take-taken c n v =
    take-content c (taken c n) (omega arith)
    ∙ ap (λ k. take (min n k) (content c)) (sym (length-content c v))
    ∙ take-min-length n (content c)

pub peek-eq : (c : Chunk) (n : ℕ) → IsValid c → peek n c ≡ some (take n (content c))
unfolding peek
peek-eq c n v = rw (valid-in_order c v, take-taken c n v)

pub read-eq :
    (c : Chunk) (n : ℕ) → IsValid c → read n c ≡ some (take n (content c), advanced c (taken c n))
unfolding read
read-eq c n v = rw (
  valid-in_order c v,
  valid-in_order (advanced c (taken c n)) (advance-IsValid c (taken c n) v (omega arith)),
  take-taken c n v,
)

pub read-Advances :
    (c : Chunk) (n : ℕ) → IsValid c → Advances (taken c n) c (advanced c (taken c n))
read-Advances c n v = advanced-Advances c (taken c n) v (omega arith)

take-le : (c : Chunk) (p : List ℕ) → length (take (room c) p) ≤ room c
take-le c p = omega (arith, length-take {0} (room c) p)

pub write-eq :
    (c : Chunk) (p : List ℕ)
    → IsValid c
    → write p c ≡ some (length (take (room c) p), appended c (take (room c) p))
unfolding write
write-eq c p v =
    let count : min (length p) (room c) ≡ length (take (room c) p) =
      omega (arith, length-take {0} (room c) p) in
    rw (
      valid-in_order c v,
      count,
      take-length-take,
      valid-in_order (appended c (take (room c) p)) (append-IsValid c _ v (take-le c p)),
    )

pub write-Appends :
    (c : Chunk) (p : List ℕ)
    → IsValid c
    → Appends (take (room c) p) c (appended c (take (room c) p))
write-Appends c p v = appended-Appends c _ v (take-le c p)

-- `read_from_chunk` moves the longest prefix of the other chunk's content that fits and is wanted.
abbrev pub moved_count : Chunk → Chunk → ℕ → ℕ
moved_count c chnk n = min (min (room c) (chnk.write_idx - chnk.read_idx)) n

pub read_from_chunk-eq :
    (c chnk : Chunk) (n : ℕ)
    → IsValid c
    → IsValid chnk
    → let src = take (moved_count c chnk n) (content chnk) in
      read_from_chunk c chnk n
      ≡ some (moved_count c chnk n, appended c src, advanced chnk (moved_count c chnk n))
unfolding read_from_chunk
read_from_chunk-eq c chnk n v w =
    let m = moved_count c chnk n in
    let src = take m (content chnk) in
    let count : m ≡ length src =
      omega (arith, length-take {0} m (content chnk), length-content chnk w) in
    let grown = λ (k : ℕ). record c {
      bytes = copy_at c.bytes c.write_idx src;
      write_idx = c.write_idx + k;
    } in
    rw
      (
        valid-in_order c v,
        valid-in_order chnk w,
        take-content chnk m (omega arith),
        in_order-eq (grown m) (omega (arith, v.fits)) (omega (arith, v.ordered)),
        valid-in_order (advanced chnk m) (advance-IsValid chnk m w (omega arith)),
      )
      (ap (λ (k : ℕ). some (m, grown k, advanced chnk m)) count)

pub read_from_chunk-Appends :
    (c chnk : Chunk) (n : ℕ)
    → IsValid c
    → IsValid chnk
    → let src = take (moved_count c chnk n) (content chnk) in Appends src c (appended c src)
read_from_chunk-Appends c chnk n v w =
    appended-Appends c _ v (omega (arith, length-take {0} (moved_count c chnk n) (content chnk)))

-- A reserved byte is one more byte of content, whatever the array holds there.
pub set_bookmark-eq :
    (c : Chunk)
    → IsValid c
    → c.write_idx < c.size
    → set_bookmark c ≡ some (c.write_idx, record c { write_idx = c.write_idx + 1 })
unfolding set_bookmark
set_bookmark-eq c v h = rw (
  valid-in_order c v,
  in_order-eq (record c { write_idx = c.write_idx + 1 }) (omega arith) (omega (arith, v.ordered)),
)
