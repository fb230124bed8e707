-- ===== src/Marshal/Reading.antt =====
-- `Marshal::read` and `Marshal::peek` take from the front of the content.
use vncproxy.Prelude.{
  subst, ℕ, zero, suc, ◌+◌, ◌-◌, ◌≤◌, ◌<◌, ◌≡◌, refl, sym, ap, ◌∙◌, false, some, List, [], ◌∷◌,
  ◌++◌, arith, length, take, drop, ◌==◌, inl, inr, Bool-cases, take-append-take, take-nil, drop-nil,
  length-take, add_int-eq, int_limit, drop-drop, lt→ltb, le→not-ltb, le→leb, dec_lt, Option,
}
use vncproxy.Chunk
use vncproxy.Chunk.{Chunk}
use vncproxy.Chunk.Contents.{content, length-content}
use vncproxy.Chunk.Methods.{advanced, taken, read-eq, read-Advances}
use vncproxy.Marshal.{Marshal, read_loop, read}
use vncproxy.Marshal.Front.{Left, drop_read-Dropped, contents_of-stalled}
use vncproxy.Marshal.Chunks.{drop_read}
use vncproxy.Marshal.Valid.{AllValid, IsMarshal, contents_of, contents, front_live-eq}

module _ (fuel n n_read : ℕ) (c c' : Chunk) (cs left : List Chunk) (bs : List ℕ) where
  read_loop-dry :
      n_read < n
      → Chunk.read (n - n_read) c ≡ some (bs, c')
      → drop_read (c' ∷ cs) ≡ some left
      → length bs ≡ 0
      → read_loop (suc fuel) n n_read (c ∷ cs) ≡ some ([], left)
  unfolding read_loop
  read_loop-dry lt e d z = rw (lt→ltb n_read n lt, e, d, z, read_loop)

  read_loop-more :
      (more : List ℕ) (left' : List Chunk)
      → n_read < n
      → Chunk.read (n - n_read) c ≡ some (bs, c')
      → drop_read (c' ∷ cs) ≡ some left
      → (length bs == 0) ≡ false
      → n_read + length bs < int_limit
      → read_loop fuel n (n_read + length bs) left ≡ some (more, left')
      → read_loop (suc fuel) n n_read (c ∷ cs) ≡ some (bs ++ more, left')
  unfolding read_loop
  read_loop-more more left' lt e d wet lim r =
      rw (lt→ltb n_read n lt, e, d, wet, add_int-eq n_read (length bs) lim, r, read_loop)

read_loop-stop :
    (fuel n n_read : ℕ) (c : Chunk) (cs : List Chunk)
    → n ≤ n_read
    → read_loop (suc fuel) n n_read (c ∷ cs) ≡ some ([], c ∷ cs)
unfolding read_loop
read_loop-stop fuel n n_read c cs h = rw (le→not-ltb n_read n h, read_loop)

-- The loop read the first `k` bytes, or all there are.
pub record Reads (k : ℕ) (cs : List Chunk) (out : Option (List ℕ × List Chunk)) : Type 0 where
  pub left : List Chunk
  pub result : out ≡ some (take k (contents_of cs), left)
  pub after : Left k cs left

Reads-zero :
    (k : ℕ) (cs : List Chunk) (out : Option (List ℕ × List Chunk))
    → AllValid cs
    → k ≡ 0
    → out ≡ some ([], cs)
    → Reads k cs out
Reads-zero k cs out v z e = record {
  left = cs;
  result = rw (z, e);
  after = record { valid = v; rest = rw z };
}

Reads-dry :
    (k j : ℕ) (cs : List Chunk) (out : Option (List ℕ × List Chunk)) (left : List Chunk)
    → contents_of cs ≡ []
    → Left j cs left
    → out ≡ some ([], left)
    → Reads k cs out
Reads-dry k j cs out left z l e = record {
  left = left;
  result = rw (z, take-nil k) e;
  after = record { valid = l.valid; rest = l.rest ∙ rw (z, drop-nil j, drop-nil k) };
}

-- Bytes from the front chunk, and then what the loop goes on to read.
Reads-more :
    (k j m : ℕ) (c : Chunk) (cs left : List Chunk) (out more : Option (List ℕ × List Chunk))
    → j ≡ length (take k (content c))
    → k ≡ j + m
    → Left j (c ∷ cs) left
    → (r : Reads m left more) → out ≡ some (take k (content c) ++ take m (contents_of left), r.left)
    → Reads k (c ∷ cs) out
Reads-more k j m c cs left out more ej ek l r e = record {
  left = r.left;
  result =
      e
      ∙ ap (λ bs. some (take k (content c) ++ take m bs, r.left)) l.rest
      ∙ ap (λ bs. some (bs, r.left)) (take-append-take k j m (content c) (contents_of cs) ej ek);
  after = record {
    valid = r.after.valid;
    rest =
        r.after.rest
        ∙ ap (drop m) l.rest
        ∙ drop-drop m j (contents_of (c ∷ cs))
        ∙ ap (λ (i : ℕ). drop i (contents_of (c ∷ cs))) (sym ek);
  };
}

-- A read that stops short of `n` bytes has read all there is.
pub read_loop-Reads :
    (fuel n n_read : ℕ) (cs : List Chunk)
    → AllValid cs
    → n_read ≤ n
    → n < int_limit
    → n - n_read < fuel
    → Reads (n - n_read) cs (read_loop fuel n n_read cs)
unfolding read_loop
read_loop-Reads zero n n_read cs v le lim f = absurd (omega arith)
read_loop-Reads (suc fuel) n n_read [] v le lim f =
    Reads-dry (n - n_read) 0 [] _ [] refl (record { valid = tt; rest = refl }) refl
read_loop-Reads (suc fuel) n n_read (c ∷ cs) v le lim f =
    let k = n - n_read in
    let r = length (take k (content c)) in
    let j = taken c k in
    let j_eq : j ≡ r = omega (arith, length-take {0} k (content c), length-content c v.0) in
    let d =
      drop_read-Dropped j c (advanced c j) cs v (read-Advances c k v.0)
        (omega (arith, length-content c v.0)) in
    let e = read-eq c k v.0 in
    let step = λ (h : n_read < n) (wet : (r == 0) ≡ false).
      let ih =
        read_loop-Reads fuel n (n_read + r) d.left d.after.valid (omega (arith, j_eq)) lim
          (ground arith) in
      Reads-more k j (n - (n_read + r)) c cs d.left _ _ j_eq (omega (arith, j_eq)) d.after ih (
        read_loop-more fuel n n_read c (advanced c j) cs d.left (take k (content c)) _ _ h e
          d.result wet (omega (arith, j_eq)) ih.result) in
    elim (dec_lt n_read n) [
      | no h ↦
          Reads-zero k (c ∷ cs) _ v (omega arith) (read_loop-stop fuel n n_read c cs (omega arith))
      | yes h ↦ elim (Bool-cases (r == 0)) [
        | inr wet ↦ step h wet
        | inl dry ↦
            Reads-dry k j (c ∷ cs) _ d.left
              (contents_of-stalled c cs v (ground (arith, length-take {0} k (content c)))) d.after
              (read_loop-dry fuel n n_read c (advanced c j) cs d.left (take k (content c)) h e
                d.result (ground arith))
      ]
    ]

-- What a reading method leaves of `m`: the content from byte `n` on, and all else as it was.
pub record Shortened (n : ℕ) (m m' : Marshal) : Type 0 where
  pub valid : IsMarshal m'
  pub rest : contents m' ≡ drop n (contents m)
  pub same_counter : m'.write_counter ≡ m.write_counter

read_of :
    (m : Marshal) (n : ℕ)
    → IsMarshal m
    → (r : Reads n m.chunks (read_loop (suc n) n 0 m.chunks))
    → read n m ≡ some (take n (contents m), record m { chunks = r.left })
unfolding read
read_of m n v r = rw (
  front_live-eq m.chunks v,
  r.result,
  le→leb (length (take n (contents m))) n (omega (arith, length-take {0} n (contents m))),
  front_live-eq r.left r.after.valid,
)

-- On a marshal in order, read of n bytes (n an int) returns the first n bytes of the content, or
-- all where there are fewer, and leaves the rest in order; no assertion fails and the loop ends.
pub read_lem :
    (m : Marshal) (n : ℕ)
    → IsMarshal m
    → n < int_limit
    → (m' : Marshal) × (read n m ≡ some (take n (contents m), m')) × Shortened n m m'
read_lem m n v lim =
    let start = read_loop-Reads (suc n) n 0 m.chunks v (omega arith) lim (omega arith) in
    let r =
      subst (λ k. Reads k m.chunks (read_loop (suc n) n 0 m.chunks)) {x = n - 0} {y = n}
        (omega arith) start in
    (
      record m { chunks = r.left },
      read_of m n v r,
      record { valid = r.after.valid; rest = r.after.rest; same_counter = refl },
    )
