-- ===== src/Marshal/Front.antt =====
-- Reading the front chunk, and dropping it when it has been read to its end.
use vncproxy.Prelude.{
  ℕ, ◌≤◌, ◌≡◌, sym, ap, ◌∙◌, some, List, [], ◌∷◌, ◌++◌, arith, length, take, drop, append-nil, ◌==◌,
  inl, inr, Bool-cases, drop-append_le, take_of_length_le, drop_of_length_le, length-take, Option,
}
use vncproxy.Chunk.{Chunk}
use vncproxy.Chunk.Contents.{IsValid, content, length-content}
use vncproxy.Chunk.Methods.{Advances, fully_read-eq}
use vncproxy.Marshal.Chunks.{drop_read}
use vncproxy.Marshal.Valid.{AllValid, IsFullUnlessLast, contents_of}

-- What is left of a list of chunks once `j` bytes are gone from its front.
pub record Left (j : ℕ) (cs left : List Chunk) : Type 0 where
  pub valid : AllValid left
  pub rest : contents_of left ≡ drop j (contents_of cs)

IsFullUnlessLast-congr :
    (c c' : Chunk) (cs : List Chunk)
    → c'.write_idx ≡ c.write_idx
    → c'.size ≡ c.size
    → IsFullUnlessLast c cs
    → IsFullUnlessLast c' cs
IsFullUnlessLast-congr c c' [] p q f = tt
IsFullUnlessLast-congr c c' (d ∷ cs) p q f = omega (arith, f)

content_of_fully_read : (c : Chunk) → IsValid c → c.read_idx ≡ c.size → content c ≡ []
content_of_fully_read c v e =
    drop_of_length_le c.read_idx (take c.write_idx c.bytes)
      (omega (arith, v.fits, length-take {0} c.write_idx c.bytes))

drop-contents_of :
    (j : ℕ) (c c' : Chunk) (cs : List Chunk)
    → Advances j c c'
    → j ≤ length (content c)
    → contents_of (c' ∷ cs) ≡ drop j (contents_of (c ∷ cs))
drop-contents_of j c c' cs a h =
    ap (λ bs. bs ++ contents_of cs) a.contents
    ∙ sym (drop-append_le j (content c) (contents_of cs) h)

pub record Dropped (j : ℕ) (cs : List Chunk) (out : Option (List Chunk)) : Type 0 where
  pub left : List Chunk
  pub result : out ≡ some left
  pub after : Left j cs left
  pub shorter : length left ≤ length cs

-- After the front chunk moved on by `j`, it is dropped exactly when it has been read to its end.
pub drop_read-Dropped :
    (j : ℕ) (c c' : Chunk) (cs : List Chunk)
    → AllValid (c ∷ cs)
    → Advances j c c'
    → j ≤ length (content c)
    → Dropped j (c ∷ cs) (drop_read (c' ∷ cs))
unfolding drop_read
drop_read-Dropped j c c' cs v a h = elim (Bool-cases (c'.read_idx == c'.size)) [
  | inl done ↦ record {
    left = cs;
    result = rw (fully_read-eq c' a.valid, done);
    after = record {
      valid = v.3;
      rest =
          sym (ap (λ bs. bs ++ contents_of cs) (content_of_fully_read c' a.valid (ground arith)))
          ∙ drop-contents_of j c c' cs a h;
    };
    shorter = omega arith;
  }
  | inr more ↦ record {
    left = c' ∷ cs;
    result = rw (fully_read-eq c' a.valid, more);
    after = record {
      valid = (
        a.valid,
        ground (arith, a.valid.fits, a.valid.ordered),
        IsFullUnlessLast-congr c c' cs a.same_write a.same_size v.2,
        v.3,
      );
      rest = drop-contents_of j c c' cs a h;
    };
    shorter = omega arith;
  }
]

-- A front chunk with nothing to read is the last.
pub contents_of-stalled :
    (c : Chunk) (cs : List Chunk)
    → AllValid (c ∷ cs)
    → length (content c) ≡ 0
    → contents_of (c ∷ cs) ≡ []
contents_of-stalled c [] v e =
    append-nil (content c) ∙ sym (take_of_length_le 0 (content c) (omega (arith, e)))
contents_of-stalled c (d ∷ cs) v e = absurd (omega (arith, v.1, v.2, e, length-content c v.0))
