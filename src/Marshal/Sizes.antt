-- ===== src/Marshal/Sizes.antt =====
-- `peek`, `dump`, `content_size` and `content_size_gt`: what a marshal holds, without a change.
use vncproxy.Prelude.{
  ℕ, zero, suc, ◌+◌, ◌-◌, ◌≤◌, ◌<◌, ◌≡◌, refl, sym, ap, ap₂, ◌∙◌, true, some, List, [], ◌∷◌, ◌++◌,
  arith, length, take, length-append, ◌==◌, ◌>>=◌, ltb, Bool-cases, inl, inr, take-append_le,
  take-append_ge, take_of_length_le, length-take, add_int-eq, int_limit, lt→ltb, le→not-ltb, le→leb,
  dec_lt, take-nil,
}
use vncproxy.Chunk.{Chunk}
use vncproxy.Chunk.Contents.{content, take-content, length-content}
use vncproxy.Chunk.Methods.{peek-eq, content_size-eq}
use vncproxy.Marshal.{
  Marshal, peek_loop, peek, size_loop, content_size, gt_loop, content_size_gt, dump_loop, dump,
}
use vncproxy.Marshal.Valid.{AllValid, IsMarshal, contents_of, contents, front_live-eq}
use vncproxy.Marshal.Front.{contents_of-stalled}

size_loop-eq :
    (size : ℕ) (cs : List Chunk)
    → AllValid cs
    → size + length (contents_of cs) < int_limit
    → size_loop size cs ≡ some (size + length (contents_of cs))
unfolding size_loop
size_loop-eq size [] v h = ap (λ (k : ℕ). some k) {x = size} (omega arith)
size_loop-eq size (c ∷ cs) v h =
    let split = length-append (content c) (contents_of cs) in
    rw
      (
        content_size-eq c v.0,
        add_int-eq size (length (content c)) (omega (arith, split)),
        size_loop-eq (size + length (content c)) cs v.3 (omega (arith, split)),
        size_loop,
      )
      (ap (λ (k : ℕ). some k) {x = size + length (content c) + length (contents_of cs)}
        (omega (arith, split)))

gt_loop-eq :
    (size visited : ℕ) (cs : List Chunk)
    → AllValid cs
    → visited + length (contents_of cs) < int_limit
    → gt_loop size visited cs ≡ some (ltb size (visited + length (contents_of cs)))
unfolding gt_loop
gt_loop-eq size visited [] v h = ap (λ (k : ℕ). some (ltb size k)) {x = visited} (omega arith)
gt_loop-eq size visited (c ∷ cs) v h =
    let split = length-append (content c) (contents_of cs) in
    let now = visited + length (content c) in
    elim (dec_lt size now) [
      | yes more ↦ rw (
        content_size-eq c v.0,
        add_int-eq visited (length (content c)) (omega (arith, split)),
        lt→ltb size (visited + length (content c)) more,
        lt→ltb size (visited + length (contents_of (c ∷ cs))) (omega (arith, split)),
        gt_loop,
        ◌>>=◌,
      )
      | no less ↦
          rw
            (
              content_size-eq c v.0,
              add_int-eq visited (length (content c)) (omega (arith, split)),
              le→not-ltb size (visited + length (content c)) (omega arith),
              gt_loop-eq size now cs v.3 (omega (arith, split)),
              gt_loop,
              ◌>>=◌,
            )
            (ap (λ (k : ℕ). some (ltb size k)) {x = now + length (contents_of cs)}
              (omega (arith, split)))
    ]

dump_loop-eq : (cs : List Chunk) → AllValid cs → dump_loop cs ≡ some (contents_of cs)
unfolding dump_loop
dump_loop-eq [] v = refl
dump_loop-eq (c ∷ cs) v =
    rw (content_size-eq c v.0, dump_loop-eq cs v.3, dump_loop)
      (ap (λ bs. some (bs ++ contents_of cs))
        (take-content c (length (content c)) (omega (arith, length-content c v.0))
          ∙ take_of_length_le (length (content c)) (content c) (omega arith)))

take-dry :
    (k : ℕ) (c : Chunk) (cs : List Chunk)
    → AllValid (c ∷ cs)
    → length (take k (content c)) ≡ 0
    → take k (contents_of (c ∷ cs)) ≡ []
take-dry zero c cs v e = refl
take-dry (suc k) c cs v e =
    ap (take (suc k))
      (contents_of-stalled c cs v (omega (arith, e, length-take {0} (suc k) (content c))))

peek_loop-eq :
    (n n_peek : ℕ) (cs : List Chunk)
    → AllValid cs
    → n_peek ≤ n
    → n < int_limit
    → peek_loop n n_peek cs ≡ some (take (n - n_peek) (contents_of cs))
unfolding peek_loop
peek_loop-eq n n_peek [] v le lim = ap some (sym (take-nil (n - n_peek)))
peek_loop-eq n n_peek (c ∷ cs) v le lim =
    let k = n - n_peek in
    let r = length (take k (content c)) in
    let r_eq = length-take k (content c) in
    elim (Bool-cases (r == 0)) [
      | inl dry ↦
          rw (peek-eq c k v.0, dry, peek_loop, ◌>>=◌)
            (ap some (sym (take-dry k c cs v (ground arith))))
      | inr wet ↦ elim (Bool-cases (n_peek + r == n)) [
        | inl full ↦
            rw
              (
                peek-eq c k v.0,
                wet,
                add_int-eq n_peek r (omega (arith, r_eq)),
                full,
                peek_loop,
                ◌>>=◌,
              )
              (ap some (sym (take-append_le k (content c) (contents_of cs) (ground (arith, r_eq)))))
        | inr short ↦
            rw
              (
                peek-eq c k v.0,
                wet,
                add_int-eq n_peek r (omega (arith, r_eq)),
                short,
                peek_loop-eq n (n_peek + r) cs v.3 (omega (arith, r_eq)) lim,
                peek_loop,
                ◌>>=◌,
              )
              (ap₂ (λ bs (j : ℕ). some (bs ++ take j (contents_of cs))) {u = n - (n_peek + r)}
                  {v = k - length (content c)}
                  (take_of_length_le k (content c) (ground (arith, r_eq))) (ground (arith, r_eq))
                ∙ ap some
                    (sym (take-append_ge k (content c) (contents_of cs) (ground (arith, r_eq)))))
      ]
    ]

-- `content_size` is the length of the content, where that is an `int`.
pub content_size_lem :
    (m : Marshal)
    → IsMarshal m
    → length (contents m) < int_limit
    → content_size m ≡ some (length (contents m))
unfolding content_size
content_size_lem m v h =
    size_loop-eq 0 m.chunks v (omega arith) ∙ ap (λ (k : ℕ). some k) (omega arith)

-- On a marshal in order whose content has an int length, content_size_gt says whether the content
-- is longer than size, with or without its early exit.
pub content_size_gt_lem :
    (size : ℕ) (m : Marshal)
    → IsMarshal m
    → length (contents m) < int_limit
    → content_size_gt size m ≡ some (ltb size (length (contents m)))
unfolding content_size_gt
content_size_gt_lem size m v h =
    gt_loop-eq size 0 m.chunks v (omega arith)
    ∙ ap (λ (k : ℕ). some (ltb size k)) {x = 0 + length (contents m)} (omega arith)

-- On a marshal in order whose content has an int length, dump returns the content and its assertion
-- holds.
pub dump_lem :
    (m : Marshal) → IsMarshal m → length (contents m) < int_limit → dump m ≡ some (contents m)
unfolding dump
dump_lem m v h =
    let same : (length (contents m) == length (contents m)) ≡ true = ground arith in
    rw (content_size_lem m v h, dump_loop-eq m.chunks v, same, ◌>>=◌)

-- On a marshal in order, peek of n bytes (n an int) returns the first n bytes of the content, or
-- all where there are fewer.
pub peek_lem :
    (m : Marshal) (n : ℕ) → IsMarshal m → n < int_limit → peek n m ≡ some (take n (contents m))
unfolding peek
peek_lem m n v lim =
    let whole = peek_loop-eq n 0 m.chunks v (omega arith) lim in
    let e : peek_loop n 0 m.chunks ≡ some (take n (contents m)) =
      whole ∙ ap (λ (k : ℕ). some (take k (contents m))) {x = n - 0} (omega arith) in
    rw (
      front_live-eq m.chunks v,
      e,
      le→leb (length (take n (contents m))) n (omega (arith, length-take {0} n (contents m))),
      ◌>>=◌,
    )
