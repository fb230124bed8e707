-- ===== src/Marshal/Transfer/Loop.antt =====
-- The loop of `read_from_marshal`, and the method.

use vncproxy.Prelude.{
  ℕ, zero, suc, ◌+◌, ◌-◌, ◌≤◌, ◌<◌, min, ◌≡◌, refl, sym, ap, ◌∙◌, true, false, some, List, [], ◌∷◌,
  ◌++◌, arith, length, take, dec_lt, length-append, take-append_le, take_of_length_le, take-nil,
  append-nil, drop-append_le, drop_of_length_le, add_int-eq, int_limit, lt→ltb, le→not-ltb, ◌>>=◌,
  subst,
}
use vncproxy.Chunk.{Chunk, new_chunk, min_size}
use vncproxy.Chunk.Contents.{content, room}
use vncproxy.Chunk.Methods.{content_size-eq}
use vncproxy.Marshal.{Marshal}
use vncproxy.Marshal.Chunks.{back_full}
use vncproxy.Marshal.Valid.{
  AllValid, IsMarshal, IsBackFull, contents_of, contents, front_live-eq, back, AllValid-push,
  contents_of-append,
}
use vncproxy.Marshal.Front.{Left}
use vncproxy.Marshal.Writing.{Grown, BackRoom, full, open_back, back_room}
use vncproxy.Marshal.Extends.{Extends, Extends-refl, Extends-trans, Extends-append}
use vncproxy.Marshal.Room.{Roomy, push_new-Roomy}
use vncproxy.Marshal.Reading.{Shortened}
use vncproxy.Marshal.Transfer.{Outcome, copy_round, transfer_loop, read_from_marshal}
use vncproxy.Marshal.Transfer.Moves.{
  Moves, Moves-more, Moves-none, copy_round-Moves, dropped, src-Grown, r, to,
}

module _ (fuel n n_read : ℕ) (cs : List Chunk) (h : Chunk) (t : List Chunk) where
  loop-stop : n ≤ n_read → transfer_loop (suc fuel) n n_read cs (h ∷ t) ≡ some (n_read, cs, h ∷ t)
  unfolding transfer_loop
  loop-stop le = rw (le→not-ltb n_read n le, transfer_loop)

  loop-open :
      n_read < n
      → back_full cs ≡ some false
      → transfer_loop (suc fuel) n n_read cs (h ∷ t)
        ≡ copy_round (transfer_loop fuel n) n n_read cs h t
  unfolding transfer_loop
  loop-open lt e = rw (lt→ltb n_read n lt, e, transfer_loop, ◌>>=◌)

  loop-copy :
      n_read < n
      → back_full cs ≡ some true
      → AllValid (h ∷ t)
      → n - n_read ≤ length (content h)
      → transfer_loop (suc fuel) n n_read cs (h ∷ t)
        ≡ copy_round (transfer_loop fuel n) n n_read (cs ++ new_chunk min_size ∷ []) h t
  unfolding transfer_loop
  loop-copy lt e w le = rw (
    lt→ltb n_read n lt,
    e,
    content_size-eq h w.0,
    le→not-ltb (length (content h)) (n - n_read) le,
    transfer_loop,
    ◌>>=◌,
  )

  loop-move :
      n < int_limit
      → back_full cs ≡ some true
      → AllValid (h ∷ t)
      → length (content h) < n - n_read
      → transfer_loop (suc fuel) n n_read cs (h ∷ t)
        ≡ transfer_loop fuel n (n_read + length (content h)) (cs ++ h ∷ []) t
  unfolding transfer_loop
  loop-move lim e w lt = rw (
    lt→ltb n_read n (omega arith),
    e,
    content_size-eq h w.0,
    lt→ltb (length (content h)) (n - n_read) lt,
    add_int-eq n_read (length (content h)) (omega arith),
    transfer_loop,
    ◌>>=◌,
  )

-- The whole front chunk changes hands.
moved-Grown :
    (cs : List Chunk) (h : Chunk) (t : List Chunk)
    → AllValid cs
    → IsBackFull cs
    → AllValid (h ∷ t)
    → Grown (take (length (content h)) (contents_of (h ∷ t))) cs (cs ++ h ∷ [])
moved-Grown cs h t v f w = record {
  valid = AllValid-push cs h v f w.0 w.1;
  grown =
      contents_of-append cs (h ∷ [])
      ∙ ap (◌++◌ (contents_of cs)) (
          append-nil (content h)
          ∙ sym (
              take-append_le (length (content h)) (content h) (contents_of t) (omega arith)
              ∙ take_of_length_le (length (content h)) (content h) (omega arith)));
  extends = Extends-append cs (h ∷ []);
}

moved-Left : (h : Chunk) (t : List Chunk) → AllValid (h ∷ t) → Left (length (content h)) (h ∷ t) t
moved-Left h t w = record {
  valid = w.3;
  rest = sym (
      drop-append_le (length (content h)) (content h) (contents_of t) (omega arith)
      ∙ ap (λ bs. bs ++ contents_of t)
          (drop_of_length_le (length (content h)) (content h) (omega arith)));
}

-- A list with the same content to write to.
Moves-from :
    (k n_read : ℕ) (cs cs' ms : List Chunk) (out : Outcome)
    → contents_of cs' ≡ contents_of cs
    → Extends cs cs'
    → Moves k n_read cs' ms out
    → Moves k n_read cs ms out
Moves-from k n_read cs cs' ms out e x m = record {
  count = m.count;
  into = m.into;
  from = m.from;
  result = m.result;
  count_eq = m.count_eq;
  grown = record {
    valid = m.grown.valid;
    grown = m.grown.grown ∙ ap (λ bs. bs ++ take k (contents_of ms)) e;
    extends = Extends-trans cs cs' m.into x m.grown.extends;
  };
  left = m.left;
}

-- How the loop goes on after a round, whatever is written to.
abbrev Goes : ℕ → ℕ → Type 0
Goes fuel n =
    (n_read : ℕ) (cs ms : List Chunk)
    → AllValid cs
    → AllValid ms
    → n_read ≤ n
    → n - n_read + length ms < fuel
    → Moves (n - n_read) n_read cs ms (transfer_loop fuel n n_read cs ms)

round-Moves :
    (fuel n n_read : ℕ) (cs ys : List Chunk) (h : Chunk) (t : List Chunk)
    → Goes fuel n
    → n < int_limit
    → n_read < n
    → Roomy cs (some ys)
    → AllValid (h ∷ t)
    → n - n_read + length (h ∷ t) < suc fuel
    → Moves (n - n_read) n_read cs (h ∷ t) (copy_round (transfer_loop fuel n) n n_read ys h t)
round-Moves fuel n n_read cs ys h t goes lim lt roomy w f =
    let c = roomy.head in
    let ds = roomy.tail in
    let k = r n n_read c ds h t roomy.valid w roomy.space in
    let d = dropped n n_read c ds h t roomy.valid w roomy.space in
    let onto = to n n_read c ds h t roomy.valid w roomy.space in
    let g = src-Grown n n_read c ds h t roomy.valid w roomy.space in
    let goes_on = λ (pos : 0 < k).
      subst
        (λ (i : ℕ).
          Moves i (n_read + k) onto d.left (transfer_loop fuel n (n_read + k) onto d.left))
        {x = n - (n_read + k)} {y = n - n_read - k} (omega arith)
        (goes (n_read + k) onto d.left g.valid d.after.valid (omega arith)
          (omega (arith, d.shorter))) in
    let e : ys ≡ c ∷ ds = cc in
    rw e (
      Moves-from (n - n_read) n_read cs (c ∷ ds) (h ∷ t) _ roomy.same roomy.extends (
        copy_round-Moves n n_read c ds h t roomy.valid w roomy.space (transfer_loop fuel n) lim lt
          goes_on))

same_Roomy :
    (c : Chunk) (ds : List Chunk)
    → AllValid (c ∷ ds)
    → 0 < room (back c ds)
    → Roomy (c ∷ ds) (some (c ∷ ds))
same_Roomy c ds v space = record {
  head = c;
  tail = ds;
  result = refl;
  valid = v;
  same = refl;
  space = space;
  extends = Extends-refl (c ∷ ds);
}

round_of :
    (fuel n n_read : ℕ) (cs : List Chunk) (h : Chunk) (t : List Chunk)
    → Goes fuel n
    → n < int_limit
    → n_read < n
    → AllValid cs
    → AllValid (h ∷ t)
    → BackRoom cs
    → n - n_read + length (h ∷ t) < suc fuel
    → Moves (n - n_read) n_read cs (h ∷ t) (transfer_loop (suc fuel) n n_read cs (h ∷ t))
round_of fuel n n_read cs h t goes lim lt v w (open_back c ds space e) f =
    rw (loop-open fuel n n_read (c ∷ ds) h t lt e) (
      round-Moves fuel n n_read (c ∷ ds) (c ∷ ds) h t goes lim lt (same_Roomy c ds v (omega arith))
        w f)
round_of fuel n n_read cs h t goes lim lt v w (full b e) f =
    let size = length (content h) in
    elim (dec_lt size (n - n_read)) [
      | no le ↦ rw (loop-copy fuel n n_read cs h t lt e w (omega arith)) (
          round-Moves fuel n n_read cs _ h t goes lim lt
            (push_new-Roomy cs (some (cs ++ new_chunk min_size ∷ [])) v b refl) w f)
      | yes whole ↦
          let g = moved-Grown cs h t v b w in
          let more =
            subst
              (λ (i : ℕ).
                Moves i (n_read + size) (cs ++ h ∷ []) t
                  (transfer_loop fuel n (n_read + size) (cs ++ h ∷ []) t))
              {x = n - (n_read + size)} {y = n - n_read - size} (omega arith)
              (goes (n_read + size) (cs ++ h ∷ []) t g.valid w.3 (omega arith) (omega arith)) in
          Moves-more (n - n_read) size n_read cs (h ∷ t) (cs ++ h ∷ []) t _ _ (omega arith)
            (omega (arith, length-append (content h) (contents_of t))) g (moved-Left h t w) more
            (loop-move fuel n n_read cs h t lim e w whole ∙ more.result)
    ]

transfer_loop-Moves : (fuel n : ℕ) → n < int_limit → Goes fuel n
unfolding transfer_loop
transfer_loop-Moves zero n lim n_read cs ms v w le f = absurd (omega arith)
transfer_loop-Moves (suc fuel) n lim n_read cs [] v w le f =
    Moves-none (n - n_read) n_read cs [] cs [] _ (take-nil (n - n_read))
      (record { valid = v; grown = sym (append-nil (contents_of cs)); extends = Extends-refl cs })
      (record { valid = tt; rest = refl }) refl
transfer_loop-Moves (suc fuel) n lim n_read cs (h ∷ t) v w le f = elim (dec_lt n_read n) [
  | yes lt ↦
      round_of fuel n n_read cs h t (transfer_loop-Moves fuel n lim) lim lt v w (back_room cs v) f
  | no ge ↦
      let z : 0 ≡ n - n_read = omega arith in
      Moves-none (n - n_read) n_read cs (h ∷ t) cs (h ∷ t) _
        (ap (λ (i : ℕ). take i (contents_of (h ∷ t))) (sym z))
        (record { valid = v; grown = sym (append-nil (contents_of cs)); extends = Extends-refl cs })
        (record { valid = w; rest = refl }) (loop-stop fuel n n_read cs h t (omega arith))
]

-- Between two marshals in order, read_from_marshal of n bytes (n an int) moves the first n bytes of
-- the other content, or all where there are fewer, behind its own in order, returns how many, keeps
-- both in order and changes neither counter, whether a chunk is copied or handed over.
pub read_from_marshal_lem :
    (n : ℕ) (self m : Marshal)
    → IsMarshal self
    → IsMarshal m
    → n < int_limit
    → (self' m' : Marshal) × (read_from_marshal n self m
        ≡ some (min n (length (contents m)), self', m'))
      × IsMarshal self'
      × (contents self' ≡ contents self ++ take n (contents m))
      × (self'.write_counter ≡ self.write_counter)
      × Shortened n m m'
unfolding read_from_marshal
read_from_marshal_lem n self m v w lim =
    let start =
      transfer_loop-Moves (suc (n + length m.chunks)) n lim 0 self.chunks m.chunks v w (omega arith)
        (omega arith) in
    let moves =
      subst
        (λ (i : ℕ).
          Moves i 0 self.chunks m.chunks
            (transfer_loop (suc (n + length m.chunks)) n 0 self.chunks m.chunks))
        {x = n - 0} {y = n} (omega arith) start in
    (
      record self { chunks = moves.into },
      record m { chunks = moves.from },
      rw
          (
            front_live-eq self.chunks v,
            front_live-eq m.chunks w,
            moves.result,
            front_live-eq moves.into moves.grown.valid,
            front_live-eq moves.from moves.left.valid,
            ◌>>=◌,
          )
          (ap
            (λ (i : ℕ).
              some (i, record self { chunks = moves.into }, record m { chunks = moves.from }))
            {x = 0 + moves.count} (omega (arith, moves.count_eq))),
      moves.grown.valid,
      moves.grown.grown,
      refl,
      record { valid = moves.left.valid; rest = moves.left.rest; same_counter = refl },
    )
