-- ===== src/Marshal/Writing.antt =====
-- `Marshal::write` and the constructors: bytes go behind the content.
use vncproxy.Prelude.{
  ℕ, ◌+◌, ◌<◌, ◌≡◌, refl, sym, ap, ◌∙◌, true, false, Option, none, some, List, [], ◌∷◌, ◌++◌, arith,
  length, take, drop, ◌==◌, ◌>>=◌, Bool-cases, inl, inr, ◌⊎◌, take_of_length_le, length-take,
  append-nil, append_assoc, take-append-drop, add_int-eq, int_limit, lt→ltb, le→not-ltb, not-==→ne,
  ==_iff, subst, dec_lt, take-length-take,
}
use vncproxy.Chunk
use vncproxy.Chunk.{Chunk, copy_chunk}
use vncproxy.Chunk.Contents.{room, copy_chunk-IsValid, content-copy_chunk, copy_chunk-live}
use vncproxy.Chunk.Methods.{Appends, appended, write-eq, write-Appends}
use vncproxy.Marshal.{Marshal, fill_back, write}
use vncproxy.Marshal.Chunks.{back_full}
use vncproxy.Marshal.Valid.{
  AllValid, IsMarshal, IsBackFull, contents_of, contents, contents_of-append, front_live-eq, back,
  set_back, back-IsValid, back_full-eq, AllValid-push, on_back-eq, set_back-AllValid,
  set_back-contents, set_back-IsBackFull, back-IsBackFull,
}
use vncproxy.Marshal.Extends.{Extends, Extends-trans, Extends-append, Extends-set_back}

-- Whether the back can take more bytes.
pub data BackRoom : List Chunk → Type 0 where
  full : {cs : List Chunk} → IsBackFull cs → back_full cs ≡ some true → BackRoom cs
  open_back :
      (c : Chunk) (cs : List Chunk)
      → (back c cs).write_idx < (back c cs).size
      → back_full (c ∷ cs) ≡ some false
      → BackRoom (c ∷ cs)

pub back_room : (cs : List Chunk) → AllValid cs → BackRoom cs
unfolding back_full
back_room [] v = full tt refl
back_room (c ∷ cs) v = elim (Bool-cases ((back c cs).write_idx == (back c cs).size)) [
  | inl e ↦
      full (back-IsBackFull c cs ((==_iff (back c cs).write_idx (back c cs).size).0 e))
        (back_full-eq c cs v ∙ ap some e)
  | inr e ↦
      open_back c cs
        (omega
          (arith, (back-IsValid c cs v).fits, not-==→ne (back c cs).write_idx (back c cs).size e))
        (back_full-eq c cs v ∙ ap some e)
]

-- The bytes `src` were put behind the content of `cs`.
pub record Grown (src : List ℕ) (cs cs' : List Chunk) : Type 0 where
  pub valid : AllValid cs'
  pub grown : contents_of cs' ≡ contents_of cs ++ src
  pub extends : Extends cs cs'

pub push_copy-Grown :
    (p : List ℕ) (cs : List Chunk)
    → AllValid cs
    → IsBackFull cs
    → Grown p cs (cs ++ copy_chunk p ∷ [])
push_copy-Grown p cs v f = record {
  valid = AllValid-push cs (copy_chunk p) v f (copy_chunk-IsValid p) (copy_chunk-live p);
  grown =
      contents_of-append cs (copy_chunk p ∷ [])
      ∙ ap (λ bs. contents_of cs ++ bs) (append-nil _ ∙ content-copy_chunk p);
  extends = Extends-append cs (copy_chunk p ∷ []);
}

pub set_back-Grown :
    (src : List ℕ) (c : Chunk) (cs : List Chunk) (b : Chunk)
    → AllValid (c ∷ cs)
    → Appends src (back c cs) b
    → Grown src (c ∷ cs) (set_back c cs b)
set_back-Grown src c cs b v a = record {
  valid = set_back-AllValid src c cs b v a;
  grown = set_back-contents src c cs b a;
  extends = Extends-set_back c cs b a.same_read (omega (arith, a.moved));
}

pub Grown-trans :
    (xs ys : List ℕ) (cs ds es : List Chunk)
    → Grown xs cs ds
    → Grown ys ds es
    → Grown (xs ++ ys) cs es
Grown-trans xs ys cs ds es g h = record {
  valid = h.valid;
  grown = h.grown ∙ ap (λ zs. zs ++ ys) g.grown ∙ append_assoc (contents_of cs) xs ys;
  extends = Extends-trans cs ds es g.extends h.extends;
}

record Filled (p : List ℕ) (cs : List Chunk) (out : Option (List Chunk)) : Type 0 where
  chunks : List Chunk
  result : out ≡ some chunks
  after : Grown p cs chunks

fill_back-Filled :
    (p : List ℕ) (c : Chunk) (cs : List Chunk)
    → AllValid (c ∷ cs)
    → 0 < length p
    → (back c cs).write_idx < (back c cs).size
    → Filled p (c ∷ cs) (fill_back p (c ∷ cs))
unfolding fill_back
fill_back-Filled p c cs v pos open_ =
    let b = back c cs in
    let w = back-IsValid c cs v in
    let src = take (room b) p in
    let n = length src in
    let n_eq = length-take (room b) p in
    let cs' = set_back c cs (appended b src) in
    let e = on_back-eq (Chunk.write p) c cs n (appended b src) (write-eq b p w) in
    let parts : src ++ drop n p ≡ p =
      ap (λ q. q ++ drop n p) (sym (take-length-take (room b) p)) ∙ take-append-drop n p in
    let g = set_back-Grown src c cs (appended b src) v (write-Appends b p w) in
    elim (dec_lt n (length p)) [
      | yes more ↦ record {
        chunks = cs' ++ copy_chunk (drop n p) ∷ [];
        result = rw (e, lt→ltb 0 n (omega (arith, n_eq)), lt→ltb n (length p) more, ◌>>=◌);
        after =
            subst (λ q. Grown q (c ∷ cs) (cs' ++ copy_chunk (drop n p) ∷ [])) parts
              (Grown-trans src (drop n p) (c ∷ cs) cs' _ g (
                push_copy-Grown (drop n p) cs' g.valid
                  (set_back-IsBackFull c cs (appended b src) (omega (arith, n_eq)))));
      }
      | no all ↦ record {
        chunks = cs';
        result =
            rw (e, lt→ltb 0 n (omega (arith, n_eq)), le→not-ltb n (length p) (omega arith), ◌>>=◌);
        after =
            subst (λ q. Grown q (c ∷ cs) cs') (take_of_length_le (room b) p (omega (arith, n_eq)))
              g;
      }
    ]

-- What `write` of `p` makes of `m`.
pub record Written (p : List ℕ) (m m' : Marshal) : Type 0 where
  pub valid : IsMarshal m'
  pub grown : contents m' ≡ contents m ++ p
  pub counted : m'.write_counter ≡ m.write_counter + length p
  pub extends : Extends m.chunks m'.chunks

module _ (p : List ℕ) (m : Marshal) (v : IsMarshal m)
    (lim : m.write_counter + length p < int_limit) where
  abbrev counted : List Chunk → Marshal
  counted cs = record { chunks = cs; write_counter = m.write_counter + length p }

  write-full :
      IsBackFull m.chunks
      → back_full m.chunks ≡ some true
      → (m' : Marshal) × (write p m ≡ some (length p, m')) × Written p m m'
  unfolding write
  write-full f e =
      let g = push_copy-Grown p m.chunks v f in
      (
        counted (m.chunks ++ copy_chunk p ∷ []),
        rw (front_live-eq m.chunks v, e, add_int-eq m.write_counter (length p) lim, ◌>>=◌),
        record { valid = g.valid; grown = g.grown; counted = refl; extends = g.extends },
      )

  write-open :
      back_full m.chunks ≡ some false
      → (r : Filled p m.chunks (fill_back p m.chunks))
      → write p m ≡ some (length p, counted r.chunks)
  unfolding write
  write-open e r =
      rw (front_live-eq m.chunks v, e, r.result, add_int-eq m.write_counter (length p) lim, ◌>>=◌)

abbrev marshal : List Chunk → ℕ → Marshal
marshal cs w = record { chunks = cs; write_counter = w }

write_core :
    (p : List ℕ) (cs : List Chunk) (w : ℕ)
    → AllValid cs
    → w + length p < int_limit
    → BackRoom cs
    → (0 < length p) ⊎ (back_full cs ≡ some true)
    → let m = marshal cs w in (m' : Marshal) × (write p m ≡ some (length p, m')) × Written p m m'
write_core p cs w v lim (full f t) h = write-full p (marshal cs w) v lim f t
write_core p cs w v lim (open_back c ds lt t) (inr h) = cc
write_core p cs w v lim (open_back c ds lt t) (inl pos) =
    let m = marshal (c ∷ ds) w in
    let r = fill_back-Filled p c ds v pos lt in
    (
      record { chunks = r.chunks; write_counter = w + length p },
      write-open p m v lim t r,
      record {
        valid = r.after.valid;
        grown = r.after.grown;
        counted = refl;
        extends = r.after.extends;
      },
    )

-- On a marshal in order whose counter does not overflow, write of a non-empty buffer, or of an
-- empty one where the back chunk is full or absent, puts the whole buffer behind the content, adds
-- its length to the counter and keeps the order.
pub write_lem :
    (p : List ℕ) (m : Marshal)
    → IsMarshal m
    → m.write_counter + length p < int_limit
    → (0 < length p) ⊎ (back_full m.chunks ≡ some true)
    → (m' : Marshal) × (write p m ≡ some (length p, m')) × Written p m m'
write_lem p m v lim h = write_core p m.chunks m.write_counter v lim (back_room m.chunks v) h

fill_back-nil :
    (cs : List Chunk)
    → AllValid cs
    → BackRoom cs
    → back_full cs ≡ some false
    → fill_back [] cs ≡ none
unfolding fill_back
fill_back-nil cs v (full f t) e = cc
fill_back-nil cs v (open_back c ds lt t) e =
    let b = back c ds in
    let src : List ℕ = take (room b) [] in
    let none_fit : length src ≡ 0 = omega (arith, length-take {0} {A = ℕ} (room b) []) in
    rw (
      on_back-eq (Chunk.write []) c ds (length src) (appended b src)
          (write-eq b [] (back-IsValid c ds v)),
      none_fit,
      ◌>>=◌,
    )

-- On a marshal in order whose back chunk has room, write of an empty buffer stops the process.
pub write-nil-faults :
    (m : Marshal) → IsMarshal m → back_full m.chunks ≡ some false → write [] m ≡ none
unfolding write
write-nil-faults m v e =
    rw (front_live-eq m.chunks v, e, fill_back-nil m.chunks v (back_room m.chunks v) e, ◌>>=◌)
