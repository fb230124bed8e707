-- ===== src/Wire/Sequences.antt =====
-- `std::vector` and `std::list`: a length and the elements.
use vncproxy.Prelude.{
  ℕ, ◌+◌, ◌^◌, ◌≤◌, ◌<◌, ◌≡◌, refl, ap, ◌∙◌, Option, none, List, [], ◌∷◌, ◌++◌, arith, length,
  int_limit, append_assoc, length-append, lt→ltb, ◌>>=◌, le→not-ltb,
}
use vncproxy.Marshal.{Marshal}
use vncproxy.Marshal.Valid.{IsMarshal, contents}
use vncproxy.Wire.{
  to_bytes, get_i32, put_all, put_sequence, get_times, get_vector, get_list, as_i32,
}
use vncproxy.Wire.Words.{Put, Got, Put-bind, Put-nil, put_i32-Put, get_i32-Got, length-to_i32}
use vncproxy.Wire.Codec.{Codec}

module _ {T : Type 0} (c : Codec T) where
  abbrev pub encode_all : List T → List ℕ
  encode_all [] = []
  encode_all (v ∷ vs) = c.encode v ++ encode_all vs

  abbrev pub AllFit : List T → Type 0
  AllFit [] = Unit {0}
  AllFit (v ∷ vs) = c.Fits v × AllFit vs

  abbrev pub encode_sequence : List T → List ℕ
  encode_sequence vs = to_bytes 4 (length vs) ++ encode_all vs

  put_all-Put :
      (vs : List T) (m : Marshal)
      → AllFit vs
      → IsMarshal m
      → m.write_counter + length (encode_all vs) < int_limit
      → Put (encode_all vs) m (put_all c.put vs m)
  unfolding put_all
  put_all-Put [] m f v lim = Put-nil m v
  put_all-Put (x ∷ xs) m f v lim =
      let split = length-append (c.encode x) (encode_all xs) in
      let p = c.put-Put x m f.0 v (omega (arith, split)) in
      Put-bind (c.encode x) (encode_all xs) (encode_all (x ∷ xs)) m _ (put_all c.put xs) refl p
        (put_all-Put xs p.next f.1 p.valid (omega (arith, split, p.counted)))

  get_times-Got :
      (vs : List T) (rest : List ℕ) (m : Marshal)
      → AllFit vs
      → IsMarshal m
      → contents m ≡ encode_all vs ++ rest
      → Got vs rest (get_times c.get (length vs) m)
  unfolding get_times
  get_times-Got [] rest m f v e = record { next = m; result = refl; valid = v; left = e }
  get_times-Got (x ∷ xs) rest m f v e =
      let g =
        c.get-Got x (encode_all xs ++ rest) m f.0 v
          (e ∙ append_assoc (c.encode x) (encode_all xs) rest) in
      let more = get_times-Got xs rest g.next f.1 g.valid g.left in
      record {
        next = more.next;
        result = rw (g.result, more.result, ◌>>=◌);
        valid = more.valid;
        left = more.left;
      }

  -- `<<` of a vector or list whose length is an `int` sends the length and then every element.
  pub put_sequence-Put :
      (vs : List T) (m : Marshal)
      → AllFit vs
      → length vs < int_limit
      → IsMarshal m
      → m.write_counter + length (encode_sequence vs) < int_limit
      → Put (encode_sequence vs) m (put_sequence c.put vs m)
  unfolding put_sequence
  put_sequence-Put vs m f h v lim =
      let len = as_i32 (length vs) in
      let e : len ≡ length vs = omega arith in
      let split = length-append (to_bytes 4 (length vs)) (encode_all vs) in
      let p = put_i32-Put len m v (omega (arith, split, length-to_i32 (length vs))) in
      Put-bind (to_bytes 4 len) (encode_all vs) (encode_sequence vs) m _ (put_all c.put vs)
        (ap (λ (k : ℕ). to_bytes 4 k ++ encode_all vs) e) p
        (put_all-Put vs p.next f p.valid
          (omega (arith, split, p.counted, length-to_i32 (length vs), length-to_i32 len)))

  length_front :
      (vs : List T) (rest : List ℕ) (m : Marshal)
      → length vs < int_limit
      → IsMarshal m
      → contents m ≡ encode_sequence vs ++ rest
      → Got (length vs) (encode_all vs ++ rest) (get_i32 m)
  length_front vs rest m h v e =
      get_i32-Got (length vs) (encode_all vs ++ rest) m v (omega arith)
        (e ∙ append_assoc (to_bytes 4 (length vs)) (encode_all vs) rest)

  pub get_list-Got :
      (vs : List T) (rest : List ℕ) (m : Marshal)
      → AllFit vs
      → length vs < int_limit
      → IsMarshal m
      → contents m ≡ encode_sequence vs ++ rest
      → Got vs rest (get_list c.get m)
  unfolding get_list
  get_list-Got vs rest m f h v e =
      let g = length_front vs rest m h v e in
      let body = get_times-Got vs rest g.next f g.valid g.left in
      record {
        next = body.next;
        result = rw (g.result, lt→ltb (length vs) int_limit h, ◌>>=◌) body.result;
        valid = body.valid;
        left = body.left;
      }

  pub get_vector-Got :
      (vs : List T) (rest : List ℕ) (m : Marshal)
      → AllFit vs
      → length vs < int_limit
      → IsMarshal m
      → contents m ≡ encode_sequence vs ++ rest
      → Got vs rest (get_vector c.get m)
  unfolding get_vector
  get_vector-Got vs rest m f h v e =
      let g = length_front vs rest m h v e in
      let body = get_times-Got vs rest g.next f g.valid g.left in
      record {
        next = body.next;
        result = rw (g.result, lt→ltb (length vs) int_limit h, ◌>>=◌) body.result;
        valid = body.valid;
        left = body.left;
      }

  abbrev pub vector : Codec (List T)
  vector = record {
    put = put_sequence c.put;
    get = get_vector c.get;
    encode = encode_sequence;
    Fits = λ vs. AllFit vs × (length vs < int_limit);
    put-Put = λ vs m f. put_sequence-Put vs m f.0 f.1;
    get-Got = λ vs rest m f. get_vector-Got vs rest m f.0 f.1;
  }

  abbrev pub list : Codec (List T)
  list = record {
    put = put_sequence c.put;
    get = get_list c.get;
    encode = encode_sequence;
    Fits = λ vs. AllFit vs × (length vs < int_limit);
    put-Put = λ vs m f. put_sequence-Put vs m f.0 f.1;
    get-Got = λ vs rest m f. get_list-Got vs rest m f.0 f.1;
  }

-- On a marshal in order in front of whose content stands the word of a length below zero, >> of a
-- vector stops the process, and >> of a list takes the word and gives the empty list.
pub negative_length {ℓ} :
    {T : Type ℓ} (get : Marshal → Option (T × Marshal)) (w : ℕ) (rest : List ℕ) (m : Marshal)
    → int_limit ≤ w
    → w < 2 ^ 32
    → IsMarshal m
    → contents m ≡ to_bytes 4 w ++ rest
    → (get_vector get m ≡ none) × Got {T = List T} [] rest (get_list get m)
unfolding get_vector get_list get_times
negative_length {T = T} get w rest m neg h v e =
    let g = get_i32-Got w rest m v h e in
    (
      rw (g.result, le→not-ltb w int_limit neg, ◌>>=◌),
      record {
        next = g.next;
        result = rw (g.result, le→not-ltb w int_limit neg, ◌>>=◌);
        valid = g.valid;
        left = g.left;
      },
    )
