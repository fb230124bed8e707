-- ===== src/Wire/Codec.antt =====
-- A type with its two operators, and what they promise: `put` sends the value's bytes, and `get`
-- takes them back.
use vncproxy.Prelude.{
  ℕ, suc, ◌+◌, ◌^◌, ◌<◌, ◌≡◌, sym, ap, ◌∙◌, Option, some, List, [], ◌++◌, arith, length, int_limit,
  append-nil, length-append,
}
use vncproxy.Marshal.{Marshal}
use vncproxy.Marshal.Valid.{IsMarshal, contents}
use vncproxy.Wire.{to_bytes, put_word, get_word, put_string, get_string}
use vncproxy.Wire.Words.{
  Put, Got, put_word-Put, get_word-Got, put_string-Put, get_string-Got, encode_string,
  length-to_bytes, length-to_i32,
}

pub record Codec (T : Type 0) : Type 1 where
  pub put : T → Marshal → Option Marshal
  pub get : Marshal → Option (T × Marshal)
  pub encode : T → List ℕ
  pub Fits : T → Type 0
  pub put-Put :
      (v : T) (m : Marshal)
      → Fits v
      → IsMarshal m
      → m.write_counter + length (encode v) < int_limit
      → Put (encode v) m (put v m)
  pub get-Got :
      (v : T) (rest : List ℕ) (m : Marshal)
      → Fits v
      → IsMarshal m
      → contents m ≡ encode v ++ rest
      → Got v rest (get m)

-- `i32`, `i64` and `double`
pub word-Put :
    (n w : ℕ) (m : Marshal)
    → w < 256 ^ suc n
    → IsMarshal m
    → m.write_counter + length (to_bytes (suc n) w) < int_limit
    → Put (to_bytes (suc n) w) m (put_word (suc n) w m)
word-Put n w m f v lim =
    put_word-Put (suc n) w m v (omega arith) (omega (arith, length-to_bytes (suc n) w))

pub word-Got :
    (n : ℕ)
    → suc n < int_limit
    → (w : ℕ) (rest : List ℕ) (m : Marshal) → w < 256 ^ suc n
    → IsMarshal m
    → contents m ≡ to_bytes (suc n) w ++ rest
    → Got w rest (get_word (suc n) m)
word-Got n lim w rest m f v = get_word-Got (suc n) w rest m v lim f

abbrev pub word : (n : ℕ) → suc n < int_limit → Codec ℕ
word n lim = record {
  put = put_word (suc n);
  get = get_word (suc n);
  encode = to_bytes (suc n);
  Fits = λ w. w < 256 ^ suc n;
  put-Put = word-Put n;
  get-Got = word-Got n lim;
}

pub string-Put :
    (s : List ℕ) (m : Marshal)
    → length s < int_limit
    → IsMarshal m
    → m.write_counter + length (encode_string s) < int_limit
    → Put (encode_string s) m (put_string s m)
string-Put s m f v lim =
    put_string-Put s m v
      (omega (arith, length-append {0} (to_bytes 4 (length s)) s, length-to_i32 (length s)))

pub string-Got :
    (s rest : List ℕ) (m : Marshal)
    → length s < int_limit
    → IsMarshal m
    → contents m ≡ encode_string s ++ rest
    → Got s rest (get_string m)
string-Got s rest m f v = get_string-Got s rest m v f

abbrev pub string : Codec (List ℕ)
string = record {
  put = put_string;
  get = get_string;
  encode = encode_string;
  Fits = λ s. length s < int_limit;
  put-Put = string-Put;
  get-Got = string-Got;
}

-- Sending a value to an empty marshal and taking one back gives the value and leaves nothing.
pub record Returned {T : Type 0} (v : T) (sent : Option Marshal)
    (get : Marshal → Option (T × Marshal)) : Type 0 where
  pub between : Marshal
  pub sent_eq : sent ≡ some between
  pub after : Marshal
  pub got_eq : get between ≡ some (v, after)
  pub valid : IsMarshal after
  pub empty : contents after ≡ []

pub get-put :
    {T : Type 0} (c : Codec T) (v : T) (m : Marshal)
    → c.Fits v
    → IsMarshal m
    → contents m ≡ []
    → m.write_counter + length (c.encode v) < int_limit
    → Returned v (c.put v m) c.get
get-put c v m f w e lim =
    let p = c.put-Put v m f w lim in
    let g =
      c.get-Got v [] p.next f p.valid
        (p.grown ∙ ap (λ bs. bs ++ c.encode v) e ∙ sym (append-nil (c.encode v))) in
    record {
      between = p.next;
      sent_eq = p.result;
      after = g.next;
      got_eq = g.result;
      valid = g.valid;
      empty = g.left;
    }
