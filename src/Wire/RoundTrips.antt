-- ===== src/Wire/RoundTrips.antt =====
-- `<<` to an empty marshal and then `>>`.
use vncproxy.Prelude.{
  ℕ, ◌+◌, ◌^◌, ◌<◌, ◌≡◌, Bool, List, [], arith, length, int_limit, length-append,
}
use vncproxy.Marshal.{Marshal}
use vncproxy.Marshal.Valid.{IsMarshal, contents}
use vncproxy.Wire.{
  to_bytes, put_i64, get_i64, put_string, get_string, put_sequence, get_vector, get_list, put_map,
  get_map,
}
use vncproxy.Wire.Words.{length-to_bytes, length-to_i32}
use vncproxy.Wire.Codec.{Codec, word, string, Returned, get-put}
use vncproxy.Wire.Sequences.{AllFit, encode_sequence, vector, list}
use vncproxy.Wire.Maps.{IsAscending, pair, map}

-- A 64-bit word that << sends to an empty marshal in order, >> gives back, and nothing is left,
-- where the counter and 8 stay an int.
pub get_i64-put_i64 :
    (w : ℕ) (m : Marshal)
    → w < 2 ^ 64
    → IsMarshal m
    → contents m ≡ []
    → m.write_counter + 8 < int_limit
    → Returned w (put_i64 w m) get_i64
unfolding put_i64 get_i64
get_i64-put_i64 w m h v e lim =
    get-put (word 7 (omega arith)) w m (omega arith) v e (omega (arith, length-to_bytes 8 w))

-- A string that << sends to an empty marshal in order, >> gives back, and nothing is left, where
-- the counter with the string's length and 4 stays an int.
pub get_string-put_string :
    (s : List ℕ) (m : Marshal)
    → IsMarshal m
    → contents m ≡ []
    → m.write_counter + 4 + length s < int_limit
    → Returned s (put_string s m) get_string
get_string-put_string s m v e lim =
    get-put string s m (omega arith) v e
      (omega (arith, length-append {0} (to_bytes 4 (length s)) s, length-to_i32 (length s)))

-- A sequence that << sends to an empty marshal in order, >> of a vector gives back and >> of a list
-- too, and nothing is left, where the element's operators are a codec that every element fits, and
-- the length and the counter with the bytes sent stay ints.
pub get_vector-put_sequence :
    {T : Type 0} (c : Codec T) (vs : List T) (m : Marshal)
    → AllFit c vs
    → length vs < int_limit
    → IsMarshal m
    → contents m ≡ []
    → m.write_counter + length (encode_sequence c vs) < int_limit
    → Returned vs (put_sequence c.put vs m) (get_vector c.get)
      × Returned vs (put_sequence c.put vs m) (get_list c.get)
get_vector-put_sequence c vs m f h v e lim =
    (get-put (vector c) vs m (f, h) v e lim, get-put (list c) vs m (f, h) v e lim)

-- A map that << sends to an empty marshal in order, >> gives back, and nothing is left, where the
-- key's and the value's operators are codecs that every pair fits, the keys ascend in the order
-- less, and the number of pairs and the counter with the bytes sent stay ints.
pub get_map-put_map :
    {K V : Type 0} (key : Codec K) (value : Codec V) (less : K → K → Bool) (kvs : List (K × V))
    (m : Marshal)
    → AllFit (pair key value) kvs
    → length kvs < int_limit
    → IsAscending less [] kvs
    → IsMarshal m
    → contents m ≡ []
    → m.write_counter + length (encode_sequence (pair key value) kvs) < int_limit
    → Returned kvs (put_map key.put value.put kvs m) (get_map less key.get value.get)
get_map-put_map key value less kvs m f h a v e lim =
    get-put (map key value less) kvs m (f, h, a) v e lim
