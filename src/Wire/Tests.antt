-- ===== src/Wire/Tests.antt =====
-- The marshalling operators at small examples, and their theorems there.
use vncproxy.Prelude.{ℕ, ◌≡◌, refl, none, List, [], ◌∷◌, ◌++◌, ltb, arith}
use vncproxy.Marshal.{Marshal}
use vncproxy.Marshal.Valid.{IsMarshal, contents}
use vncproxy.Wire.{
  to_bytes, put_string, get_string, put_i64, get_i64, put_sequence, get_vector, get_list, put_map,
  get_map,
}
use vncproxy.Wire.Words.{Got}
use vncproxy.Wire.Codec.{word, string, Returned}
use vncproxy.Wire.Sequences.{negative_length}
use vncproxy.Wire.RoundTrips.{get_vector-put_sequence, get_map-put_map}

abbrev nothing : Marshal
nothing = record { chunks = []; write_counter = 0 }

get_vector-put_sequence_example :
    Returned
      ((1 ∷ []) ∷ [] ∷ [])
      (put_sequence put_string ((1 ∷ []) ∷ [] ∷ []) nothing)
      (get_vector get_string)
    × Returned
        ((1 ∷ []) ∷ [] ∷ [])
        (put_sequence put_string ((1 ∷ []) ∷ [] ∷ []) nothing)
        (get_list get_string)
unfolding to_bytes
get_vector-put_sequence_example =
    get_vector-put_sequence string ((1 ∷ []) ∷ [] ∷ []) nothing (omega arith) (omega arith) tt refl
      (omega arith)

abbrev names : List (ℕ × List ℕ)
names = (3, 1 ∷ []) ∷ (5, []) ∷ []

get_map-put_map_example :
    Returned names
      (put_map (λ k. put_i64 k) put_string names nothing)
      (get_map ltb get_i64 get_string)
unfolding to_bytes put_i64 get_i64
get_map-put_map_example =
    get_map-put_map (word 7 (omega arith)) string ltb names nothing (omega arith) (omega arith)
      (ground arith) tt refl (omega arith)

-- The word for -1 in four bytes.
abbrev minus_one : Marshal
minus_one = record {
  chunks =
      record { bytes = 255 ∷ 255 ∷ 255 ∷ 255 ∷ []; size = 4; read_idx = 0; write_idx = 4 } ∷ [];
  write_counter = 0;
}

minus_one-IsMarshal : IsMarshal minus_one
minus_one-IsMarshal = omega arith

minus_one-contents : contents minus_one ≡ to_bytes 4 4294967295 ++ []
unfolding to_bytes
minus_one-contents = refl

negative_length_example :
    (get_vector get_string minus_one ≡ none)
    × Got {T = List (List ℕ)} [] [] (get_list get_string minus_one)
negative_length_example =
    negative_length get_string 4294967295 [] minus_one (omega arith) (omega arith)
      minus_one-IsMarshal minus_one-contents
