-- ===== src/Wire/Maps.antt =====
-- `std::map`: pairs in the order of the keys.
use vncproxy.Prelude.{
  ℕ, ◌+◌, ◌<◌, ◌≡◌, refl, sym, ap, ◌∙◌, Bool, true, false, List, [], ◌∷◌, ◌++◌, arith, length,
  int_limit, append_assoc, append-nil, length-append, ◌>>=◌,
}
use vncproxy.Marshal.{Marshal}
use vncproxy.Marshal.Valid.{IsMarshal, contents}
use vncproxy.Wire.{assign, assign_all, put_pair, get_pair, put_map, get_map}
use vncproxy.Wire.Words.{Put, Got, Put-bind}
use vncproxy.Wire.Codec.{Codec}
use vncproxy.Wire.Sequences.{encode_sequence, AllFit, put_sequence-Put, get_list-Got}

module _ {K V : Type 0} (less : K → K → Bool) where
  -- The key is above every key of the list.
  abbrev pub IsAbove : K → List (K × V) → Type 0
  IsAbove k [] = Unit {0}
  IsAbove k ((j, w) ∷ kvs) = (less k j ≡ false) × (less j k ≡ true) × IsAbove k kvs

  -- Each pair's key is above those that stand before it, in `before` too.
  abbrev pub IsAscending : List (K × V) → List (K × V) → Type 0
  IsAscending before [] = Unit {0}
  IsAscending before ((k, v) ∷ kvs) = IsAbove k before × IsAscending (before ++ (k, v) ∷ []) kvs

  assign_above :
      (k : K) (v : V) (kvs : List (K × V))
      → IsAbove k kvs
      → assign less k v kvs ≡ kvs ++ (k, v) ∷ []
  unfolding assign
  assign_above k v [] h = refl
  assign_above k v ((j, w) ∷ kvs) h = rw (h.0, h.1) (ap (◌∷◌ (j, w)) (assign_above k v kvs h.2))

  -- Assigning pairs whose keys ascend puts them behind one another.
  pub assign_all_ascending :
      (new before : List (K × V))
      → IsAscending before new
      → assign_all less new before ≡ before ++ new
  unfolding assign_all
  assign_all_ascending [] before h = sym (append-nil before)
  assign_all_ascending ((k, v) ∷ new) before h =
      ap (assign_all less new) (assign_above k v before h.0)
      ∙ assign_all_ascending new (before ++ (k, v) ∷ []) h.1
      ∙ append_assoc before ((k, v) ∷ []) new

module _ {K V : Type 0} (key : Codec K) (value : Codec V) where
  abbrev pub encode_pair : K × V → List ℕ
  encode_pair (k, v) = key.encode k ++ value.encode v

  pub pair-Put :
      (kv : K × V) (m : Marshal)
      → key.Fits kv.0 × value.Fits kv.1
      → IsMarshal m
      → m.write_counter + length (encode_pair kv) < int_limit
      → Put (encode_pair kv) m (put_pair key.put value.put kv m)
  unfolding put_pair
  pair-Put (k, v) m f w lim =
      let split = length-append (key.encode k) (value.encode v) in
      let p = key.put-Put k m f.0 w (omega (arith, split)) in
      Put-bind (key.encode k) (value.encode v) (encode_pair (k, v)) m _ (value.put v) refl p
        (value.put-Put v p.next f.1 p.valid (omega (arith, split, p.counted)))

  pub pair-Got :
      (kv : K × V) (rest : List ℕ) (m : Marshal)
      → key.Fits kv.0 × value.Fits kv.1
      → IsMarshal m
      → contents m ≡ encode_pair kv ++ rest
      → Got kv rest (get_pair key.get value.get m)
  unfolding get_pair
  pair-Got (k, v) rest m f w e =
      let g =
        key.get-Got k (value.encode v ++ rest) m f.0 w
          (e ∙ append_assoc (key.encode k) (value.encode v) rest) in
      let h = value.get-Got v rest g.next f.1 g.valid g.left in
      record {
        next = h.next;
        result = rw (g.result, h.result, ◌>>=◌);
        valid = h.valid;
        left = h.left;
      }

  abbrev pub pair : Codec (K × V)
  pair = record {
    put = put_pair key.put value.put;
    get = get_pair key.get value.get;
    encode = encode_pair;
    Fits = λ kv. key.Fits kv.0 × value.Fits kv.1;
    put-Put = pair-Put;
    get-Got = pair-Got;
  }

  module _ (less : K → K → Bool) where
    pub map-Put :
        (kvs : List (K × V)) (m : Marshal)
        → AllFit pair kvs × (length kvs < int_limit) × IsAscending less [] kvs
        → IsMarshal m
        → m.write_counter + length (encode_sequence pair kvs) < int_limit
        → Put (encode_sequence pair kvs) m (put_map key.put value.put kvs m)
    unfolding put_map
    map-Put kvs m f w lim = put_sequence-Put pair kvs m f.0 f.1 w lim

    pub map-Got :
        (kvs : List (K × V)) (rest : List ℕ) (m : Marshal)
        → AllFit pair kvs × (length kvs < int_limit) × IsAscending less [] kvs
        → IsMarshal m
        → contents m ≡ encode_sequence pair kvs ++ rest
        → Got kvs rest (get_map less key.get value.get m)
    unfolding get_map
    map-Got kvs rest m f w e =
        let g = get_list-Got pair kvs rest m f.0 f.1 w e in
        record {
          next = g.next;
          result = rw (g.result, assign_all_ascending less kvs [] f.2, ◌>>=◌);
          valid = g.valid;
          left = g.left;
        }

    abbrev pub map : Codec (List (K × V))
    map = record {
      put = put_map key.put value.put;
      get = get_map less key.get value.get;
      encode = encode_sequence pair;
      Fits = λ kvs. AllFit pair kvs × (length kvs < int_limit) × IsAscending less [] kvs;
      put-Put = map-Put;
      get-Got = map-Got;
    }
