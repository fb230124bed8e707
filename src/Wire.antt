-- ===== src/Wire.antt =====
-- The marshalling operators of marshal.h: `<<` is put_…, `>>` is get_…. A template's operators on
-- its parameter are arguments. An `i32`, an `i64` and a `double` are their bit patterns, and are
-- copied with the byte order of a little-endian machine.
pub mod Words
pub mod Codec
pub mod Sequences
pub mod Maps
pub mod RoundTrips
mod Tests
use vncproxy.Prelude.{
  ℕ, zero, suc, ◌+◌, ◌*◌, ◌/◌, ◌%◌, ◌^◌, Bool, true, false, Option, none, some, List, [], ◌∷◌,
  length, take, ◌>>=◌, ◌>>◌, require, ltb, ◌==◌, if◌then◌else◌, int_limit, ◌&&◌,
}
use vncproxy.Marshal.{Marshal, write, read}

-- The `n` bytes of a word, the lowest first.
unfoldable pub to_bytes : ℕ → ℕ → List ℕ
to_bytes zero w = []
to_bytes (suc n) w = (w % 256) ∷ to_bytes n (w / 256)

unfoldable pub from_bytes : List ℕ → ℕ
from_bytes [] = 0
from_bytes (b ∷ bs) = b + 256 * from_bytes bs

-- `verify(m.write(&v, sizeof(v)) == sizeof(v))` for a type of `n` bytes
unfoldable pub put_word : ℕ → ℕ → Marshal → Option Marshal
put_word n v m = do out ← write (to_bytes n v) m; require (out.0 == n); some out.1

-- `verify(m.read(&v, sizeof(v)) == sizeof(v))`
unfoldable pub get_word : ℕ → Marshal → Option (ℕ × Marshal)
get_word n m = do out ← read n m; require (length out.0 == n); some (from_bytes out.0, out.1)

unfoldable pub put_i32 : ℕ → Marshal → Option Marshal
put_i32 = put_word 4

unfoldable pub get_i32 : Marshal → Option (ℕ × Marshal)
get_i32 = get_word 4

-- `i64` and `double`
unfoldable pub put_i64 : ℕ → Marshal → Option Marshal
put_i64 = put_word 8

unfoldable pub get_i64 : Marshal → Option (ℕ × Marshal)
get_i64 = get_word 8

-- `(i32) n` of a size
abbrev pub as_i32 : ℕ → ℕ
as_i32 n = n % 2 ^ 32

-- `0 < v` and `v < 0` of the `i32` that the pattern `v` stands for
abbrev pub is_positive : ℕ → Bool
is_positive v = ltb 0 v && ltb v int_limit

-- How often `for (i32 i = 0; i < v; i++)` runs.
abbrev pub rounds : ℕ → ℕ
rounds v = if ltb v int_limit then v else 0

-- `resize` and `reserve` of a negative length throw, and nothing catches. There is memory enough for
-- any other length.
abbrev pub allocate : ℕ → Option (Unit {0})
allocate v = require (ltb v int_limit)

-- `if (len > 0) { verify(write(v.c_str(), len) == len); }`
unfoldable pub put_chars : List ℕ → ℕ → Marshal → Option Marshal
put_chars s len m = elim (is_positive len) [
  | false ↦ some m
  | true ↦ do out ← write (take len s) m; require (out.0 == len); some out.1
]

unfoldable pub put_string : List ℕ → Marshal → Option Marshal
put_string s m = do let len = as_i32 (length s); m' ← put_i32 len m; put_chars s len m'

-- `v.resize(len); if (len > 0) { verify(m.read(&v[0], len) == len); }`
unfoldable pub get_chars : ℕ → Marshal → Option (List ℕ × Marshal)
get_chars len m = do
  allocate len
  elim (is_positive len) [
    | false ↦ some ([], m)
    | true ↦ do out ← read len m; require (length out.0 == len); some out
  ]

unfoldable pub get_string : Marshal → Option (List ℕ × Marshal)
get_string m = do word ← get_i32 m; get_chars word.0 word.1

module _ {ℓ} {T : Type ℓ} (put : T → Marshal → Option Marshal) where
  unfoldable pub put_all : List T → Marshal → Option Marshal
  put_all [] m = some m
  put_all (v ∷ vs) m = do m' ← put v m; put_all vs m'

  -- `std::vector<T>` and `std::list<T>`
  unfoldable pub put_sequence : List T → Marshal → Option Marshal
  put_sequence vs m = do m' ← put_i32 (as_i32 (length vs)) m; put_all vs m'

module _ {ℓ} {T : Type ℓ} (get : Marshal → Option (T × Marshal)) where
  unfoldable pub get_times : ℕ → Marshal → Option (List T × Marshal)
  get_times zero m = some ([], m)
  get_times (suc n) m = do
    first ← get m
    more ← get_times n first.1
    some (first.0 ∷ more.0, more.1)

  unfoldable pub get_vector : Marshal → Option (List T × Marshal)
  get_vector m = do word ← get_i32 m; allocate word.0; get_times (rounds word.0) word.1

  unfoldable pub get_list : Marshal → Option (List T × Marshal)
  get_list m = do word ← get_i32 m; get_times (rounds word.0) word.1

-- `std::map<K, V>`: its pairs in the order of the keys, which `less` decides.
module _ {ℓ} {K V : Type ℓ} (less : K → K → Bool) where
  -- `v[key] = value`
  unfoldable pub assign : K → V → List (K × V) → List (K × V)
  assign k v [] = (k, v) ∷ []
  assign k v ((j, w) ∷ kvs) =
      if less k j
      then (k, v) ∷ (j, w) ∷ kvs
      else if less j k
      then (j, w) ∷ assign k v kvs
      else (j, v) ∷ kvs

  unfoldable pub assign_all : List (K × V) → List (K × V) → List (K × V)
  assign_all [] kvs = kvs
  assign_all ((k, v) ∷ new) kvs = assign_all new (assign k v kvs)

module _ {ℓ} {K V : Type ℓ} where
  unfoldable pub put_pair :
      (K → Marshal → Option Marshal)
      → (V → Marshal → Option Marshal)
      → K × V
      → Marshal
      → Option Marshal
  put_pair put_key put_value (k, v) m = do m' ← put_key k m; put_value v m'

  unfoldable pub get_pair :
      (Marshal → Option (K × Marshal))
      → (Marshal → Option (V × Marshal))
      → Marshal
      → Option ((K × V) × Marshal)
  get_pair get_key get_value m = do
    key ← get_key m
    value ← get_value key.1
    some ((key.0, value.0), value.1)

  unfoldable pub put_map :
      (K → Marshal → Option Marshal)
      → (V → Marshal → Option Marshal)
      → List (K × V)
      → Marshal
      → Option Marshal
  put_map put_key put_value = put_sequence (put_pair put_key put_value)

  -- The pairs are assigned one after the other to an empty map.
  unfoldable pub get_map :
      (K → K → Bool)
      → (Marshal → Option (K × Marshal))
      → (Marshal → Option (V × Marshal))
      → Marshal
      → Option (List (K × V) × Marshal)
  get_map less get_key get_value m = do
    out ← get_list (get_pair get_key get_value) m
    some (assign_all less out.0 [], out.1)
