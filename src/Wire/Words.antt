-- ===== src/Wire/Words.antt =====
-- Words and strings under `<<` and `>>`.
use native.Mathlib.Nat.{pow-suc}
use vncproxy.Prelude.{
  ℕ, zero, suc, ◌+◌, ◌*◌, ◌/◌, ◌^◌, ◌<◌, ◌≡◌, refl, sym, ap, ◌∙◌, Option, require, true, ◌>>◌, some,
  List, [], ◌∷◌, ◌++◌, arith, length, take, drop, int_limit, length-append, take-append_le,
  take_of_length_le, drop-append_le, drop_of_length_le, append_assoc, append-nil, lt→ltb, ◌==◌,
  ◌>>=◌, inl,
}
use vncproxy.Marshal.{Marshal, write, read}
use vncproxy.Marshal.Valid.{IsMarshal, contents}
use vncproxy.Marshal.Reading.{read_lem, Shortened}
use vncproxy.Marshal.Writing.{write_lem, Written}
use vncproxy.Wire.{
  put_i32, get_i32, as_i32, is_positive, to_bytes, from_bytes, put_word, get_word, put_chars,
  get_chars, put_string, get_string,
}

pub length-to_bytes : (n w : ℕ) → length (to_bytes n w) ≡ n
unfolding to_bytes
length-to_bytes zero w = refl
length-to_bytes (suc n) w = ap suc (length-to_bytes n (w / 256))

-- A word below 256 ^ n is given back by its `n` bytes.
pub from_bytes-to_bytes : (n w : ℕ) → w < 256 ^ n → from_bytes (to_bytes n w) ≡ w
unfolding to_bytes from_bytes
from_bytes-to_bytes zero w h = omega (arith, h)
from_bytes-to_bytes (suc n) w h =
    let top : w < 256 ^ n * 256 = rw pow-suc at h in
    omega (arith, from_bytes-to_bytes n (w / 256) (omega (arith, top)))

-- `out` is `m` with `bs` put behind its content.
pub record Put (bs : List ℕ) (m : Marshal) (out : Option Marshal) : Type 0 where
  pub next : Marshal
  pub result : out ≡ some next
  pub valid : IsMarshal next
  pub grown : contents next ≡ contents m ++ bs
  pub counted : next.write_counter ≡ m.write_counter + length bs

-- `v` was taken from the front of the content, and `rest` is left.
pub record Got {ℓ} {T : Type ℓ} (v : T) (rest : List ℕ) (out : Option (T × Marshal)) : Type ℓ where
  pub next : Marshal
  pub result : out ≡ some (v, next)
  pub valid : IsMarshal next
  pub left : contents next ≡ rest

Written-Put :
    (bs : List ℕ) (m m' : Marshal) (out : Option Marshal)
    → Written bs m m'
    → out ≡ some m'
    → Put bs m out
Written-Put bs m m' out w e = record {
  next = m';
  result = e;
  valid = w.valid;
  grown = w.grown;
  counted = w.counted;
}

-- `verify(write(p, n) == n)` with a buffer of `n` bytes, `n > 0`
write-Put :
    (bs : List ℕ) (m : Marshal) (n : ℕ)
    → IsMarshal m
    → 0 < length bs
    → length bs ≡ n
    → m.write_counter + length bs < int_limit
    → Put bs m (write bs m >>= λ out. require (out.0 == n) >> some out.1)
write-Put bs m n v pos e lim = go (write_lem bs m v lim (inl pos))
  where
    go :
        (m' : Marshal) × (write bs m ≡ some (length bs, m')) × Written bs m m'
        → Put bs m (write bs m >>= λ out. require (out.0 == n) >> some out.1)
    go (m', r, w) =
        let same : (length bs == n) ≡ true = ground arith in
        Written-Put bs m m' _ w (rw (r, same, ◌>>=◌))

pub put_word-Put :
    (n w : ℕ) (m : Marshal)
    → IsMarshal m
    → 0 < n
    → m.write_counter + n < int_limit
    → Put (to_bytes n w) m (put_word n w m)
unfolding put_word
put_word-Put n w m v pos lim =
    let len = length-to_bytes n w in
    write-Put (to_bytes n w) m n v (omega (arith, len)) len (omega (arith, len))

-- A read of exactly the bytes in front.
read_front :
    (bs rest : List ℕ) (m : Marshal) (n : ℕ)
    → IsMarshal m
    → n < int_limit
    → length bs ≡ n
    → contents m ≡ bs ++ rest
    → Got bs rest (read n m)
read_front bs rest m n v lim e front = go (read_lem m n v lim)
  where
    go :
        (m' : Marshal) × (read n m ≡ some (take n (contents m), m')) × Shortened n m m'
        → Got bs rest (read n m)
    go (m', r, s) = record {
      next = m';
      result =
          r
          ∙ ap (λ zs. some (zs, m'))
              (ap (take n) front
                ∙ take-append_le n bs rest (omega arith)
                ∙ take_of_length_le n bs (omega arith));
      valid = s.valid;
      left =
          s.rest
          ∙ ap (drop n) front
          ∙ drop-append_le n bs rest (omega arith)
          ∙ ap (λ zs. zs ++ rest) (drop_of_length_le n bs (omega arith));
    }

pub get_word-Got :
    (n w : ℕ) (rest : List ℕ) (m : Marshal)
    → IsMarshal m
    → n < int_limit
    → w < 256 ^ n
    → contents m ≡ to_bytes n w ++ rest
    → Got w rest (get_word n m)
unfolding get_word
get_word-Got n w rest m v lim h front =
    let len = length-to_bytes n w in
    let g = read_front (to_bytes n w) rest m n v lim len front in
    let same : (length (to_bytes n w) == n) ≡ true = ground (arith, len) in
    record {
      next = g.next;
      result = rw (g.result, same, from_bytes-to_bytes n w h, ◌>>=◌);
      valid = g.valid;
      left = g.left;
    }

-- A string is sent as its length and its bytes.
abbrev pub encode_string : List ℕ → List ℕ
encode_string s = to_bytes 4 (length s) ++ s

-- Two steps that put.
pub Put-bind :
    (xs ys zs : List ℕ) (m : Marshal) (out : Option Marshal) (k : Marshal → Option Marshal)
    → xs ++ ys ≡ zs
    → (p : Put xs m out) → Put ys p.next (k p.next)
    → Put zs m (out >>= k)
Put-bind xs ys zs m out k e p q = record {
  next = q.next;
  result = rw (p.result, ◌>>=◌) q.result;
  valid = q.valid;
  grown =
      q.grown
      ∙ ap (λ bs. bs ++ ys) p.grown
      ∙ append_assoc (contents m) xs ys
      ∙ ap (◌++◌ (contents m)) e;
  counted = omega (arith, p.counted, q.counted, length-append {0} xs ys, ap length e);
}

pub Put-nil : (m : Marshal) → IsMarshal m → Put [] m (some m)
Put-nil m v = record {
  next = m;
  result = refl;
  valid = v;
  grown = sym (append-nil (contents m));
  counted = omega arith;
}

-- A step that takes, and one that goes on from there.
pub Got-bind {ℓ κ} :
    {T : Type ℓ} {U : Type κ} (v : T) (u : U) (rest rest' : List ℕ) (out : Option (T × Marshal))
    (k : T × Marshal → Option (U × Marshal))
    → (g : Got v rest out) → Got u rest' (k (v, g.next))
    → Got u rest' (out >>= k)
Got-bind v u rest rest' out k g h = record {
  next = h.next;
  result = rw (g.result, ◌>>=◌) h.result;
  valid = h.valid;
  left = h.left;
}

pub put_i32-Put :
    (w : ℕ) (m : Marshal)
    → IsMarshal m
    → m.write_counter + 4 < int_limit
    → Put (to_bytes 4 w) m (put_i32 w m)
unfolding put_i32
put_i32-Put w m v lim = put_word-Put 4 w m v (omega arith) lim

pub get_i32-Got :
    (w : ℕ) (rest : List ℕ) (m : Marshal)
    → IsMarshal m
    → w < 2 ^ 32
    → contents m ≡ to_bytes 4 w ++ rest
    → Got w rest (get_i32 m)
unfolding get_i32
get_i32-Got w rest m v h front = get_word-Got 4 w rest m v (omega arith) h front

pub length-to_i32 : (w : ℕ) → length (to_bytes 4 w) ≡ 4
length-to_i32 = length-to_bytes 4

as_i32-eq : (n : ℕ) → n < int_limit → as_i32 n ≡ n
as_i32-eq n h = omega arith

is_positive-eq : (n : ℕ) → 0 < n → n < int_limit → is_positive n ≡ true
is_positive-eq n pos h = ground arith

put_chars-Put :
    (s : List ℕ) (len : ℕ) (m : Marshal)
    → IsMarshal m
    → len ≡ length s
    → len < int_limit
    → m.write_counter + len < int_limit
    → Put s m (put_chars s len m)
unfolding put_chars
put_chars-Put [] len m v e h lim = rw (e) (Put-nil m v)
put_chars-Put (x ∷ xs) len m v e h lim =
    rw
      (
        is_positive-eq len (omega (arith, e)) h,
        take_of_length_le len (x ∷ xs) (omega (arith, e)),
        put_chars,
      )
      (write-Put (x ∷ xs) m len v (omega arith) (sym e) (omega (arith, e)))

-- `<<` of a string whose length is an `int` sends the length and the bytes.
pub put_string-Put :
    (s : List ℕ) (m : Marshal)
    → IsMarshal m
    → m.write_counter + 4 + length s < int_limit
    → Put (encode_string s) m (put_string s m)
unfolding put_string
put_string-Put s m v lim =
    let len = as_i32 (length s) in
    let e : len ≡ length s = as_i32-eq (length s) (omega arith) in
    let p = put_i32-Put len m v (omega arith) in
    Put-bind (to_bytes 4 len) s (encode_string s) m _ (put_chars s len)
      (ap (λ (k : ℕ). to_bytes 4 k ++ s) e) p
      (put_chars-Put s len p.next p.valid e (omega (arith, e))
        (omega (arith, p.counted, length-to_i32 len, e)))

get_chars-Got :
    (s rest : List ℕ) (m : Marshal)
    → IsMarshal m
    → length s < int_limit
    → contents m ≡ s ++ rest
    → Got s rest (get_chars (length s) m)
unfolding get_chars
get_chars-Got [] rest m v h front = record { next = m; result = refl; valid = v; left = front }
get_chars-Got (x ∷ xs) rest m v h front =
    let n = length (x ∷ xs) in
    let g = read_front (x ∷ xs) rest m n v h refl front in
    let same : (n == n) ≡ true = ground arith in
    record {
      next = g.next;
      result = rw (is_positive-eq n (omega arith) h, lt→ltb n int_limit h, g.result, same, ◌>>=◌);
      valid = g.valid;
      left = g.left;
    }

-- `>>` of a string takes it from the front, where it stands encoded.
pub get_string-Got :
    (s rest : List ℕ) (m : Marshal)
    → IsMarshal m
    → length s < int_limit
    → contents m ≡ encode_string s ++ rest
    → Got s rest (get_string m)
unfolding get_string
get_string-Got s rest m v h front =
    let n = length s in
    let g =
      get_i32-Got n (s ++ rest) m v (omega arith) (front ∙ append_assoc (to_bytes 4 n) s rest) in
    Got-bind n s (s ++ rest) rest _ _ g (get_chars-Got s rest g.next g.valid h g.left)
