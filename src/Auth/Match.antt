-- ===== src/Auth/Match.antt =====
-- Which row `vnc_auth_callback` settles on.
use vncproxy.Prelude.{
  ℕ, ◌-◌, ◌<◌, ◌≤◌, ◌≡◌, inl, inr, refl, sym, ap, ◌∙◌, Bool, true, false, Option, none, some, List,
  [], ◌∷◌, ◌++◌, arith, length, replicate, leb, ◌>>=◌, if◌then◌else◌, Bool-cases, Option-cases,
  le→leb,
}
use mathlib.Core.Option.{some-injective}
use vncproxy.Auth.{
  Row, AuthInfo, new_auth_info, same_bytes, auth_key, encrypt, answer, accept, try_row,
  vnc_auth_callback, authenticate,
}

pub same_bytes_refl : (xs : List ℕ) → same_bytes xs xs ≡ true
unfolding same_bytes
same_bytes_refl [] = refl
same_bytes_refl (x ∷ xs) = ground (arith, same_bytes_refl xs)

-- A row as the schema means it: a key of at most 8 bytes, an address, and perhaps a password.
pub record Entry : Type 0 where
  pub key : List ℕ
  pub short : length key ≤ 8
  pub addr : List ℕ
  pub passwd : Option (List ℕ)

abbrev pub row_of : Entry → Row
row_of r = record { key = some r.key; addr = some r.addr; passwd = r.passwd }

abbrev pub rows_of : List Entry → List Row
rows_of [] = []
rows_of (r ∷ rs) = row_of r ∷ rows_of rs

-- The key with zeros up to 8 bytes.
abbrev pub padded : List ℕ → List ℕ
padded s = s ++ replicate (8 - length s) 0

pub auth_key-eq : (s : List ℕ) → length s ≤ 8 → auth_key s ≡ some (padded s)
unfolding auth_key
auth_key-eq s h = rw (auth_key, le→leb (length s) 8 h, ◌>>=◌) refl

module _ (des : List ℕ → List ℕ → List ℕ) where
  -- Whether the response is the challenge, encrypted with the row's key.
  abbrev pub fits : List ℕ → List ℕ → Entry → Bool
  fits challenge response r = same_bytes response (encrypt des (padded r.key) challenge)

  -- The first entry that fits.
  abbrev pub first_fit : List ℕ → List ℕ → List Entry → Option Entry
  first_fit challenge response [] = none
  first_fit challenge response (r ∷ rs) =
      if fits challenge response r then some r else first_fit challenge response rs

  abbrev pub settled : List ℕ → List ℕ → Option Entry → AuthInfo
  settled challenge response none = new_auth_info challenge response
  settled challenge response (some r) = record {
    challenge = challenge;
    response = response;
    matched = true;
    forward_key = r.key;
    dest_addr = r.addr;
    has_dest_passwd = elim r.passwd [ none ↦ false | some p ↦ true ];
    dest_passwd = elim r.passwd [ none ↦ [] | some p ↦ p ];
  }

  pub answer-eq : (s c : List ℕ) → length s ≤ 8 → answer des s c ≡ some (encrypt des (padded s) c)
  unfolding answer
  answer-eq s c h = rw (answer, auth_key-eq s h, ◌>>=◌) refl

  callback-matched :
      (row : Row) (info : AuthInfo)
      → info.matched ≡ true
      → vnc_auth_callback des row info ≡ some info
  unfolding vnc_auth_callback
  callback-matched row info h =
      ap (λ b. elim b as (λ _. Option AuthInfo) [ true ↦ some info | false ↦ try_row des row info ])
        h

  -- Once a row has matched, the others change nothing.
  authenticate-matched :
      (rows : List Row) (info : AuthInfo)
      → info.matched ≡ true
      → authenticate des rows info ≡ some info
  unfolding authenticate vnc_auth_callback
  authenticate-matched [] info h = refl
  authenticate-matched (row ∷ rows) info h =
      ap (λ o. o >>= authenticate des rows) (callback-matched row info h)
      ∙ authenticate-matched rows info h

  try_row-eq :
      (r : Entry) (c resp : List ℕ)
      → try_row des (row_of r) (new_auth_info c resp)
        ≡ some (if fits c resp r then settled c resp (some r) else new_auth_info c resp)
  unfolding try_row accept
  try_row-eq r c resp = elim (Bool-cases (fits c resp r)) [
    | inl z ↦ rw (try_row, answer-eq r.key c r.short, ◌>>=◌, z) refl
    | inr z ↦ rw (try_row, answer-eq r.key c r.short, ◌>>=◌, z) refl
  ]

  -- On rows whose keys have at most 8 bytes and whose keys and addresses are not NULL, the query
  -- settles on the first row whose padded key encrypts the challenge to the response, with its key,
  -- address and password, and on none where there is no such row.
  pub authenticate_lem :
      (rs : List Entry) (c resp : List ℕ)
      → authenticate des (rows_of rs) (new_auth_info c resp)
        ≡ some (settled c resp (first_fit c resp rs))
  unfolding authenticate vnc_auth_callback
  authenticate_lem [] c resp = refl
  authenticate_lem (r ∷ rs) c resp = elim (Bool-cases (fits c resp r)) [
    | inl z ↦
        rw (authenticate, vnc_auth_callback, try_row-eq r c resp, z, ◌>>=◌)
          (authenticate-matched (rows_of rs) (settled c resp (some r)) refl)
    | inr z ↦
        rw (authenticate, vnc_auth_callback, try_row-eq r c resp, z, ◌>>=◌)
          (authenticate_lem rs c resp)
  ]

  -- Where the response is the proxy's own answer to the challenge for the key of the first row, the
  -- query settles on that row; the keys have at most 8 bytes, and keys and addresses are not NULL.
  pub authenticate-answer :
      (r : Entry) (rs : List Entry) (c resp : List ℕ)
      → answer des r.key c ≡ some resp
      → authenticate des (rows_of (r ∷ rs)) (new_auth_info c resp) ≡ some (settled c resp (some r))
  authenticate-answer r rs c resp h =
      let same : resp ≡ encrypt des (padded r.key) c =
        some-injective _ _ (sym h ∙ answer-eq r.key c r.short) in
      let match : fits c resp r ≡ true =
        ap (λ zs. same_bytes resp zs) (sym same) ∙ same_bytes_refl resp in
      authenticate_lem (r ∷ rs) c resp
      ∙ ap (λ b. some (settled c resp (if b then some r else first_fit c resp rs))) match

  -- A key of more than 8 bytes goes past auth_key.
  callback-long :
      (key : List ℕ) (addr passwd : Option (List ℕ)) (c resp : List ℕ)
      → 8 < length key
      → vnc_auth_callback des
          (record { key = some key; addr = addr; passwd = passwd })
          (new_auth_info c resp)
        ≡ none
  unfolding vnc_auth_callback try_row answer auth_key
  callback-long key addr passwd c resp h =
      let long : leb (length key) 8 ≡ false = ground arith in
      rw (vnc_auth_callback, try_row, answer, auth_key, long, ◌>>=◌) refl

  authenticate-append :
      (rows more : List Row) (info : AuthInfo)
      → authenticate des (rows ++ more) info
        ≡ (authenticate des rows info >>= authenticate des more)
  unfolding authenticate
  authenticate-append [] more info = refl
  authenticate-append (row ∷ rows) more info =
      elim (Option-cases (vnc_auth_callback des row info)) [
        | inl z ↦ rw (authenticate, z, ◌>>=◌) refl
        | inr (info', z) ↦ rw (authenticate, z, ◌>>=◌) (authenticate-append rows more info')
      ]

  -- On a table in which rows with keys of at most 8 bytes, with no key and no address NULL, come
  -- before a row whose key is longer, the query settles on the first of the rows before that fits
  -- the response, with its key, address and password, whatever comes after; where none of them
  -- fits, the callback writes past auth_key at the long key.
  pub authenticate-long :
      (rs : List Entry) (key : List ℕ) (addr passwd : Option (List ℕ)) (more : List Row)
      (c resp : List ℕ)
      → 8 < length key
      → authenticate des
          (rows_of rs ++ record { key = some key; addr = addr; passwd = passwd } ∷ more)
          (new_auth_info c resp)
        ≡ elim (first_fit c resp rs) [ none ↦ none | some r ↦ some (settled c resp (some r)) ]
  unfolding authenticate
  authenticate-long rs key addr passwd more c resp h =
      let row : Row = record { key = some key; addr = addr; passwd = passwd } in
      let first = authenticate-append (rows_of rs) (row ∷ more) (new_auth_info c resp) in
      elim (Option-cases (first_fit c resp rs)) [
        | inl z ↦
            rw
              (
                first,
                authenticate_lem rs c resp,
                z,
                ◌>>=◌,
                authenticate,
                callback-long key addr passwd c resp h,
              )
              refl
        | inr (r, z) ↦
            rw (first, authenticate_lem rs c resp, z, ◌>>=◌)
              (authenticate-matched (row ∷ more) (settled c resp (some r)) refl)
      ]
