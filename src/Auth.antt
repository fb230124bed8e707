-- ===== src/Auth.antt =====
-- The authentication of vncproxy.cc: `vnc_auth_callback`, which sqlite3_exec calls for each row of
-- the table, and the response that `VncOperator::run` computes for the remote server. DES is a
-- parameter: `des key block` is what `rfbDes` gives after `rfbDesKey(key, EN0)`.
pub mod Match
mod Tests
use vncproxy.Prelude.{
  ℕ, ◌-◌, ◌==◌, ◌≡◌, ◌≤◌, Bool, true, false, Option, none, some, List, [], ◌∷◌, ◌++◌, length, take,
  drop, replicate, leb, require, ◌>>=◌, ◌>>◌, ◌&&◌, if◌then◌else◌,
}

-- A row of `select forward_key, dest_addr, dest_passwd`. `none` is NULL.
pub record Row : Type 0 where
  pub key : Option (List ℕ)
  pub addr : Option (List ℕ)
  pub passwd : Option (List ℕ)

-- `struct vnc_auth_info`
pub record AuthInfo : Type 0 where
  pub challenge : List ℕ
  pub response : List ℕ
  pub matched : Bool
  pub forward_key : List ℕ
  pub dest_addr : List ℕ
  pub has_dest_passwd : Bool
  pub dest_passwd : List ℕ

-- `vnc_auth_info(chal, resp)`
abbrev pub new_auth_info : List ℕ → List ℕ → AuthInfo
new_auth_info chal resp = record {
  challenge = chal;
  response = resp;
  matched = false;
  forward_key = [];
  dest_addr = [];
  has_dest_passwd = false;
  dest_passwd = [];
}

-- `memcmp(xs, ys, 16) == 0` on whole buffers
unfoldable pub same_bytes : List ℕ → List ℕ → Bool
same_bytes [] [] = true
same_bytes (x ∷ xs) (y ∷ ys) = (x == y) && same_bytes xs ys
same_bytes [] (y ∷ ys) = false
same_bytes (x ∷ xs) [] = false

-- `memset(auth_key, 0, 8); memcpy(auth_key, s, length)`: behind the 8 bytes nothing is defined.
unfoldable pub auth_key : List ℕ → Option (List ℕ)
auth_key s = do require (leb (length s) 8); some (s ++ replicate (8 - length s) 0)

module _ (des : List ℕ → List ℕ → List ℕ) where
  -- `for (int i = 0; i < 16; i += 8) rfbDes(challenge + i, response + i);`
  unfoldable pub encrypt : List ℕ → List ℕ → List ℕ
  encrypt key challenge = des key (take 8 challenge) ++ des key (drop 8 challenge)

  -- What the proxy answers to the challenge of the remote server.
  unfoldable pub answer : List ℕ → List ℕ → Option (List ℕ)
  answer dest_passwd challenge = do key ← auth_key dest_passwd; some (encrypt key challenge)

  -- `values[0]` and `values[1]` are dereferenced: NULL stops the process.
  unfoldable pub accept : Row → List ℕ → AuthInfo → Option AuthInfo
  accept row key info = do
    addr ← row.addr
    some (record info {
      matched = true;
      forward_key = key;
      dest_addr = addr;
      has_dest_passwd = elim row.passwd [ none ↦ false | some p ↦ true ];
      dest_passwd = elim row.passwd [ none ↦ info.dest_passwd | some p ↦ p ];
    })

  unfoldable pub try_row : Row → AuthInfo → Option AuthInfo
  try_row row info = do
    key ← row.key
    expected ← answer key info.challenge
    if same_bytes info.response expected then accept row key info else some info

  unfoldable pub vnc_auth_callback : Row → AuthInfo → Option AuthInfo
  vnc_auth_callback row info = elim info.matched [ true ↦ some info | false ↦ try_row row info ]

  -- The callback never stops the query: `sqlite3_exec` calls it for every row.
  unfoldable pub authenticate : List Row → AuthInfo → Option AuthInfo
  authenticate [] info = some info
  authenticate (row ∷ rows) info = do info' ← vnc_auth_callback row info; authenticate rows info'
