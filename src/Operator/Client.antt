-- ===== src/Operator/Client.antt =====
-- `VncOperator::run` up to the row of the database: the dialogue with the client.
use vncproxy.Prelude.{ℕ, zero, suc, ◌%◌, Bool, true, false, List, [], ◌∷◌, take, copy_at}
use vncproxy.Auth.{Row, AuthInfo, new_auth_info, same_bytes, authenticate}
use vncproxy.System.{System, Act, ◌>>=◌, ◌>>◌, pure, defined, do_send, do_rand, do_query}
use vncproxy.Operator.Messages.{version, c_string, quit, agree, send_or, recv_or}

module _ (des : List ℕ → List ℕ → List ℕ) (sys : System) (clnt : ℕ) where
  -- `buf[12] = '\0'; strcmp(buf, "RFB 003.008\n") != 0`
  unfoldable pub client_version : List ℕ → Act (List ℕ)
  client_version buf = do
    send_or sys (clnt ∷ []) clnt version
    buf' ← recv_or sys (clnt ∷ []) clnt 12 buf
    agree (clnt ∷ []) (same_bytes (c_string (copy_at buf' 12 (0 ∷ []))) version)
    pure (copy_at buf' 12 (0 ∷ []))

  -- `buf[0] = 1; buf[1] = 2;`: the security type that the client answers is not looked at.
  unfoldable pub client_security : List ℕ → Act (List ℕ)
  client_security buf = do
    send_or sys (clnt ∷ []) clnt (take 2 (copy_at buf 0 (1 ∷ 2 ∷ [])))
    recv_or sys (clnt ∷ []) clnt 1 (copy_at buf 0 (1 ∷ 2 ∷ []))

  -- `challenge[i] = rand() & 0xFF;`
  unfoldable pub random_bytes : ℕ → Act (List ℕ)
  random_bytes zero = pure []
  random_bytes (suc n) = do r ← do_rand sys; rs ← random_bytes n; pure ((r % 256) ∷ rs)

  -- The challenge that is sent, and `response` after the answer to it.
  unfoldable pub client_challenge : List ℕ → Act (List ℕ × List ℕ)
  client_challenge response = do
    challenge ← random_bytes 16
    send_or sys (clnt ∷ []) clnt challenge
    response' ← recv_or sys (clnt ∷ []) clnt 16 response
    pure (challenge, response')

  -- After the query: `r != SQLITE_OK`
  unfoldable pub queried_or : Bool → AuthInfo → Act AuthInfo
  queried_or true info = pure info
  queried_or false info = quit (clnt ∷ [])

  -- The callback takes each row, also where the query fails later.
  unfoldable pub settle : AuthInfo → List Row × Bool → Act AuthInfo
  settle info out = do info' ← defined (authenticate des out.0 info); queried_or out.1 info'

  -- `int32_t fail = 1;`, in the byte order of the machine, and the end
  unfoldable pub refuse : AuthInfo → Bool → Act AuthInfo
  refuse info true = pure info
  refuse info false = do r ← do_send sys clnt (1 ∷ 0 ∷ 0 ∷ 0 ∷ []); quit (clnt ∷ [])

  unfoldable pub find_entry : List ℕ × List ℕ → Act AuthInfo
  find_entry p = do
    rows ← do_query sys
    info ← settle (new_auth_info p.0 p.1) rows
    refuse info info.matched
