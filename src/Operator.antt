-- ===== src/Operator.antt =====
-- `VncOperator::run` of vncproxy.cc: the handshake with the client and the remote server. `buf` and
-- `response` are the arrays of the stack, with what is in them before they are written.
pub mod Messages
pub mod Client
pub mod Remote
pub mod Steps
pub mod Descriptors
pub mod Matched
pub mod Types
pub mod Cooperation
pub mod Success
mod Tests
use vncproxy.Prelude.{ℕ, Bool, false, List}
use vncproxy.Auth.{AuthInfo}
use vncproxy.System.{System, Act, ◌>>=◌, ◌>>◌, pure}
use vncproxy.Sockets.{must_set}
use Client.{client_version, client_security, client_challenge, find_entry}
use Remote.{dial, remote_version, remote_types, remote_auth, establish}

module _ (des : List ℕ → List ℕ → List ℕ) (sys : System) (clnt : ℕ) where
  -- Up to the row: `buf` and what is known of the client.
  unfoldable pub run_client : List ℕ → List ℕ → Act (List ℕ × AuthInfo)
  run_client buf response = do
    must_set sys clnt false
    buf1 ← client_version des sys clnt buf
    buf2 ← client_security des sys clnt buf1
    pair ← client_challenge des sys clnt response
    info ← find_entry des sys clnt pair
    pure (buf2, info)

  -- With the remote server, up to its authentication.
  unfoldable pub run_remote : ℕ → List ℕ → AuthInfo → Act (Unit {0})
  run_remote remote buf info = do
    buf' ← remote_version des sys clnt remote buf
    types ← remote_types des sys clnt remote buf'
    remote_auth des sys clnt remote info types.0 types.1

  unfoldable pub run : List ℕ → List ℕ → Act (Unit {0})
  run buf response = do
    client ← run_client buf response
    remote ← dial des sys clnt client.1.dest_addr
    run_remote remote client.0 client.1
    establish des sys clnt remote client.1.forward_key
