-- ===== src/Operator/Remote.antt =====
-- `VncOperator::run` from the row of the database on: the dialogue with the remote server.
use vncproxy.Prelude.{
  ℕ, zero, suc, ◌-◌, ◌^◌, ◌==◌, ◌||◌, Bool, true, false, Option, none, some, List, [], ◌∷◌, take,
  ltb, if◌then◌else◌,
}
use vncproxy.Auth.{AuthInfo, same_bytes, answer}
use vncproxy.System.{System, Act, ◌>>=◌, ◌>>◌, pure, hand_over, defined}
use vncproxy.Sockets.{connect_to, must_set}
use vncproxy.Operator.Messages.{version, quit, agree, send_or, recv_or}

abbrev pub first_byte : List ℕ → ℕ
first_byte [] = 0
first_byte (b ∷ bs) = b

-- `int auth_types = buf[0];` of a signed char: its bound in the loop, where a negative one runs no
-- round, and the `size_t` that it becomes in the call of `recv`
unfoldable pub loop_bound : ℕ → ℕ
loop_bound b = if ltb b 128 then b else 0

unfoldable pub recv_size : ℕ → ℕ
recv_size b = if ltb b 128 then b else 2 ^ 64 - (256 - b)

-- `buf[i] == 1` and `buf[i] == 2` for each of `n` places: behind the buffer nothing is defined.
unfoldable pub scan_types : ℕ → List ℕ → Option (Bool × Bool)
scan_types zero bs = some (false, false)
scan_types (suc n) [] = none
scan_types (suc n) (b ∷ bs) = elim (scan_types n bs) [
  | none ↦ none
  | some p ↦ some ((b == 1) || p.0, (b == 2) || p.1)
]

module _ (des : List ℕ → List ℕ → List ℕ) (sys : System) (clnt : ℕ) where
  unfoldable pub reached : Option ℕ → Act ℕ
  reached none = quit (clnt ∷ [])
  reached (some fd) = pure fd

  unfoldable pub dial : List ℕ → Act ℕ
  dial addr = do r ← connect_to sys addr; reached r

  module _ (remote : ℕ) where
    abbrev pub ends : List ℕ
    ends = remote ∷ clnt ∷ []

    unfoldable pub remote_version : List ℕ → Act (List ℕ)
    remote_version buf = do
      buf' ← recv_or sys ends remote 12 buf
      agree ends (same_bytes (take 12 buf') version)
      send_or sys ends remote version
      recv_or sys ends remote 1 buf'

    unfoldable pub remote_types : List ℕ → Act (Bool × Bool)
    remote_types buf = do
      buf' ← recv_or sys ends remote (recv_size (first_byte buf)) buf
      defined (scan_types (loop_bound (first_byte buf)) buf')

    -- The VNC authentication at the remote server.
    unfoldable pub remote_answer : AuthInfo → Act (Unit {0})
    remote_answer info = do
      send_or sys ends remote (2 ∷ [])
      challenge ← recv_or sys ends remote 16 info.challenge
      response ← defined (answer des info.dest_passwd challenge)
      send_or sys ends remote response

    unfoldable pub remote_vnc : AuthInfo → Bool → Bool → Act (Unit {0})
    remote_vnc info true true = remote_answer info
    remote_vnc info true false = quit ends
    remote_vnc info false has = quit ends

    -- `support_none_auth`, `support_vnc_auth && auth_info.has_dest_passwd`, or neither
    unfoldable pub remote_auth : AuthInfo → Bool → Bool → Act (Unit {0})
    remote_auth info true vnc = send_or sys ends remote (1 ∷ [])
    remote_auth info false vnc = remote_vnc info vnc info.has_dest_passwd

    -- `tie_fd(auth_info.forward_key, poll_, clnt_, remote_fd);`
    unfoldable pub establish : List ℕ → Act (Unit {0})
    establish key = do must_set sys clnt true; must_set sys remote true; hand_over key clnt remote
