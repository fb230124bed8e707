-- ===== src/Operator/Messages.antt =====
-- The messages of `VncOperator::run`, with the way out that each of its failures takes: it closes
-- `fds` and returns.
use vncproxy.Prelude.{
  ℕ, ◌==◌, Bool, true, false, Option, none, some, List, [], ◌∷◌, ◌++◌, length, drop, leb,
  if◌then◌else◌,
}
use vncproxy.System.{System, Act, ◌>>=◌, ◌>>◌, pure, leave, close, defined, do_send, do_recv}

-- "RFB 003.008\n"
abbrev pub version : List ℕ
version = 82 ∷ 70 ∷ 66 ∷ 32 ∷ 48 ∷ 48 ∷ 51 ∷ 46 ∷ 48 ∷ 48 ∷ 56 ∷ 10 ∷ []

-- The characters before the first NUL.
unfoldable pub c_string : List ℕ → List ℕ
c_string [] = []
c_string (c ∷ cs) = let rest = c_string cs in if c == 0 then [] else c ∷ rest

unfoldable pub close_all : List ℕ → Act (Unit {0})
close_all [] = pure tt
close_all (fd ∷ fds) = close fd >> close_all fds

unfoldable pub quit : {A : Type 0} → List ℕ → Act A
quit fds = close_all fds >> leave

unfoldable pub went : List ℕ → Option ℕ → Act (Unit {0})
went fds none = quit fds
went fds (some n) = pure tt

-- `memcpy` of what was received to the front of a buffer: behind the buffer nothing is defined.
unfoldable pub store : List ℕ → List ℕ → Option (List ℕ)
store buf bs = if leb (length bs) (length buf) then some (bs ++ drop (length bs) buf) else none

unfoldable pub arrived : List ℕ → List ℕ → Option (List ℕ) → Act (List ℕ)
arrived fds buf none = quit fds
arrived fds buf (some bs) = defined (store buf bs)

unfoldable pub agree : List ℕ → Bool → Act (Unit {0})
agree fds true = pure tt
agree fds false = quit fds

module _ (sys : System) where
  -- `if (send(fd, bs, ...) < 0) { close ...; return; }`
  unfoldable pub send_or : List ℕ → ℕ → List ℕ → Act (Unit {0})
  send_or fds fd bs = do r ← do_send sys fd bs; went fds r

  -- `if (recv(fd, buf, n, ...) < 0) { close ...; return; }`. A short read leaves the rest of the
  -- buffer as it is.
  unfoldable pub recv_or : List ℕ → ℕ → ℕ → List ℕ → Act (List ℕ)
  recv_or fds fd n buf = do r ← do_recv sys fd n; arrived fds buf r
