-- ===== src/Gateway.antt =====
-- Class EndPoint of vncproxy.cc: two tied sockets, each with the buffer of what is to be written
-- to it, and the poller that they register with.
pub mod Forward
pub mod Flow
pub mod Relay
pub mod Dispatch
pub mod Edges
pub mod Lost
pub mod Batches
pub mod Batched
pub mod Armed
pub mod Tied
pub mod Shutdown
pub mod Twice
pub mod Once
pub mod Cleanup
pub mod Outliers
pub mod Expired
pub mod Round
pub mod Sweeps
pub mod Watched
pub mod Sending
mod Tests
mod TwiceTests
mod ExpiredTests
mod WatchedTests
mod LostTests
mod BatchTests
use vncproxy.Prelude.{
  ℕ, ◌==◌, ◌≡◌, ◌&&◌, Bool, true, false, Option, none, some, List, [], ◌∷◌, ◌++◌, if◌then◌else◌,
  ◌>>=◌, ltb, map,
}
use vncproxy.Kernel.{Kernel}
use vncproxy.Marshal.{Marshal, content_size_gt}
use vncproxy.Marshal.Io.{read_from_fd, write_to_fd}
use vncproxy.Poller.{Poller, Pollable, read_mode, both_modes}
use vncproxy.Marshal

-- `peer_` is the other end point of the pair, and `poll_` the one PollMgr.
pub record EndPoint : Type 0 where
  pub address : ℕ
  pub fd : ℕ
  pub forward_key : List ℕ
  pub leader : Bool
  pub buf : Marshal
  pub enabled : Bool

-- `poll_mode()` asks for both.
abbrev pub pollable : EndPoint → Pollable
pollable e = record { address = e.address; fd = e.fd; poll_mode = both_modes }

-- `new EndPoint(poll, fd)`, at `address`
unfoldable pub new_end_point : ℕ → ℕ → EndPoint
new_end_point address fd = record {
  address = address;
  fd = fd;
  forward_key = [];
  leader = false;
  buf = Marshal.empty;
  enabled = false;
}

unfoldable pub ready : EndPoint → EndPoint
ready e = record e { enabled = true }

-- `all_tie_leaders`: the leaders' keys and addresses, in the order of the keys.
abbrev pub Leaders : Type 0
Leaders = List (List ℕ × ℕ)

-- `<` of std::string
unfoldable pub less_key : List ℕ → List ℕ → Bool
less_key xs [] = false
less_key [] (y ∷ ys) = true
less_key (x ∷ xs) (y ∷ ys) = let rest = less_key xs ys in if ltb x y then true else (x == y) && rest

-- `insert` of std::multimap: behind what is there with the same key
unfoldable pub insert_leader : List ℕ → ℕ → Leaders → Leaders
insert_leader key a [] = (key, a) ∷ []
insert_leader key a ((k, b) ∷ ls) =
    let rest = insert_leader key a ls in
    if less_key key k then (key, a) ∷ (k, b) ∷ ls else (k, b) ∷ rest

-- `self->tie(o, forward_key)`: each becomes the other's peer, which makes them the end points of
-- one pair.
unfoldable pub tie : EndPoint → List ℕ → Leaders → EndPoint × Leaders
tie self forward_key leaders = (
  record self { forward_key = forward_key; leader = true },
  insert_leader forward_key self.address leaders,
)

module _ (k : Kernel) (poller : Poller) where
  open poller use {update_mode, add}

  -- `tie_fd`: `new` gives the end points the addresses `a1` and `a2`.
  unfoldable pub tie_fd :
      List ℕ
      → ℕ
      → ℕ
      → ℕ
      → ℕ
      → Leaders
      → poller.State
      → Option (EndPoint × EndPoint × Leaders × poller.State)
  tie_fd forward_key a1 fd1 a2 fd2 leaders p = do
    let tied = tie (new_end_point a1 fd1) forward_key leaders
    p' ← add (pollable tied.0) p
    p'' ← add (pollable (new_end_point a2 fd2)) p'
    some (ready tied.0, ready (new_end_point a2 fd2), tied.1, p'')

  -- `if (cnt > 0) { poll_->update_mode(peer_, READ | WRITE); }`
  unfoldable pub ask_to_write : ℕ → EndPoint → poller.State → Option poller.State
  ask_to_write cnt peer p = elim (ltb 0 cnt) [
    | true ↦ update_mode (pollable peer) both_modes p
    | false ↦ some p
  ]

  -- What `handle_read` leaves of the peer.
  unfoldable pub handle_read :
      ℕ → EndPoint → EndPoint → k.State → poller.State → Option (EndPoint × k.State × poller.State)
  handle_read fuel self peer s p = elim self.enabled [
    | false ↦ some (peer, s, p)
    | true ↦ do
      out ← read_from_fd k fuel self.fd peer.buf s
      p' ← ask_to_write out.0 peer p
      some (record peer { buf = out.1 }, out.2, p')
  ]

  -- What `handle_write` leaves of the end point.
  unfoldable pub handle_write :
      EndPoint → k.State → poller.State → Option (EndPoint × k.State × poller.State)
  handle_write self s p = elim self.enabled [
    | false ↦ some (self, s, p)
    | true ↦ do
      out ← write_to_fd k self.fd self.buf s
      more ← content_size_gt 0 out.1
      p' ← update_mode (pollable self) (if more then both_modes else read_mode) p
      some (record self { buf = out.1 }, out.2, p')
  ]
