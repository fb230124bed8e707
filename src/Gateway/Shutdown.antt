-- ===== src/Gateway/Shutdown.antt =====
-- `EndPoint::shutdown`, `handle_error` and `cleanup`, with the poll thread, the reference counts and
-- the leaders that they change.
use vncproxy.Prelude.{
  ℕ, ◌==◌, Bool, true, false, Option, some, List, [], ◌∷◌, if◌then◌else◌, ◌>>=◌, ◌>>◌, require, ltb,
  ◌&&◌,
}
use vncproxy.Polling
use vncproxy.Polling.{Epoll, PollThread, Counts, release}
use vncproxy.Gateway.{EndPoint, Leaders, pollable}

-- Keys are compared byte by byte.
unfoldable pub same_key : List ℕ → List ℕ → Bool
same_key [] [] = true
same_key (x ∷ xs) (y ∷ ys) = (x == y) && same_key xs ys
same_key [] (y ∷ ys) = false
same_key (x ∷ xs) [] = false

-- `all_tie_leaders.erase(it)` of the first entry with this key and this end point
unfoldable pub erase_leader : List ℕ → ℕ → Leaders → Leaders
erase_leader key a [] = []
erase_leader key a ((k, b) ∷ ls) =
    let rest = erase_leader key a ls in if same_key key k && (a == b) then ls else (k, b) ∷ rest

-- `valid_forward_keys.find(key) != end()`
unfoldable pub is_valid_key : List ℕ → List (List ℕ) → Bool
is_valid_key key [] = false
is_valid_key key (k ∷ ks) = if same_key key k then true else is_valid_key key ks

-- `cleanup`: the leaders that it shuts down
unfoldable pub outliers : List (List ℕ) → Leaders → List ℕ
outliers valid [] = []
outliers valid ((k, a) ∷ ls) =
    let rest = outliers valid ls in if is_valid_key k valid then rest else a ∷ rest

module _ (e : Epoll) where
  -- `closed` has every descriptor on which `close` was called, the last first.
  pub record Shared : Type 0 where
    pub thread : PollThread e
    pub counts : Counts
    pub leaders : Leaders
    pub closed : List ℕ

  -- A use of an object that is deleted has no meaning.
  unfoldable pub alive : EndPoint → Shared → Option (Unit {0})
  alive self sh = require (ltb 0 (sh.counts self.address))

  -- `close(fd_); poll_->remove(this);`
  unfoldable pub leave : EndPoint → Shared → Option Shared
  leave self sh = do
    alive self sh
    t ← Polling.remove e (pollable self) sh.thread
    some (record sh { thread = t; closed = self.fd ∷ sh.closed })

  -- `this->release();`
  unfoldable pub let_go : EndPoint → Shared → Option Shared
  let_go self sh = do counts ← release self.address sh.counts; some (record sh { counts = counts })

  -- `shutdown` of the end point that is no leader
  unfoldable pub shutdown_peer : EndPoint → Shared → Option Shared
  shutdown_peer self sh = do sh' ← leave self sh; let_go self sh'

  -- `shutdown` of the leader: it reads `peer_->fd_` for the log after the peer's `shutdown`.
  unfoldable pub shutdown : EndPoint → EndPoint → Shared → Option Shared
  shutdown self peer sh = do
    left ← leave self sh
    down ← shutdown_peer peer left
    alive peer down
    let_go self (record down { leaders = erase_leader self.forward_key self.address down.leaders })

  -- `peer` is `peer_`: of the two, exactly one is the leader.
  unfoldable pub handle_error : EndPoint → EndPoint → Shared → Option Shared
  handle_error self peer sh = elim self.enabled [
    | false ↦ some sh
    | true ↦ elim self.leader [ true ↦ shutdown self peer sh | false ↦ shutdown peer self sh ]
  ]
