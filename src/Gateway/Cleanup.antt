-- ===== src/Gateway/Cleanup.antt =====
-- `EndPoint::cleanup` and a round of `cleanup_thread` of vncproxy.cc. `mem` has the pair of the leader
-- at each address: it and its peer.
use vncproxy.Prelude.{ℕ, Bool, true, false, Option, none, some, List, [], ◌∷◌, if◌then◌else◌, ◌>>=◌}
use vncproxy.Polling.{Epoll}
use vncproxy.Gateway.{EndPoint}
use vncproxy.Gateway.Shutdown.{Shared, shutdown, outliers, is_valid_key}

-- `valid_forward_keys->insert(values[0])`
unfoldable pub insert_key : List ℕ → List (List ℕ) → List (List ℕ)
insert_key key valid = if is_valid_key key valid then valid else key ∷ valid

-- `collect_forward_key_callback` over the rows: a string of NULL has no meaning.
unfoldable pub collect : List (Option (List ℕ)) → List (List ℕ) → Option (List (List ℕ))
collect [] valid = some valid
collect (none ∷ rows) valid = none
collect (some key ∷ rows) valid = collect rows (insert_key key valid)

module _ (e : Epoll) (mem : ℕ → EndPoint × EndPoint) where
  unfoldable pub shutdown_all : List ℕ → Shared e → Option (Shared e)
  shutdown_all [] sh = some sh
  shutdown_all (a ∷ rest) sh = do sh' ← shutdown e (mem a).0 (mem a).1 sh; shutdown_all rest sh'

  unfoldable pub cleanup : List (List ℕ) → Shared e → Option (Shared e)
  cleanup valid sh = shutdown_all (outliers valid sh.leaders) sh

  -- The rows for which the callback was called, and whether the query went through
  unfoldable pub cleanup_round : List (Option (List ℕ)) × Bool → Shared e → Option (Shared e)
  cleanup_round out sh = do
    valid ← collect out.0 []
    elim out.1 [ true ↦ cleanup valid sh | false ↦ some sh ]

-- What a turn of the loop of `cleanup_thread` finds: `global_stop_flag`, the result of the query,
-- and what the other threads do until the next turn.
pub record Sweep (S : Type 0) : Type 0 where
  pub stop : Bool
  pub rows : List (Option (List ℕ)) × Bool
  pub others : S → Option S

module _ (e : Epoll) (mem : ℕ → EndPoint × EndPoint) where
  -- Where the turns end with no stop, the loop still runs.
  unfoldable pub cleanup_thread : List (Sweep (Shared e)) → Shared e → Option (Shared e)
  cleanup_thread [] sh = some sh
  cleanup_thread (sweep ∷ sweeps) sh = elim sweep.stop [
    | true ↦ some sh
    | false ↦ do
      sh' ← cleanup_round e mem sweep.rows sh
      sh'' ← sweep.others sh'
      cleanup_thread sweeps sh''
  ]
