-- ===== src/Main.antt =====
-- The loop of `main` of vncproxy.cc that takes clients, and the pool that it gives them to.
pub mod Served
pub mod Startup
pub mod Started
pub mod Listening
mod Tests
mod StartTests
use vncproxy.Prelude.{ℕ, Bool, true, false, Option, none, some, List, [], ◌∷◌, ◌>>=◌}
use vncproxy.Utils.{run_async, close_pool, run_thread}

-- What a round of the loop finds: `global_stop_flag` at its start and after `select`, whether the
-- result of `select` is 0, the descriptor that `accept` gives (`none` is -1), and the random number
-- that `run_async` draws.
pub record Turn : Type 0 where
  pub stop_before : Bool
  pub idle : Bool
  pub stop_after : Bool
  pub accepted : Option ℕ
  pub drawn : ℕ

-- The queues of the pool. A job is the VncOperator of a client, by its descriptor.
abbrev pub Pool : Type 0
Pool = List (List (Option ℕ))

-- `if (clnt_socket >= 0) thpool->run_async(new VncOperator(poll, clnt_socket));`
unfoldable pub take_client : ℕ → Option ℕ → Pool → Option Pool
take_client r none qs = some qs
take_client r (some clnt) qs = run_async r clnt qs

-- Where the turns end with no stop, the loop still runs.
unfoldable pub accept_loop : List Turn → Pool → Option Pool
accept_loop [] qs = some qs
accept_loop (turn ∷ turns) qs = elim turn.stop_before [
  | true ↦ some qs
  | false ↦ elim turn.idle [
    | true ↦ accept_loop turns qs
    | false ↦ elim turn.stop_after [
      | true ↦ some qs
      | false ↦ do qs' ← take_client turn.drawn turn.accepted qs; accept_loop turns qs'
    ]
  ]
]

-- The jobs that the threads of the pool run, and what is left in the queues. Each queue has one
-- thread, so when it pops does not matter to what it runs.
unfoldable pub run_pool : Pool → List (List ℕ × Option (List (Option ℕ)))
run_pool [] = []
run_pool (q ∷ qs) = run_thread q ∷ run_pool qs

-- `delete thpool;` after the loop
unfoldable pub finish : Pool → List (List ℕ × Option (List (Option ℕ)))
finish qs = run_pool (close_pool qs)
