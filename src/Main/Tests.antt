-- ===== src/Main/Tests.antt =====
-- Two clients, and a stop.
use vncproxy.Prelude.{ℕ, ◌≡◌, true, false, some, List, [], ◌∷◌, arith}
use vncproxy.Utils.{new_pool}
use vncproxy.Main.{Turn, Pool, accept_loop, finish}
use vncproxy.Main.Served.{clients, times, total, done_with, served}

abbrev client : ℕ → Turn
client fd = record {
  stop_before = false;
  idle = false;
  stop_after = false;
  accepted = some fd;
  drawn = 3;
}

abbrev turns : List Turn
turns = client 7 ∷ client 8 ∷ record (client 9) { stop_after = true } ∷ client 10 ∷ []

served_example :
    (qs : Pool) × (jss : List (List ℕ)) × (accept_loop turns (new_pool 2) ≡ some qs)
    × (finish qs ≡ done_with jss)
    × ((x : ℕ) → total x jss ≡ times x (clients turns))
served_example = served turns 2 (omega arith)
