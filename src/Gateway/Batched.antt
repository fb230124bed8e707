-- ===== src/Gateway/Batched.antt =====
-- Batches of events of a pair of vncproxy.cc that `poll_loop` of polling.cc handles to their end.
use vncproxy.Prelude.{ℕ, ◌≡◌, Option, some, List}
use vncproxy.Kernel.{Kernel, Drains}
use vncproxy.Poller.{Poller}
use vncproxy.Gateway.Relay.{World, Relays}
use vncproxy.Gateway.Dispatch.{Takes}

module _ (k : Kernel) (poller : Poller) (drains : Drains k) (fuel : ℕ) (c1 c2 w1 w2 : List ℕ)
    (fd1 fd2 a1 a2 : ℕ) (takes_first : Takes poller a1 fd1)
    (takes_second : Takes poller a2 fd2) where
  -- The pair with its two addresses, in order.
  record Paired (w : World k poller) : Type 0 where
    first_at : w.first.address ≡ a1
    second_at : w.second.address ≡ a2
    relays : Relays k poller c1 c2 w1 w2 fd1 fd2 w

  Ran : Option (World k poller) → Type 0
  Ran out = (v : World k poller) × (out ≡ some v) × Paired v
