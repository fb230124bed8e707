-- ===== src/Gateway/Dispatch.antt =====
-- What `poll_loop` of polling.cc calls for the events of a pair of end points of vncproxy.cc.
use vncproxy.Prelude.{
  ℕ, ◌≢◌, ◌⊎◌, List, [], ◌∷◌, ◌==◌, ◌≡◌, true, false, Option, none, some, if◌then◌else◌,
}
use vncproxy.Kernel.{Kernel}
use vncproxy.Poller.{Poller, both_modes}
use vncproxy.Polling.Loop.{Ready, Handlers}
use vncproxy.Gateway.{EndPoint}
use vncproxy.Gateway.Relay.{
  World, first_readable, first_writable, second_readable, second_writable, step,
}

module _ (k : Kernel) (poller : Poller) where
  -- The object at the address: another one is not of this pair, which has no result then.
  unfoldable pub choose :
      ℕ
      → World k poller
      → Option (World k poller)
      → Option (World k poller)
      → Option (World k poller)
  choose a w first second =
      if a == w.first.address then first else if a == w.second.address then second else none

  -- The guard of `handle_error`. Past it the pair is shut down (module Gateway/Shutdown) and is
  -- outside of this state: it has no result here.
  unfoldable pub end_pair : EndPoint → World k poller → Option (World k poller)
  end_pair self w = elim self.enabled [ false ↦ some w | true ↦ none ]

  -- `fuel` is how many rounds the loop of a read is given.
  unfoldable pub pair_handlers : ℕ → Handlers (World k poller)
  pair_handlers fuel = record {
    handle_read = λ a w.
        choose a w (step k poller (first_readable fuel) w) (step k poller (second_readable fuel) w);
    handle_write =
        λ a w. choose a w (step k poller first_writable w) (step k poller second_writable w);
    handle_error = λ a w. choose a w (end_pair w.first w) (end_pair w.second w);
  }

module _ (a1 a2 : ℕ) where
  -- An event that `poll_loop` gives to one of the two objects, with no error on its descriptor
  pub record Fits (ev : Ready) : Type 0 where
    pub not_null : ev.ptr ≢ 0
    pub of_pair : (ev.ptr ≡ a1) ⊎ (ev.ptr ≡ a2)
    pub unbroken : ev.broken ≡ false

  abbrev pub AllFit : List Ready → Type 0
  AllFit [] = Unit
  AllFit (ev ∷ evs) = Fits ev × AllFit evs

-- Each `update_mode` of the end point at the address succeeds.
abbrev pub Takes : Poller → ℕ → ℕ → Type 0
Takes poller a fd =
    (m : ℕ) (p : poller.State)
    → (p' : poller.State) × (poller.update_mode
          (record { address = a; fd = fd; poll_mode = both_modes }) m p
        ≡ some p')
