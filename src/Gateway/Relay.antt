-- ===== src/Gateway/Relay.antt =====
-- A tied pair of end points under the events that the poller and the other threads bring.
use vncproxy.Prelude.{
  ℕ, ◌≡◌, ◌≢◌, ◌<◌, sym, subst, true, Option, some, List, take, ◌++◌, arith, length, int_limit,
  ◌>>=◌,
}
use vncproxy.Kernel.{Kernel, Drains}
use vncproxy.Marshal.{Marshal}
use vncproxy.Marshal.Valid.{IsMarshal, contents}
use vncproxy.Poller.{Poller}
use vncproxy.Gateway.{EndPoint, handle_read, handle_write}
use vncproxy.Gateway.Forward.{handle_read_lem, handle_write_lem}
use vncproxy.Marshal.Reading.{Shortened}
use vncproxy.Marshal.FdReads.{Received}
use vncproxy.Marshal.FdWrites.{Sent}
use vncproxy.Gateway.Flow.{
  Flow, Flow-read, Flow-write, Flow-same, Flow-back-read, Flow-back-write, bind-holds,
}

module _ (k : Kernel) (poller : Poller) where
  -- The two end points, and the states that they share with the rest of the process.
  pub record World : Type 0 where
    pub first : EndPoint
    pub second : EndPoint
    pub kernel : k.State
    pub poll : poller.State

  -- A `…_readable` event has the number of rounds of its loop. `elsewhere` is whatever the rest of
  -- the process and the peers do.
  pub data Event : Type 0 where
    first_readable : ℕ → Event
    first_writable : Event
    second_readable : ℕ → Event
    second_writable : Event
    elsewhere : k.State → poller.State → Event

  unfoldable pub step : Event → World → Option World
  step (first_readable fuel) w = do
    out ← handle_read k poller fuel w.first w.second w.kernel w.poll
    some (record w { second = out.0; kernel = out.1; poll = out.2 })
  step first_writable w = do
    out ← handle_write k poller w.first w.kernel w.poll
    some (record w { first = out.0; kernel = out.1; poll = out.2 })
  step (second_readable fuel) w = do
    out ← handle_read k poller fuel w.second w.first w.kernel w.poll
    some (record w { first = out.0; kernel = out.1; poll = out.2 })
  step second_writable w = do
    out ← handle_write k poller w.second w.kernel w.poll
    some (record w { second = out.0; kernel = out.1; poll = out.2 })
  step (elsewhere s p) w = some (record w { kernel = s; poll = p })

  module _ (drains : Drains k) where
    -- The bounds of the handlers, and that nothing else uses the pair's descriptors or
    -- registrations.
    abbrev pub Allows : World → Event → Type 0
    Allows w (first_readable fuel) =
        (drains.pending w.kernel w.first.fd < int_limit)
        × (drains.pending w.kernel w.first.fd < fuel)
    Allows w first_writable = length (contents w.first.buf) < int_limit
    Allows w (second_readable fuel) =
        (drains.pending w.kernel w.second.fd < int_limit)
        × (drains.pending w.kernel w.second.fd < fuel)
    Allows w second_writable = length (contents w.second.buf) < int_limit
    Allows w (elsewhere s p) =
        (k.received s w.first.fd ≡ k.received w.kernel w.first.fd)
        × (k.sent s w.first.fd ≡ k.sent w.kernel w.first.fd)
        × (k.received s w.second.fd ≡ k.received w.kernel w.second.fd)
        × (k.sent s w.second.fd ≡ k.sent w.kernel w.second.fd)
        × (poller.mode p w.first.address ≡ poller.mode w.poll w.first.address)
        × (poller.mode p w.second.address ≡ poller.mode w.poll w.second.address)

    pub data Reaches (w : World) : World → Type 0 where
      start : Reaches w w
      then_step :
          {u v : World} (e : Event) → Reaches w u → Allows u e → step e u ≡ some v → Reaches w v
      -- Both directions of the pair are in order: the descriptors are apart, and what came from each

  -- went to the other or waits in the buffer.
  module _ (came_first came_second went_first went_second : List ℕ) (fd_first fd_second : ℕ) where
    pub record Relays (w : World) : Type 0 where
      pub first_fd : w.first.fd ≡ fd_first
      pub second_fd : w.second.fd ≡ fd_second
      pub apart : w.first.fd ≢ w.second.fd
      pub first_enabled : w.first.enabled ≡ true
      pub second_enabled : w.second.enabled ≡ true
      pub forth : Flow k came_first went_second w.first.fd w.second.fd w.second.buf w.kernel
      pub back : Flow k came_second went_first w.second.fd w.first.fd w.first.buf w.kernel

    module _ (w : World) (r : Relays w) (b : Marshal) (s : k.State) (p : poller.State) where
      first_read :
          (bs : List ℕ)
          → IsMarshal b
          → contents b ≡ contents w.second.buf ++ bs
          → Received k w.first.fd bs w.kernel s
          → Relays (record w { second = record w.second { buf = b }; kernel = s; poll = p })
      first_read bs v g c = record {
        first_fd = r.first_fd;
        second_fd = r.second_fd;
        apart = r.apart;
        first_enabled = r.first_enabled;
        second_enabled = r.second_enabled;
        forth = Flow-read k r.forth bs b s c v g;
        back = Flow-back-read k r.back bs s r.apart c;
      }

      second_read :
          (bs : List ℕ)
          → IsMarshal b
          → contents b ≡ contents w.first.buf ++ bs
          → Received k w.second.fd bs w.kernel s
          → Relays (record w { first = record w.first { buf = b }; kernel = s; poll = p })
      second_read bs v g c = record {
        first_fd = r.first_fd;
        second_fd = r.second_fd;
        apart = r.apart;
        first_enabled = r.first_enabled;
        second_enabled = r.second_enabled;
        forth = Flow-back-read k r.forth bs s (λ e. r.apart (sym e)) c;
        back = Flow-read k r.back bs b s c v g;
      }

      first_write :
          (n : ℕ)
          → Shortened n w.first.buf b
          → Sent k w.first.fd (take n (contents w.first.buf)) w.kernel s
          → Relays (record w { first = record w.first { buf = b }; kernel = s; poll = p })
      first_write n sh c = record {
        first_fd = r.first_fd;
        second_fd = r.second_fd;
        apart = r.apart;
        first_enabled = r.first_enabled;
        second_enabled = r.second_enabled;
        forth = Flow-back-write k r.forth (take n (contents w.first.buf)) s r.apart c;
        back = Flow-write k r.back n b s c sh;
      }

      second_write :
          (n : ℕ)
          → Shortened n w.second.buf b
          → Sent k w.second.fd (take n (contents w.second.buf)) w.kernel s
          → Relays (record w { second = record w.second { buf = b }; kernel = s; poll = p })
      second_write n sh c = record {
        first_fd = r.first_fd;
        second_fd = r.second_fd;
        apart = r.apart;
        first_enabled = r.first_enabled;
        second_enabled = r.second_enabled;
        forth = Flow-write k r.forth n b s c sh;
        back = Flow-back-write k r.back (take n (contents w.second.buf)) s (λ e. r.apart (sym e)) c;
      }

    elsewhere_before :
        (w : World) (r : Relays w) (s : k.State) (p : poller.State)
        → (k.received s w.first.fd ≡ k.received w.kernel w.first.fd)
          × (k.sent s w.first.fd ≡ k.sent w.kernel w.first.fd)
          × (k.received s w.second.fd ≡ k.received w.kernel w.second.fd)
          × (k.sent s w.second.fd ≡ k.sent w.kernel w.second.fd)
        → Relays (record w { kernel = s; poll = p })
    elsewhere_before w r s p (rf, sf, rs, ss) = record {
      first_fd = r.first_fd;
      second_fd = r.second_fd;
      apart = r.apart;
      first_enabled = r.first_enabled;
      second_enabled = r.second_enabled;
      forth = Flow-same k r.forth s rf ss;
      back = Flow-same k r.back s rs sf;
    }

    module _ (drains : Drains k) where
      -- Every event leaves both directions in order.
      pub step-Relays :
          (e : Event) (w v : World) → Allows drains w e → Relays w → step e w ≡ some v → Relays v
      unfolding step
      step-Relays (first_readable fuel) w v a r e =
          let d =
            handle_read_lem k poller drains fuel w.first w.second w.kernel w.poll r.first_enabled
              r.forth.valid a.0 a.1 in
          bind-holds Relays _ (λ out. record w { second = out.0; kernel = out.1; poll = out.2 })
            (handle_read k poller fuel w.first w.second w.kernel w.poll) _ d.result
            (λ p q. first_read w r d.buffer d.state p d.bytes d.valid d.grown d.receiving) v e
      step-Relays first_writable w v a r e =
          let d =
            handle_write_lem k poller w.first w.kernel w.poll r.first_enabled r.back.valid a in
          bind-holds Relays _ (λ out. record w { first = out.0; kernel = out.1; poll = out.2 })
            (handle_write k poller w.first w.kernel w.poll) _ d.result
            (λ p q. first_write w r d.buffer d.state p d.count d.shortened d.sending) v e
      step-Relays (second_readable fuel) w v a r e =
          let d =
            handle_read_lem k poller drains fuel w.second w.first w.kernel w.poll r.second_enabled
              r.back.valid a.0 a.1 in
          bind-holds Relays _ (λ out. record w { first = out.0; kernel = out.1; poll = out.2 })
            (handle_read k poller fuel w.second w.first w.kernel w.poll) _ d.result
            (λ p q. second_read w r d.buffer d.state p d.bytes d.valid d.grown d.receiving) v e
      step-Relays second_writable w v a r e =
          let d =
            handle_write_lem k poller w.second w.kernel w.poll r.second_enabled r.forth.valid a in
          bind-holds Relays _ (λ out. record w { second = out.0; kernel = out.1; poll = out.2 })
            (handle_write k poller w.second w.kernel w.poll) _ d.result
            (λ p q. second_write w r d.buffer d.state p d.count d.shortened d.sending) v e
      step-Relays (elsewhere s p) w v a r e =
          subst Relays (ground (arith, e)) (elsewhere_before w r s p (a.0, a.1, a.2, a.3))

      -- Wherever a run of events leads, both directions are in order.
      pub Reaches-Relays : {w v : World} → Relays w → Reaches drains w v → Relays v
      Reaches-Relays r start = r
      Reaches-Relays r (then_step {u} {v} e before a q) =
          step-Relays e u v a (Reaches-Relays r before) q
