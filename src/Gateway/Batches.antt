-- ===== src/Gateway/Batches.antt =====
-- The events of an epoll_wait that `poll_loop` of polling.cc hands to a pair of end points of
-- vncproxy.cc.
use vncproxy.Prelude.{
  ℕ, ◌==◌, ◌≡◌, ◌<◌, refl, sym, subst, ◌∙◌, Bool, true, false, Option, some, List, [], ◌∷◌, ◌>>=◌,
  arith, Bool-cases, Option-cases, inl, inr, length, int_limit,
}
use vncproxy.Kernel.{Kernel, Drains}
use vncproxy.Poller.{Poller}
use vncproxy.Marshal.Valid.{contents}
use vncproxy.Polling.Loop.{Ready, Handlers, call_if, handle_event, handle_events}
use vncproxy.Gateway.{EndPoint}
use vncproxy.Gateway.Relay.{
  World, Event, Reaches, Allows, then_step, step, first_readable, first_writable, second_readable,
  second_writable,
}
use vncproxy.Gateway.Dispatch.{choose, end_pair, pair_handlers}

module _ (k : Kernel) (poller : Poller) (drains : Drains k) (fuel : ℕ) where
  -- What both end points have to read and to write is within the bounds of their handlers.
  pub record Bounds (w : World k poller) : Type 0 where
    pub read_first :
        (drains.pending w.kernel w.first.fd < int_limit)
        × (drains.pending w.kernel w.first.fd < fuel)
    pub read_second :
        (drains.pending w.kernel w.second.fd < int_limit)
        × (drains.pending w.kernel w.second.fd < fuel)
    pub write_first : length (contents w.first.buf) < int_limit
    pub write_second : length (contents w.second.buf) < int_limit

  -- The handlers of the pair
  abbrev pub on : Handlers (World k poller)
  on = pair_handlers k poller fuel

  -- The bounds hold wherever a handler of the events starts.
  abbrev pub Within : List Ready → World k poller → Type 0
  Within [] w = Unit
  Within (ev ∷ evs) w =
      Bounds w
      × ((u : World k poller) → call_if ev.readable (on.handle_read ev.ptr) w ≡ some u → Bounds u)
      × ((u : World k poller) → handle_event on ev w ≡ some u → Within evs u)

  module _ (origin : World k poller) where
    -- The run goes on to every result.
    abbrev To : Option (World k poller) → Type 0
    To out = (v : World k poller) → out ≡ some v → Reaches k poller drains origin v

    choose-To :
        (a : ℕ) (w : World k poller) (x y : Option (World k poller))
        → To x
        → To y
        → To (choose k poller a w x y)
    unfolding choose
    choose-To a w x y p q v h = elim (Bool-cases (a == w.first.address)) [
      | inl z ↦ p v (sym (rw (choose, z) refl) ∙ h)
      | inr z ↦ elim (Bool-cases (a == w.second.address)) [
        | inl e ↦ q v (sym (rw (choose, z, e) refl) ∙ h)
        | inr e ↦ absurd (ground (arith, h, z, e))
      ]
    ]

    module _ (w : World k poller) (run : Reaches k poller drains origin w) where
      step-To : (e : Event k poller) → Allows k poller drains w e → To (step k poller e w)
      step-To e a v h = then_step e run a h

      read-To : Bounds w → (a : ℕ) → To (on.handle_read a w)
      unfolding pair_handlers
      read-To b a =
          choose-To a w _ _ (step-To (first_readable fuel) b.read_first)
            (step-To (second_readable fuel) b.read_second)

      write-To : Bounds w → (a : ℕ) → To (on.handle_write a w)
      unfolding pair_handlers
      write-To b a =
          choose-To a w _ _ (step-To first_writable b.write_first)
            (step-To second_writable b.write_second)

      end-To : (self : EndPoint) → To (end_pair k poller self w)
      unfolding end_pair
      end-To self v h = elim (Bool-cases self.enabled) [
        | inl z ↦ absurd (ground (arith, h, z))
        | inr z ↦
            let same : some w ≡ some v = sym (rw (end_pair, z) refl) ∙ h in
            subst (Reaches k poller drains origin) (ground (arith, same)) run
      ]

      error-To : (a : ℕ) → To (on.handle_error a w)
      unfolding pair_handlers
      error-To a = choose-To a w _ _ (end-To w.first) (end-To w.second)

      call_if-To :
          (b : Bool) (f : World k poller → Option (World k poller)) → To (f w) → To (call_if b f w)
      unfolding call_if
      call_if-To true f t v h = t v h
      call_if-To false f t v h = subst (Reaches k poller drains origin) (ground (arith, h)) run

    -- The handlers that an event calls, in their order.
    handle_event-To :
        (ev : Ready) (w : World k poller)
        → Reaches k poller drains origin w
        → Bounds w
        → ((u : World k poller) → call_if ev.readable (on.handle_read ev.ptr) w ≡ some u → Bounds u)
        → To (handle_event on ev w)
    unfolding handle_event
    handle_event-To ev w run b next v h = elim (Bool-cases (ev.ptr == 0)) [
      | inl z ↦ absurd (ground (arith, h, z))
      | inr z ↦ elim (Option-cases (call_if ev.readable (on.handle_read ev.ptr) w)) [
        | inl e ↦ absurd (ground (arith, h, z, e))
        | inr (u, e) ↦ elim (Option-cases (call_if ev.writable (on.handle_write ev.ptr) u)) [
          | inl e' ↦ absurd (ground (arith, h, z, e, e'))
          | inr (t, e') ↦
              let reading =
                call_if-To w run ev.readable (on.handle_read ev.ptr) (read-To w run b ev.ptr) u e in
              let writing =
                call_if-To u reading ev.writable (on.handle_write ev.ptr)
                  (write-To u reading (next u e) ev.ptr) t e' in
              call_if-To t writing ev.broken (on.handle_error ev.ptr) (error-To t writing ev.ptr) v
                (sym (rw (handle_event, z, e, e', ◌>>=◌) refl) ∙ h)
        ]
      ]
    ]

    handle_events-To :
        (evs : List Ready) (w : World k poller)
        → Reaches k poller drains origin w
        → Within evs w
        → To (handle_events on evs w)
    unfolding handle_events
    handle_events-To [] w run b v h = subst (Reaches k poller drains origin) (ground (arith, h)) run
    handle_events-To (ev ∷ evs) w run (b, next, rest) v h =
        elim (Option-cases (handle_event on ev w)) [
          | inl e ↦ absurd (ground (arith, h, e))
          | inr (u, e) ↦
              handle_events-To evs u (handle_event-To ev w run b next u e) (rest u e) v
                (sym (rw (handle_events, e, ◌>>=◌) refl) ∙ h)
        ]

  -- What the loop hands to the pair within the bounds is a run of its steps.
  pub handle_events-Reaches :
      (evs : List Ready) (origin w v : World k poller)
      → Reaches k poller drains origin w
      → Within evs w
      → handle_events on evs w ≡ some v
      → Reaches k poller drains origin v
  handle_events-Reaches evs origin w v run b h = handle_events-To origin evs w run b v h
