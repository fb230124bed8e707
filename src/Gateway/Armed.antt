-- ===== src/Gateway/Armed.antt =====
-- The modes with which a pair of end points is registered, beside their buffers.
use vncproxy.Prelude.{
  ℕ, subst, ◌≡◌, ◌≢◌, ◌⊎◌, inl, inr, refl, sym, ap, ◌∙◌, true, Option, none, some, List, [], ◌∷◌,
  ◌++◌, arith, length, ltb, if◌then◌else◌, append-nil, Option-cases,
}
use mathlib.Core.Option.{some-injective}
use vncproxy.Kernel.{Kernel, Drains}
use vncproxy.Marshal.{Marshal}
use vncproxy.Marshal.Valid.{contents}
use vncproxy.Poller.{Poller, both_modes, read_mode}
use vncproxy.Gateway.{EndPoint, pollable, handle_read, handle_write, ask_to_write}
use vncproxy.Gateway.Forward.{DidRead, DidWrite, handle_read_lem, handle_write_lem}
use vncproxy.Gateway.Flow.{bind-holds}
use vncproxy.Gateway.Relay.{
  World, Event, first_readable, first_writable, second_readable, second_writable, elsewhere, step,
  Allows, Reaches, start, then_step, Relays, Reaches-Relays,
}

nil_or_not : (xs : List ℕ) → (xs ≡ []) ⊎ (ltb 0 (length xs) ≡ true)
nil_or_not [] = inl refl
nil_or_not (x ∷ xs) = inr (ground arith)

module _ (poller : Poller) where
  -- Nothing waits, or the end point is not registered, or it is registered for both modes.
  abbrev pub Armed : EndPoint → poller.State → Type 0
  Armed e p =
      (contents e.buf ≡ [])
      ⊎ (poller.mode p e.address ≡ none)
      ⊎ (poller.mode p e.address ≡ some both_modes)

  module _ (e : EndPoint) (p p' : poller.State) where
    mode_itself :
        (m : ℕ)
        → poller.update_mode (pollable e) m p ≡ some p'
        → (poller.mode p' e.address ≡ none) ⊎ (poller.mode p' e.address ≡ some m)
    mode_itself m q =
        let now = poller.mode-update_mode (pollable e) m p p' q e.address in
        elim (Option-cases (poller.mode p e.address)) [
          | inl z ↦ inl (ground (arith, now, z))
          | inr (old, z) ↦ inr (ground (arith, now, z))
        ]

    -- A new buffer, and the mode that fits it.
    Armed-update :
        (b : Marshal) (m : ℕ)
        → poller.update_mode (pollable e) m p ≡ some p'
        → (contents b ≡ []) ⊎ (m ≡ both_modes)
        → Armed (record e { buf = b }) p'
    Armed-update b m q (inl z) = inl z
    Armed-update b m q (inr z) = elim (mode_itself m q) [
      | inl n ↦ inr (inl n)
      | inr n ↦ inr (inr (n ∙ ap some z))
    ]

    Armed-other :
        (o : EndPoint) (m : ℕ)
        → poller.update_mode (pollable e) m p ≡ some p'
        → e.address ≢ o.address
        → Armed o p
        → Armed o p'
    Armed-other o m q h a =
        let now = poller.mode-update_mode (pollable e) m p p' q o.address in
        let same : poller.mode p' o.address ≡ poller.mode p o.address = ground (arith, now, h) in
        elim a [
          | inl z ↦ inl z
          | inr (inl z) ↦ inr (inl (same ∙ z))
          | inr (inr z) ↦ inr (inr (same ∙ z))
        ]

module _ (k : Kernel) (poller : Poller) where
  module _ (peer : EndPoint) (p p' : poller.State) where
    ask_stays :
        (bs : List ℕ) → bs ≡ [] → ask_to_write k poller (length bs) peer p ≡ some p' → p ≡ p'
    unfolding ask_to_write
    ask_stays [] z q = some-injective p p' q
    ask_stays (x ∷ xs) z q = absurd (ground (arith, z))

    ask_updates :
        (n : ℕ)
        → ltb 0 n ≡ true
        → ask_to_write k poller n peer p ≡ some p'
        → poller.update_mode (pollable peer) both_modes p ≡ some p'
    unfolding ask_to_write
    ask_updates n z q = sym (rw (z, ask_to_write) refl) ∙ q

  -- The peer's buffer grew by `bytes`.
  module _ (self peer : EndPoint) (s : k.State) (p p' : poller.State)
      {out : Option (EndPoint × k.State × poller.State)} (d : DidRead k poller self peer s p out)
      (q : ask_to_write k poller (length d.bytes) peer p ≡ some p') where
    read-Armed : Armed poller peer p → Armed poller (record peer { buf = d.buffer }) p'
    read-Armed a = elim (nil_or_not d.bytes) [
      | inl z ↦
          let same : contents d.buffer ≡ contents peer.buf =
            d.grown ∙ ap (◌++◌ (contents peer.buf)) z ∙ append-nil (contents peer.buf) in
          let stays = ap (λ t. poller.mode t peer.address) (ask_stays peer p p' d.bytes z q) in
          elim a [
            | inl e ↦ inl (same ∙ e)
            | inr (inl e) ↦ inr (inl (sym stays ∙ e))
            | inr (inr e) ↦ inr (inr (sym stays ∙ e))
          ]
      | inr z ↦
          Armed-update poller peer p p' d.buffer both_modes
            (ask_updates peer p p' (length d.bytes) z q) (inr refl)
    ]

    read-Armed-other :
        (o : EndPoint) → peer.address ≢ o.address → Armed poller o p → Armed poller o p'
    read-Armed-other o h a = elim (nil_or_not d.bytes) [
      | inl z ↦ subst (Armed poller o) (ask_stays peer p p' d.bytes z q) a
      | inr z ↦
          Armed-other poller peer p p' o both_modes (ask_updates peer p p' (length d.bytes) z q) h a
    ]

  module _ (self : EndPoint) (s : k.State) (p p' : poller.State)
      {out : Option (EndPoint × k.State × poller.State)} (d : DidWrite k poller self s p out)
      (q : poller.update_mode
          (pollable self)
          (if ltb 0 (length (contents d.buffer)) then both_modes else read_mode)
          p
        ≡ some p') where
    write-Armed : Armed poller (record self { buf = d.buffer }) p'
    write-Armed =
        Armed-update poller self p p' d.buffer _ q
          (elim (nil_or_not (contents d.buffer)) [ inl z ↦ inl z | inr z ↦ inr (rw (z) refl) ])

  Armed-same :
      (e : EndPoint) (p p' : poller.State)
      → poller.mode p' e.address ≡ poller.mode p e.address
      → Armed poller e p
      → Armed poller e p'
  Armed-same e p p' same (inl z) = inl z
  Armed-same e p p' same (inr (inl z)) = inr (inl (same ∙ z))
  Armed-same e p p' same (inr (inr z)) = inr (inr (same ∙ z))

  -- Both end points' registrations fit their buffers.
  pub record ArmedBoth (w : World k poller) : Type 0 where
    pub addresses : w.first.address ≢ w.second.address
    pub first_armed : Armed poller w.first w.poll
    pub second_armed : Armed poller w.second w.poll

  module _ (drains : Drains k) (c1 c2 w1 w2 : List ℕ) (fd1 fd2 : ℕ) where
    -- Every event of a pair in order leaves its registrations fitting.
    pub step-ArmedBoth :
        (e : Event k poller) (w v : World k poller)
        → Allows k poller drains w e
        → Relays k poller c1 c2 w1 w2 fd1 fd2 w
        → ArmedBoth w
        → step k poller e w ≡ some v
        → ArmedBoth v
    unfolding step
    step-ArmedBoth (first_readable fuel) w v a r h e =
        let d =
          handle_read_lem k poller drains fuel w.first w.second w.kernel w.poll r.first_enabled
            r.forth.valid a.0 a.1 in
        bind-holds ArmedBoth _ (λ out. record w { second = out.0; kernel = out.1; poll = out.2 })
          (handle_read k poller fuel w.first w.second w.kernel w.poll) _ d.result
          (λ p q. record {
            addresses = h.addresses;
            first_armed =
                read-Armed-other w.first w.second w.kernel w.poll p d q w.first
                  (λ z. h.addresses (sym z)) h.first_armed;
            second_armed = read-Armed w.first w.second w.kernel w.poll p d q h.second_armed;
          })
          v e
    step-ArmedBoth first_writable w v a r h e =
        let d = handle_write_lem k poller w.first w.kernel w.poll r.first_enabled r.back.valid a in
        bind-holds ArmedBoth _ (λ out. record w { first = out.0; kernel = out.1; poll = out.2 })
          (handle_write k poller w.first w.kernel w.poll) _ d.result
          (λ p q. record {
            addresses = h.addresses;
            first_armed = write-Armed w.first w.kernel w.poll p d q;
            second_armed =
                Armed-other poller w.first w.poll p w.second _ q h.addresses h.second_armed;
          })
          v e
    step-ArmedBoth (second_readable fuel) w v a r h e =
        let d =
          handle_read_lem k poller drains fuel w.second w.first w.kernel w.poll r.second_enabled
            r.back.valid a.0 a.1 in
        bind-holds ArmedBoth _ (λ out. record w { first = out.0; kernel = out.1; poll = out.2 })
          (handle_read k poller fuel w.second w.first w.kernel w.poll) _ d.result
          (λ p q. record {
            addresses = h.addresses;
            first_armed = read-Armed w.second w.first w.kernel w.poll p d q h.first_armed;
            second_armed =
                read-Armed-other w.second w.first w.kernel w.poll p d q w.second h.addresses
                  h.second_armed;
          })
          v e
    step-ArmedBoth second_writable w v a r h e =
        let d =
          handle_write_lem k poller w.second w.kernel w.poll r.second_enabled r.forth.valid a in
        bind-holds ArmedBoth _ (λ out. record w { second = out.0; kernel = out.1; poll = out.2 })
          (handle_write k poller w.second w.kernel w.poll) _ d.result
          (λ p q. record {
            addresses = h.addresses;
            first_armed =
                Armed-other poller w.second w.poll p w.first _ q (λ z. h.addresses (sym z))
                  h.first_armed;
            second_armed = write-Armed w.second w.kernel w.poll p d q;
          })
          v e
    step-ArmedBoth (elsewhere s p) w v a r h e = subst ArmedBoth (some-injective _ v e) (record {
      addresses = h.addresses;
      first_armed = Armed-same w.first w.poll p a.4 h.first_armed;
      second_armed = Armed-same w.second w.poll p a.5 h.second_armed;
    })

    -- From a pair in order whose end points have different addresses and fit their registrations,
    -- wherever a run of events within their bounds leads, each end point whose buffer is not empty
    -- is registered for reading and writing, if it is registered at all.
    pub Reaches-ArmedBoth :
        {w v : World k poller}
        → Relays k poller c1 c2 w1 w2 fd1 fd2 w
        → ArmedBoth w
        → Reaches k poller drains w v
        → ArmedBoth v
    Reaches-ArmedBoth r h start = h
    Reaches-ArmedBoth r h (then_step {u} {v} e before a q) =
        step-ArmedBoth e u v a (Reaches-Relays k poller c1 c2 w1 w2 fd1 fd2 drains r before)
          (Reaches-ArmedBoth r h before) q
