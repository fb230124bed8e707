-- ===== src/Sockets/Descriptors.antt =====
-- What `connect_to` and `bind_on` hold when they end.
use vncproxy.Prelude.{ℕ, ◌≡◌, ap, ◌∙◌, Bool, true, false, Option, none, some, List, [], ◌∷◌}
use vncproxy.System.{
  System, History, Act, verify, ◌>>◌, pure, looked_up, bound, listened, socket_opened, connected,
  closed,
}
use vncproxy.System.Rules.{Holds, bind-Holds}
use vncproxy.System.Held.{held, give_up_from, give_up_first, acquire}
use vncproxy.Sockets.{
  keep_or, try_connect, try_bind, connect_any, connect_parts, bind_any, bind_parts, passive_host,
  split_colon, connect_first, connect_to, bind_first, serve, bind_on,
}

-- A result in hand: the descriptor is held besides `fds`, or nothing is.
abbrev pub Obtained : List ℕ → List ℕ → Option ℕ → History → Type 0
Obtained first fds none h = held first h ≡ some fds
Obtained first fds (some fd) h = held first h ≡ some (fd ∷ fds)

module _ (sys : System) (first fds : List ℕ) where
  closed-held :
      (fd : ℕ) (h : History)
      → held first h ≡ some (fd ∷ fds)
      → held first (closed fd ∷ h) ≡ some fds
  unfolding held give_up_from
  closed-held fd h e = ap (give_up_from fd) e ∙ give_up_first fd fds

  keep_or-Obtained :
      (ok : Bool) (fd : ℕ) (next : Act (Option ℕ)) (h : History)
      → held first h ≡ some (fd ∷ fds)
      → ((g : History) → held first g ≡ some fds → Holds (Obtained first fds) (λ _. ⊥) (next g))
      → Holds (Obtained first fds) (λ _. ⊥) (keep_or ok fd next h)
  unfolding keep_or
  keep_or-Obtained true fd next h e k = e
  keep_or-Obtained false fd next h e k = k (closed fd ∷ h) (closed-held fd h e)

  module _ (next : Act (Option ℕ))
      (k : (g : History)
        → held first g ≡ some fds
        → Holds (Obtained first fds) (λ _. ⊥) (next g)) where
    try_connect-Obtained :
        (addr : ℕ) (r : Option ℕ) (h : History)
        → held first h ≡ some fds
        → Holds
            (Obtained first fds)
            (λ _. ⊥)
            (try_connect sys addr r next (socket_opened addr r ∷ h))
    unfolding try_connect held
    try_connect-Obtained addr none h e = k (socket_opened addr none ∷ h) e
    try_connect-Obtained addr (some fd) h e =
        keep_or-Obtained _ fd next (connected fd addr _ ∷ socket_opened addr (some fd) ∷ h)
          (ap (acquire (some fd)) e) k

    try_bind-Obtained :
        (addr : ℕ) (r : Option ℕ) (h : History)
        → held first h ≡ some fds
        → Holds (Obtained first fds) (λ _. ⊥) (try_bind sys addr r next (socket_opened addr r ∷ h))
    unfolding try_bind held
    try_bind-Obtained addr none h e = k (socket_opened addr none ∷ h) e
    try_bind-Obtained addr (some fd) h e =
        keep_or-Obtained _ fd next (bound fd addr _ ∷ socket_opened addr (some fd) ∷ h)
          (ap (acquire (some fd)) e) k

  connect_first-Obtained :
      (addrs : List ℕ) (h : History)
      → held first h ≡ some fds
      → Holds (Obtained first fds) (λ _. ⊥) (connect_first sys addrs h)
  unfolding connect_first
  connect_first-Obtained [] h e = e
  connect_first-Obtained (addr ∷ addrs) h e =
      try_connect-Obtained (connect_first sys addrs) (connect_first-Obtained addrs) addr _ h e

  bind_first-Obtained :
      (addrs : List ℕ) (h : History)
      → held first h ≡ some fds
      → Holds (Obtained first fds) (λ _. ⊥) (bind_first sys addrs h)
  unfolding bind_first
  bind_first-Obtained [] h e = e
  bind_first-Obtained (addr ∷ addrs) h e =
      try_bind-Obtained (bind_first sys addrs) (bind_first-Obtained addrs) addr _ h e

  connect_any-Obtained :
      (r : Option (List ℕ)) (h : History)
      → held first h ≡ some fds
      → Holds (Obtained first fds) (λ _. ⊥) (connect_any sys r h)
  unfolding connect_any
  connect_any-Obtained none h e = e
  connect_any-Obtained (some addrs) h e = connect_first-Obtained addrs h e

  connect_parts-Obtained :
      (p : Option (List ℕ × List ℕ)) (h : History)
      → held first h ≡ some fds
      → Holds (Obtained first fds) (λ _. ⊥) (connect_parts sys p h)
  unfolding connect_parts held
  connect_parts-Obtained none h e = e
  connect_parts-Obtained (some p) h e = connect_any-Obtained _ (looked_up (some p.0) p.1 _ ∷ h) e

  -- From what was held before, whatever the system answers, connect_to returns either a descriptor
  -- that is held besides, or -1 with nothing held besides: each other socket that it opened is
  -- closed once. It does not stop the process.
  pub connect_to-Obtained :
      (addr : List ℕ) (h : History)
      → held first h ≡ some fds
      → Holds (Obtained first fds) (λ _. ⊥) (connect_to sys addr h)
  unfolding connect_to
  connect_to-Obtained addr h e = connect_parts-Obtained (split_colon addr) h e

  serve-Obtained :
      (r : Option ℕ) (h : History)
      → Obtained first fds r h
      → Holds (Obtained first fds) (λ _. ⊥) (serve sys r h)
  unfolding serve held
  serve-Obtained none h e = tt
  serve-Obtained (some fd) h e = go (sys.listen h fd)
    where
      go :
          (ok : Bool)
          → Holds (Obtained first fds) (λ _. ⊥) ((verify ok >> pure (some fd)) (listened fd ok ∷ h))
      go true = e
      go false = tt

  bind_any-Obtained :
      (r : Option (List ℕ)) (h : History)
      → held first h ≡ some fds
      → Holds (Obtained first fds) (λ _. ⊥) (bind_any sys r h)
  unfolding bind_any
  bind_any-Obtained none h e = e
  bind_any-Obtained (some addrs) h e =
      bind-Holds (Obtained first fds) (Obtained first fds) (λ _. ⊥) (bind_first sys addrs h)
        (serve sys) (bind_first-Obtained addrs h e) serve-Obtained

  bind_parts-Obtained :
      (p : Option (List ℕ × List ℕ)) (h : History)
      → held first h ≡ some fds
      → Holds (Obtained first fds) (λ _. ⊥) (bind_parts sys p h)
  unfolding bind_parts held
  bind_parts-Obtained none h e = e
  bind_parts-Obtained (some p) h e =
      bind_any-Obtained _ (looked_up (passive_host sys p.0) p.1 _ ∷ h) e

  -- From what was held before, whatever the system answers, bind_on stops the process or returns
  -- either a descriptor that is held besides, or -1 with nothing held besides: each other socket
  -- that it opened is closed once.
  pub bind_on-Obtained :
      (addr : List ℕ) (h : History)
      → held first h ≡ some fds
      → Holds (Obtained first fds) (λ _. ⊥) (bind_on sys addr h)
  unfolding bind_on
  bind_on-Obtained addr h e = bind_parts-Obtained (split_colon addr) h e
