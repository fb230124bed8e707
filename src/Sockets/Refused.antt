-- ===== src/Sockets/Refused.antt =====
-- No address takes: `connect_to` and `bind_on` where every call of `connect` or `bind` fails.
use vncproxy.Prelude.{ℕ, ◌≡◌, refl, ap, ◌∙◌, false, Option, none, some, List, [], ◌∷◌}
use vncproxy.System.{System, History, done, fault, Act, looked_up}
use vncproxy.System.Rules.{Goes, Goes-done}
use vncproxy.Sockets.{
  split_colon, keep_or, try_connect, connect_first, connect_any, connect_parts, connect_to,
  try_bind, bind_first, bind_any, bind_parts, bind_on, serve, passive_host,
}

-- Without a socket.
abbrev NoSocket : Option ℕ → History → Type 0
NoSocket r h = r ≡ none

module _ (sys : System) where
  module _ (refuses : (h : History) (fd addr : ℕ) → sys.connect h fd addr ≡ false) where
    try_connect-NoSocket :
        (addr : ℕ) (r : Option ℕ) (next : Act (Option ℕ)) (h : History)
        → ((g : History) → Goes NoSocket (next g))
        → Goes NoSocket (try_connect sys addr r next h)
    unfolding try_connect keep_or
    try_connect-NoSocket addr none next h k = k h
    try_connect-NoSocket addr (some fd) next h k = rw (try_connect, refuses, keep_or) (k _)

    connect_first-NoSocket :
        (addrs : List ℕ) (h : History) → Goes NoSocket (connect_first sys addrs h)
    unfolding connect_first
    connect_first-NoSocket [] h = refl
    connect_first-NoSocket (addr ∷ addrs) h =
        try_connect-NoSocket addr _ (connect_first sys addrs) _ (connect_first-NoSocket addrs)

    connect_any-NoSocket : (r : Option (List ℕ)) (h : History) → Goes NoSocket (connect_any sys r h)
    unfolding connect_any
    connect_any-NoSocket none h = refl
    connect_any-NoSocket (some addrs) h = connect_first-NoSocket addrs h

    connect_parts-NoSocket :
        (p : Option (List ℕ × List ℕ)) (h : History) → Goes NoSocket (connect_parts sys p h)
    unfolding connect_parts
    connect_parts-NoSocket none h = refl
    connect_parts-NoSocket (some p) h = connect_any-NoSocket _ _

    -- Where every connect fails, connect_to returns -1, whatever the address and the other calls.
    pub connect_to-refused :
        (addr : List ℕ) (h : History) → (g : History) × (connect_to sys addr h ≡ done none g)
    unfolding connect_to
    connect_to-refused addr h =
        let d = Goes-done NoSocket _ (connect_parts-NoSocket (split_colon addr) h) in
        (d.1, d.2 ∙ ap (λ r. done r d.1) d.3)

  module _ (refuses : (h : History) (fd addr : ℕ) → sys.bind h fd addr ≡ false) where
    try_bind-NoSocket :
        (addr : ℕ) (r : Option ℕ) (next : Act (Option ℕ)) (h : History)
        → ((g : History) → Goes NoSocket (next g))
        → Goes NoSocket (try_bind sys addr r next h)
    unfolding try_bind keep_or
    try_bind-NoSocket addr none next h k = k h
    try_bind-NoSocket addr (some fd) next h k = rw (try_bind, refuses, keep_or) (k _)

    bind_first-NoSocket : (addrs : List ℕ) (h : History) → Goes NoSocket (bind_first sys addrs h)
    unfolding bind_first
    bind_first-NoSocket [] h = refl
    bind_first-NoSocket (addr ∷ addrs) h =
        try_bind-NoSocket addr _ (bind_first sys addrs) _ (bind_first-NoSocket addrs)

    -- Where every bind fails, the address has a colon and its lookup succeeds, bind_on stops the
    -- process: it does not return -1.
    pub bind_on-refused :
        (addr host port addrs : List ℕ) (h : History)
        → split_colon addr ≡ some (host, port)
        → sys.lookup h (passive_host sys host) port ≡ some addrs
        → bind_on sys addr h ≡ fault
    unfolding bind_on bind_parts bind_any serve
    bind_on-refused addr host port addrs h s l =
        let d =
          Goes-done NoSocket _
            (bind_first-NoSocket addrs (looked_up (passive_host sys host) port (some addrs) ∷ h)) in
        rw (bind_on, s, bind_parts, l, bind_any, d.2, d.3, serve) refl
