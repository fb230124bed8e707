-- ===== src/Sockets/Taken.antt =====
-- `bind_on` of vncproxy.cc where the system has a socket for each address and only some can be bound.
use vncproxy.Prelude.{
  ℕ, ◌≡◌, refl, true, false, Bool, Option, none, some, List, [], ◌∷◌, if◌then◌else◌, Bool-cases,
  inl, inr, arith,
}
use vncproxy.System.{System, History, done, bound, listened, looked_up, socket_opened, closed}
use vncproxy.Sockets.{
  split_colon, keep_or, try_bind, bind_first, bind_any, bind_parts, bind_on, serve, passive_host,
}

-- The first address that takes a bind.
unfoldable pub first_taking : (ℕ → Bool) → List ℕ → Option ℕ
first_taking takes [] = none
first_taking takes (addr ∷ addrs) = if takes addr then some addr else first_taking takes addrs

-- Each address has a socket, `takes` says which can be bound, and what is bound can be listened on.
pub record Binds (takes : ℕ → Bool) (sys : System) : Type 0 where
  pub sockets : (h : History) (addr : ℕ) → (fd : ℕ) × (sys.socket h addr ≡ some fd)
  pub binds : (h : History) (fd addr : ℕ) → sys.bind h fd addr ≡ takes addr
  pub listens : (h : History) (fd : ℕ) → sys.listen h fd ≡ true

module _ (sys : System) (takes : ℕ → Bool) (b : Binds takes sys) where
  bind_first-taking :
      (addrs : List ℕ) (h : History) (a : ℕ)
      → first_taking takes addrs ≡ some a
      → (fd : ℕ) × (g : History) × (bind_first sys addrs h ≡ done (some fd) (bound fd a true ∷ g))
  unfolding first_taking bind_first try_bind keep_or
  bind_first-taking [] h a t = absurd (ground (arith, t))
  bind_first-taking (addr ∷ addrs) h a t =
      let (fd, s) = b.sockets h addr in
      let opened = socket_opened addr (some fd) ∷ h in
      elim (Bool-cases (takes addr)) [
        | inl z ↦
            let same : addr ≡ a = ground (arith, t, z) in
            (fd, opened, rw (bind_first, s, try_bind, b.binds, z, keep_or, same) refl)
        | inr z ↦
            let (fd', g, run) =
              bind_first-taking addrs (closed fd ∷ bound fd addr false ∷ opened) a
                (ground (arith, t, z)) in
            (fd', g, rw (bind_first, s, try_bind, b.binds, z, keep_or) run)
      ]

  -- It listens on the first address of the lookup that takes a bind.
  pub bind_on-taking :
      (addr host port addrs : List ℕ) (a : ℕ) (h : History)
      → split_colon addr ≡ some (host, port)
      → sys.lookup h (passive_host sys host) port ≡ some addrs
      → first_taking takes addrs ≡ some a
      → (sock : ℕ) × (g : History) × (bind_on sys addr h
          ≡ done (some sock) (listened sock true ∷ bound sock a true ∷ g))
  unfolding bind_on bind_parts bind_any serve
  bind_on-taking addr host port addrs a h s l t =
      let (fd, g, run) =
        bind_first-taking addrs (looked_up (passive_host sys host) port (some addrs) ∷ h) a t in
      (fd, g, rw (bind_on, s, bind_parts, l, bind_any, run, serve, b.listens) refl)
