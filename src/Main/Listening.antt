-- ===== src/Main/Listening.antt =====
-- `main` of vncproxy.cc comes to serve on an address that can be bound.
use vncproxy.Prelude.{ℕ, ◌≡◌, Bool, true, false, some, List, ◌∷◌}
use vncproxy.System.{System, History, done, bound, listened, get_flags, set_flags}
use vncproxy.System.Held.{held}
use vncproxy.Sockets.{split_colon, passive_host, with_nonblock}
use vncproxy.Sockets.Taken.{Binds, first_taking, bind_on-taking}
use vncproxy.Main.Startup.{serving, asks_help, db_name, start}
use vncproxy.Main.Started.{start-serves}

-- The calls, the last first, that leave the socket bound to the address, listening and without
-- blocking
abbrev pub Listens : ℕ → ℕ → History → Type 0
Listens sock a end =
    (flags : ℕ) × (g : History) × (end
      ≡ set_flags sock (with_nonblock true flags) true
        ∷ get_flags sock (some flags)
        ∷ listened sock true
        ∷ bound sock a true
        ∷ g)

module _ (sys : System) (opens : List ℕ → Bool) (created : Bool) (first fds : List ℕ)
    (takes : ℕ → Bool) (b : Binds takes sys)
    (has_flags : (h : History) (fd : ℕ) → (flags : ℕ) × (sys.flags h fd ≡ some flags))
    (sets_flags : (h : History) (fd flags : ℕ) → sys.takes_flags h fd flags ≡ true) where
  -- Where there is an address with a colon and no argument asks for help, the database opens and
  -- has its table, the lookup gives addresses, each has a socket, some of them and no others take a
  -- bind, and listen and fcntl succeed, main comes to serve with the database of its arguments, and
  -- the socket is the only descriptor more: it is bound to the first address that takes, listening,
  -- and was made non-blocking last.
  pub start-Listens :
      (bind_addr host port addrs : List ℕ) (more : List (List ℕ)) (a : ℕ) (h : History)
      → asks_help (bind_addr ∷ more) ≡ false
      → opens (db_name more) ≡ true
      → created ≡ true
      → split_colon bind_addr ≡ some (host, port)
      → sys.lookup h (passive_host sys host) port ≡ some addrs
      → first_taking takes addrs ≡ some a
      → held first h ≡ some fds
      → (sock : ℕ) × (end : History) × (start sys opens created (bind_addr ∷ more) h
          ≡ done (serving (db_name more) sock) end)
        × (held first end ≡ some (sock ∷ fds))
        × Listens sock a end
  start-Listens bind_addr host port addrs more a h quiet z y s l t e =
      let (sock, g, binds) = bind_on-taking sys takes b bind_addr host port addrs a h s l t in
      let calls = listened sock true ∷ bound sock a true ∷ g in
      let (flags, f) = has_flags calls sock in
      let (end, run, r, shape) =
        start-serves sys opens created first fds bind_addr more h calls sock flags quiet z y binds f
          (sets_flags (get_flags sock (some flags) ∷ calls) sock (with_nonblock true flags)) e in
      (sock, end, run, r.holds, (flags, g, shape))
