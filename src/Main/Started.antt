-- ===== src/Main/Started.antt =====
-- How the start of `main` of vncproxy.cc ends.
use vncproxy.Prelude.{
  ℕ, ◌≡◌, refl, subst, Bool, true, false, Option, none, some, List, [], ◌∷◌, arith, ◌⊎◌, Bool-cases,
  inl, inr,
}
use vncproxy.System.{System, History, Act, done, verify, bind_outcome, set_flags, get_flags}
use vncproxy.System.Rules.{Holds, bind-Holds}
use vncproxy.System.Held.{held}
use vncproxy.Sockets.{must_set, bind_on, set_nonblocking, change_flags, with_nonblock, is_nonblock}
use vncproxy.Sockets.Descriptors.{Obtained, bind_on-Obtained}
use vncproxy.Main.Startup.{
  Start, exited, serving, asks_help, db_name, serve_on, open_db, start_with, start,
}

with_nonblock-sets : (flags : ℕ) → is_nonblock (with_nonblock true flags) ≡ true
unfolding with_nonblock
with_nonblock-sets flags = ground arith

-- The last call made the socket non-blocking.
abbrev pub MadeNonblocking : ℕ → History → Type 0
MadeNonblocking sock [] = ⊥
MadeNonblocking sock (last ∷ h) =
    (flags : ℕ) × (last ≡ set_flags sock flags true) × (is_nonblock flags ≡ true)

verify-Holds :
    {A : Type 0} (P : A → History → Type 0) (b : Bool) (f : Act A) (h : History)
    → (b ≡ true → Holds P (λ _. ⊥) (f h))
    → Holds P (λ _. ⊥) (bind_outcome (verify b h) (λ _. f))
verify-Holds P true f h k = k refl
verify-Holds P false f h k = tt

module _ (sys : System) (opens : List ℕ → Bool) (created : Bool) (first fds : List ℕ) where
  -- The socket is the only descriptor more, and it does not block.
  record Serves (sock : ℕ) (h : History) : Type 0 where
    holds : held first h ≡ some (sock ∷ fds)
    nonblocking : MadeNonblocking sock h

  -- With the arguments behind the program's name: the status of `exit`, which leaves no descriptor
  -- behind, or what the server goes on with.
  pub record Runs (args : List (List ℕ)) (db : List ℕ) (sock : ℕ) (h : History) : Type 0 where
    pub holds : held first h ≡ some (sock ∷ fds)
    pub nonblocking : MadeNonblocking sock h
    pub no_help : asks_help args ≡ false
    pub bind_addr : List ℕ
    pub more : List (List ℕ)
    pub split : args ≡ bind_addr ∷ more
    pub of_args : db ≡ db_name more
    pub opened : opens db ≡ true
    pub has_table : created ≡ true

  abbrev pub Started : List (List ℕ) → Start → History → Type 0
  Started args (exited status) h =
      (held first h ≡ some fds)
      × (((asks_help args ≡ true) × (status ≡ 0)) ⊎ ((asks_help args ≡ false) × (status ≡ 1)))
  Started args (serving db sock) h = Runs args db sock h

  verified-Serves :
      (sock flags : ℕ) (r : Bool) (h : History)
      → held first h ≡ some (sock ∷ fds)
      → is_nonblock flags ≡ true
      → Holds (λ _. Serves sock) (λ _. ⊥) (verify r (set_flags sock flags r ∷ h))
  unfolding held
  verified-Serves sock flags true h e f = record { holds = e; nonblocking = (flags, refl, f) }
  verified-Serves sock flags false h e f = tt

  must_set-Serves :
      (sock : ℕ) (h : History)
      → held first h ≡ some (sock ∷ fds)
      → Holds (λ _. Serves sock) (λ _. ⊥) (must_set sys sock true h)
  unfolding must_set set_nonblocking change_flags held
  must_set-Serves sock h e =
      elim (sys.flags h sock)
        as (λ r.
          Holds (λ _. Serves sock) (λ _. ⊥)
            (bind_outcome
              (bind_outcome (done r (get_flags sock r ∷ h)) (change_flags sys sock true)) verify)) [
                | none ↦ tt
                | some flags ↦
                    verified-Serves sock (with_nonblock true flags) _
                      (get_flags sock (some flags) ∷ h) e (with_nonblock-sets flags)
              ]

  module _ (bind_addr : List ℕ) (more : List (List ℕ))
      (quiet : asks_help (bind_addr ∷ more) ≡ false) where
    abbrev args : List (List ℕ)
    args = bind_addr ∷ more

    bound :
        opens (db_name more) ≡ true
        → created ≡ true
        → (r : Option ℕ) (g : History) → Obtained first fds r g
        → Holds (Started args) (λ _. ⊥) (serve_on sys opens created (db_name more) r g)
    unfolding serve_on
    bound z y none g o = (o, inr (quiet, refl))
    bound z y (some sock) g o =
        bind-Holds (λ _. Serves sock) (Started args) (λ _. ⊥) (must_set sys sock true g)
          (λ _ k. done (serving (db_name more) sock) k) (must_set-Serves sock g o)
          (λ _ k v. record {
            holds = v.holds;
            nonblocking = v.nonblocking;
            no_help = quiet;
            bind_addr = bind_addr;
            more = more;
            split = refl;
            of_args = refl;
            opened = z;
            has_table = y;
          })

    open_db-Started :
        (h : History)
        → held first h ≡ some fds
        → Holds
            (Started args)
            (λ _. ⊥)
            (open_db sys opens created (db_name more) bind_addr (opens (db_name more)) h)
    unfolding open_db
    open_db-Started h e = elim (Bool-cases (opens (db_name more))) [
      | inr z ↦ rw (open_db, z) (e, inr (quiet, refl))
      | inl z ↦
          rw (open_db, z)
            (verify-Holds (Started args) created
              (λ g.
                bind_outcome (bind_on sys bind_addr g) (serve_on sys opens created (db_name more)))
              h
              (λ y.
                bind-Holds (Obtained first fds) (Started args) (λ _. ⊥) (bind_on sys bind_addr h)
                  (serve_on sys opens created (db_name more))
                  (bind_on-Obtained sys first fds bind_addr h e) (bound z y)))
    ]

  -- However the start of main ends but in a stop of the process: it exits with 0 where an argument
  -- asks for help, and with 1 elsewhere, and then holds no descriptor more than at its start; or it
  -- serves, with the database of its arguments, which opened and has its table, and holds one
  -- socket more, which the last call made non-blocking.
  pub start-Started :
      (args : List (List ℕ)) (h : History)
      → held first h ≡ some fds
      → Holds (Started args) (λ _. ⊥) (start sys opens created args h)
  unfolding start start_with asks_help
  start-Started [] h e = (e, inr (refl, refl))
  start-Started (bind_addr ∷ more) h e = elim (Bool-cases (asks_help (bind_addr ∷ more))) [
    | inl z ↦ rw (start, z) (e, inl (z, refl))
    | inr z ↦ rw (start, z, start_with) (open_db-Started bind_addr more z h e)
  ]

  -- Every call of the start succeeds.
  pub start-serves :
      (bind_addr : List ℕ) (more : List (List ℕ)) (h g : History) (sock flags : ℕ)
      → asks_help (bind_addr ∷ more) ≡ false
      → opens (db_name more) ≡ true
      → created ≡ true
      → bind_on sys bind_addr h ≡ done (some sock) g
      → sys.flags g sock ≡ some flags
      → sys.takes_flags (get_flags sock (some flags) ∷ g) sock (with_nonblock true flags) ≡ true
      → held first h ≡ some fds
      → (end : History) × (start sys opens created (bind_addr ∷ more) h
          ≡ done (serving (db_name more) sock) end)
        × Runs (bind_addr ∷ more) (db_name more) sock end
        × (end ≡ set_flags sock (with_nonblock true flags) true ∷ get_flags sock (some flags) ∷ g)
  unfolding start start_with open_db serve_on must_set set_nonblocking change_flags
  start-serves bind_addr more h g sock flags quiet z y b f t e =
      let last = set_flags sock (with_nonblock true flags) true ∷ get_flags sock (some flags) ∷ g in
      let run : start sys opens created (bind_addr ∷ more) h
          ≡ done (serving (db_name more) sock) last =
        rw
          (
            start, quiet, start_with, open_db, z, y, b, serve_on, must_set, set_nonblocking, f,
            change_flags, t,
          )
          refl in
      (
        last,
        run,
        subst (Holds (Started (bind_addr ∷ more)) (λ _. ⊥)) run
            (start-Started (bind_addr ∷ more) h e),
        refl,
      )
