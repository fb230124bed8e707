-- ===== src/System.antt =====
-- The system calls of vncproxy.cc and utils.cc on sockets, with the database and `rand`. What a
-- call gives is a parameter: a function of every call before it. A run of the code is a function
-- on the list of its calls, the last first.
pub mod Rules
pub mod Held
use vncproxy.Prelude.{ℕ, ◌==◌, Bool, true, false, Option, none, some, List, [], ◌∷◌, if◌then◌else◌}
use vncproxy.Auth.{Row}

-- A call, with what it gave. `none` and `false` are the result -1. A query gives the rows for which
-- the callback was called, and whether it went through: it may fail after some of them.
pub data Call : Type 0 where
  get_flags : ℕ → Option ℕ → Call
  set_flags : ℕ → ℕ → Bool → Call
  sent : ℕ → List ℕ → Option ℕ → Call
  received : ℕ → ℕ → Option (List ℕ) → Call
  closed : ℕ → Call
  looked_up : Option (List ℕ) → List ℕ → Option (List ℕ) → Call
  socket_opened : ℕ → Option ℕ → Call
  connected : ℕ → ℕ → Bool → Call
  bound : ℕ → ℕ → Bool → Call
  listened : ℕ → Bool → Call
  random : ℕ → Call
  queried : List Row × Bool → Call
  -- not a call: `tie_fd` gets the two descriptors
  handed_over : List ℕ → ℕ → ℕ → Call

abbrev pub History : Type 0
History = List Call

-- `lookup` is getaddrinfo: the addresses of the list that it gives, in order. The host `none` is
-- NULL.
pub record System : Type 0 where
  pub flags : History → ℕ → Option ℕ
  pub takes_flags : History → ℕ → ℕ → Bool
  pub send : History → ℕ → List ℕ → Option ℕ
  pub recv : History → ℕ → ℕ → Option (List ℕ)
  pub lookup : History → Option (List ℕ) → List ℕ → Option (List ℕ)
  pub socket : History → ℕ → Option ℕ
  pub connect : History → ℕ → ℕ → Bool
  pub bind : History → ℕ → ℕ → Bool
  pub listen : History → ℕ → Bool
  pub rand : History → ℕ
  pub query : History → List Row × Bool

-- How a piece of code ends: with a value, with a `return` of the function around it, or with a
-- fault.
pub data Outcome (A : Type 0) : Type 0 where
  done : A → History → Outcome A
  returned : History → Outcome A
  fault : Outcome A

abbrev pub Act : Type 0 → Type 0
Act A = History → Outcome A

infixl 5 ◌>>=◌ ◌>>◌
abbrev pub bind_outcome : {A B : Type 0} → Outcome A → (A → Act B) → Outcome B
bind_outcome (done a h) f = f a h
bind_outcome (returned h) f = returned h
bind_outcome fault f = fault

abbrev pub ◌>>=◌ : {A B : Type 0} → Act A → (A → Act B) → Act B
◌>>=◌ m f h = bind_outcome (m h) f

abbrev pub ◌>>◌ : {B : Type 0} → Act (Unit {0}) → Act B → Act B
m >> k = m >>= λ _. k

abbrev pub pure : {A : Type 0} → A → Act A
pure a h = done a h

-- `return;`
abbrev pub leave : {A : Type 0} → Act A
leave h = returned h

-- `verify(b)`
abbrev pub verify : Bool → Act (Unit {0})
verify true h = done tt h
verify false h = fault

abbrev pub defined : {A : Type 0} → Option A → Act A
defined none h = fault
defined (some a) h = done a h

abbrev pub when : Bool → Act (Unit {0}) → Act (Unit {0})
when true m = m
when false m = pure tt

-- `close(fd)`, and its result that the code does not look at
abbrev pub close : ℕ → Act (Unit {0})
close fd h = done tt (closed fd ∷ h)

abbrev pub hand_over : List ℕ → ℕ → ℕ → Act (Unit {0})
hand_over key fd1 fd2 h = done tt (handed_over key fd1 fd2 ∷ h)

module _ (sys : System) where
  abbrev pub do_get_flags : ℕ → Act (Option ℕ)
  do_get_flags fd h = let r = sys.flags h fd in done r (get_flags fd r ∷ h)

  abbrev pub do_set_flags : ℕ → ℕ → Act Bool
  do_set_flags fd f h = let r = sys.takes_flags h fd f in done r (set_flags fd f r ∷ h)

  abbrev pub do_send : ℕ → List ℕ → Act (Option ℕ)
  do_send fd bs h = let r = sys.send h fd bs in done r (sent fd bs r ∷ h)

  abbrev pub do_recv : ℕ → ℕ → Act (Option (List ℕ))
  do_recv fd n h = let r = sys.recv h fd n in done r (received fd n r ∷ h)

  abbrev pub do_lookup : Option (List ℕ) → List ℕ → Act (Option (List ℕ))
  do_lookup host port h = let r = sys.lookup h host port in done r (looked_up host port r ∷ h)

  abbrev pub do_socket : ℕ → Act (Option ℕ)
  do_socket addr h = let r = sys.socket h addr in done r (socket_opened addr r ∷ h)

  abbrev pub do_connect : ℕ → ℕ → Act Bool
  do_connect fd addr h = let r = sys.connect h fd addr in done r (connected fd addr r ∷ h)

  abbrev pub do_bind : ℕ → ℕ → Act Bool
  do_bind fd addr h = let r = sys.bind h fd addr in done r (bound fd addr r ∷ h)

  abbrev pub do_listen : ℕ → Act Bool
  do_listen fd h = let r = sys.listen h fd in done r (listened fd r ∷ h)

  abbrev pub do_rand : Act ℕ
  do_rand h = let r = sys.rand h in done r (random r ∷ h)

  abbrev pub do_query : Act (List Row × Bool)
  do_query h = let r = sys.query h in done r (queried r ∷ h)
