-- ===== src/Main/StartTests.antt =====
-- A start of the server at the address "a:1", with no other argument.
use vncproxy.Prelude.{ℕ, ◌==◌, ◌≡◌, refl, true, false, none, some, List, [], ◌∷◌}
use vncproxy.Auth.{same_bytes}
use vncproxy.System.{System, History, done}
use vncproxy.Sockets.{split_colon}
use vncproxy.Sockets.Taken.{Binds, first_taking}
use vncproxy.System.Rules.{Holds}
use vncproxy.System.Held.{held}
use vncproxy.Main.Startup.{serving, start, asks_help, db_name}
use vncproxy.Main.Started.{Started, start-Started}
use vncproxy.Main.Listening.{Listens, start-Listens}

-- Every call succeeds.
abbrev willing : System
willing = record {
  flags = λ h fd. some 2;
  takes_flags = λ h fd f. true;
  send = λ h fd bs. none;
  recv = λ h fd n. none;
  lookup = λ h host port. some (1 ∷ []);
  socket = λ h addr. some 7;
  connect = λ h fd addr. true;
  bind = λ h fd addr. true;
  listen = λ h fd. true;
  rand = λ h. 0;
  query = λ h. ([], false);
}

abbrev arguments : List (List ℕ)
arguments = (97 ∷ 58 ∷ 49 ∷ []) ∷ []

none_held : held [] [] ≡ some []
unfolding held
none_held = refl

start-Started_example :
    Holds
      (Started willing (λ db. true) true [] [] arguments)
      (λ _. ⊥)
      (start willing (λ db. true) true arguments [])
start-Started_example = start-Started willing (λ db. true) true [] [] arguments [] none_held

-- "-h" wherever it stands
help_asked : asks_help ((97 ∷ 58 ∷ 49 ∷ []) ∷ (45 ∷ 104 ∷ []) ∷ []) ≡ true
unfolding asks_help same_bytes
help_asked = refl

asks_nothing : asks_help arguments ≡ false
unfolding asks_help same_bytes
asks_nothing = refl

-- Of the addresses 4 and 1, which the lookup gives, only 1 can be bound.
abbrev picky : System
picky = record willing { lookup = λ h host port. some (4 ∷ 1 ∷ []); bind = λ h fd addr. addr == 1 }

picky-Binds : Binds (λ addr. addr == 1) picky
picky-Binds = record {
  sockets = λ h addr. (7, refl);
  binds = λ h fd addr. refl;
  listens = λ h fd. refl;
}

splits : split_colon (97 ∷ 58 ∷ 49 ∷ []) ≡ some (97 ∷ [], 49 ∷ [])
unfolding split_colon
splits = refl

takes_second : first_taking (λ addr. addr == 1) (4 ∷ 1 ∷ []) ≡ some 1
unfolding first_taking
takes_second = refl

start-Listens_example :
    (sock : ℕ) × (end : History) × (start picky (λ db. true) true arguments []
      ≡ done (serving (db_name []) sock) end)
    × (held [] end ≡ some (sock ∷ []))
    × Listens sock 1 end
start-Listens_example =
    start-Listens picky (λ db. true) true [] [] (λ addr. addr == 1) picky-Binds (λ h fd. (2, refl))
      (λ h fd flags. refl) (97 ∷ 58 ∷ 49 ∷ []) (97 ∷ []) (49 ∷ []) (4 ∷ 1 ∷ []) [] 1 [] asks_nothing
      refl refl splits refl takes_second none_held
