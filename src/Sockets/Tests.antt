-- ===== src/Sockets/Tests.antt =====
-- `connect_to` and `bind_on` with one address and with none that takes.
use vncproxy.Prelude.{ℕ, ◌≡◌, refl, Bool, true, false, none, some, List, [], ◌∷◌}
use vncproxy.System.{System, fault}
use vncproxy.System.Held.{held}
use vncproxy.Sockets.{split_colon, bind_on}
use vncproxy.Sockets.Refused.{bind_on-refused}

-- Two addresses, and sockets that take or do not.
abbrev net : Bool → System
net takes = record {
  flags = λ h fd. none;
  takes_flags = λ h fd f. false;
  send = λ h fd bs. none;
  recv = λ h fd n. none;
  lookup = λ h host port. some (1 ∷ 2 ∷ []);
  socket = λ h addr. some 7;
  connect = λ h fd addr. takes;
  bind = λ h fd addr. takes;
  listen = λ h fd. true;
  rand = λ h. 0;
  query = λ h. ([], false);
}

-- "a:1"
abbrev address : List ℕ
address = 97 ∷ 58 ∷ 49 ∷ []

nothing_held : held (3 ∷ []) [] ≡ some (3 ∷ [])
unfolding held
nothing_held = refl

address-splits : split_colon address ≡ some (97 ∷ [], 49 ∷ [])
unfolding split_colon
address-splits = refl

bind_on-refused_example : bind_on (net false) address [] ≡ fault
bind_on-refused_example =
    bind_on-refused (net false) (λ h fd addr. refl) address (97 ∷ []) (49 ∷ []) (1 ∷ 2 ∷ []) []
      address-splits refl
