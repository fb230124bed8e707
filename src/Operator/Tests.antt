-- ===== src/Operator/Tests.antt =====
-- A handshake between the client 5 and the remote server 6.
use vncproxy.Prelude.{
  ℕ, ◌≤◌, ◌<◌, ◌==◌, ◌≡◌, ◌⊎◌, refl, Bool, true, none, some, List, [], ◌∷◌, arith, length,
  replicate, if◌then◌else◌,
}
use vncproxy.Auth.{encrypt}
use vncproxy.Auth.Match.{Entry, rows_of, padded}
use vncproxy.System.{System, History, sent, done, fault, received, handed_over}
use vncproxy.System.Rules.{Holds}
use vncproxy.System.Held.{held}
use vncproxy.Sockets.{split_colon}
use vncproxy.Operator.{run}
use vncproxy.Operator.Messages.{version}
use vncproxy.Operator.Remote.{remote_types}
use vncproxy.Operator.Descriptors.{run-Ended}
use vncproxy.Operator.Matched.{TiesMatched, run-Matched}
use vncproxy.Operator.Types.{remote_types_lem}
use vncproxy.Operator.Cooperation.{Cooperates}
use vncproxy.Operator.Success.{run-hands_over}

-- A toy cipher that gives the key for each block.
abbrev echo : List ℕ → List ℕ → List ℕ
echo key block = replicate 8 (length block)

abbrev entry : Entry
entry = record { key = 97 ∷ []; short = omega arith; addr = 104 ∷ 58 ∷ 49 ∷ []; passwd = none }

-- What the client answers, which depends on the last call.
abbrev answer_to : History → List ℕ
answer_to [] = []
answer_to (sent fd c n ∷ h) = encrypt echo (padded (97 ∷ [])) c
answer_to (_ ∷ h) = []

abbrev client_says : History → ℕ → List ℕ
client_says h n = if n == 12 then version else if n == 1 then 2 ∷ [] else answer_to h

abbrev remote_says : ℕ → List ℕ
remote_says n = if n == 12 then version else 1 ∷ []

abbrev parties : System
parties = record {
  flags = λ h fd. some 0;
  takes_flags = λ h fd f. true;
  send = λ h fd bs. some (length bs);
  recv = λ h fd n. some (if fd == 5 then client_says h n else remote_says n);
  lookup = λ h host port. some (9 ∷ []);
  socket = λ h addr. some 6;
  connect = λ h fd addr. true;
  bind = λ h fd addr. true;
  listen = λ h fd. true;
  rand = λ h. length h;
  query = λ h. (rows_of (entry ∷ []), true);
}

entry-splits : split_colon (104 ∷ 58 ∷ 49 ∷ []) ≡ some (104 ∷ [], 49 ∷ [])
unfolding split_colon
entry-splits = refl

parties-Cooperates : Cooperates echo 5 6 entry [] parties
parties-Cooperates = record {
  flags = λ h fd. refl;
  takes_flags = λ h fd f. refl;
  sends = λ h fd bs. refl;
  client_hello = λ h. refl;
  client_type = λ h. refl;
  client_answer = λ h c n. refl;
  lists = λ h. refl;
  host = 104 ∷ [];
  port = 49 ∷ [];
  splits = entry-splits;
  target = 9;
  others = [];
  looks_up = λ h. refl;
  opens = λ h. refl;
  connects = λ h. refl;
  remote_hello = λ h. refl;
  remote_asks = λ h. refl;
}

abbrev buffer : List ℕ
buffer = replicate 16 7

run-hands_over_example :
    (h : History) × (run echo parties 5 buffer buffer [] ≡ done tt (handed_over (97 ∷ []) 5 6 ∷ h))
run-hands_over_example =
    run-hands_over echo 5 6 entry [] parties parties-Cooperates (λ k b. refl) buffer buffer refl
      refl

run-Ended_example :
    Holds
      (λ _ h. held (5 ∷ []) h ≡ some [])
      (λ h. held (5 ∷ []) h ≡ some [])
      (run echo parties 5 buffer buffer [])
run-Ended_example = run-Ended echo parties 5 buffer buffer

run-Matched_example :
    Holds (TiesMatched echo parties 5 buffer) (λ _. Unit) (run echo parties 5 buffer buffer [])
run-Matched_example = run-Matched echo parties 5 buffer buffer

-- Seventeen types.
abbrev many : System
many = record parties { recv = λ h fd n. some (replicate n 3) }

remote_types_lem_example :
    ((17 ≤ 16)
      × (types : Bool × Bool) × (remote_types echo many 5 6 (17 ∷ replicate 15 0) []
          ≡ done types (received 6 17 (some (replicate 17 3)) ∷ [])))
    ⊎ ((16 < 17) × (remote_types echo many 5 6 (17 ∷ replicate 15 0) [] ≡ fault))
remote_types_lem_example =
    remote_types_lem echo many 5 6 17 (replicate 15 0) (replicate 17 3) [] (omega arith) refl refl
      (omega arith)
