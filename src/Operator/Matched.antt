-- ===== src/Operator/Matched.antt =====
-- Whom `VncOperator::run` ties.
use vncproxy.Prelude.{
  ℕ, ◌≡◌, refl, sym, subst, Bool, true, false, Option, none, some, List, [], ◌∷◌,
}
use vncproxy.Auth.{Row, AuthInfo, new_auth_info, authenticate}
use vncproxy.System.{
  bind_outcome, System, History, handed_over, sent, received, queried, defined, hand_over,
}
use vncproxy.System.Rules.{Holds, bind-Holds, Holds-map, bind-skip}
use vncproxy.Operator.{run, run_client, run_remote}
use vncproxy.Operator.Messages.{quit, close_all, went, arrived, store, send_or, recv_or}
use vncproxy.Sockets.{must_set}
use vncproxy.Operator.Client.{
  client_version, client_security, random_bytes, client_challenge, settle, queried_or, refuse,
  find_entry,
}
use vncproxy.Operator.Remote.{dial, establish}

module _ (des : List ℕ → List ℕ → List ℕ) (sys : System) (clnt : ℕ) (response : List ℕ) where
  -- The challenge `c` was sent, and the next call took the answer to it into the buffer.
  pub record Answered (c resp : List ℕ) (h : History) : Type 0 where
    pub before : History
    pub count : Option ℕ
    pub bytes : List ℕ
    pub calls : h ≡ received clnt 16 (some bytes) ∷ sent clnt c count ∷ before
    pub taken : sys.recv (sent clnt c count ∷ before) clnt 16 ≡ some bytes
    pub stored : store response bytes ≡ some resp

  -- The rows that the database gave after that settle on `info`.
  pub record Matched (info : AuthInfo) : Type 0 where
    pub challenge : List ℕ
    pub resp : List ℕ
    pub at : History
    pub answered : Answered challenge resp at
    pub rows : List Row
    pub listed : sys.query at ≡ (rows, true)
    pub settled : authenticate des rows (new_auth_info challenge resp) ≡ some info
    pub matched : info.matched ≡ true

  -- A way out has nothing to show.
  quit-nothing :
      {A : Type 0} (Q : A → History → Type 0) (fds : List ℕ) (h : History)
      → Holds Q (λ _. Unit) (quit fds h)
  unfolding quit close_all
  quit-nothing Q [] h = tt
  quit-nothing Q (fd ∷ fds) h = quit-nothing Q fds _

  arrived-Answered :
      (c : List ℕ) (count : Option ℕ) (r : Option (List ℕ)) (g : History)
      → sys.recv (sent clnt c count ∷ g) clnt 16 ≡ r
      → Holds
          (λ resp h. Answered c resp h)
          (λ _. Unit)
          (arrived (clnt ∷ []) response r (received clnt 16 r ∷ sent clnt c count ∷ g))
  unfolding arrived
  arrived-Answered c count none g e = quit-nothing (λ resp h. Answered c resp h) (clnt ∷ []) _
  arrived-Answered c count (some bs) g e = go (store response bs) refl
    where
      go :
          (o : Option (List ℕ))
          → store response bs ≡ o
          → Holds
              (λ resp h. Answered c resp h)
              (λ _. Unit)
              (defined o (received clnt 16 (some bs) ∷ sent clnt c count ∷ g))
      go none z = tt
      go (some resp) z = record {
        before = g;
        count = count;
        bytes = bs;
        calls = refl;
        taken = e;
        stored = z;
      }

  -- The challenge as sent, just before.
  abbrev Challenged : List ℕ → Unit {0} → History → Type 0
  Challenged c u h = (count : Option ℕ) × (g : History) × (h ≡ sent clnt c count ∷ g)

  went-Challenged :
      (c : List ℕ) (r : Option ℕ) (g : History)
      → Holds (Challenged c) (λ _. Unit) (went (clnt ∷ []) r (sent clnt c r ∷ g))
  unfolding went
  went-Challenged c none g = quit-nothing (Challenged c) (clnt ∷ []) _
  went-Challenged c (some n) g = (some n, g, refl)

  recv-Answered :
      (c : List ℕ) (h : History)
      → Challenged c tt h
      → Holds (λ resp h. Answered c resp h) (λ _. Unit) (recv_or sys (clnt ∷ []) clnt 16 response h)
  unfolding recv_or
  recv-Answered c h (count, g, e) =
      subst
        (λ h.
          Holds (λ resp h. Answered c resp h) (λ _. Unit)
            (arrived (clnt ∷ []) response (sys.recv h clnt 16)
              (received clnt 16 (sys.recv h clnt 16) ∷ h)))
        (sym e) (arrived-Answered c count _ g refl)

  abbrev Answer : List ℕ × List ℕ → History → Type 0
  Answer p h = Answered p.0 p.1 h

  client_challenge-Answered :
      (h : History) → Holds Answer (λ _. Unit) (client_challenge des sys clnt response h)
  unfolding client_challenge send_or
  client_challenge-Answered h = bind-skip Answer (random_bytes des sys clnt 16 h) _ (λ c h.
      bind-Holds (Challenged c) Answer (λ _. Unit) _ _ (went-Challenged c _ h)
        (λ _ h e.
          bind-Holds (λ resp h. Answered c resp h) Answer (λ _. Unit) _ _ (recv-Answered c h e)
            (λ resp h a. a)))

  refuse-Matched :
      (info : AuthInfo) (b : Bool) (h : History)
      → (b ≡ true → Matched info)
      → Holds (λ i _. Matched i) (λ _. Unit) (refuse des sys clnt info b h)
  unfolding refuse
  refuse-Matched info true h k = k refl
  refuse-Matched info false h k = quit-nothing (λ i _. Matched i) (clnt ∷ []) _

  settle-settled :
      (info : AuthInfo) (out : List Row × Bool) (h : History)
      → Holds
          (λ i _. (rows : List Row) × (out ≡ (rows, true)) × (authenticate des rows info ≡ some i))
          (λ _. Unit)
          (settle des sys clnt info out h)
  unfolding settle queried_or
  settle-settled info (rows, ok) h = go ok (authenticate des rows info) refl
    where
      go :
          (b : Bool) (o : Option AuthInfo)
          → authenticate des rows info ≡ o
          → Holds
              (λ i _.
                (rs : List Row) × ◌≡◌ {A = List Row × Bool} (rows, b) (rs, true)
                × (authenticate des rs info ≡ some i))
              (λ _. Unit)
              (bind_outcome (defined o h) (queried_or des sys clnt b))
      go b none z = tt
      go true (some i) z = (rows, refl, z)
      go false (some i) z = quit-nothing _ (clnt ∷ []) h

  find_entry-Matched :
      (p : List ℕ × List ℕ) (h : History)
      → Answered p.0 p.1 h
      → Holds (λ i _. Matched i) (λ _. Unit) (find_entry des sys clnt p h)
  unfolding find_entry
  find_entry-Matched p h a =
      bind-Holds
        (λ i _.
          (rows : List Row) × (sys.query h ≡ (rows, true))
          × (authenticate des rows (new_auth_info p.0 p.1) ≡ some i))
        (λ i _. Matched i) (λ _. Unit) _ _ (settle-settled _ (sys.query h) (queried _ ∷ h))
        (λ i g s. refuse-Matched i i.matched g (λ m. record {
          challenge = p.0;
          resp = p.1;
          at = h;
          answered = a;
          rows = s.0;
          listed = s.1;
          settled = s.2;
          matched = m;
        }))

  -- What is known of the client.
  abbrev Known : List ℕ × AuthInfo → History → Type 0
  Known p h = Matched p.1

  run_client-Matched :
      (buf : List ℕ) (h : History)
      → Holds Known (λ _. Unit) (run_client des sys clnt buf response h)
  unfolding run_client
  run_client-Matched buf h = bind-skip Known (must_set sys clnt false h) _ (λ _ h.
      bind-skip Known (client_version des sys clnt buf h) _ (λ buf1 h.
        bind-skip Known (client_security des sys clnt buf1 h) _ (λ buf2 h.
          bind-Holds (λ p h. Answered p.0 p.1 h) Known (λ _. Unit) _ _ (client_challenge-Answered h)
            (λ p h a.
              bind-Holds (λ i _. Matched i) Known (λ _. Unit) _ _ (find_entry-Matched p h a)
                (λ i h m. m)))))

  -- The last call hands the descriptors over.
  abbrev pub HandsOver : List ℕ → ℕ → Unit {0} → History → Type 0
  HandsOver key remote u h = (g : History) × (h ≡ handed_over key clnt remote ∷ g)

  establish-HandsOver :
      (remote : ℕ) (key : List ℕ) (h : History)
      → Holds (HandsOver key remote) (λ _. Unit) (establish des sys clnt remote key h)
  unfolding establish
  establish-HandsOver remote key h =
      bind-skip (HandsOver key remote) (must_set sys clnt true h) _ (λ _ h.
        bind-skip (HandsOver key remote) (must_set sys remote true h)
          (λ _. hand_over key clnt remote) (λ _ h. (h, refl)))

  -- A client that matched was tied.
  abbrev pub TiesMatched : Unit {0} → History → Type 0
  TiesMatched u h =
      (info : AuthInfo) × (remote : ℕ) × HandsOver info.forward_key remote u h × Matched info

  -- Where run comes to its end, its last call hands clnt and a remote descriptor to tie_fd, under
  -- the forward_key of an auth_info that matched: it is what the callback made of the rows that the
  -- database listed, with the challenge that was sent to clnt and the response that came back for
  -- it.
  pub run-Matched :
      (buf : List ℕ) → Holds TiesMatched (λ _. Unit) (run des sys clnt buf response [])
  unfolding run
  run-Matched buf =
      bind-Holds Known TiesMatched (λ _. Unit) _ _ (run_client-Matched buf [])
        (λ p h m. bind-skip TiesMatched (dial des sys clnt p.1.dest_addr h) _ (λ remote h.
          bind-skip TiesMatched (run_remote des sys clnt remote p.0 p.1 h)
            (λ _. establish des sys clnt remote p.1.forward_key)
            (λ _ h.
              Holds-map (λ _. Unit) (HandsOver p.1.forward_key remote) TiesMatched
                (establish des sys clnt remote p.1.forward_key h)
                (establish-HandsOver remote p.1.forward_key h) (λ u g o. (p.1, remote, o, m)))))
