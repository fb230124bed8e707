-- ===== src/Operator/Descriptors.antt =====
-- What `VncOperator::run` holds, from its first call to its last.
use vncproxy.Prelude.{
  ℕ, arith, zero, suc, ◌≡◌, refl, ap, ◌∙◌, Bool, true, false, Option, none, some, List, [], ◌∷◌,
}
use vncproxy.Auth.{authenticate, Row, AuthInfo}
use vncproxy.System.{bind_outcome, System, History, Outcome, Act, sent, queried, random}
use vncproxy.System.Rules.{Holds, bind-Holds, Holds-weaken}
use vncproxy.System.Held.{held, give_up_from, give_up}
use vncproxy.Sockets.{connect_to}
use vncproxy.Sockets.Descriptors.{Obtained, connect_to-Obtained}
use vncproxy.Operator.{run, run_client, run_remote}
use vncproxy.Operator.Steps.{
  Keeps, Ended, quit-Ended, defined-Keeps, agree-Keeps, send_or-Keeps, recv_or-Keeps,
  must_set-Keeps,
}
use vncproxy.Operator.Client.{
  client_version, client_security, random_bytes, client_challenge, settle, queried_or, refuse,
  find_entry,
}
use vncproxy.Operator.Remote.{
  reached, dial, remote_version, remote_types, remote_answer, remote_vnc, remote_auth, establish,
}

module _ (des : List ℕ → List ℕ → List ℕ) (sys : System) (clnt : ℕ) where
  abbrev alone : List ℕ
  alone = clnt ∷ []

  abbrev Holding : {A : Type 0} → List ℕ → Outcome A → Type 0
  Holding fds o = Holds (Keeps alone fds) (Ended alone) o

  -- A step, and the rest.
  and_then :
      {A B : Type 0} (fds : List ℕ) (o : Outcome A) (f : A → Act B)
      → Holding fds o
      → ((a : A) (h : History) → held alone h ≡ some fds → Holding fds (f a h))
      → Holding fds (bind_outcome o f)
  and_then fds = bind-Holds (Keeps alone fds) (Keeps alone fds) (Ended alone)

  client_version-Keeps :
      (buf : List ℕ) (h : History)
      → held alone h ≡ some alone
      → Holding alone (client_version des sys clnt buf h)
  unfolding client_version
  client_version-Keeps buf h e =
      and_then alone _ _ (send_or-Keeps alone alone sys clnt _ h e) (λ _ h e.
        and_then alone _ _ (recv_or-Keeps alone alone sys clnt 12 buf h e)
          (λ buf' h e. and_then alone _ _ (agree-Keeps alone alone _ h e) (λ _ h e. e)))

  client_security-Keeps :
      (buf : List ℕ) (h : History)
      → held alone h ≡ some alone
      → Holding alone (client_security des sys clnt buf h)
  unfolding client_security
  client_security-Keeps buf h e =
      and_then alone _ _ (send_or-Keeps alone alone sys clnt _ h e)
        (λ _ h e. recv_or-Keeps alone alone sys clnt 1 _ h e)

  random_bytes-Keeps :
      (n : ℕ) (h : History)
      → held alone h ≡ some alone
      → Holding alone (random_bytes des sys clnt n h)
  unfolding random_bytes held
  random_bytes-Keeps zero h e = e
  random_bytes-Keeps (suc n) h e =
      and_then alone _ _ (random_bytes-Keeps n (random _ ∷ h) e) (λ _ h e. e)

  client_challenge-Keeps :
      (response : List ℕ) (h : History)
      → held alone h ≡ some alone
      → Holding alone (client_challenge des sys clnt response h)
  unfolding client_challenge
  client_challenge-Keeps response h e =
      and_then alone _ _ (random_bytes-Keeps 16 h e) (λ challenge h e.
        and_then alone _ _ (send_or-Keeps alone alone sys clnt _ h e) (λ _ h e.
          and_then alone _ _ (recv_or-Keeps alone alone sys clnt 16 response h e) (λ _ h e. e)))

  settle-Keeps :
      (info : AuthInfo) (out : List Row × Bool) (h : History)
      → held alone h ≡ some alone
      → Holding alone (settle des sys clnt info out h)
  unfolding settle queried_or
  settle-Keeps info (rows, true) h e =
      and_then alone _ _ (defined-Keeps alone alone (authenticate des rows info) h e) (λ _ g k. k)
  settle-Keeps info (rows, false) h e =
      and_then alone _ _ (defined-Keeps alone alone (authenticate des rows info) h e)
        (λ _ g k. quit-Ended alone (Keeps alone alone) alone g k)

  refuse-Keeps :
      (info : AuthInfo) (b : Bool) (h : History)
      → held alone h ≡ some alone
      → Holding alone (refuse des sys clnt info b h)
  unfolding refuse held
  refuse-Keeps info true h e = e
  refuse-Keeps info false h e =
      quit-Ended alone (Keeps alone alone) alone (sent clnt (1 ∷ 0 ∷ 0 ∷ 0 ∷ []) _ ∷ h) e

  find_entry-Keeps :
      (p : List ℕ × List ℕ) (h : History)
      → held alone h ≡ some alone
      → Holding alone (find_entry des sys clnt p h)
  unfolding find_entry held
  find_entry-Keeps p h e =
      and_then alone _ _ (settle-Keeps _ _ (queried _ ∷ h) e)
        (λ info h e. refuse-Keeps info info.matched h e)

  module _ (remote : ℕ) where
    abbrev two : List ℕ
    two = remote ∷ clnt ∷ []

    remote_version-Keeps :
        (buf : List ℕ) (h : History)
        → held alone h ≡ some two
        → Holding two (remote_version des sys clnt remote buf h)
    unfolding remote_version
    remote_version-Keeps buf h e =
        and_then two _ _ (recv_or-Keeps alone two sys remote 12 buf h e) (λ buf' h e.
          and_then two _ _ (agree-Keeps alone two _ h e) (λ _ h e.
            and_then two _ _ (send_or-Keeps alone two sys remote _ h e)
              (λ _ h e. recv_or-Keeps alone two sys remote 1 buf' h e)))

    remote_types-Keeps :
        (buf : List ℕ) (h : History)
        → held alone h ≡ some two
        → Holding two (remote_types des sys clnt remote buf h)
    unfolding remote_types
    remote_types-Keeps buf h e =
        and_then two _ _ (recv_or-Keeps alone two sys remote _ buf h e)
          (λ buf' h e. defined-Keeps alone two _ h e)

    remote_answer-Keeps :
        (info : AuthInfo) (h : History)
        → held alone h ≡ some two
        → Holding two (remote_answer des sys clnt remote info h)
    unfolding remote_answer
    remote_answer-Keeps info h e =
        and_then two _ _ (send_or-Keeps alone two sys remote _ h e) (λ _ h e.
          and_then two _ _ (recv_or-Keeps alone two sys remote 16 _ h e) (λ challenge h e.
            and_then two _ _ (defined-Keeps alone two _ h e)
              (λ response h e. send_or-Keeps alone two sys remote response h e)))

    remote_vnc-Keeps :
        (info : AuthInfo) (vnc has : Bool) (h : History)
        → held alone h ≡ some two
        → Holding two (remote_vnc des sys clnt remote info vnc has h)
    unfolding remote_vnc
    remote_vnc-Keeps info true true h e = remote_answer-Keeps info h e
    remote_vnc-Keeps info true false h e = quit-Ended alone (Keeps alone two) two h e
    remote_vnc-Keeps info false has h e = quit-Ended alone (Keeps alone two) two h e

    remote_auth-Keeps :
        (info : AuthInfo) (none_auth vnc : Bool) (h : History)
        → held alone h ≡ some two
        → Holding two (remote_auth des sys clnt remote info none_auth vnc h)
    unfolding remote_auth
    remote_auth-Keeps info true vnc h e = send_or-Keeps alone two sys remote _ h e
    remote_auth-Keeps info false vnc h e = remote_vnc-Keeps info vnc info.has_dest_passwd h e

    -- Nothing is held at the end.
    establish-Ended :
        (key : List ℕ) (h : History)
        → held alone h ≡ some two
        → Holds (λ _. Ended alone) (Ended alone) (establish des sys clnt remote key h)
    unfolding establish held give_up_from give_up
    establish-Ended key h e =
        bind-Holds (Keeps alone two) (λ _. Ended alone) (Ended alone) _ _
          (must_set-Keeps alone two sys clnt true h e)
          (λ _ h e.
            bind-Holds (Keeps alone two) (λ _. Ended alone) (Ended alone) _ _
              (must_set-Keeps alone two sys remote true h e)
              (λ _ h e. ap (λ o. give_up_from remote (give_up_from clnt o)) e ∙ ground arith))

  -- The descriptor of the remote server is held besides.
  abbrev Dialled : ℕ → History → Type 0
  Dialled remote h = held alone h ≡ some (remote ∷ clnt ∷ [])

  reached-Dialled :
      (r : Option ℕ) (h : History)
      → Obtained alone alone r h
      → Holds Dialled (Ended alone) (reached des sys clnt r h)
  unfolding reached
  reached-Dialled none h e = quit-Ended alone Dialled alone h e
  reached-Dialled (some fd) h e = e

  dial-Dialled :
      (addr : List ℕ) (h : History)
      → held alone h ≡ some alone
      → Holds Dialled (Ended alone) (dial des sys clnt addr h)
  unfolding dial
  dial-Dialled addr h e =
      bind-Holds (Obtained alone alone) Dialled (Ended alone) _ _
        (Holds-weaken (Obtained alone alone) (λ _. ⊥) (Ended alone) (connect_to sys addr h)
          (connect_to-Obtained sys alone alone addr h e) (λ _ z. absurd z))
        (λ r h e. reached-Dialled r h e)

  run_remote-Keeps :
      (remote : ℕ) (buf : List ℕ) (info : AuthInfo) (h : History)
      → held alone h ≡ some (two remote)
      → Holding (two remote) (run_remote des sys clnt remote buf info h)
  unfolding run_remote
  run_remote-Keeps remote buf info h e =
      and_then (two remote) _ _ (remote_version-Keeps remote buf h e) (λ buf' h e.
        and_then (two remote) _ _ (remote_types-Keeps remote buf' h e)
          (λ types h e. remote_auth-Keeps remote info types.0 types.1 h e))

  run_client-Keeps :
      (buf response : List ℕ) (h : History)
      → held alone h ≡ some alone
      → Holding alone (run_client des sys clnt buf response h)
  unfolding run_client
  run_client-Keeps buf response h e =
      and_then alone _ _ (must_set-Keeps alone alone sys clnt false h e) (λ _ h e.
        and_then alone _ _ (client_version-Keeps buf h e) (λ buf1 h e.
          and_then alone _ _ (client_security-Keeps buf1 h e) (λ buf2 h e.
            and_then alone _ _ (client_challenge-Keeps response h e)
              (λ pair h e. and_then alone _ _ (find_entry-Keeps pair h e) (λ info h e. e)))))

  -- Whatever the client, the remote server and the system answer, run ends in a return or in a stop
  -- of the process, and where it returns, each descriptor that it had (clnt at the start, and each
  -- socket that it opened) has been closed once or handed to tie_fd once, and none is left.
  pub run-Ended :
      (buf response : List ℕ)
      → Holds (λ _. Ended alone) (Ended alone) (run des sys clnt buf response [])
  unfolding run held
  run-Ended buf response =
      bind-Holds (Keeps alone alone) (λ _. Ended alone) (Ended alone) _ _
        (run_client-Keeps buf response [] refl)
        (λ client h e.
          bind-Holds Dialled (λ _. Ended alone) (Ended alone) _ _
            (dial-Dialled client.1.dest_addr h e)
            (λ remote h e.
              bind-Holds (Keeps alone (two remote)) (λ _. Ended alone) (Ended alone) _ _
                (run_remote-Keeps remote client.0 client.1 h e)
                (λ _ h e. establish-Ended remote client.1.forward_key h e)))
