-- ===== src/Operator/Cooperation.antt =====
-- The dialogue of `VncOperator::run` with a client that cooperates.
use vncproxy.Prelude.{
  ℕ, zero, suc, ◌≤◌, ◌≡◌, refl, sym, ap, ◌∙◌, Bool, true, false, Option, some, List, [], ◌∷◌, ◌++◌,
  arith, length, take, drop, copy_at, le→leb, length-append, length-drop, append-nil,
  drop_of_length_le,
}
use vncproxy.Auth.{AuthInfo, same_bytes, encrypt}
use vncproxy.Auth.Match.{Entry, rows_of, padded, authenticate-answer, answer-eq}
use vncproxy.System.{System, History, done, sent, received, random}
use vncproxy.System.Rules.{Goes, bind-Goes}
use vncproxy.Sockets.{split_colon, must_set, set_nonblocking, change_flags}
use vncproxy.Operator.{run_client}
use vncproxy.Operator.Messages.{version, c_string, went, arrived, agree, store, send_or, recv_or}
use vncproxy.Operator.Client.{
  client_version, client_security, random_bytes, client_challenge, settle, queried_or, refuse,
  find_entry,
}

module _ (des : List ℕ → List ℕ → List ℕ) (clnt remote : ℕ) (r : Entry) (rs : List Entry) where
  -- No call fails, the database has the entry `r` first, the client speaks version 3.8 and answers
  -- the challenge with the key of `r`, the address of `r` leads to `remote`, and the remote server
  -- speaks version 3.8 and asks for no authentication.
  pub record Cooperates (sys : System) : Type 0 where
    pub flags : (h : History) (fd : ℕ) → sys.flags h fd ≡ some 0
    pub takes_flags : (h : History) (fd f : ℕ) → sys.takes_flags h fd f ≡ true
    pub sends : (h : History) (fd : ℕ) (bs : List ℕ) → sys.send h fd bs ≡ some (length bs)
    pub client_hello : (h : History) → sys.recv h clnt 12 ≡ some version
    pub client_type : (h : History) → sys.recv h clnt 1 ≡ some (2 ∷ [])
    pub client_answer :
        (h : History) (c : List ℕ) (n : Option ℕ)
        → sys.recv (sent clnt c n ∷ h) clnt 16 ≡ some (encrypt des (padded r.key) c)
    pub lists : (h : History) → sys.query h ≡ (rows_of (r ∷ rs), true)
    pub host : List ℕ
    pub port : List ℕ
    pub splits : split_colon r.addr ≡ some (host, port)
    pub target : ℕ
    pub others : List ℕ
    pub looks_up : (h : History) → sys.lookup h (some host) port ≡ some (target ∷ others)
    pub opens : (h : History) → sys.socket h target ≡ some remote
    pub connects : (h : History) → sys.connect h remote target ≡ true
    pub remote_hello : (h : History) → sys.recv h remote 12 ≡ some version
    pub remote_asks : (h : History) → sys.recv h remote 1 ≡ some (1 ∷ [])

  module _ (sys : System) (ok : Cooperates sys) where
    abbrev Sized : List ℕ → History → Type 0
    Sized buf h = length buf ≡ 16

    pub must_set-Goes :
        (fd : ℕ) (b : Bool) (h : History) → Goes (λ _ _. Unit {0}) (must_set sys fd b h)
    unfolding must_set set_nonblocking change_flags
    must_set-Goes fd b h = rw (must_set, set_nonblocking, change_flags, ok.flags, ok.takes_flags) tt

    pub send_or-eq :
        (fds : List ℕ) (fd : ℕ) (bs : List ℕ) (h : History)
        → send_or sys fds fd bs h ≡ done tt (sent fd bs (some (length bs)) ∷ h)
    unfolding send_or went
    send_or-eq fds fd bs h = rw (send_or, went, ok.sends) refl

    pub recv_or-eq :
        (fds : List ℕ) (fd n : ℕ) (buf bs : List ℕ) (h : History)
        → sys.recv h fd n ≡ some bs
        → length bs ≤ length buf
        → recv_or sys fds fd n buf h
          ≡ done (bs ++ drop (length bs) buf) (received fd n (some bs) ∷ h)
    unfolding recv_or arrived store
    recv_or-eq fds fd n buf bs h e le =
        rw (recv_or, e, arrived, store, le→leb (length bs) (length buf) le) refl

    client_version-Goes :
        (buf : List ℕ) (h : History)
        → length buf ≡ 16
        → Goes Sized (client_version des sys clnt buf h)
    unfolding client_version agree c_string same_bytes
    client_version-Goes buf h size =
        rw
          (
            client_version,
            send_or-eq (clnt ∷ []) clnt version h,
            recv_or-eq (clnt ∷ []) clnt 12 buf version _ (ok.client_hello _) (omega (arith, size)),
          )
          (omega (arith, size, length-drop {0} 1 (drop 12 buf), length-drop {0} 12 buf))

    client_security-Goes :
        (buf : List ℕ) (h : History)
        → length buf ≡ 16
        → Goes Sized (client_security des sys clnt buf h)
    unfolding client_security
    client_security-Goes buf h size =
        rw
          (
            client_security,
            send_or-eq (clnt ∷ []) clnt _ h,
            recv_or-eq (clnt ∷ []) clnt 1 (copy_at buf 0 (1 ∷ 2 ∷ [])) (2 ∷ []) _ (ok.client_type _)
                (omega (arith, size)),
          )
          (omega (arith, size, length-drop {0} 2 buf))

    random_bytes-Goes :
        (n : ℕ) (h : History) → Goes (λ c _. length c ≡ n) (random_bytes des sys clnt n h)
    unfolding random_bytes
    random_bytes-Goes zero h = refl
    random_bytes-Goes (suc n) h =
        bind-Goes (λ c _. length c ≡ n) (λ c _. length c ≡ suc n)
          (random_bytes des sys clnt n (random (sys.rand h) ∷ h)) _ (random_bytes-Goes n _)
          (λ c h e. ap suc e)

    -- The right answer is in the buffer.
    abbrev Answers : List ℕ × List ℕ → History → Type 0
    Answers p h = p.1 ≡ encrypt des (padded r.key) p.0

    module _ (block : (k b : List ℕ) → length (des k b) ≡ 8) where
      encrypt-length : (k c : List ℕ) → length (encrypt des k c) ≡ 16
      unfolding encrypt
      encrypt-length k c = omega (
        arith,
        length-append (des k (take 8 c)) (des k (drop 8 c)),
        block k (take 8 c),
        block k (drop 8 c),
      )

      client_challenge-Goes :
          (response : List ℕ) (h : History)
          → length response ≡ 16
          → Goes Answers (client_challenge des sys clnt response h)
      unfolding client_challenge
      client_challenge-Goes response h size =
          bind-Goes (λ c _. length c ≡ 16) Answers (random_bytes des sys clnt 16 h) _
            (random_bytes-Goes 16 h)
            (λ c g _.
              let e = encrypt des (padded r.key) c in
              let len = encrypt-length (padded r.key) c in
              rw
                (
                  send_or-eq (clnt ∷ []) clnt c g,
                  recv_or-eq (clnt ∷ []) clnt 16 response e _
                      (ok.client_answer g c (some (length c))) (omega (arith, size, len)),
                )
                (ap (λ zs. e ++ zs)
                    (drop_of_length_le (length e) response (omega (arith, size, len)))
                  ∙ append-nil e))

      abbrev pub Chosen : AuthInfo → History → Type 0
      Chosen info h = (info.dest_addr ≡ r.addr) × (info.forward_key ≡ r.key)

      find_entry-Goes :
          (p : List ℕ × List ℕ) (h : History)
          → Answers p h
          → Goes Chosen (find_entry des sys clnt p h)
      unfolding find_entry settle queried_or refuse
      find_entry-Goes (c, resp) h e =
          rw
            (
              find_entry,
              ok.lists h,
              settle,
              queried_or,
              authenticate-answer des r rs c resp (answer-eq des r.key c r.short ∙ ap some (sym e)),
              refuse,
            )
            (refl, refl)

      abbrev pub Ready : List ℕ × AuthInfo → History → Type 0
      Ready p h = (length p.0 ≡ 16) × Chosen p.1 h

      pub run_client-Goes :
          (buf response : List ℕ) (h : History)
          → length buf ≡ 16
          → length response ≡ 16
          → Goes Ready (run_client des sys clnt buf response h)
      unfolding run_client
      run_client-Goes buf response h sb sr =
          bind-Goes (λ _ _. Unit {0}) Ready (must_set sys clnt false h) _
            (must_set-Goes clnt false h)
            (λ _ h _.
              bind-Goes Sized Ready (client_version des sys clnt buf h) _
                (client_version-Goes buf h sb)
                (λ buf1 h s1.
                  bind-Goes Sized Ready (client_security des sys clnt buf1 h) _
                    (client_security-Goes buf1 h s1)
                    (λ buf2 h s2.
                      bind-Goes Answers Ready (client_challenge des sys clnt response h) _
                        (client_challenge-Goes response h sr)
                        (λ p h a.
                          bind-Goes Chosen Ready (find_entry des sys clnt p h) _
                            (find_entry-Goes p h a) (λ i h c. (s2, c))))))
