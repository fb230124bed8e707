-- ===== src/Operator/Success.antt =====
-- A run of `VncOperator::run` with parties that cooperate.
use vncproxy.Prelude.{
  ℕ, subst, ◌≡◌, refl, sym, ap, ◌∙◌, true, List, [], ◌∷◌, ◌++◌, arith, length, drop,
}
use vncproxy.Auth.{AuthInfo, same_bytes}
use vncproxy.Auth.Match.{Entry}
use vncproxy.System.{hand_over, bind_outcome, System, History, done, handed_over}
use vncproxy.System.Rules.{Goes, bind-Goes, Goes-done}
use vncproxy.Sockets.{
  connect_to, must_set, connect_parts, connect_any, connect_first, try_connect, keep_or,
}
use vncproxy.Operator.Cooperation.{
  Cooperates, Ready, must_set-Goes, send_or-eq, recv_or-eq, run_client-Goes,
}
use vncproxy.Operator.{run, run_client, run_remote}
use vncproxy.Operator.Messages.{version, agree}
use vncproxy.Operator.Remote.{
  dial, reached, remote_version, remote_types, remote_auth, establish, scan_types, loop_bound,
  recv_size,
}

module _ (des : List ℕ → List ℕ → List ℕ) (clnt remote : ℕ) (r : Entry) (rs : List Entry) where
  module _ (sys : System) (ok : Cooperates des clnt remote r rs sys) where
    module _ (block : (k b : List ℕ) → length (des k b) ≡ 8) where
      dial-Goes :
          (addr : List ℕ) (h : History)
          → addr ≡ r.addr
          → Goes (λ fd _. fd ≡ remote) (dial des sys clnt addr h)
      unfolding dial reached connect_to connect_parts connect_any connect_first try_connect keep_or
      dial-Goes addr h e =
          rw
            (
              dial,
              connect_to,
              e,
              ok.splits,
              connect_parts,
              ok.looks_up _,
              connect_any,
              connect_first,
              ok.opens _,
              try_connect,
              ok.connects _,
              keep_or,
              reached,
            )
            refl

      run_remote-Goes :
          (buf : List ℕ) (info : AuthInfo) (h : History)
          → length buf ≡ 16
          → Goes (λ _ _. Unit {0}) (run_remote des sys clnt remote buf info h)
      unfolding run_remote remote_version remote_types remote_auth agree same_bytes scan_types
          loop_bound recv_size
      run_remote-Goes buf info h size =
          let two = remote ∷ clnt ∷ [] in
          rw
            (
              run_remote,
              remote_version,
              recv_or-eq des clnt remote r rs sys ok two remote 12 buf version h (ok.remote_hello h)
                  (omega (arith, size)),
            )
            (rw
              (
                send_or-eq des clnt remote r rs sys ok two remote version _,
                recv_or-eq des clnt remote r rs sys ok two remote 1 (version ++ drop 12 buf)
                    (1 ∷ []) _ (ok.remote_asks _) (omega arith),
                remote_types,
              )
              (rw
                (recv_or-eq des clnt remote r rs sys ok two remote 1
                  (1 ∷ drop 1 (version ++ drop 12 buf)) (1 ∷ []) _ (ok.remote_asks _) (omega arith))
                (rw (remote_auth, send_or-eq des clnt remote r rs sys ok two remote (1 ∷ []) _)
                  tt)))

      abbrev Ties : List ℕ → Unit {0} → History → Type 0
      Ties key u h = (g : History) × (h ≡ handed_over key clnt remote ∷ g)

      establish-Goes :
          (key : List ℕ) (h : History) → Goes (Ties key) (establish des sys clnt remote key h)
      unfolding establish
      establish-Goes key h =
          bind-Goes (λ _ _. Unit {0}) (Ties key) (must_set sys clnt true h) _
            (must_set-Goes des clnt remote r rs sys ok clnt true h)
            (λ _ h _.
              bind-Goes (λ _ _. Unit {0}) (Ties key) (must_set sys remote true h)
                (λ _. hand_over key clnt remote)
                (must_set-Goes des clnt remote r rs sys ok remote true h) (λ _ h _. (h, refl)))

      run-Ties :
          (buf response : List ℕ)
          → length buf ≡ 16
          → length response ≡ 16
          → Goes (Ties r.key) (run des sys clnt buf response [])
      unfolding run
      run-Ties buf response sb sr =
          bind-Goes (Ready des clnt remote r rs sys ok block) (Ties r.key)
            (run_client des sys clnt buf response []) _
            (run_client-Goes des clnt remote r rs sys ok block buf response [] sb sr)
            (λ p h e.
              bind-Goes (λ fd _. fd ≡ remote) (Ties r.key) (dial des sys clnt p.1.dest_addr h) _
                (dial-Goes p.1.dest_addr h e.1.0) (λ fd h same. after_dial p fd h e same))
        where
          after_dial :
              (p : List ℕ × AuthInfo) (fd : ℕ) (h : History)
              → Ready des clnt remote r rs sys ok block p h
              → fd ≡ remote
              → Goes (Ties r.key) (
                  bind_outcome
                    (run_remote des sys clnt fd p.0 p.1 h)
                    (λ _. establish des sys clnt fd p.1.forward_key))
          after_dial p fd h e same =
              subst
                (λ i. Goes (Ties r.key) (
                  bind_outcome (run_remote des sys clnt i p.0 p.1 h)
                    (λ _. establish des sys clnt i p.1.forward_key)))
                (sym same)
                (subst
                  (λ key. Goes (Ties r.key) (
                    bind_outcome (run_remote des sys clnt remote p.0 p.1 h)
                      (λ _. establish des sys clnt remote key)))
                  (sym e.1.1)
                  (bind-Goes (λ _ _. Unit {0}) (Ties r.key)
                    (run_remote des sys clnt remote p.0 p.1 h)
                    (λ _. establish des sys clnt remote r.key) (run_remote-Goes p.0 p.1 h e.0)
                    (λ _ h _. establish-Goes r.key h)))

      -- With a client that answers the challenge with the key of the first row (of at most 8
      -- bytes), a remote server that takes part without authentication and a system whose calls
      -- succeed, a cipher of 8-byte blocks, and arrays of 16 bytes, run comes to its end and hands
      -- both descriptors to tie_fd under that key.
      pub run-hands_over :
          (buf response : List ℕ)
          → length buf ≡ 16
          → length response ≡ 16
          → (h : History) × (run des sys clnt buf response []
              ≡ done tt (handed_over r.key clnt remote ∷ h))
      run-hands_over buf response sb sr =
          let g = Goes-done (Ties r.key) _ (run-Ties buf response sb sr) in
          (g.3.0, g.2 ∙ ap (done tt) g.3.1)
