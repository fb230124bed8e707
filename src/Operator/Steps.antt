-- ===== src/Operator/Steps.antt =====
-- What a step of `VncOperator::run` holds.
use vncproxy.Prelude.{ℕ, ◌≡◌, ap, ◌∙◌, Bool, true, false, Option, none, some, List, [], ◌∷◌}
use vncproxy.System.{System, History, closed, received, sent, get_flags, verify, defined}
use vncproxy.System.Rules.{Holds, bind-Holds}
use vncproxy.System.Held.{held, give_up_from, give_up_first}
use vncproxy.Sockets.{must_set, set_nonblocking, change_flags}
use vncproxy.Operator.Messages.{close_all, quit, went, arrived, agree, send_or, recv_or}

module _ (first : List ℕ) where
  -- `fds` are held, and nothing is.
  abbrev pub Keeps : {A : Type 0} → List ℕ → A → History → Type 0
  Keeps fds a h = held first h ≡ some fds

  abbrev pub Ended : History → Type 0
  Ended h = held first h ≡ some []

  module _ {A : Type 0} (Q : A → History → Type 0) where
    pub quit-Ended :
        (fds : List ℕ) (h : History) → held first h ≡ some fds → Holds Q Ended (quit fds h)
    unfolding quit close_all held give_up_from
    quit-Ended [] h e = e
    quit-Ended (fd ∷ fds) h e =
        quit-Ended fds (closed fd ∷ h) (ap (give_up_from fd) e ∙ give_up_first fd fds)

  module _ (fds : List ℕ) where
    pub went-Keeps :
        (r : Option ℕ) (h : History)
        → held first h ≡ some fds
        → Holds (Keeps fds) Ended (went fds r h)
    unfolding went
    went-Keeps none h e = quit-Ended (Keeps fds) fds h e
    went-Keeps (some n) h e = e

    pub defined-Keeps :
        {A : Type 0} (o : Option A) (h : History)
        → held first h ≡ some fds
        → Holds (Keeps fds) Ended (defined o h)
    defined-Keeps none h e = tt
    defined-Keeps (some a) h e = e

    pub verify-Keeps :
        (b : Bool) (h : History) → held first h ≡ some fds → Holds (Keeps fds) Ended (verify b h)
    verify-Keeps true h e = e
    verify-Keeps false h e = tt

    arrived-Keeps :
        (buf : List ℕ) (r : Option (List ℕ)) (h : History)
        → held first h ≡ some fds
        → Holds (Keeps fds) Ended (arrived fds buf r h)
    unfolding arrived
    arrived-Keeps buf none h e = quit-Ended (Keeps fds) fds h e
    arrived-Keeps buf (some bs) h e = defined-Keeps _ h e

    pub agree-Keeps :
        (b : Bool) (h : History) → held first h ≡ some fds → Holds (Keeps fds) Ended (agree fds b h)
    unfolding agree
    agree-Keeps true h e = e
    agree-Keeps false h e = quit-Ended (Keeps fds) fds h e

    module _ (sys : System) where
      pub send_or-Keeps :
          (fd : ℕ) (bs : List ℕ) (h : History)
          → held first h ≡ some fds
          → Holds (Keeps fds) Ended (send_or sys fds fd bs h)
      unfolding send_or held
      send_or-Keeps fd bs h e = went-Keeps _ (sent fd bs _ ∷ h) e

      pub recv_or-Keeps :
          (fd n : ℕ) (buf : List ℕ) (h : History)
          → held first h ≡ some fds
          → Holds (Keeps fds) Ended (recv_or sys fds fd n buf h)
      unfolding recv_or held
      recv_or-Keeps fd n buf h e = arrived-Keeps buf _ (received fd n _ ∷ h) e

      change_flags-Keeps :
          (fd : ℕ) (b : Bool) (r : Option ℕ) (h : History)
          → held first h ≡ some fds
          → Holds (Keeps fds) Ended (change_flags sys fd b r h)
      unfolding change_flags held
      change_flags-Keeps fd b none h e = e
      change_flags-Keeps fd b (some ret) h e = e

      pub set_nonblocking-Keeps :
          (fd : ℕ) (b : Bool) (h : History)
          → held first h ≡ some fds
          → Holds (Keeps fds) Ended (set_nonblocking sys fd b h)
      unfolding set_nonblocking held
      set_nonblocking-Keeps fd b h e = change_flags-Keeps fd b _ (get_flags fd _ ∷ h) e

      pub must_set-Keeps :
          (fd : ℕ) (b : Bool) (h : History)
          → held first h ≡ some fds
          → Holds (Keeps fds) Ended (must_set sys fd b h)
      unfolding must_set
      must_set-Keeps fd b h e =
          bind-Holds (Keeps fds) (Keeps fds) Ended _ _ (set_nonblocking-Keeps fd b h e)
            (λ ok h e. verify-Keeps ok h e)
