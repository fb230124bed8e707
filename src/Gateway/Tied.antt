-- ===== src/Gateway/Tied.antt =====
-- `tie_fd` and what follows it.
use vncproxy.Prelude.{ℕ, ◌≡◌, ◌≢◌, refl, sym, ap, ◌∙◌, some, List, [], ◌++◌, append-nil, subst}
use vncproxy.Kernel.{Kernel, Drains}
use vncproxy.Marshal.{Marshal}
use vncproxy.Marshal
use vncproxy.Marshal.Valid.{contents}
use vncproxy.Poller.{Poller}
use vncproxy.Gateway.{EndPoint, pollable, new_end_point, ready, tie, tie_fd, Leaders}
use vncproxy.Gateway.Flow.{Flow, bind-some}
use vncproxy.Gateway.Relay.{World, Reaches, Relays, Reaches-Relays}

module _ (k : Kernel) (poller : Poller) where
  abbrev pub World_of : k.State → EndPoint × EndPoint × Leaders × poller.State → World k poller
  World_of s out = record { first = out.0; second = out.1; kernel = s; poll = out.3 }

  Flow-fresh :
      (from to : ℕ) (s : k.State) → Flow k (k.received s from) (k.sent s to) from to Marshal.empty s
  unfolding Marshal.empty
  Flow-fresh from to s = record {
    went = [];
    came_eq = sym (append-nil (k.received s from));
    went_eq = sym (append-nil (k.sent s to));
    valid = tt;
  }

  -- The pair that `tie_fd` makes, with nothing sent yet.
  pub tie_fd-Relays :
      (key : List ℕ) (a1 fd1 a2 fd2 : ℕ) (leaders : Leaders) (s : k.State) (p : poller.State)
      (out : EndPoint × EndPoint × Leaders × poller.State)
      → fd1 ≢ fd2
      → tie_fd k poller key a1 fd1 a2 fd2 leaders p ≡ some out
      → Relays k poller
          (k.received s fd1)
          (k.received s fd2)
          (k.sent s fd1)
          (k.sent s fd2)
          fd1
          fd2
          (World_of s out)
  unfolding tie_fd tie ready new_end_point
  tie_fd-Relays key a1 fd1 a2 fd2 leaders s p out h e =
      let done =
        bind-some (poller.add (pollable (tie (new_end_point a1 fd1) key leaders).0) p)
          (poller.add (pollable (new_end_point a2 fd2)))
          (λ p''. (
            ready (tie (new_end_point a1 fd1) key leaders).0,
            ready (new_end_point a2 fd2),
            (tie (new_end_point a1 fd1) key leaders).1,
            p'',
          ))
          out e in
      subst
        (λ z.
          Relays k poller (k.received s fd1) (k.received s fd2) (k.sent s fd1) (k.sent s fd2) fd1
            fd2 (World_of s z))
        done.4
        (record {
          first_fd = refl;
          second_fd = refl;
          apart = h;
          first_enabled = refl;
          second_enabled = refl;
          forth = Flow-fresh fd1 fd2 s;
          back = Flow-fresh fd2 fd1 s;
        })

  -- From a pair that tie_fd made of two different descriptors, wherever a run of events leads, what
  -- came from each descriptor since then is what went to the other, in order, followed by the
  -- content of the other's buffer. Each event is within its bounds: fewer bytes to read than
  -- int_limit and than its rounds, an int of bytes to write, and other parts of the process leave
  -- the two descriptors and registrations alone.
  pub tie_fd-Reaches :
      (drains : Drains k) (key : List ℕ) (a1 fd1 a2 fd2 : ℕ) (leaders : Leaders) (s : k.State)
      (p : poller.State) (out : EndPoint × EndPoint × Leaders × poller.State) (w : World k poller)
      → fd1 ≢ fd2
      → tie_fd k poller key a1 fd1 a2 fd2 leaders p ≡ some out
      → Reaches k poller drains (World_of s out) w
      → (forth back : List ℕ) × (k.received w.kernel fd1
          ≡ k.received s fd1 ++ (forth ++ contents w.second.buf))
        × (k.sent w.kernel fd2 ≡ k.sent s fd2 ++ forth)
        × (k.received w.kernel fd2 ≡ k.received s fd2 ++ (back ++ contents w.first.buf))
        × (k.sent w.kernel fd1 ≡ k.sent s fd1 ++ back)
  tie_fd-Reaches drains key a1 fd1 a2 fd2 leaders s p out w h e run =
      let r =
        Reaches-Relays k poller (k.received s fd1) (k.received s fd2) (k.sent s fd1) (k.sent s fd2)
          fd1 fd2 drains (tie_fd-Relays key a1 fd1 a2 fd2 leaders s p out h e) run in
      (
        r.forth.went,
        r.back.went,
        ap (k.received w.kernel) (sym r.first_fd) ∙ r.forth.came_eq,
        ap (k.sent w.kernel) (sym r.second_fd) ∙ r.forth.went_eq,
        ap (k.received w.kernel) (sym r.second_fd) ∙ r.back.came_eq,
        ap (k.sent w.kernel) (sym r.first_fd) ∙ r.back.went_eq,
      )
