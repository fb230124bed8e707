-- ===== src/Gateway/Watched.antt =====
-- A pair that tie_fd of vncproxy.cc made on a PollThread of polling.cc: what epoll watches for it.
use vncproxy.Prelude.{
  ℕ, ◌≡◌, ◌≢◌, ◌⊎◌, inl, inr, refl, ap, subst, ◌∙◌, Bool-cases, false, some, arith, List, [],
}
use vncproxy.Kernel.{Kernel, Drains}
use vncproxy.Marshal
use vncproxy.Marshal.Valid.{contents}
use vncproxy.Poller.{Poller, Pollable, both_modes}
use vncproxy.Polling.{Epoll, has, mode_interest}
use vncproxy.Polling.AsPoller.{InStep, thread_poller}
use vncproxy.Polling.Fills.{mode_of}
use vncproxy.Gateway.{EndPoint, pollable, new_end_point, ready, tie, tie_fd, Leaders}
use vncproxy.Gateway.Flow.{bind-some}
use vncproxy.Gateway.Relay.{World, Reaches}
use vncproxy.Gateway.Armed.{Armed, ArmedBoth, Reaches-ArmedBoth}
use vncproxy.Gateway.Tied.{World_of, tie_fd-Relays}

module _ (k : Kernel) (poller : Poller) where
  -- The pair that tie_fd makes has nothing to write.
  tie_fd-ArmedBoth :
      (key : List ℕ) (a1 fd1 a2 fd2 : ℕ) (leaders : Leaders) (s : k.State) (p : poller.State)
      (out : EndPoint × EndPoint × Leaders × poller.State)
      → a1 ≢ a2
      → tie_fd k poller key a1 fd1 a2 fd2 leaders p ≡ some out
      → ArmedBoth k poller (World_of k poller s out)
  unfolding tie_fd tie ready new_end_point Marshal.empty
  tie_fd-ArmedBoth key a1 fd1 a2 fd2 leaders s p out h e =
      let done =
        bind-some (poller.add (pollable (tie (new_end_point a1 fd1) key leaders).0) p)
          (poller.add (pollable (new_end_point a2 fd2)))
          (λ p''. (
            ready (tie (new_end_point a1 fd1) key leaders).0,
            ready (new_end_point a2 fd2),
            (tie (new_end_point a1 fd1) key leaders).1,
            p'',
          ))
          out e in
      subst (λ z. ArmedBoth k poller (World_of k poller s z)) done.4
        (record { addresses = h; first_armed = inl refl; second_armed = inl refl })

module _ (e : Epoll) (o : ℕ → Pollable) (named : (a : ℕ) → (o a).address ≡ a) where
  -- Nothing waits, or the object is not registered, or epoll watches it for reading and writing.
  abbrev pub Watched : EndPoint → InStep e o named → Type 0
  Watched self s =
      (contents self.buf ≡ [])
      ⊎ (has (o self.address) s.thread.poll_set ≡ false)
      ⊎ (e.interest s.thread.epoll (o self.address).fd
          ≡ some (mode_interest e (o self.address) both_modes))

  Armed-Watched :
      (self : EndPoint) (s : InStep e o named)
      → Armed (thread_poller e o named) self s
      → Watched self s
  unfolding mode_of
  Armed-Watched self s (inl z) = inl z
  Armed-Watched self s (inr z) = elim (Bool-cases (has (o self.address) s.thread.poll_set)) [
    | inr m ↦ inr (inl m)
    | inl m ↦
        let r = s.in_step.registered self.address m in
        elim z [
          | inl n ↦ absurd (ground (arith, n, m, r.found))
          | inr n ↦
              let both : r.as_mode ≡ both_modes = ground (arith, n, m, r.found) in
              inr (inr (r.watched ∙ ap (λ w. some (mode_interest e (o self.address) w)) both))
        ]
  ]

  module _ (k : Kernel) where
    -- From a pair that tie_fd made of two different descriptors, with objects at different
    -- addresses, on a PollThread of polling.cc in step whose objects keep their descriptors and
    -- modes, wherever a run of events within their bounds leads, each end point has nothing to
    -- write, or is not in poll_set_, or is watched by epoll for reading and writing.
    pub tie_fd-Watched :
        (drains : Drains k) (key : List ℕ) (a1 fd1 a2 fd2 : ℕ) (leaders : Leaders) (s : k.State)
        (p : InStep e o named) (out : EndPoint × EndPoint × Leaders × InStep e o named)
        (w : World k (thread_poller e o named))
        → a1 ≢ a2
        → fd1 ≢ fd2
        → tie_fd k (thread_poller e o named) key a1 fd1 a2 fd2 leaders p ≡ some out
        → Reaches k (thread_poller e o named) drains (World_of k (thread_poller e o named) s out) w
        → Watched w.first w.poll × Watched w.second w.poll
    tie_fd-Watched drains key a1 fd1 a2 fd2 leaders s p out w ha hf t run =
        let poller = thread_poller e o named in
        let both =
          Reaches-ArmedBoth k poller drains (k.received s fd1) (k.received s fd2) (k.sent s fd1)
            (k.sent s fd2) fd1 fd2 (tie_fd-Relays k poller key a1 fd1 a2 fd2 leaders s p out hf t)
            (tie_fd-ArmedBoth k poller key a1 fd1 a2 fd2 leaders s p out ha t) run in
        (
          Armed-Watched w.first w.poll both.first_armed,
          Armed-Watched w.second w.poll both.second_armed,
        )
