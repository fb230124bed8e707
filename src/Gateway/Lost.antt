-- ===== src/Gateway/Lost.antt =====
-- Events that the poll thread handles between the `add` and the `ready` of tie_fd of vncproxy.cc.
use vncproxy.Prelude.{
  ℕ, ◌==◌, ◌≡◌, ◌≢◌, refl, sym, ap, subst, ◌∙◌, Bool, true, false, Option, some, List, ◌>>=◌, arith,
  Bool-cases, Option-cases, inl, inr,
}
use vncproxy.Kernel.{Kernel}
use vncproxy.Poller.{Poller, Pollable}
use vncproxy.Polling.{Epoll}
use vncproxy.Polling.Loop.{Ready, Handlers, call_if, handle_event}
use vncproxy.Polling.AsPoller.{InStep, thread_poller}
use vncproxy.Polling.Edge.{EdgeTriggered, after_report}
use vncproxy.Gateway.{
  EndPoint, Leaders, pollable, new_end_point, tie, ready, tie_fd, handle_read, handle_write,
}
use vncproxy.Gateway.Flow.{bind-some}
use vncproxy.Gateway.Tied.{World_of}
use vncproxy.Gateway.Relay.{
  World, step, first_readable, first_writable, second_readable, second_writable,
}
use vncproxy.Gateway.Dispatch.{choose, end_pair, pair_handlers}
use vncproxy.Gateway.Edges.{tie_adds, enable, fd_of, Pair, with_report, Turn, turn}

module _ {S : Type 0} where
  -- A handler that does nothing where it has a result.
  abbrev Idle : (S → Option S) → S → Type 0
  Idle f s = (t : S) → f s ≡ some t → t ≡ s

  call_if-Idle : (b : Bool) (f : S → Option S) (s : S) → Idle f s → Idle (call_if b f) s
  unfolding call_if
  call_if-Idle true f s h t q = h t q
  call_if-Idle false f s h t q = ground (arith, q)

  bind-Idle : (f g : S → Option S) (s : S) → Idle f s → Idle g s → Idle (λ x. f x >>= g) s
  bind-Idle f g s hf hg t q = elim (Option-cases (f s)) [
    | inl z ↦ absurd (ground (arith, q, z))
    | inr (u, z) ↦
        let next : g u ≡ some t = sym (ap (λ x. x >>= g) z) ∙ q in
        hg t (subst (λ x. g x ≡ some t) (hf u z) next)
  ]

  handle_event-Idle :
      (on : Handlers S) (ev : Ready) (s : S)
      → Idle (on.handle_read ev.ptr) s
      → Idle (on.handle_write ev.ptr) s
      → Idle (on.handle_error ev.ptr) s
      → Idle (handle_event on ev) s
  unfolding handle_event
  handle_event-Idle on ev s r w x t q = elim (Bool-cases (ev.ptr == 0)) [
    | inl z ↦ absurd (ground (arith, q, z))
    | inr z ↦
        bind-Idle (call_if ev.readable (on.handle_read ev.ptr))
          (λ y.
            call_if ev.writable (on.handle_write ev.ptr) y
            >>= call_if ev.broken (on.handle_error ev.ptr))
          s (call_if-Idle ev.readable (on.handle_read ev.ptr) s r)
          (bind-Idle (call_if ev.writable (on.handle_write ev.ptr))
            (call_if ev.broken (on.handle_error ev.ptr)) s
            (call_if-Idle ev.writable (on.handle_write ev.ptr) s w)
            (call_if-Idle ev.broken (on.handle_error ev.ptr) s x))
          t (sym (rw (handle_event, z, ◌>>=◌) refl) ∙ q)
  ]

module _ (k : Kernel) (poller : Poller) where
  choose-same :
      (a : ℕ) (w t : World k poller) (x y : Option (World k poller))
      → x ≡ some w
      → y ≡ some w
      → choose k poller a w x y ≡ some t
      → t ≡ w
  unfolding choose
  choose-same a w t x y p q h = ground (arith, p, q, h)

  module _ (w : World k poller) (first_off : w.first.enabled ≡ false)
      (second_off : w.second.enabled ≡ false) where
    read_first : (fuel : ℕ) → step k poller (first_readable fuel) w ≡ some w
    unfolding step handle_read
    read_first fuel = ground (arith, first_off)

    read_second : (fuel : ℕ) → step k poller (second_readable fuel) w ≡ some w
    unfolding step handle_read
    read_second fuel = ground (arith, second_off)

    write_first : step k poller first_writable w ≡ some w
    unfolding step handle_write
    write_first = ground (arith, first_off)

    write_second : step k poller second_writable w ≡ some w
    unfolding step handle_write
    write_second = ground (arith, second_off)

    end_first : end_pair k poller w.first w ≡ some w
    unfolding end_pair
    end_first = ground (arith, first_off)

    end_second : end_pair k poller w.second w ≡ some w
    unfolding end_pair
    end_second = ground (arith, second_off)

    -- An event of a pair that is not enabled yet changes nothing.
    pub handle_event-off :
        (fuel : ℕ) (ev : Ready) (t : World k poller)
        → handle_event (pair_handlers k poller fuel) ev w ≡ some t
        → t ≡ w
    unfolding pair_handlers
    handle_event-off fuel ev =
        handle_event-Idle (pair_handlers k poller fuel) ev w
          (λ t q. choose-same ev.ptr w t _ _ (read_first fuel) (read_second fuel) q)
          (λ t q. choose-same ev.ptr w t _ _ write_first write_second q)
          (λ t q. choose-same ev.ptr w t _ _ end_first end_second q)

  -- `tie_fd` is its two halves.
  pub tie_fd-halves :
      (key : List ℕ) (a1 fd1 a2 fd2 : ℕ) (leaders : Leaders) (p : poller.State)
      → tie_fd k poller key a1 fd1 a2 fd2 leaders p ≡ (do
        out ← tie_adds k poller key a1 fd1 a2 fd2 leaders p
        some (ready out.0, ready out.1, out.2, out.3))
  unfolding tie_fd tie_adds
  tie_fd-halves key a1 fd1 a2 fd2 leaders p =
      elim (Option-cases (poller.add (pollable (tie (new_end_point a1 fd1) key leaders).0) p)) [
        | inl z ↦ rw (tie_fd, tie_adds, z, ◌>>=◌) refl
        | inr (p', z) ↦ elim (Option-cases (poller.add (pollable (new_end_point a2 fd2)) p')) [
          | inl y ↦ rw (tie_fd, tie_adds, z, ◌>>=◌, y) refl
          | inr (p'', y) ↦ rw (tie_fd, tie_adds, z, ◌>>=◌, y) refl
        ]
      ]

  record Fresh (a1 fd1 a2 fd2 : ℕ) (out : EndPoint × EndPoint × Leaders × poller.State)
      : Type 0 where
    first_off : out.0.enabled ≡ false
    second_off : out.1.enabled ≡ false
    first_at : out.0.address ≡ a1
    second_at : out.1.address ≡ a2
    first_fd : out.0.fd ≡ fd1
    second_fd : out.1.fd ≡ fd2

  tie_adds-Fresh :
      (key : List ℕ) (a1 fd1 a2 fd2 : ℕ) (leaders : Leaders) (p : poller.State)
      (out : EndPoint × EndPoint × Leaders × poller.State)
      → tie_adds k poller key a1 fd1 a2 fd2 leaders p ≡ some out
      → Fresh a1 fd1 a2 fd2 out
  unfolding tie_adds tie new_end_point
  tie_adds-Fresh key a1 fd1 a2 fd2 leaders p out h =
      let done =
        bind-some (poller.add (pollable (tie (new_end_point a1 fd1) key leaders).0) p)
          (poller.add (pollable (new_end_point a2 fd2)))
          (λ p''. (
            (tie (new_end_point a1 fd1) key leaders).0,
            new_end_point a2 fd2,
            (tie (new_end_point a1 fd1) key leaders).1,
            p'',
          ))
          out h in
      subst (Fresh a1 fd1 a2 fd2) done.4 (record {
        first_off = refl;
        second_off = refl;
        first_at = refl;
        second_at = refl;
        first_fd = refl;
        second_fd = refl;
      })

module _ (k : Kernel) (e : Epoll) (edges : EdgeTriggered e) (o : ℕ → Pollable)
    (named : (a : ℕ) → (o a).address ≡ a) (fuel : ℕ) where
  abbrev poller : Poller
  poller = thread_poller e o named

  -- The turn only takes the event.
  record Took (a : ℕ) (w v : Pair k e edges o named fuel) : Type 0 where
    fd : ℕ
    of_object : fd_of k poller a w ≡ some fd
    same : v ≡ with_report k e edges o named fuel fd w

  Turn-Took :
      (a : ℕ) (w v : Pair k e edges o named fuel)
      → w.first.enabled ≡ false
      → w.second.enabled ≡ false
      → Turn k e edges o named fuel a w v
      → Took a w v
  Turn-Took a w v f s (turn ev fd p q d h) = record {
    fd = fd;
    of_object = q;
    same = handle_event-off k poller (with_report k e edges o named fuel fd w) f s fuel ev _ h;
  }

  -- No event of either end point is due.
  abbrev Quiet : Pair k e edges o named fuel → Type 0
  Quiet w =
      (edges.due w.poll.thread.epoll w.first.fd ≡ false)
      × (edges.due w.poll.thread.epoll w.second.fd ≡ false)

  Quiet-still :
      (w z : Pair k e edges o named fuel) (a : ℕ)
      → Quiet w
      → ¬ Turn k e edges o named fuel a (enable k poller w) z
  unfolding enable ready fd_of
  Quiet-still w z a (q1, q2) (turn ev fd p f d h) = ground (arith, q1, q2, f, d)

  -- Where the poll thread handles a due event of each end point, at different addresses, after the
  -- adds of tie_fd and before its ready, the handlers leave what the descriptors have unread, and
  -- once both end points are enabled no event of either is due: until something else comes, neither
  -- is handled.
  pub tie_adds-lost :
      (key : List ℕ) (a1 fd1 a2 fd2 : ℕ) (leaders : Leaders) (s : k.State) (p : InStep e o named)
      (out : EndPoint × EndPoint × Leaders × InStep e o named) (u v : Pair k e edges o named fuel)
      → a1 ≢ a2
      → tie_adds k poller key a1 fd1 a2 fd2 leaders p ≡ some out
      → Turn k e edges o named fuel a1 (World_of k poller s out) u
      → Turn k e edges o named fuel a2 u v
      → (v.kernel ≡ s)
        × ((a : ℕ) (z : Pair k e edges o named fuel)
            → ¬ Turn k e edges o named fuel a (enable k poller v) z)
  unfolding fd_of after_report
  tie_adds-lost key a1 fd1 a2 fd2 leaders s p out u v ne t one two =
      let w = World_of k poller s out in
      let f = tie_adds-Fresh k poller key a1 fd1 a2 fd2 leaders p out t in
      let x = Turn-Took a1 w u f.first_off f.second_off one in
      let y =
        Turn-Took a2 u v
          (ap (λ (i : Pair k e edges o named fuel). i.first.enabled) x.same ∙ f.first_off)
          (ap (λ (i : Pair k e edges o named fuel). i.second.enabled) x.same ∙ f.second_off) two in
      let fd_x : x.fd ≡ fd1 = ground (arith, x.of_object, f.first_at, f.first_fd) in
      let r = λ (n : ℕ) (i : Pair k e edges o named fuel). with_report k e edges o named fuel n i in
      let seen : fd_of k poller a2 (r x.fd w) ≡ some y.fd =
        subst (λ (i : Pair k e edges o named fuel). fd_of k poller a2 i ≡ some y.fd) x.same
          y.of_object in
      let fd_y : y.fd ≡ fd2 = ground (arith, seen, f.first_at, f.second_at, f.second_fd, ne) in
      let both : v ≡ r fd2 (r fd1 w) =
        y.same
        ∙ ap (r y.fd) x.same
        ∙ ap (λ n. r y.fd (r n w)) fd_x
        ∙ ap (λ n. r n (r fd1 w)) fd_y in
      let once = edges.due-report fd1 out.3.thread.epoll in
      let twice = edges.due-report fd2 (edges.report fd1 out.3.thread.epoll) in
      let quiet : Quiet (r fd2 (r fd1 w)) = (
        ground (arith, once out.0.fd, twice out.0.fd, f.first_fd),
        ground (arith, once out.1.fd, twice out.1.fd, f.second_fd),
      ) in
      (
        ap (λ (i : Pair k e edges o named fuel). i.kernel) both,
        λ a z. Quiet-still v z a (subst Quiet (sym both) quiet),
      )
