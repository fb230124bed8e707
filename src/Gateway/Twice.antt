-- ===== src/Gateway/Twice.antt =====
-- Two errors of one pair in one round of the poll thread.
use vncproxy.Prelude.{
  ℕ, subst, ◌-◌, ◌<◌, ◌≡◌, ◌≢◌, refl, sym, ap, ◌∙◌, true, false, none, some, ◌∷◌, arith, ◌>>=◌,
  lt→ltb,
}
use vncproxy.Poller.{Pollable}
use vncproxy.Polling
use vncproxy.Polling.{Epoll, PollThread, Counts, set_count, release, find, has}
use vncproxy.Polling.Registry.{find-erase, has-insert, has-remove_from}
use vncproxy.Polling.Invariant.{IsThread, removed, removed-IsThread}
use vncproxy.Polling.Methods.{remove-eq}
use vncproxy.Gateway.{EndPoint, pollable}
use vncproxy.Gateway.Shutdown.{
  Shared, alive, leave, let_go, shutdown_peer, shutdown, handle_error, erase_leader,
}

module _ (e : Epoll) where
  leave-eq :
      (self : EndPoint) (sh : Shared e) (t : PollThread e)
      → 0 < sh.counts self.address
      → Polling.remove e (pollable self) sh.thread ≡ some t
      → leave e self sh ≡ some (record sh { thread = t; closed = self.fd ∷ sh.closed })
  unfolding leave alive
  leave-eq self sh t pos r = rw (leave, alive, lt→ltb 0 (sh.counts self.address) pos, r, ◌>>=◌) refl

  let_go-eq :
      (self : EndPoint) (sh : Shared e)
      → 0 < sh.counts self.address
      → let_go e self sh
        ≡ some
            (record sh { counts = set_count self.address (sh.counts self.address - 1) sh.counts })
  unfolding let_go release
  let_go-eq self sh pos = rw (let_go, release, lt→ltb 0 (sh.counts self.address) pos, ◌>>=◌) refl

  alive-eq :
      (self : EndPoint) (sh : Shared e) → 0 < sh.counts self.address → alive e self sh ≡ some tt
  unfolding alive
  alive-eq self sh h = rw (alive, lt→ltb 0 (sh.counts self.address) h) refl

  dead-eq : (self : EndPoint) (sh : Shared e) → sh.counts self.address ≡ 0 → alive e self sh ≡ none
  unfolding alive
  dead-eq self sh h = rw (alive, h) refl

  -- A pair whose peer has one reference left and that is not in the thread any more.
  late-shutdown :
      (leader peer : EndPoint) (sh : Shared e)
      → leader.address ≢ peer.address
      → sh.counts leader.address ≡ 1
      → sh.counts peer.address ≡ 1
      → Polling.remove e (pollable leader) sh.thread ≡ some sh.thread
      → Polling.remove e (pollable peer) sh.thread ≡ some sh.thread
      → shutdown e leader peer sh ≡ none
  unfolding shutdown shutdown_peer alive
  late-shutdown leader peer sh ne one two rl rp =
      let left : Shared e = record sh { closed = leader.fd ∷ sh.closed } in
      let down : Shared e = record sh { closed = peer.fd ∷ leader.fd ∷ sh.closed } in
      rw
        (
          shutdown,
          leave-eq leader sh sh.thread (omega (arith, one)) rl,
          shutdown_peer,
          leave-eq peer left sh.thread (omega (arith, two)) rp,
          let_go-eq peer down (omega (arith, two)),
          ◌>>=◌,
          alive,
        )
        (rw
          (
            dead-eq peer
                (record down {
                  counts = set_count peer.address (sh.counts peer.address - 1) sh.counts;
                })
                (ground (arith, two)),
            ◌>>=◌,
          )
          refl)

  -- The first time: both leave the thread and keep the reference that the thread holds.
  abbrev pub after_one : EndPoint → EndPoint → PollThread e → Shared e → Shared e
  after_one leader peer t sh = record {
    thread = t;
    counts =
        let counts' = set_count peer.address (sh.counts peer.address - 1) sh.counts in
        set_count leader.address (counts' leader.address - 1) counts';
    leaders = erase_leader leader.forward_key leader.address sh.leaders;
    closed = peer.fd ∷ leader.fd ∷ sh.closed;
  }

  pub first-shutdown :
      (leader peer : EndPoint) (sh : Shared e) (t1 t2 : PollThread e)
      → leader.address ≢ peer.address
      → sh.counts leader.address ≡ 2
      → sh.counts peer.address ≡ 2
      → Polling.remove e (pollable leader) sh.thread ≡ some t1
      → Polling.remove e (pollable peer) t1 ≡ some t2
      → shutdown e leader peer sh ≡ some (after_one leader peer t2 sh)
  unfolding shutdown shutdown_peer
  first-shutdown leader peer sh t1 t2 ne one two rl rp =
      let left : Shared e = record sh { thread = t1; closed = leader.fd ∷ sh.closed } in
      let down : Shared e = record sh { thread = t2; closed = peer.fd ∷ leader.fd ∷ sh.closed } in
      let gone : Shared e = record down {
        counts = set_count peer.address (sh.counts peer.address - 1) sh.counts;
      } in
      rw
        (
          shutdown,
          leave-eq leader sh t1 (omega (arith, one)) rl,
          shutdown_peer,
          leave-eq peer left t2 (omega (arith, two)) rp,
          let_go-eq peer down (omega (arith, two)),
          ◌>>=◌,
        )
        (rw
          (
            alive-eq peer gone (ground (arith, two)),
            let_go-eq leader
                (record gone {
                  leaders = erase_leader leader.forward_key leader.address sh.leaders;
                })
                (ground (arith, one, ne)),
            ◌>>=◌,
          )
          refl)

  absent-eq :
      (q : Pollable) (t : PollThread e)
      → has q t.poll_set ≡ false
      → find q.fd t.mode ≡ none
      → Polling.remove e q t ≡ some t
  unfolding Polling.remove
  absent-eq q t h f = rw (Polling.remove, h, f, ◌>>=◌) refl

  pub handle_error-leader :
      (self peer : EndPoint) (sh : Shared e)
      → self.enabled ≡ true
      → self.leader ≡ true
      → handle_error e self peer sh ≡ shutdown e self peer sh
  unfolding handle_error
  handle_error-leader self peer sh on lead = ground (arith, on, lead)

  handle_error-peer :
      (self peer : EndPoint) (sh : Shared e)
      → self.enabled ≡ true
      → self.leader ≡ false
      → handle_error e self peer sh ≡ shutdown e peer self sh
  unfolding handle_error
  handle_error-peer self peer sh on lead = ground (arith, on, lead)

  -- For a registered pair on a thread in step, whose end points have different addresses and two
  -- references each, both enabled and the first the leader, handle_error run on the leader and then
  -- on the other with no end of a round between: the first leaves each with one reference and in
  -- pending_remove, and the second uses a deleted object.
  pub shutdown-twice :
      (o : ℕ → Pollable) (named : (a : ℕ) → (o a).address ≡ a) (leader peer : EndPoint)
      (sh : Shared e)
      → (leader.enabled ≡ true) × (leader.leader ≡ true)
      → (peer.enabled ≡ true) × (peer.leader ≡ false)
      → o leader.address ≡ pollable leader
      → o peer.address ≡ pollable peer
      → leader.address ≢ peer.address
      → IsThread e o sh.thread
      → has (pollable leader) sh.thread.poll_set ≡ true
      → has (pollable peer) sh.thread.poll_set ≡ true
      → sh.counts leader.address ≡ 2
      → sh.counts peer.address ≡ 2
      → (sh' : Shared e) × (handle_error e leader peer sh ≡ some sh')
        × (sh'.counts leader.address ≡ 1)
        × (sh'.counts peer.address ≡ 1)
        × (has (pollable leader) sh'.thread.pending_remove ≡ true)
        × (has (pollable peer) sh'.thread.pending_remove ≡ true)
        × (handle_error e peer leader sh' ≡ none)
  shutdown-twice o named leader peer sh onl onp el ep ne v hl hp one two =
      let hl' : has (o leader.address) sh.thread.poll_set ≡ true =
        ap (λ q. has q sh.thread.poll_set) el ∙ hl in
      let t1 = removed e o named leader.address sh.thread v hl' in
      let v1 = removed-IsThread e o named leader.address sh.thread v hl' in
      let hp' : has (o peer.address) t1.poll_set ≡ true = ground (
        arith,
        has-remove_from (o leader.address) (o peer.address) sh.thread.poll_set,
        named leader.address,
        named peer.address,
        ne,
        ap (λ q. has q sh.thread.poll_set) ep ∙ hp,
      ) in
      let t2 = removed e o named peer.address t1 v1 hp' in
      let rl : Polling.remove e (pollable leader) sh.thread ≡ some t1 =
        ap (λ q. Polling.remove e q sh.thread) (sym el)
        ∙ remove-eq e o named leader.address sh.thread v hl' in
      let rp : Polling.remove e (pollable peer) t1 ≡ some t2 =
        ap (λ q. Polling.remove e q t1) (sym ep) ∙ remove-eq e o named peer.address t1 v1 hp' in
      let al : Polling.remove e (pollable leader) t2 ≡ some t2 =
        absent-eq (pollable leader) t2
          (subst (λ q. has q t2.poll_set ≡ false) el
            (ground (
              arith,
              has-remove_from (o peer.address) (o leader.address) t1.poll_set,
              has-remove_from (o leader.address) (o leader.address) sh.thread.poll_set,
            )))
          (subst (λ q. find q.fd t2.mode ≡ none) el
            (ground (
              arith,
              find-erase (o peer.address).fd t1.mode (o leader.address).fd,
              find-erase (o leader.address).fd sh.thread.mode (o leader.address).fd,
            ))) in
      let ap' : Polling.remove e (pollable peer) t2 ≡ some t2 =
        absent-eq (pollable peer) t2
          (subst (λ q. has q t2.poll_set ≡ false) ep
            (ground (arith, has-remove_from (o peer.address) (o peer.address) t1.poll_set)))
          (subst (λ q. find q.fd t2.mode ≡ none) ep
            (ground (arith, find-erase (o peer.address).fd t1.mode (o peer.address).fd))) in
      let c1 : (after_one leader peer t2 sh).counts leader.address ≡ 1 = ground (arith, one, ne) in
      let c2 : (after_one leader peer t2 sh).counts peer.address ≡ 1 = ground (arith, two, ne) in
      (
        after_one leader peer t2 sh,
        handle_error-leader leader peer sh onl.0 onl.1
            ∙ first-shutdown leader peer sh t1 t2 ne one two rl rp,
        c1,
        c2,
        subst (λ q. has q t2.pending_remove ≡ true) el
            (ground (
              arith,
              has-insert (o peer.address) (o leader.address) t1.pending_remove,
              has-insert (o leader.address) (o leader.address) sh.thread.pending_remove,
            )),
        subst (λ q. has q t2.pending_remove ≡ true) ep
            (ground (arith, has-insert (o peer.address) (o peer.address) t1.pending_remove)),
        handle_error-peer peer leader (after_one leader peer t2 sh) onp.0 onp.1
            ∙ late-shutdown leader peer (after_one leader peer t2 sh) ne c1 c2 al ap',
      )
