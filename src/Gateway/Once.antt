-- ===== src/Gateway/Once.antt =====
-- One error of a pair, and the end of the round.
use vncproxy.Prelude.{
  ℕ, ◌-◌, ◌<◌, ◌≡◌, ◌≢◌, refl, sym, ap, ◌∙◌, true, some, ◌∷◌, arith, ◌>>=◌, lt→ltb, if◌then◌else◌,
  [],
}
use vncproxy.Poller.{Pollable}
use vncproxy.Polling
use vncproxy.Polling.{Epoll, PollThread, Counts, set_count, release, find, has}
use vncproxy.Polling.Registry.{has-remove_from}
use vncproxy.Polling.Invariant.{IsThread, removed, removed-IsThread}
use vncproxy.Polling.Methods.{remove-eq}
use vncproxy.Gateway.Twice.{after_one, first-shutdown, handle_error-leader}
use vncproxy.Gateway.{EndPoint, pollable}
use vncproxy.Gateway.Shutdown.{Shared, handle_error}

module _ (e : Epoll) where
  release-eq :
      (a : ℕ) (counts : Counts)
      → 0 < counts a
      → release a counts ≡ some (set_count a (counts a - 1) counts)
  unfolding release
  release-eq a counts pos = rw (release, lt→ltb 0 (counts a) pos, ◌>>=◌) refl

  -- The end of a round with two objects to remove that have one reference each.
  remove_all-pair :
      (q r : Pollable) (mode : Polling.Modes) (s : e.State) (counts : Counts)
      → q.address ≢ r.address
      → counts q.address ≡ 1
      → counts r.address ≡ 1
      → (s' : e.State) × (counts' : Counts) × (Polling.remove_all e (q ∷ r ∷ []) mode s counts
          ≡ some (s', counts'))
        × (counts' q.address ≡ 0)
        × (counts' r.address ≡ 0)
  unfolding Polling.remove_all
  remove_all-pair q r mode s counts ne one two =
      let counts1 : Counts = set_count q.address (counts q.address - 1) counts in
      let s1 = if Polling.is_some (find q.fd mode) then s else e.ctl_del q.fd s in
      let still : 0 < counts1 r.address = ground (arith, two, ne) in
      (
        (if Polling.is_some (find r.fd mode) then s1 else e.ctl_del r.fd s1),
        set_count r.address (counts1 r.address - 1) counts1,
        rw
            (
              Polling.remove_all,
              lt→ltb 0 (counts q.address) (omega (arith, one)),
              release-eq q.address counts (omega (arith, one)),
              lt→ltb 0 (counts1 r.address) still,
              release-eq r.address counts1 still,
              ◌>>=◌,
            )
            refl,
        ground (arith, one, ne),
        ground (arith, two, ne),
      )

  -- What the two removals of a pair make of the thread.
  pub record Removal (o : ℕ → Pollable) (leader peer : EndPoint) (t : PollThread e) : Type 0 where
    pub t1 : PollThread e
    pub t2 : PollThread e
    pub first_removed : Polling.remove e (pollable leader) t ≡ some t1
    pub peer_removed : Polling.remove e (pollable peer) t1 ≡ some t2
    pub in_step : IsThread e o t2
    pub others :
        (b : ℕ)
        → leader.address ≢ b
        → peer.address ≢ b
        → has (o b) t2.poll_set ≡ has (o b) t.poll_set
    pub pending :
        t2.pending_remove
        ≡ Polling.insert (pollable peer) (Polling.insert (pollable leader) t.pending_remove)

  pub pair-Removal :
      (o : ℕ → Pollable) (named : (a : ℕ) → (o a).address ≡ a) (leader peer : EndPoint)
      (t : PollThread e)
      → o leader.address ≡ pollable leader
      → o peer.address ≡ pollable peer
      → leader.address ≢ peer.address
      → IsThread e o t
      → has (pollable leader) t.poll_set ≡ true
      → has (pollable peer) t.poll_set ≡ true
      → Removal o leader peer t
  pair-Removal o named leader peer t el ep ne v hl hp =
      let hl' : has (o leader.address) t.poll_set ≡ true = ap (λ q. has q t.poll_set) el ∙ hl in
      let t1 = removed e o named leader.address t v hl' in
      let hp' : has (o peer.address) t1.poll_set ≡ true = ground (
        arith,
        has-remove_from (o leader.address) (o peer.address) t.poll_set,
        named leader.address,
        named peer.address,
        ne,
        ap (λ q. has q t.poll_set) ep ∙ hp,
      ) in
      let v1 = removed-IsThread e o named leader.address t v hl' in
      record {
        t1 = t1;
        t2 = removed e o named peer.address t1 v1 hp';
        first_removed =
            ap (λ q. Polling.remove e q t) (sym el) ∙ remove-eq e o named leader.address t v hl';
        peer_removed =
            ap (λ q. Polling.remove e q t1) (sym ep) ∙ remove-eq e o named peer.address t1 v1 hp';
        in_step = removed-IsThread e o named peer.address t1 v1 hp';
        others = λ b x y. ground (
          arith,
          has-remove_from (o leader.address) (o b) t.poll_set,
          has-remove_from (o peer.address) (o b) t1.poll_set,
          named leader.address,
          named peer.address,
          named b,
          x,
          y,
        );
        pending =
            ap (λ q. Polling.insert q (Polling.insert (o leader.address) t.pending_remove)) ep
            ∙ ap (λ q. Polling.insert (pollable peer) (Polling.insert q t.pending_remove)) el;
      }

  insert-pair :
      (q r : Pollable) → q.address ≢ r.address → Polling.insert r (Polling.insert q []) ≡ r ∷ q ∷ []
  unfolding Polling.insert has
  insert-pair q r ne = ground arith

  -- For a registered pair on a thread in step with nothing to remove, whose end points have
  -- different addresses and two references each and of whom the leader is enabled, one handle_error
  -- of the leader closes both descriptors once, and the end of the round removes both: each object
  -- has no reference left, and nothing waits to be removed.
  pub shutdown-once :
      (o : ℕ → Pollable) (named : (a : ℕ) → (o a).address ≡ a) (leader peer : EndPoint)
      (sh : Shared e)
      → (leader.enabled ≡ true) × (leader.leader ≡ true)
      → o leader.address ≡ pollable leader
      → o peer.address ≡ pollable peer
      → leader.address ≢ peer.address
      → IsThread e o sh.thread
      → sh.thread.pending_remove ≡ []
      → has (pollable leader) sh.thread.poll_set ≡ true
      → has (pollable peer) sh.thread.poll_set ≡ true
      → sh.counts leader.address ≡ 2
      → sh.counts peer.address ≡ 2
      → (sh' : Shared e) × (t : PollThread e) × (counts : Counts) × (handle_error e leader peer sh
          ≡ some sh')
        × (sh'.closed ≡ peer.fd ∷ leader.fd ∷ sh.closed)
        × (Polling.end_round e sh'.thread sh'.counts ≡ some (t, counts))
        × (counts leader.address ≡ 0)
        × (counts peer.address ≡ 0)
        × (t.pending_remove ≡ [])
  unfolding Polling.end_round
  shutdown-once o named leader peer sh onl el ep ne v none_pending hl hp one two =
      let r = pair-Removal o named leader peer sh.thread el ep ne v hl hp in
      let after = after_one e leader peer r.t2 sh in
      let c1 : after.counts leader.address ≡ 1 = ground (arith, one, ne) in
      let c2 : after.counts peer.address ≡ 1 = ground (arith, two, ne) in
      let waits : r.t2.pending_remove ≡ pollable peer ∷ pollable leader ∷ [] =
        r.pending
        ∙ ap (λ ps. Polling.insert (pollable peer) (Polling.insert (pollable leader) ps))
            none_pending
        ∙ insert-pair (pollable leader) (pollable peer) ne in
      let end =
        remove_all-pair (pollable peer) (pollable leader) r.t2.mode r.t2.epoll after.counts
          (λ z. ne (sym z)) c2 c1 in
      (
        after,
        record r.t2 { pending_remove = []; epoll = end.0 },
        end.1,
        handle_error-leader e leader peer sh onl.0 onl.1
            ∙ first-shutdown e leader peer sh r.t1 r.t2 ne one two r.first_removed r.peer_removed,
        refl,
        rw (Polling.end_round, waits, end.2, ◌>>=◌) refl,
        end.4,
        end.3,
        refl,
      )
