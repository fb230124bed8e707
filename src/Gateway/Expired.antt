-- ===== src/Gateway/Expired.antt =====
-- `cleanup` of vncproxy.cc on pairs that are registered: it shuts down those whose key is gone.
use vncproxy.Prelude.{
  ℕ, ◌≡◌, ◌≢◌, refl, sym, ap, subst, ◌∙◌, true, some, List, [], ◌∷◌, ◌++◌, arith, ◌>>=◌, Bool-cases,
  append_assoc, inl, inr,
}
use vncproxy.Poller.{Pollable}
use vncproxy.Polling.{Epoll, has}
use vncproxy.Polling.Invariant.{IsThread}
use vncproxy.Gateway.{EndPoint, Leaders, pollable}
use vncproxy.Gateway.Shutdown.{Shared, shutdown, erase_leader, is_valid_key, outliers}
use vncproxy.Gateway.Outliers.{kept, distinct, All, distinct-middle, All-own, All-others, erase-own}
use vncproxy.Gateway.Twice.{after_one, first-shutdown}
use vncproxy.Gateway.Once.{pair-Removal}
use vncproxy.Gateway.Cleanup.{shutdown_all, cleanup}

-- The descriptors in the order of their `close`, the last first.
unfoldable pub closings : (ℕ → EndPoint × EndPoint) → List ℕ → List ℕ → List ℕ
closings mem [] closed = closed
closings mem (a ∷ rest) closed = closings mem rest ((mem a).1.fd ∷ (mem a).0.fd ∷ closed)

module _ (e : Epoll) (o : ℕ → Pollable) (named : (a : ℕ) → (o a).address ≡ a)
    (mem : ℕ → EndPoint × EndPoint) (owner : ℕ → ℕ) where
  -- A registered pair with its leader at `a`. No other pair has its end points.
  pub record IsPair (sh : Shared e) (k : List ℕ) (a : ℕ) : Type 0 where
    pub key : (mem a).0.forward_key ≡ k
    pub at : (mem a).0.address ≡ a
    pub owned : owner a ≡ a
    pub peer_owned : owner (mem a).1.address ≡ a
    pub apart : a ≢ (mem a).1.address
    pub object : o a ≡ pollable (mem a).0
    pub peer_object : o (mem a).1.address ≡ pollable (mem a).1
    pub member : has (o a) sh.thread.poll_set ≡ true
    pub peer_member : has (o (mem a).1.address) sh.thread.poll_set ≡ true
    pub count : sh.counts a ≡ 2
    pub peer_count : sh.counts (mem a).1.address ≡ 2

  -- The thread is in step, and each leader is there once, with a registered pair.
  pub record IsTied (sh : Shared e) : Type 0 where
    pub in_step : IsThread e o sh.thread
    pub once : distinct sh.leaders ≡ true
    pub pairs : All (IsPair sh) sh.leaders

  record ShutDown (sh : Shared e) (k : List ℕ) (a : ℕ) : Type 0 where
    after : Shared e
    returns : shutdown e (mem a).0 (mem a).1 sh ≡ some after
    in_step : IsThread e o after.thread
    leaders : after.leaders ≡ erase_leader k a sh.leaders
    closes : after.closed ≡ (mem a).1.fd ∷ (mem a).0.fd ∷ sh.closed
    others : (j : List ℕ) (b : ℕ) → a ≢ b → IsPair sh j b → IsPair after j b

  -- An end point of another pair is at another address.
  others_own :
      (sh : Shared e) (k : List ℕ) (a : ℕ) (b x : ℕ)
      → IsPair sh k a
      → a ≢ b
      → owner x ≡ b
      → ((mem a).0.address ≢ x) × ((mem a).1.address ≢ x)
  others_own sh k a b x p other own = (
    λ z. other (sym p.owned ∙ ap owner (sym p.at ∙ z) ∙ own),
    λ z. other (sym p.peer_owned ∙ ap owner z ∙ own),
  )

  shutdown_lem :
      (sh : Shared e) (k : List ℕ) (a : ℕ)
      → IsThread e o sh.thread
      → IsPair sh k a
      → ShutDown sh k a
  shutdown_lem sh k a v p =
      let leader = (mem a).0 in
      let peer = (mem a).1 in
      let ne : leader.address ≢ peer.address = subst (λ x. x ≢ peer.address) (sym p.at) p.apart in
      let r =
        pair-Removal e o named leader peer sh.thread (ap o p.at ∙ p.object) p.peer_object ne v
          (subst (λ q. has q sh.thread.poll_set ≡ true) p.object p.member)
          (subst (λ q. has q sh.thread.poll_set ≡ true) p.peer_object p.peer_member) in
      record {
        after = after_one e leader peer r.t2 sh;
        returns =
            first-shutdown e leader peer sh r.t1 r.t2 ne (ap sh.counts p.at ∙ p.count) p.peer_count
              r.first_removed r.peer_removed;
        in_step = r.in_step;
        leaders =
            ap (λ j. erase_leader j leader.address sh.leaders) p.key
            ∙ ap (λ x. erase_leader k x sh.leaders) p.at;
        closes = refl;
        others = λ j b other q.
            let (x, y) = others_own sh k a b b p other q.owned in
            let (z, w) = others_own sh k a b (mem b).1.address p other q.peer_owned in
            record {
              key = q.key;
              at = q.at;
              owned = q.owned;
              peer_owned = q.peer_owned;
              apart = q.apart;
              object = q.object;
              peer_object = q.peer_object;
              member = r.others b x y ∙ q.member;
              peer_member = r.others (mem b).1.address z w ∙ q.peer_member;
              count = ground (arith, x, y, q.count);
              peer_count = ground (arith, z, w, q.peer_count);
            };
      }

  -- The loop over the outliers of `back`, where those of `front` are through.
  cleanup_loop :
      (valid : List (List ℕ)) (front back : Leaders) (sh : Shared e)
      → IsTied sh
      → sh.leaders ≡ front ++ back
      → (sh' : Shared e) × (shutdown_all e mem (outliers valid back) sh ≡ some sh')
        × (sh'.leaders ≡ front ++ kept valid back)
        × (sh'.closed ≡ closings mem (outliers valid back) sh.closed)
        × IsTied sh'
  unfolding shutdown_all outliers kept closings
  cleanup_loop valid front [] sh v l = (sh, refl, l, refl, v)
  cleanup_loop valid front ((k, a) ∷ back) sh v l = elim (Bool-cases (is_valid_key k valid)) [
    | inl z ↦
        let (sh', run, ls, cs, v') =
          cleanup_loop valid (front ++ (k, a) ∷ []) back sh v
            (l ∙ sym (append_assoc front ((k, a) ∷ []) back)) in
        (
          sh',
          rw (outliers, z) run,
          rw (kept, z) (ls ∙ append_assoc front ((k, a) ∷ []) (kept valid back)),
          rw (outliers, z) cs,
          v',
        )
    | inr z ↦
        let once = subst (λ ls. distinct ls ≡ true) l v.once in
        let (x, y, w) = distinct-middle k a front back once in
        let pairs = subst (All (IsPair sh)) l v.pairs in
        let d = shutdown_lem sh k a v.in_step (All-own (IsPair sh) k a front back pairs) in
        let left : d.after.leaders ≡ front ++ back =
          d.leaders ∙ ap (erase_leader k a) l ∙ erase-own k a front back x in
        let tied : IsTied d.after = record {
          in_step = d.in_step;
          once = subst (λ ls. distinct ls ≡ true) (sym left) w;
          pairs =
              subst (All (IsPair d.after)) (sym left)
                (All-others (IsPair sh) (IsPair d.after) k a front back d.others y pairs);
        } in
        let (sh', run, ls, cs, v') = cleanup_loop valid front back d.after tied left in
        (
          sh',
          rw (outliers, z, shutdown_all, d.returns, ◌>>=◌) run,
          rw (kept, z) ls,
          rw (outliers, z, closings) (cs ∙ ap (closings mem (outliers valid back)) d.closes),
          v',
        )
  ]

  -- Cleanup leaves the leaders with a valid key, closes the descriptors of the other pairs, and keeps
  -- what IsTied says.
  pub cleanup_lem :
      (valid : List (List ℕ)) (sh : Shared e)
      → IsTied sh
      → (sh' : Shared e) × (cleanup e mem valid sh ≡ some sh')
        × (sh'.leaders ≡ kept valid sh.leaders)
        × (sh'.closed ≡ closings mem (outliers valid sh.leaders) sh.closed)
        × IsTied sh'
  unfolding cleanup
  cleanup_lem valid sh v = cleanup_loop valid [] sh.leaders sh v refl
