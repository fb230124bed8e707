-- ===== src/Polling/Stop.antt =====
-- The end of `PollMgr::PollThread::poll_loop` of polling.cc, and what it releases.
use mathlib.Core.Option.{some-injective}
use vncproxy.Prelude.{
  ℕ, ◌+◌, ◌-◌, ◌≡◌, ◌≤◌, ◌<◌, refl, sym, subst, ap, ◌∙◌, Bool, true, Option, none, some, List, [],
  ◌∷◌, ◌++◌, arith, ◌==◌, if◌then◌else◌, ◌>>=◌, lt→ltb, inl, inr, Option-cases, Bool-cases,
}
use vncproxy.Poller.{Pollable}
use vncproxy.Polling.{Epoll, Counts, set_count, release, end_round}
use vncproxy.Polling.Loop.{Handlers, Round, release_all, Running, handle_events, poll_loop}

-- How often the object at the address is in `poll_set_`.
unfoldable pub entries : ℕ → List Pollable → ℕ
entries a [] = 0
entries a (q ∷ qs) = (if q.address == a then 1 else 0) + entries a qs

unfoldable pub stops : Round → Bool
stops round = if round.stop_before then true else round.stop_after

release_all_lem :
    (qs : List Pollable) (counts : Counts)
    → ((a : ℕ) → entries a qs ≤ counts a)
    → (counts' : Counts) × (release_all qs counts ≡ some counts')
      × ((a : ℕ) → counts' a ≡ counts a - entries a qs)
unfolding release_all entries release
release_all_lem [] counts h = (counts, refl, λ a. omega arith)
release_all_lem (q ∷ qs) counts h =
    let here = h q.address in
    let pos : 0 < counts q.address = ground (arith, here) in
    let (counts', eq, all) =
      release_all_lem qs (set_count q.address (counts q.address - 1) counts)
        (λ a. ground (arith, h a)) in
    (
      counts',
      rw (release_all, release, lt→ltb 0 (counts q.address) pos, ◌>>=◌) eq,
      λ a. ground (arith, all a),
    )

module _ (e : Epoll) where
  poll_loop-last :
      (on : Handlers (Running e)) (last : Round) (later : List Round) (s : Running e)
      (counts : Counts)
      → stops last ≡ true
      → release_all s.0.poll_set s.1 ≡ some counts
      → poll_loop e on (last ∷ later) s ≡ some (s, some counts)
  unfolding poll_loop stops
  poll_loop-last on last later s counts h r = elim (Bool-cases last.stop_before) [
    | inl x ↦ rw (poll_loop, x, r, ◌>>=◌) refl
    | inr x ↦
        let y : last.stop_after ≡ true = ground (arith, h, x) in rw (poll_loop, x, y, r, ◌>>=◌) refl
  ]

  -- After rounds that run without a fault, a round that finds the stop flag, at its start or after
  -- epoll_wait, ends poll_loop whatever events would follow, and releases each object once for each
  -- time it is in poll_set_, and no other, where no count is below that.
  pub poll_loop-release :
      (on : Handlers (Running e)) (rounds later : List Round) (last : Round) (s s' : Running e)
      → stops last ≡ true
      → poll_loop e on rounds s ≡ some (s', none)
      → ((a : ℕ) → entries a s'.0.poll_set ≤ s'.1 a)
      → (counts : Counts) × (poll_loop e on (rounds ++ last ∷ later) s ≡ some (s', some counts))
        × ((a : ℕ) → counts a ≡ s'.1 a - entries a s'.0.poll_set)
  unfolding poll_loop stops
  poll_loop-release on [] later last s s' h q p =
      let eq : s ≡ s' = ap (λ (x : Running e × Option Counts). x.0) (some-injective _ _ q) in
      let (counts, r, all) = release_all_lem s'.0.poll_set s'.1 p in
      (
        counts,
        poll_loop-last on last later s counts h
              (subst (λ (x : Running e). release_all x.0.poll_set x.1 ≡ some counts) (sym eq) r)
            ∙ ap (λ (x : Running e). some (x, some counts)) eq,
        all,
      )
  poll_loop-release on (round ∷ rounds) later last s s' h q p =
      elim (Bool-cases round.stop_before) [
        | inl x ↦ absurd (ground (arith, q, x))
        | inr x ↦ elim (Bool-cases round.stop_after) [
          | inl y ↦ absurd (ground (arith, q, x, y))
          | inr y ↦ elim (Option-cases (handle_events on round.events s)) [
            | inl z ↦ absurd (ground (arith, q, x, y, z))
            | inr (s1, z) ↦ elim (Option-cases (end_round e s1.0 s1.1)) [
              | inl w ↦ absurd (ground (arith, q, x, y, z, w))
              | inr (s2, w) ↦
                  let (counts, r, all) =
                    poll_loop-release on rounds later last s2 s' h
                      (sym (rw (poll_loop, x, y, z, w, ◌>>=◌) refl) ∙ q) p in
                  (counts, rw (poll_loop, x, y, z, w, ◌>>=◌) r, all)
            ]
          ]
        ]
      ]
