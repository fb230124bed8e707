-- ===== src/Gateway/Sweeps.antt =====
-- The loop of `cleanup_thread` of vncproxy.cc beside the other threads.
use vncproxy.Prelude.{
  ℕ, ◌≡◌, refl, ap, ◌∙◌, Bool, true, false, if◌then◌else◌, some, List, [], ◌∷◌, ◌>>=◌, inl, inr,
  Bool-cases, map,
}
use vncproxy.Poller.{Pollable}
use vncproxy.Polling.{Epoll}
use vncproxy.Gateway.{EndPoint, Leaders}
use vncproxy.Gateway.Shutdown.{Shared, outliers}
use vncproxy.Gateway.Outliers.{kept}
use vncproxy.Gateway.Cleanup.{cleanup_round, Sweep, cleanup_thread}
use vncproxy.Gateway.Expired.{IsTied, closings}
use vncproxy.Gateway.Round.{collect_lem, cleanup_round_lem}

-- What a turn means for the leaders and the closed descriptors, the last first: the keys that its
-- query lists, whether it goes through, and what the other threads make of them until the next turn.
pub record Duty : Type 0 where
  pub over : Bool
  pub listed : List (List ℕ) × Bool
  pub meanwhile : Leaders × List ℕ → Leaders × List ℕ

module _ (mem : ℕ → EndPoint × EndPoint) where
  -- The pairs without a listed key go, and both descriptors of each are closed.
  abbrev pub done_by : List (List ℕ) × Bool → Leaders × List ℕ → Leaders × List ℕ
  done_by (keys, false) s = s
  done_by (keys, true) s = (kept keys s.0, closings mem (outliers keys s.0) s.1)

  -- Up to the turn that finds the stop
  unfoldable pub done_all : List Duty → Leaders × List ℕ → Leaders × List ℕ
  done_all [] s = s
  done_all (duty ∷ duties) s =
      let rest = done_all duties (duty.meanwhile (done_by duty.listed s)) in
      if duty.over then s else rest

module _ (e : Epoll) (o : ℕ → Pollable) (named : (a : ℕ) → (o a).address ≡ a)
    (mem : ℕ → EndPoint × EndPoint) (owner : ℕ → ℕ) where
  abbrev Tied : Shared e → Type 0
  Tied sh = IsTied e o named mem owner sh

  abbrev pub visible : Shared e → Leaders × List ℕ
  visible sh = (sh.leaders, sh.closed)

  -- The turn is as its duty says, and the other threads keep the pairs as they have to be.
  pub record Sound (duty : Duty) (sweep : Sweep (Shared e)) : Type 0 where
    pub same_stop : sweep.stop ≡ duty.over
    pub same_rows : sweep.rows ≡ (map some duty.listed.0, duty.listed.1)
    pub keeps :
        (sh : Shared e)
        → IsTied e o named mem owner sh
        → (sh' : Shared e) × (sweep.others sh ≡ some sh')
          × IsTied e o named mem owner sh'
          × (visible sh' ≡ duty.meanwhile (visible sh))

  abbrev pub AllSound : List Duty → List (Sweep (Shared e)) → Type 0
  AllSound [] [] = Unit
  AllSound (duty ∷ duties) (sweep ∷ sweeps) = Sound duty sweep × AllSound duties sweeps
  AllSound [] (sweep ∷ sweeps) = ⊥
  AllSound (duty ∷ duties) [] = ⊥

  round_of :
      (listed : List (List ℕ) × Bool) (sh : Shared e)
      → Tied sh
      → (sh' : Shared e) × (cleanup_round e mem (map some listed.0, listed.1) sh ≡ some sh')
        × Tied sh'
        × (visible sh' ≡ done_by mem listed (visible sh))
  unfolding cleanup_round
  round_of (keys, false) sh v =
      let (valid, eq, all) = collect_lem keys [] in
      (sh, rw (cleanup_round, eq, ◌>>=◌) refl, v, refl)
  round_of (keys, true) sh v =
      let (sh', q, ls, cs, v') = cleanup_round_lem e o named mem owner keys sh v in
      (sh', q, v', ap (λ x. (x, sh'.closed)) ls ∙ ap (λ x. (kept keys sh.leaders, x)) cs)

  -- Where the thread is in step and each leader is there once with a registered pair of its own,
  -- and each query, which may fail after some rows, lists keys that are not NULL, cleanup_thread
  -- fails no check and keeps that, whatever the other threads do between its turns to the leaders
  -- and to the closed descriptors, if they keep it too. The leaders left and the descriptors
  -- closed, in order, are what the turns do up to the one that finds the stop: a turn whose query
  -- fails does nothing, and any other drops the leaders without a listed key, in their order, and
  -- closes both descriptors of each.
  pub cleanup_thread_lem :
      (duties : List Duty) (sweeps : List (Sweep (Shared e))) (sh : Shared e)
      → IsTied e o named mem owner sh
      → AllSound duties sweeps
      → (sh' : Shared e) × (cleanup_thread e mem sweeps sh ≡ some sh')
        × IsTied e o named mem owner sh'
        × ((sh'.leaders, sh'.closed) ≡ done_all mem duties (sh.leaders, sh.closed))
  unfolding cleanup_thread done_all
  cleanup_thread_lem [] [] sh v h = (sh, refl, v, refl)
  cleanup_thread_lem [] (sweep ∷ sweeps) sh v h = absurd h
  cleanup_thread_lem (duty ∷ duties) [] sh v h = absurd h
  cleanup_thread_lem (duty ∷ duties) (sweep ∷ sweeps) sh v (h, hs) = elim (Bool-cases duty.over) [
    | inl z ↦
        let stops : sweep.stop ≡ true = h.same_stop ∙ z in
        (sh, rw (cleanup_thread, stops) refl, v, rw (done_all, z) refl)
    | inr z ↦
        let goes_on : sweep.stop ≡ false = h.same_stop ∙ z in
        let (s1, q1, v1, d1) = round_of duty.listed sh v in
        let q1' : cleanup_round e mem sweep.rows sh ≡ some s1 =
          ap (λ rows. cleanup_round e mem rows sh) h.same_rows ∙ q1 in
        let (s2, q2, v2, d2) = h.keeps s1 v1 in
        let (s3, q3, v3, d3) = cleanup_thread_lem duties sweeps s2 v2 hs in
        (
          s3,
          rw (cleanup_thread, goes_on, q1', q2, ◌>>=◌) q3,
          v3,
          rw (done_all, z) (d3 ∙ ap (done_all mem duties) (d2 ∙ ap duty.meanwhile d1)),
        )
  ]
