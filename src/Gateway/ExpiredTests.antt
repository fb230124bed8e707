-- ===== src/Gateway/ExpiredTests.antt =====
-- A round of the cleanup on a pair whose key is gone.
use vncproxy.Prelude.{ℕ, ◌≡◌, refl, true, false, some, List, [], ◌∷◌, arith, map}
use vncproxy.Polling.Table.{all}
use vncproxy.Gateway.{EndPoint}
use vncproxy.Gateway.Shutdown.{Shared, outliers}
use vncproxy.Gateway.Cleanup.{cleanup_round, Sweep, cleanup_thread}
use vncproxy.Gateway.Sweeps.{Duty, done_all, cleanup_thread_lem}
use vncproxy.Gateway.Outliers.{kept, distinct, mentions, All}
use vncproxy.Gateway.Expired.{closings, IsTied}
use vncproxy.Gateway.Round.{cleanup_round_lem}
use vncproxy.Gateway.TwiceTests.{object, two-IsThread, two-has, end_of, shared}

abbrev memory : ℕ → EndPoint × EndPoint
memory a = (end_of 1, end_of 2)

tied : IsTied all object (λ a. refl) memory (λ a. 1) shared
unfolding distinct mentions All
tied = record {
  in_step = two-IsThread;
  once = refl;
  pairs = (
    record {
      key = refl;
      at = refl;
      owned = refl;
      peer_owned = refl;
      apart = omega arith;
      object = refl;
      peer_object = refl;
      member = two-has.0;
      peer_member = two-has.1;
      count = refl;
      peer_count = refl;
    },
    tt,
  );
}

cleanup_round_lem_example :
    (sh : Shared all) × (cleanup_round all memory (map some ((66 ∷ []) ∷ []), true) shared
      ≡ some sh)
    × (sh.leaders ≡ kept ((66 ∷ []) ∷ []) shared.leaders)
    × (sh.closed ≡ closings memory (outliers ((66 ∷ []) ∷ []) shared.leaders) [])
    × IsTied all object (λ a. refl) memory (λ a. 1) sh
cleanup_round_lem_example =
    cleanup_round_lem all object (λ a. refl) memory (λ a. 1) ((66 ∷ []) ∷ []) shared tied

-- A turn whose query fails, one whose query lists another key, and then the stop
abbrev duties : List Duty
duties =
    record { over = false; listed = ([], false); meanwhile = λ s. s }
    ∷ record { over = false; listed = ((66 ∷ []) ∷ [], true); meanwhile = λ s. s }
    ∷ record { over = true; listed = ([], true); meanwhile = λ s. s }
    ∷ []

abbrev sweeps : List (Sweep (Shared all))
sweeps =
    record { stop = false; rows = ([], false); others = some }
    ∷ record { stop = false; rows = (map some ((66 ∷ []) ∷ []), true); others = some }
    ∷ record { stop = true; rows = ([], true); others = some }
    ∷ []

cleanup_thread_lem_example :
    (sh : Shared all) × (cleanup_thread all memory sweeps shared ≡ some sh)
    × IsTied all object (λ a. refl) memory (λ a. 1) sh
    × ((sh.leaders, sh.closed) ≡ done_all memory duties (shared.leaders, shared.closed))
cleanup_thread_lem_example =
    cleanup_thread_lem all object (λ a. refl) memory (λ a. 1) duties sweeps shared tied
      (
        record { same_stop = refl; same_rows = refl; keeps = λ sh v. (sh, refl, v, refl) },
        (
          record { same_stop = refl; same_rows = refl; keeps = λ sh v. (sh, refl, v, refl) },
          (record { same_stop = refl; same_rows = refl; keeps = λ sh v. (sh, refl, v, refl) }, tt),
        ),
      )
