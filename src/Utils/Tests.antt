-- ===== src/Utils/Tests.antt =====
-- Two threads of the pool.
use vncproxy.Prelude.{refl, ◌<◌, ℕ, ◌≡◌, none, some, [], ◌∷◌}
use vncproxy.Utils.Worker.{
  running, ended, Thread, Move, take_job, end_job, end_thread, give, new_thread, Reaches, start,
  given, moved, Moves,
}
use vncproxy.Utils.Joined.{left, ended_lem, join_lem}
use vncproxy.Utils.{pop, push, run_thread}

-- The first job was taken before the second was given.
abbrev busy : Thread ℕ
busy = record { queue = some 5 ∷ none ∷ []; pc = running 4; ran = [] }

busy-Reaches : Reaches (some 4 ∷ some 5 ∷ none ∷ []) busy
unfolding pop push new_thread give
busy-Reaches = given (given (moved (given start (some 4)) (take_job refl refl)) (some 5)) none

runs : run_thread {J = ℕ} (some 4 ∷ some 5 ∷ none ∷ []) ≡ (4 ∷ 5 ∷ [], some [])
unfolding run_thread
runs = refl

join_lem_example :
    ((u : Thread ℕ) → Move busy u → left u < left busy)
    × (u : Thread ℕ) × Moves busy u
    × (u.pc ≡ ended)
    × (u.ran ≡ 4 ∷ 5 ∷ [])
    × (u.queue ≡ [])
join_lem_example = join_lem (some 4 ∷ some 5 ∷ none ∷ []) [] (4 ∷ 5 ∷ []) busy busy-Reaches runs

-- A job behind the NULL is not run.
abbrev stopped : Thread ℕ
stopped = record { queue = some 6 ∷ []; pc = ended; ran = 4 ∷ [] }

stopped-Reaches : Reaches (some 4 ∷ none ∷ some 6 ∷ []) stopped
unfolding pop push new_thread give
stopped-Reaches =
    given
      (moved (moved (moved (given (given start (some 4)) none) (take_job refl refl)) (end_job refl))
        (end_thread refl refl))
      (some 6)

ended_lem_example : run_thread {J = ℕ} (some 4 ∷ none ∷ some 6 ∷ []) ≡ (4 ∷ [], some (some 6 ∷ []))
ended_lem_example = ended_lem (some 4 ∷ none ∷ some 6 ∷ []) stopped stopped-Reaches refl
