-- ===== src/Utils/Worker.antt =====
-- A thread of class ThreadPool of utils.cc as it runs beside the others: `run_thread` one access to
-- its queue at a time, with pushes between.
use vncproxy.Prelude.{◌≡◌, Option, none, some, List, [], ◌∷◌, ◌++◌}
use vncproxy.Utils.{push, pop}

-- Where the loop of `run_thread` stands.
pub data Pc {ℓ} (J : Type ℓ) : Type ℓ where
  popping : Pc J
  running : J → Pc J
  ended : Pc J

-- `ran` has the jobs that were run and deleted.
pub record Thread {ℓ} (J : Type ℓ) : Type ℓ where
  pub queue : List (Option J)
  pub pc : Pc J
  pub ran : List J

-- A move of the thread. In `pop` it waits while the queue is empty.
pub data Move {ℓ} {J : Type ℓ} (t : Thread J) : Thread J → Type ℓ where
  take_job :
      {j : J} {q : List (Option J)}
      → t.pc ≡ popping
      → pop t.queue ≡ some (some j, q)
      → Move t (record { queue = q; pc = running j; ran = t.ran })
  end_job :
      {j : J}
      → t.pc ≡ running j
      → Move t (record { queue = t.queue; pc = popping; ran = t.ran ++ j ∷ [] })
  end_thread :
      {q : List (Option J)}
      → t.pc ≡ popping
      → pop t.queue ≡ some (none, q)
      → Move t (record { queue = q; pc = ended; ran = t.ran })

-- What a push by another thread makes of it.
unfoldable pub give {ℓ} : {J : Type ℓ} → Option J → Thread J → Thread J
give x t = record { queue = push x t.queue; pc = t.pc; ran = t.ran }

unfoldable pub new_thread {ℓ} : {J : Type ℓ} → Thread J
new_thread = record { queue = []; pc = popping; ran = [] }

-- The states of a thread that has been given the list so far, in any order of pushes and moves.
pub data Reaches {ℓ} {J : Type ℓ} : List (Option J) → Thread J → Type ℓ where
  start : Reaches [] new_thread
  given :
      {xs : List (Option J)} {t : Thread J}
      → Reaches xs t
      → (x : Option J) → Reaches (xs ++ x ∷ []) (give x t)
  moved : {xs : List (Option J)} {t u : Thread J} → Reaches xs t → Move t u → Reaches xs u

pub data Moves {ℓ} {J : Type ℓ} : Thread J → Thread J → Type ℓ where
  stay : {t : Thread J} → Moves t t
  first : {t u v : Thread J} → Move t u → Moves u v → Moves t v
