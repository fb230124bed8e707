-- ===== src/Utils.antt =====
-- Class Queue of utils.h and class ThreadPool of utils.cc. Each method is one
-- step: the mutex of the queue makes it one.
pub mod Worker
pub mod Joined
pub mod Log
pub mod Lines
pub mod Counter
mod Tests
mod LogTests
use vncproxy.Prelude.{
  replicate, ℕ, zero, suc, ◌+◌, ◌%◌, ◌≡◌, ◌<◌, ◌≢◌, refl, ap, ◌∙◌, sym, Option, none, some, List,
  [], ◌∷◌, ◌++◌, ◌>>=◌, length, arith, append_assoc, append-nil, length-append,
}

module _ {ℓ} {A : Type ℓ} where
  -- `Queue::push`: at the back
  unfoldable pub push : A → List A → List A
  push a q = q ++ a ∷ []

  -- `Queue::pop`: from the front. `none` is a wait: the thread is not run until a `push` wakes it.
  unfoldable pub pop : List A → Option (A × List A)
  pop [] = none
  pop (a ∷ q) = some (a, q)

-- What the thread of a queue does with it: it runs the jobs up to the termination token NULL, which
-- is `none` here. `none` as the result is a wait for more.
unfoldable pub run_thread {ℓ} : {J : Type ℓ} → List (Option J) → List J × Option (List (Option J))
run_thread [] = ([], none)
run_thread (none ∷ q) = ([], some q)
run_thread (some j ∷ q) = let rest = run_thread q in (j ∷ rest.0, rest.1)

unfoldable pub push_at {ℓ} : {A : Type ℓ} → ℕ → A → List (List A) → Option (List (List A))
push_at i a [] = none
push_at zero a (q ∷ qs) = some (push a q ∷ qs)
push_at (suc i) a (q ∷ qs) = do qs' ← push_at i a qs; some (q ∷ qs')

-- `run_async` with the random number `r`: a pool of no threads divides by zero.
unfoldable pub run_async {ℓ} :
    {J : Type ℓ} → ℕ → J → List (List (Option J)) → Option (List (List (Option J)))
run_async r j [] = none
run_async r j (q ∷ qs) = push_at (r % suc (length qs)) (some j) (q ∷ qs)

-- `ThreadPool(n)`: each thread has an empty queue.
unfoldable pub new_pool {ℓ} : {J : Type ℓ} → ℕ → List (List (Option J))
new_pool n = replicate n []

-- `~ThreadPool`: a NULL for each queue, before the threads are joined
unfoldable pub close_pool {ℓ} : {J : Type ℓ} → List (List (Option J)) → List (List (Option J))
close_pool [] = []
close_pool (q ∷ qs) = push none q ∷ close_pool qs

abbrev pub all_jobs {ℓ} : {J : Type ℓ} → List J → List (Option J)
all_jobs [] = []
all_jobs (j ∷ js) = some j ∷ all_jobs js

-- Behind any jobs, the NULL that the pool's destructor pushes lets the thread run every job in the
-- order of the pushes and end, with nothing left in the queue.
pub run_thread-push {ℓ} :
    {J : Type ℓ} (js : List J) → run_thread (push none (all_jobs js)) ≡ (js, some [])
unfolding run_thread push
run_thread-push [] = refl
run_thread-push (j ∷ js) = rw (run_thread-push js) refl

-- The jobs that wait in the pool.
abbrev pub waiting {ℓ} : {A : Type ℓ} → List (List A) → ℕ
waiting [] = 0
waiting (q ∷ qs) = length q + waiting qs

-- A push within the pool succeeds and puts one element more into it.
push_at-waiting {ℓ} :
    {A : Type ℓ} (i : ℕ) (a : A) (qs : List (List A))
    → i < length qs
    → (qs' : List (List A)) × (push_at i a qs ≡ some qs')
      × (waiting qs' ≡ suc (waiting qs))
      × (length qs' ≡ length qs)
unfolding push_at push
push_at-waiting i a [] h = absurd (omega arith)
push_at-waiting zero a (q ∷ qs) h =
    (push a q ∷ qs, refl, omega (arith, length-append q (a ∷ [])), refl)
push_at-waiting (suc i) a (q ∷ qs) h =
    let out = push_at-waiting i a qs (omega arith) in
    (q ∷ out.0, rw (push_at, out.1, ◌>>=◌) refl, omega (arith, out.2), ap suc out.3)

-- In a pool of at least one thread, run_async succeeds whatever the random number, one job more
-- waits, and the number of queues is the same.
pub run_async_lem {ℓ} :
    {J : Type ℓ} (r : ℕ) (j : J) (qs : List (List (Option J)))
    → 0 < length qs
    → (qs' : List (List (Option J))) × (run_async r j qs ≡ some qs')
      × (waiting qs' ≡ suc (waiting qs))
      × (length qs' ≡ length qs)
unfolding run_async
run_async_lem r j [] h = absurd (omega arith)
run_async_lem r j (q ∷ qs) h = push_at-waiting (r % suc (length qs)) (some j) (q ∷ qs) (omega arith)
