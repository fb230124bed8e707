-- ===== src/Main/Served.antt =====
-- Every client that the loop of `main` takes is run once by the pool.
use vncproxy.Prelude.{
  ℕ, zero, suc, ◌+◌, ◌%◌, ◌≡◌, ◌<◌, refl, ap, ◌∙◌, Option, none, some, List, [], ◌∷◌, ◌++◌, arith,
  ◌==◌, if◌then◌else◌, ◌>>=◌, Bool-cases, inl, inr, length, replicate, length-replicate,
}
use vncproxy.Utils.{push, push_at, run_async, new_pool, close_pool, all_jobs, run_thread-push}
use vncproxy.Main.{Turn, Pool, take_client, accept_loop, run_pool, finish}

-- The clients of the turns before the stop.
unfoldable pub clients : List Turn → List ℕ
clients [] = []
clients (turn ∷ turns) =
    let rest = clients turns in
    if turn.stop_before
    then []
    else if turn.idle
    then rest
    else if turn.stop_after
    then []
    else elim turn.accepted [ none ↦ rest | some clnt ↦ clnt ∷ rest ]

unfoldable pub times : ℕ → List ℕ → ℕ
times x [] = 0
times x (y ∷ ys) = (if x == y then 1 else 0) + times x ys

-- In all the queues together.
unfoldable pub total : ℕ → List (List ℕ) → ℕ
total x [] = 0
total x (js ∷ jss) = times x js + total x jss

-- Queues with jobs only.
unfoldable queues : List (List ℕ) → Pool
queues [] = []
queues (js ∷ jss) = all_jobs js ∷ queues jss

-- A thread that has run its jobs and left nothing.
unfoldable pub done_with : List (List ℕ) → List (List ℕ × Option (List (Option ℕ)))
done_with [] = []
done_with (js ∷ jss) = (js, some []) ∷ done_with jss

all_jobs-push : (j : ℕ) (js : List ℕ) → push (some j) (all_jobs js) ≡ all_jobs (js ++ j ∷ [])
unfolding push
all_jobs-push j [] = refl
all_jobs-push j (i ∷ js) = ap (λ q. some i ∷ q) (all_jobs-push j js)

times-append : (x j : ℕ) (js : List ℕ) → times x (js ++ j ∷ []) ≡ times x (j ∷ js)
unfolding times
times-append x j [] = refl
times-append x j (i ∷ js) = ground (arith, times-append x j js)

length-queues : (jss : List (List ℕ)) → length (queues jss) ≡ length jss
unfolding queues
length-queues [] = refl
length-queues (js ∷ jss) = ap suc (length-queues jss)

-- What a new job makes of the queues.
record Queued (clnt : ℕ) (jss : List (List ℕ)) (out : Option Pool) : Type 0 where
  after : List (List ℕ)
  queued : out ≡ some (queues after)
  as_many : length after ≡ length jss
  once : (x : ℕ) → total x after ≡ times x (clnt ∷ []) + total x jss

push_at-Queued :
    (i clnt : ℕ) (jss : List (List ℕ))
    → i < length jss
    → Queued clnt jss (push_at i (some clnt) (queues jss))
unfolding push_at queues total times
push_at-Queued i clnt [] h = absurd (omega arith)
push_at-Queued zero clnt (js ∷ jss) h = record {
  after = (js ++ clnt ∷ []) ∷ jss;
  queued = ap (λ q. some (q ∷ queues jss)) (all_jobs-push clnt js);
  as_many = refl;
  once = λ x. ground (arith, times-append x clnt js);
}
push_at-Queued (suc i) clnt (js ∷ jss) h =
    let q = push_at-Queued i clnt jss (omega arith) in
    record {
      after = js ∷ q.after;
      queued = rw (push_at, q.queued, ◌>>=◌) refl;
      as_many = ap suc q.as_many;
      once = λ x. ground (arith, q.once x);
    }

run_async-Queued :
    (r clnt : ℕ) (jss : List (List ℕ))
    → 0 < length jss
    → Queued clnt jss (run_async r clnt (queues jss))
unfolding run_async queues
run_async-Queued r clnt [] h = absurd (omega arith)
run_async-Queued r clnt (js ∷ jss) h =
    push_at-Queued (r % suc (length (queues jss))) clnt (js ∷ jss)
      (omega (arith, length-queues jss))

-- What the loop makes of them.
record Took (taken : List ℕ) (jss : List (List ℕ)) (out : Option Pool) : Type 0 where
  after : List (List ℕ)
  runs : out ≡ some (queues after)
  as_many : length after ≡ length jss
  once : (x : ℕ) → total x after ≡ times x taken + total x jss

once_more :
    (x clnt : ℕ) (taken : List ℕ) (before during after : ℕ)
    → after ≡ times x taken + during
    → during ≡ times x (clnt ∷ []) + before
    → after ≡ times x (clnt ∷ taken) + before
unfolding times
once_more x clnt taken before during after p q = ground (arith, p, q)

Took-none : (jss : List (List ℕ)) → Took [] jss (some (queues jss))
unfolding times
Took-none jss = record { after = jss; runs = refl; as_many = refl; once = λ x. omega arith }

accept_loop-Took :
    (turns : List Turn) (jss : List (List ℕ))
    → 0 < length jss
    → Took (clients turns) jss (accept_loop turns (queues jss))
unfolding accept_loop clients take_client
accept_loop-Took [] jss h = Took-none jss
accept_loop-Took (turn ∷ turns) jss h = elim (Bool-cases turn.stop_before) [
  | inl x ↦ rw (accept_loop, clients, x) (Took-none jss)
  | inr x ↦ elim (Bool-cases turn.idle) [
    | inl y ↦ rw (accept_loop, clients, x, y) (accept_loop-Took turns jss h)
    | inr y ↦ elim (Bool-cases turn.stop_after) [
      | inl z ↦ rw (accept_loop, clients, x, y, z) (Took-none jss)
      | inr z ↦
          rw (accept_loop, clients, x, y, z)
            (taken turn.drawn turn.accepted (λ ls g. accept_loop-Took turns ls g))
    ]
  ]
]
  where
    taken :
        (r : ℕ) (accepted : Option ℕ)
        → ((ls : List (List ℕ))
            → 0 < length ls
            → Took (clients turns) ls (accept_loop turns (queues ls)))
        → Took
            (elim accepted [ none ↦ clients turns | some clnt ↦ clnt ∷ clients turns ])
            jss
            (do qs' ← take_client r accepted (queues jss); accept_loop turns qs')
    taken r none k = k jss h
    taken r (some clnt) k =
        let q = run_async-Queued r clnt jss h in
        let t = k q.after (omega (arith, q.as_many, h)) in
        record {
          after = t.after;
          runs = rw (take_client, q.queued, ◌>>=◌) t.runs;
          as_many = t.as_many ∙ q.as_many;
          once = λ x. once_more x clnt (clients turns) _ _ _ (t.once x) (q.once x);
        }

new_pool-queues : (n : ℕ) → new_pool n ≡ queues (replicate n [])
unfolding new_pool queues
new_pool-queues zero = refl
new_pool-queues (suc n) = ap (λ (qs : Pool). [] ∷ qs) (new_pool-queues n)

total-empty : (x n : ℕ) → total x (replicate n []) ≡ 0
unfolding total times
total-empty x zero = refl
total-empty x (suc n) = omega (arith, total-empty x n)

finish-done_with : (jss : List (List ℕ)) → finish (queues jss) ≡ done_with jss
unfolding finish run_pool close_pool queues done_with
finish-done_with [] = refl
finish-done_with (js ∷ jss) =
    rw (finish, close_pool, run_pool, run_thread-push js)
      (ap (λ rest. (js, some []) ∷ rest) (finish-done_with jss))

-- From a new pool of at least one thread, the loop of main ends in no fault whatever select, accept
-- and rand give, and after the pool is closed its threads have run each client that was accepted
-- before the stop as often as it was accepted, and no other, and have left nothing in the queues.
pub served :
    (turns : List Turn) (n : ℕ)
    → 0 < n
    → (qs : Pool) × (jss : List (List ℕ)) × (accept_loop turns (new_pool n) ≡ some qs)
      × (finish qs ≡ done_with jss)
      × ((x : ℕ) → total x jss ≡ times x (clients turns))
served turns n h =
    let t =
      accept_loop-Took turns (replicate n [])
        (omega (arith, length-replicate {A = List ℕ} n [], h)) in
    (
      queues t.after,
      t.after,
      ap (accept_loop turns) (new_pool-queues n) ∙ t.runs,
      finish-done_with t.after,
      λ x. omega (arith, t.once x, total-empty x n),
    )
