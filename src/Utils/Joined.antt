-- ===== src/Utils/Joined.antt =====
-- A thread of the pool runs what `run_thread` says of all that it was given, however its moves and
-- the pushes interleave, and it ends once it was given NULL.
use mathlib.Core.Option.{some-injective}
use vncproxy.Prelude.{
  ◌*◌, zero, ◌⊎◌, inl, inr, ℕ, suc, ◌+◌, ◌≡◌, ◌<◌, ◌≤◌, refl, sym, ap, ◌∙◌, Option, none, some,
  List, [], ◌∷◌, ◌++◌, length, arith, append_assoc, append-nil,
}
use vncproxy.Utils.{push, pop, run_thread}
use vncproxy.Utils.Worker.{
  Pc, popping, running, ended, Thread, Move, take_job, end_job, end_thread, give, new_thread,
  Reaches, start, given, moved, Moves, stay, first,
}

abbrev pub Result {ℓ} : Type ℓ → Type ℓ
Result J = List J × Option (List (Option J))

module _ {ℓ} {J : Type ℓ} where
  -- What one push more makes of the result.
  abbrev extend : Option J → Result J → Result J
  extend x (js, some q) = (js, some (q ++ x ∷ []))
  extend none (js, none) = (js, some [])
  extend (some j) (js, none) = (js ++ j ∷ [], none)

  abbrev after : List J → Result J → Result J
  after js r = (js ++ r.0, r.1)

  after-extend :
      (js : List J) (x : Option J) (r : Result J) → extend x (after js r) ≡ after js (extend x r)
  after-extend js x (is, some q) = refl
  after-extend js none (is, none) = refl
  after-extend js (some j) (is, none) =
      ap (λ (ks : List J). (ks, none)) (append_assoc js is (j ∷ []))

  run_thread-append :
      (xs : List (Option J)) (x : Option J) → run_thread (xs ++ x ∷ []) ≡ extend x (run_thread xs)
  unfolding run_thread
  run_thread-append [] none = refl
  run_thread-append [] (some j) = refl
  run_thread-append (none ∷ xs) x = refl
  run_thread-append (some j ∷ xs) x =
      ap (after (j ∷ [])) (run_thread-append xs x) ∙ sym (after-extend (j ∷ []) x (run_thread xs))

  -- What the thread makes of its queue from where it stands.
  unfoldable outcome : Pc J → List J → List (Option J) → Result J
  outcome popping ran q = after ran (run_thread q)
  outcome (running j) ran q = after (ran ++ j ∷ []) (run_thread q)
  outcome ended ran q = (ran, some q)

  abbrev outcome_of : Thread J → Result J
  outcome_of t = outcome t.pc t.ran t.queue

  outcome-give :
      (pc : Pc J) (ran : List J) (q : List (Option J)) (x : Option J)
      → outcome pc ran (push x q) ≡ extend x (outcome pc ran q)
  unfolding outcome push
  outcome-give popping ran q x =
      ap (after ran) (run_thread-append q x) ∙ sym (after-extend ran x (run_thread q))
  outcome-give (running j) ran q x =
      ap (after (ran ++ j ∷ [])) (run_thread-append q x)
      ∙ sym (after-extend (ran ++ j ∷ []) x (run_thread q))
  outcome-give ended ran q x = refl

  pop-cases : (q r : List (Option J)) (x : Option J) → pop q ≡ some (x, r) → q ≡ x ∷ r
  unfolding pop
  pop-cases [] r x h = absurd (ground (arith, h))
  pop-cases (y ∷ q) r x h = ground (arith, h)

  outcome-Move : {t u : Thread J} → Move t u → outcome_of t ≡ outcome_of u
  unfolding outcome run_thread
  outcome-Move {t} (take_job {j} {q} p h) =
      ap (λ pc. outcome pc t.ran t.queue) p
      ∙ ap (λ xs. after t.ran (run_thread xs)) (pop-cases t.queue q (some j) h)
      ∙ ap (λ js. (js, (run_thread q).1)) (sym (append_assoc t.ran (j ∷ []) (run_thread q).0))
  outcome-Move {t} (end_job {j} p) = ap (λ pc. outcome pc t.ran t.queue) p
  outcome-Move {t} (end_thread {q} p h) =
      ap (λ pc. outcome pc t.ran t.queue) p
      ∙ ap (λ xs. after t.ran (run_thread xs)) (pop-cases t.queue q none h)
      ∙ ap (λ js. (js, some q)) (append-nil t.ran)

  Reaches-outcome :
      {xs : List (Option J)} {t : Thread J} → Reaches xs t → run_thread xs ≡ outcome_of t
  unfolding new_thread give outcome run_thread
  Reaches-outcome start = refl
  Reaches-outcome (given {xs} {t} r x) =
      run_thread-append xs x
      ∙ ap (extend x) (Reaches-outcome r)
      ∙ sym (outcome-give t.pc t.ran t.queue x)
  Reaches-outcome (moved {xs} {t} {u} r m) = Reaches-outcome r ∙ outcome-Move m

  -- In whatever order the moves of a thread of the pool and the pushes to its queue come, a thread
  -- that has ended ran what run_thread makes of all that it was given, in order, and left the rest
  -- in its queue.
  pub ended_lem :
      (xs : List (Option J)) (t : Thread J)
      → Reaches xs t
      → t.pc ≡ ended
      → run_thread xs ≡ (t.ran, some t.queue)
  unfolding outcome
  ended_lem xs t r e = Reaches-outcome r ∙ ap (λ pc. outcome pc t.ran t.queue) e

  -- The moves that are left to the thread, at most.
  abbrev pc_left : Pc J → ℕ
  pc_left popping = 1
  pc_left (running j) = 2
  pc_left ended = 0

  unfoldable pub left : Thread J → ℕ
  left t = pc_left t.pc + 2 * length t.queue

  Move-left : {t u : Thread J} → Move t u → left u < left t
  unfolding left
  Move-left {t} (take_job {j} {q} p h) =
      omega (arith, ap pc_left p, ap length (pop-cases t.queue q (some j) h))
  Move-left {t} (end_job {j} p) = omega (arith, ap pc_left p)
  Move-left {t} (end_thread {q} p h) =
      omega (arith, ap pc_left p, ap length (pop-cases t.queue q none h))

  -- A thread in whose queue a NULL is can move until it has ended.
  progress :
      (pc : Pc J) (ran : List J) (q rest : List (Option J))
      → (outcome pc ran q).1 ≡ some rest
      → (pc ≡ ended) ⊎ ((u : Thread J) × Move (record { queue = q; pc = pc; ran = ran }) u)
  unfolding outcome run_thread pop
  progress ended ran q rest h = inl refl
  progress (running j) ran q rest h = inr (_, end_job refl)
  progress popping ran [] rest h = absurd (ground (arith, h))
  progress popping ran (none ∷ q) rest h = inr (_, end_thread refl refl)
  progress popping ran (some j ∷ q) rest h = inr (_, take_job refl refl)

  moves_to_end :
      (n : ℕ) (t : Thread J) (rest : List (Option J))
      → left t ≤ n
      → (outcome_of t).1 ≡ some rest
      → (u : Thread J) × Moves t u × (u.pc ≡ ended) × (outcome_of u ≡ outcome_of t)
  moves_to_end zero t rest b h = elim (progress t.pc t.ran t.queue rest h) [
    | inl e ↦ (t, stay, e, refl)
    | inr (u, m) ↦ absurd (omega (arith, Move-left m))
  ]
  moves_to_end (suc n) t rest b h = elim (progress t.pc t.ran t.queue rest h) [
    | inl e ↦ (t, stay, e, refl)
    | inr (u, m) ↦
        let same = outcome-Move m in
        let (v, ms, e, q) =
          moves_to_end n u rest (omega (arith, Move-left m, b)) (ap (λ r. r.1) (sym same) ∙ h) in
        (v, first m ms, e, q ∙ sym same)
  ]

  -- A thread of the pool in the list of whose pushes run_thread finds a NULL can move to its end
  -- from wherever it stands, where it has run the jobs before the NULL in order and has left the
  -- rest; each of its moves makes what is left to it less.
  pub join_lem :
      (xs rest : List (Option J)) (js : List J) (t : Thread J)
      → Reaches xs t
      → run_thread xs ≡ (js, some rest)
      → ((u : Thread J) → Move t u → left u < left t)
        × (u : Thread J) × Moves t u
        × (u.pc ≡ ended)
        × (u.ran ≡ js)
        × (u.queue ≡ rest)
  unfolding outcome
  join_lem xs rest js t r h =
      let now = sym (Reaches-outcome r) ∙ h in
      let (u, ms, e, q) = moves_to_end (left t) t rest (omega arith) (ap (λ x. x.1) now) in
      let last : (u.ran, some u.queue) ≡ (js, some rest) =
        ap (λ pc. outcome pc u.ran u.queue) (sym e) ∙ q ∙ now in
      (λ v m. Move-left m, u, ms, e, ap (λ x. x.0) last, some-injective _ _ (ap (λ x. x.1) last))
