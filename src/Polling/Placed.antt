-- ===== src/Polling/Placed.antt =====
-- The invariant of the threads of a PollMgr of polling.cc: each is in step, and what is in the
-- `poll_set_` of one has a descriptor that chooses it.
use mathlib.Core.Option.{some-injective}
use vncproxy.Prelude.{
  ℕ, zero, suc, ◌≢◌, ◌≡◌, refl, sym, ap, subst, ◌∙◌, true, some, [], ◌∷◌, arith, List, length, inl,
  inr, ◌⊎◌, ◌>>=◌, Option,
}
use vncproxy.Poller.{Pollable}
use vncproxy.Polling.{Epoll, PollThread, find, has, mode_interest}
use vncproxy.Polling.Invariant.{IsThread}
use vncproxy.Polling.Manager.{new_thread, new_threads, nth, set_nth, thread_of, Threads, on_thread}

module _ {ℓ} {A : Type ℓ} where
  pub length-set_nth : (i : ℕ) (b : A) (xs : List A) → length (set_nth i b xs) ≡ length xs
  unfolding set_nth
  length-set_nth i b [] = refl
  length-set_nth zero b (a ∷ xs) = refl
  length-set_nth (suc i) b (a ∷ xs) = ap suc (length-set_nth i b xs)

  pub nth-set_nth :
      (i j : ℕ) (b a c : A) (xs : List A)
      → nth i xs ≡ some a
      → nth j (set_nth i b xs) ≡ some c
      → ((i ≡ j) × (b ≡ c)) ⊎ (nth j xs ≡ some c)
  unfolding nth set_nth
  nth-set_nth i j b a c [] h k = absurd (ground (arith, h))
  nth-set_nth zero zero b a c (x ∷ xs) h k = inl (refl, ground (arith, k))
  nth-set_nth zero (suc j) b a c (x ∷ xs) h k = inr k
  nth-set_nth (suc i) zero b a c (x ∷ xs) h k = inr k
  nth-set_nth (suc i) (suc j) b a c (x ∷ xs) h k = elim (nth-set_nth i j b a c xs h k) [
    | inl (p, q) ↦ inl (ap suc p, q)
    | inr q ↦ inr q
  ]

  pub nth-other : (i j : ℕ) (b : A) (xs : List A) → i ≢ j → nth j (set_nth i b xs) ≡ nth j xs
  unfolding nth set_nth
  nth-other i j b [] h = refl
  nth-other zero zero b (x ∷ xs) h = absurd (h refl)
  nth-other zero (suc j) b (x ∷ xs) h = refl
  nth-other (suc i) zero b (x ∷ xs) h = refl
  nth-other (suc i) (suc j) b (x ∷ xs) h = nth-other i j b xs (λ z. h (ap suc z))

  pub nth-itself :
      (i : ℕ) (b a : A) (xs : List A) → nth i xs ≡ some a → nth i (set_nth i b xs) ≡ some b
  unfolding nth set_nth
  nth-itself i b a [] h = absurd (ground (arith, h))
  nth-itself zero b a (x ∷ xs) h = refl
  nth-itself (suc i) b a (x ∷ xs) h = nth-itself i b a xs h

module _ (e : Epoll) (o : ℕ → Pollable) where
  -- Each thread is in step, and what is in its `poll_set_` has a descriptor that chooses it.
  pub record IsManager (ts : Threads e) : Type 0 where
    pub in_step : (i : ℕ) (t : PollThread e) → nth i ts ≡ some t → IsThread e o t
    pub placed :
        (i a : ℕ) (t : PollThread e)
        → nth i ts ≡ some t
        → has (o a) t.poll_set ≡ true
        → thread_of (o a).fd (length ts) ≡ some i

  -- The objects in the `poll_set_` of some thread.
  pub record Managed (ts : Threads e) (a : ℕ) : Type 0 where
    pub index : ℕ
    pub thread : PollThread e
    pub at_index : nth index ts ≡ some thread
    pub member : has (o a) thread.poll_set ≡ true

  -- `poll_set_` of some thread has the object, and `mode_` there and epoll have it with the mode.
  pub record HasMode (ts : Threads e) (a w : ℕ) : Type 0 where
    pub index : ℕ
    pub thread : PollThread e
    pub at_index : nth index ts ≡ some thread
    pub member : has (o a) thread.poll_set ≡ true
    pub mode : find (o a).fd thread.mode ≡ some w
    pub watched : e.interest thread.epoll (o a).fd ≡ some (mode_interest e (o a) w)

  pub set_nth-IsManager :
      (i : ℕ) (t t' : PollThread e) (ts : Threads e)
      → IsManager ts
      → nth i ts ≡ some t
      → IsThread e o t'
      → ((a : ℕ)
          → has (o a) t'.poll_set ≡ true
          → (has (o a) t.poll_set ≡ true) ⊎ (thread_of (o a).fd (length ts) ≡ some i))
      → IsManager (set_nth i t' ts)
  set_nth-IsManager i t t' ts v h v' k = record {
    in_step = λ j c q. elim (nth-set_nth i j t' t c ts h q) [
      | inl (p, r) ↦ subst (IsThread e o) r v'
      | inr r ↦ v.in_step j c r
    ];
    placed = λ j a c q m.
        subst (λ n. thread_of (o a).fd n ≡ some j) (sym (length-set_nth i t' ts))
          (elim (nth-set_nth i j t' t c ts h q) [
            | inl (p, r) ↦
                elim (k a (subst (λ (x : PollThread e). has (o a) x.poll_set ≡ true) (sym r) m)) [
                  | inl y ↦
                      subst (λ x. thread_of (o a).fd (length ts) ≡ some x) p (v.placed i a t h y)
                  | inr y ↦ subst (λ x. thread_of (o a).fd (length ts) ≡ some x) p y
                ]
            | inr r ↦ v.placed j a c r m
          ]);
  }

  pub on_thread-eq :
      (fd i : ℕ) (t : PollThread e) (method : PollThread e → Option (PollThread e)) (ts : Threads e)
      (t' : PollThread e)
      → thread_of fd (length ts) ≡ some i
      → nth i ts ≡ some t
      → method t ≡ some t'
      → on_thread e fd method ts ≡ some (set_nth i t' ts)
  unfolding on_thread
  on_thread-eq fd i t method ts t' p q r = rw (on_thread, p, ◌>>=◌, q, r) refl

  new_thread-IsThread : (s : e.State) → IsThread e o (new_thread e s)
  unfolding new_thread has find
  new_thread-IsThread s = record {
    registered = λ a h. absurd (ground (arith, h));
    owned = λ fd w h. absurd (ground (arith, h));
    apart = λ a b h k same. absurd (ground (arith, h));
  }

  new_threads-nth :
      (i : ℕ) (t : PollThread e) (ss : List e.State)
      → nth i (new_threads e ss) ≡ some t
      → (s : e.State) × (new_thread e s ≡ t)
  unfolding new_threads nth
  new_threads-nth i t [] h = absurd (ground (arith, h))
  new_threads-nth zero t (s ∷ ss) h = (s, some-injective _ t h)
  new_threads-nth (suc i) t (s ∷ ss) h = new_threads-nth i t ss h

  -- The threads of a new PollMgr.
  pub new_threads-IsManager : (ss : List e.State) → IsManager (new_threads e ss)
  unfolding new_thread has
  new_threads-IsManager ss = record {
    in_step = λ i t h.
        let n = new_threads-nth i t ss h in subst (IsThread e o) n.1 (new_thread-IsThread n.0);
    placed = λ i a t h m.
        let n = new_threads-nth i t ss h in
        absurd
          (ground (arith, subst (λ (x : PollThread e). has (o a) x.poll_set ≡ true) (sym n.1) m));
  }

  -- No object is in two threads.
  pub Managed-once :
      (ts : Threads e) (a i j : ℕ) (t u : PollThread e)
      → IsManager ts
      → nth i ts ≡ some t
      → has (o a) t.poll_set ≡ true
      → nth j ts ≡ some u
      → has (o a) u.poll_set ≡ true
      → i ≡ j
  Managed-once ts a i j t u v p m q n =
      let x = v.placed i a t p m in let y = v.placed j a u q n in ground (arith, x, y)

  -- It is in the one its descriptor chooses.
  pub Managed-at :
      (ts : Threads e) (a i : ℕ) (t : PollThread e)
      → IsManager ts
      → thread_of (o a).fd (length ts) ≡ some i
      → nth i ts ≡ some t
      → Managed ts a
      → has (o a) t.poll_set ≡ true
  Managed-at ts a i t v p q at =
      let same = v.placed at.index a at.thread at.at_index at.member in
      let here : nth at.index ts ≡ some t =
        subst (λ n. nth n ts ≡ some t) (ground (arith, p, same)) q in
      let eq : at.thread ≡ t = some-injective _ _ (sym at.at_index ∙ here) in
      subst (λ (x : PollThread e). has (o a) x.poll_set ≡ true) eq at.member
