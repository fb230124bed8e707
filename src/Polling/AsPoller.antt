-- ===== src/Polling/AsPoller.antt =====
-- The interface Poller, which class EndPoint asks for, filled by `add` and `update_mode` of a
-- PollThread.
use mathlib.Core.Option.{some-injective}
use vncproxy.Prelude.{
  ℕ, ◌≡◌, refl, ap, subst, ◌∙◌, Bool, true, false, Option, none, some, arith, ◌==◌, ◌&&◌,
  if◌then◌else◌, inl, inr, ◌⊎◌,
}
use vncproxy.Poller.{Pollable, Poller}
use vncproxy.Polling.{Epoll, PollThread, Counts, reads, add, update_mode}
use vncproxy.Polling.Invariant.{IsThread}
use vncproxy.Polling.Fills.{mode_of, add-Added, update_mode-Updated}

-- Bool-cases, as a definition that computes.
unfoldable pub checked : (b : Bool) → (b ≡ true) ⊎ (b ≡ false)
checked true = inl refl
checked false = inr refl

module _ (e : Epoll) (o : ℕ → Pollable) (named : (a : ℕ) → (o a).address ≡ a) where
  -- A thread in step, with the counts.
  pub record InStep : Type 0 where
    pub thread : PollThread e
    pub counts : Counts
    pub in_step : IsThread e o thread

  -- `q` answers what the object at its address does, and it reads.
  unfoldable pub fits : Pollable → Bool
  fits q =
      let p = o q.address in (q.fd == p.fd) && ((q.poll_mode == p.poll_mode) && reads p.poll_mode)

  unfoldable pub keep_added :
      (a : ℕ) (s : InStep) (r : Option (PollThread e × Counts))
      → reads (o a).poll_mode ≡ true
      → add e (o a) s.thread s.counts ≡ r
      → Option InStep
  keep_added a s none h q = none
  keep_added a s (some (t, c)) h q = some (record {
    thread = t;
    counts = c;
    in_step = (add-Added e o named a s.thread t s.counts c s.in_step h q).in_step;
  })

  unfoldable pub keep_updated :
      (a w : ℕ) (s : InStep) (r : Option (PollThread e))
      → update_mode e (o a) w s.thread ≡ r
      → Option InStep
  keep_updated a w s none q = none
  keep_updated a w s (some t) q = some (record {
    thread = t;
    counts = s.counts;
    in_step = (update_mode-Updated e o named a w s.thread t s.in_step q).in_step;
  })

  pub reads_fitting : (q : Pollable) → fits q ≡ true → reads (o q.address).poll_mode ≡ true
  unfolding fits
  reads_fitting q h = ground (arith, h)

  mode_fitting : (q : Pollable) → fits q ≡ true → (o q.address).poll_mode ≡ q.poll_mode
  unfolding fits
  mode_fitting q h = ground (arith, h)

  unfoldable pub add_fitting :
      (q : Pollable) → InStep → (fits q ≡ true) ⊎ (fits q ≡ false) → Option InStep
  add_fitting q s (inr n) = none
  add_fitting q s (inl y) = keep_added q.address s _ (reads_fitting q y) refl

  unfoldable pub update_fitting :
      (q : Pollable) → ℕ → InStep → (fits q ≡ true) ⊎ (fits q ≡ false) → Option InStep
  update_fitting q w s (inr n) = none
  update_fitting q w s (inl y) = keep_updated q.address w s _ refl

  keep_added-modes :
      (a : ℕ) (s s' : InStep) (r : Option (PollThread e × Counts))
      (h : reads (o a).poll_mode ≡ true) (q : add e (o a) s.thread s.counts ≡ r)
      → keep_added a s r h q ≡ some s'
      → (b : ℕ)
      → mode_of e o named s'.thread b
        ≡ (if a == b then some (o a).poll_mode else mode_of e o named s.thread b)
  unfolding keep_added
  keep_added-modes a s s' none h q k b = absurd (ground (arith, k))
  keep_added-modes a s s' (some (t, c)) h q k b =
      subst
        (λ (x : InStep).
          mode_of e o named x.thread b
          ≡ (if a == b then some (o a).poll_mode else mode_of e o named s.thread b))
        (some-injective _ s' k)
        ((add-Added e o named a s.thread t s.counts c s.in_step h q).modes b)

  keep_updated-modes :
      (a w : ℕ) (s s' : InStep) (r : Option (PollThread e)) (q : update_mode e (o a) w s.thread ≡ r)
      → keep_updated a w s r q ≡ some s'
      → (b : ℕ)
      → mode_of e o named s'.thread b ≡ (
          if a == b
          then elim (mode_of e o named s.thread a) [ none ↦ none | some old ↦ some w ]
          else mode_of e o named s.thread b)
  unfolding keep_updated
  keep_updated-modes a w s s' none q k b = absurd (ground (arith, k))
  keep_updated-modes a w s s' (some t) q k b =
      subst
        (λ (x : InStep). mode_of e o named x.thread b ≡ (
          if a == b
          then elim (mode_of e o named s.thread a) [ none ↦ none | some old ↦ some w ]
          else mode_of e o named s.thread b))
        (some-injective _ s' k) ((update_mode-Updated e o named a w s.thread t s.in_step q).modes b)

  pub add_fitting-modes :
      (q : Pollable) (s s' : InStep) (c : (fits q ≡ true) ⊎ (fits q ≡ false))
      → add_fitting q s c ≡ some s'
      → (b : ℕ)
      → mode_of e o named s'.thread b
        ≡ (if q.address == b then some q.poll_mode else mode_of e o named s.thread b)
  unfolding add_fitting
  add_fitting-modes q s s' (inr n) k b = absurd (ground (arith, k))
  add_fitting-modes q s s' (inl y) k b =
      keep_added-modes q.address s s' _ (reads_fitting q y) refl k b
      ∙ ap (λ (w : ℕ). if q.address == b then some w else mode_of e o named s.thread b)
          (mode_fitting q y)

  pub update_fitting-modes :
      (q : Pollable) (w : ℕ) (s s' : InStep) (c : (fits q ≡ true) ⊎ (fits q ≡ false))
      → update_fitting q w s c ≡ some s'
      → (b : ℕ)
      → mode_of e o named s'.thread b ≡ (
          if q.address == b
          then elim (mode_of e o named s.thread q.address) [ none ↦ none | some old ↦ some w ]
          else mode_of e o named s.thread b)
  unfolding update_fitting
  update_fitting-modes q w s s' (inr n) k b = absurd (ground (arith, k))
  update_fitting-modes q w s s' (inl y) k b = keep_updated-modes q.address w s s' _ refl k b

  abbrev pub thread_poller : Poller
  thread_poller = record {
    State = InStep;
    mode = λ s b. mode_of e o named s.thread b;
    add = λ q s. add_fitting q s (checked (fits q));
    update_mode = λ q w s. update_fitting q w s (checked (fits q));
    mode-add = λ q s s' k b. add_fitting-modes q s s' (checked (fits q)) k b;
    mode-update_mode = λ q w s s' k b. update_fitting-modes q w s s' (checked (fits q)) k b;
  }
