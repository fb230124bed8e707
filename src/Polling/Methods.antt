-- ===== src/Polling/Methods.antt =====
-- `PollThread::add`, `remove` and `update_mode` on a PollThread in step.
use vncproxy.Prelude.{
  ℕ, ◌+◌, ◌<◌, ◌≡◌, refl, sym, ap, ◌∙◌, true, false, none, some, arith, ◌==◌, if◌then◌else◌,
  Bool-cases, Option-cases, inl, inr, ◌>>=◌, int_limit, add_int-eq, lt→ltb,
}
use vncproxy.Poller.{Pollable}
use vncproxy.Polling.{
  Epoll, PollThread, Counts, set_count, ref_copy, find, has, reads, add_interest, mode_interest,
  add, remove, change_mode, update_mode,
}
use vncproxy.Polling.Registry.{find-erase, find-assign, has-insert, has-remove_from}
use vncproxy.Polling.Invariant.{
  IsThread, Registered, added, added-IsThread, removed, removed-IsThread, changed, changed-IsThread,
}

module _ (e : Epoll) (o : ℕ → Pollable) (named : (a : ℕ) → (o a).address ≡ a) where
  ==→eq : (a b : ℕ) → (a == b) ≡ true → a ≡ b
  ==→eq a b h = ground arith

  not_member :
      (a : ℕ) (t : PollThread e)
      → IsThread e o t
      → find (o a).fd t.mode ≡ none
      → has (o a) t.poll_set ≡ false
  not_member a t v free = elim (Bool-cases (has (o a) t.poll_set)) [
    | inl h ↦ absurd (ground (arith, (v.registered a h).found, free))
    | inr h ↦ h
  ]

  ref_copy-eq :
      (a : ℕ) (counts : Counts)
      → 0 < counts a
      → counts a + 1 < int_limit
      → ref_copy a counts ≡ some (set_count a (counts a + 1) counts)
  unfolding ref_copy
  ref_copy-eq a counts pos lim =
      rw (lt→ltb 0 (counts a) pos, add_int-eq (counts a) 1 lim, ◌>>=◌) refl

  pub add-eq :
      (a : ℕ) (t : PollThread e) (counts : Counts) (s : e.State) (v : IsThread e o t)
      (free : find (o a).fd t.mode ≡ none)
      (q : e.ctl_add (o a).fd (add_interest e (o a)) t.epoll ≡ some s)
      → 0 < counts (o a).address
      → counts (o a).address + 1 < int_limit
      → add e (o a) t counts
        ≡ some (
          added e o named a t s v free q,
          set_count (o a).address (counts (o a).address + 1) counts,
        )
  unfolding add
  add-eq a t counts s v free q pos lim =
      rw (add, ref_copy-eq (o a).address counts pos lim, not_member a t v free, free, q, ◌>>=◌) refl

  -- Add of a live object that reads and whose count does not overflow, under a descriptor that
  -- mode_ does not have and epoll takes, on a thread in step: no check fails, the object is in
  -- poll_set_ with its mode, its count is one more, and the thread stays in step.
  pub add_lem :
      (a : ℕ) (t : PollThread e) (counts : Counts) (s : e.State)
      → IsThread e o t
      → reads (o a).poll_mode ≡ true
      → find (o a).fd t.mode ≡ none
      → e.ctl_add (o a).fd (add_interest e (o a)) t.epoll ≡ some s
      → 0 < counts (o a).address
      → counts (o a).address + 1 < int_limit
      → (t' : PollThread e) × (add e (o a) t counts
          ≡ some (t', set_count (o a).address (counts (o a).address + 1) counts))
        × IsThread e o t'
        × (has (o a) t'.poll_set ≡ true)
        × (find (o a).fd t'.mode ≡ some (o a).poll_mode)
  add_lem a t counts s v r free q pos lim = (
    added e o named a t s v free q,
    add-eq a t counts s v free q pos lim,
    added-IsThread e o named a t s v free q r,
    ground (arith, has-insert (o a) (o a) t.poll_set),
    ground (arith, find-assign (o a).fd (o a).poll_mode t.mode (o a).fd),
  )

  -- Add under a descriptor that mode_ has stops the process, whatever the object, its count and the
  -- thread.
  pub add-taken :
      (a : ℕ) (t : PollThread e) (counts : Counts) (w : ℕ)
      → find (o a).fd t.mode ≡ some w
      → add e (o a) t counts ≡ none
  unfolding add
  add-taken a t counts w f = elim (Option-cases (ref_copy (o a).address counts)) [
    | inl c ↦ rw (add, c, ◌>>=◌) refl
    | inr (counts', c) ↦ elim (Bool-cases (has (o a) t.poll_set)) [
      | inl m ↦ rw (add, c, m, ◌>>=◌) refl
      | inr m ↦ rw (add, c, m, f, ◌>>=◌) refl
    ]
  ]

  pub remove-eq :
      (a : ℕ) (t : PollThread e) (v : IsThread e o t) (h : has (o a) t.poll_set ≡ true)
      → remove e (o a) t ≡ some (removed e o named a t v h)
  unfolding remove
  remove-eq a t v h = rw (remove, h, (v.registered a h).found, ◌>>=◌) refl

  -- Remove on a thread in step of an object of poll_set_: no assertion fails, the object is out of
  -- poll_set_ and its descriptor out of mode_, it waits in pending_remove_, and the thread stays in
  -- step.
  pub remove_lem :
      (a : ℕ) (t : PollThread e)
      → IsThread e o t
      → has (o a) t.poll_set ≡ true
      → (t' : PollThread e) × (remove e (o a) t ≡ some t')
        × IsThread e o t'
        × (has (o a) t'.poll_set ≡ false)
        × (find (o a).fd t'.mode ≡ none)
        × (has (o a) t'.pending_remove ≡ true)
  unfolding remove
  remove_lem a t v h = (
    removed e o named a t v h,
    remove-eq a t v h,
    removed-IsThread e o named a t v h,
    ground (arith, has-remove_from (o a) (o a) t.poll_set),
    ground (arith, find-erase (o a).fd t.mode (o a).fd),
    ground (arith, has-insert (o a) (o a) t.pending_remove),
  )

  -- Remove of an object that is not in poll_set_ leaves the thread as it is where mode_ does not
  -- have its descriptor, and fails an assertion where mode_ has it.
  pub remove-absent :
      (a : ℕ) (t : PollThread e)
      → has (o a) t.poll_set ≡ false
      → remove e (o a) t ≡ elim (find (o a).fd t.mode) [ none ↦ some t | some w ↦ none ]
  unfolding remove
  remove-absent a t h = elim (Option-cases (find (o a).fd t.mode)) [
    | inl z ↦ rw (remove, h, z, ◌>>=◌) refl
    | inr (w, z) ↦ rw (remove, h, z, ◌>>=◌) refl
  ]

  pub same_interest :
      (a w : ℕ) (t : PollThread e) (r : Registered e o t a)
      → (w == r.as_mode) ≡ true
      → (j : ℕ)
      → e.interest t.epoll j
        ≡ (if (o a).fd == j then some (mode_interest e (o a) w) else e.interest t.epoll j)
  same_interest a w t r z j = elim (Bool-cases ((o a).fd == j)) [
    | inl y ↦
        ap (e.interest t.epoll) (sym (==→eq (o a).fd j y))
        ∙ r.watched
        ∙ ap (λ (x : ℕ). some (mode_interest e (o a) x)) (sym (==→eq w r.as_mode z))
        ∙ sym (rw (y) refl)
    | inr y ↦ sym (rw (y) refl)
  ]

  -- Update_mode on a thread in step of an object of poll_set_, where epoll takes the change: no
  -- check fails, the object has the new mode, poll_set_ is the same, and the thread stays in step.
  pub update_mode_lem :
      (a w : ℕ) (t : PollThread e) (s : e.State)
      → IsThread e o t
      → has (o a) t.poll_set ≡ true
      → e.ctl_mod (o a).fd (mode_interest e (o a) w) t.epoll ≡ some s
      → (t' : PollThread e) × (update_mode e (o a) w t ≡ some t')
        × IsThread e o t'
        × (find (o a).fd t'.mode ≡ some w)
        × (t'.poll_set ≡ t.poll_set)
  unfolding update_mode change_mode
  update_mode_lem a w t s v h q =
      let r = v.registered a h in
      elim (Bool-cases (w == r.as_mode)) [
        | inl z ↦ (
          changed e o named a t v h w t.epoll (same_interest a w t r z),
          rw (update_mode, h, r.found, ◌>>=◌, change_mode, z) refl,
          changed-IsThread e o named a t v h w t.epoll (same_interest a w t r z),
          ground (arith, find-assign (o a).fd w t.mode (o a).fd),
          refl,
        )
        | inr z ↦ (
          changed e o named a t v h w s
              (e.interest-mod (o a).fd (mode_interest e (o a) w) t.epoll s q),
          rw (update_mode, h, r.found, ◌>>=◌, change_mode, z, q) refl,
          changed-IsThread e o named a t v h w s
              (e.interest-mod (o a).fd (mode_interest e (o a) w) t.epoll s q),
          ground (arith, find-assign (o a).fd w t.mode (o a).fd),
          refl,
        )
      ]
