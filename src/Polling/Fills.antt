-- ===== src/Polling/Fills.antt =====
-- A PollThread in step as what class EndPoint asks of PollMgr. `o` is the object at each address: a
-- descriptor and a mode that an object answers do not change.
use mathlib.Core.Option.{some-injective}
use vncproxy.Prelude.{
  ℕ, ◌≡◌, ◌≢◌, refl, sym, ap, subst, ◌∙◌, true, Option, none, some, arith, ◌==◌, if◌then◌else◌,
  ◌>>=◌, Bool-cases, Option-cases, inl, inr,
}
use vncproxy.Poller.{Pollable}
use vncproxy.Polling.{
  Epoll, PollThread, Counts, ref_copy, find, has, reads, add_interest, mode_interest, add,
  change_mode, update_mode,
}
use vncproxy.Polling.Registry.{find-assign}
use vncproxy.Polling.Invariant.{
  IsThread, has-itself, added, added-IsThread, changed, changed-IsThread,
}
use vncproxy.Polling.Methods.{same_interest}

module _ (e : Epoll) (o : ℕ → Pollable) (named : (a : ℕ) → (o a).address ≡ a) where
  unfoldable pub mode_of : PollThread e → ℕ → Option ℕ
  mode_of t b = if has (o b) t.poll_set then find (o b).fd t.mode else none

  pub record Added (a : ℕ) (t t' : PollThread e) : Type 0 where
    pub in_step : IsThread e o t'
    pub modes : (b : ℕ) → mode_of t' b ≡ (if a == b then some (o a).poll_mode else mode_of t b)

  pub record Updated (a w : ℕ) (t t' : PollThread e) : Type 0 where
    pub in_step : IsThread e o t'
    pub modes :
        (b : ℕ)
        → mode_of t' b
          ≡ (if a == b then elim (mode_of t a) [ none ↦ none | some old ↦ some w ] else mode_of t b)

  added-Added :
      (a : ℕ) (t : PollThread e) (s : e.State) (v : IsThread e o t)
      (free : find (o a).fd t.mode ≡ none)
      (q : e.ctl_add (o a).fd (add_interest e (o a)) t.epoll ≡ some s)
      → reads (o a).poll_mode ≡ true
      → Added a t (added e o named a t s v free q)
  unfolding mode_of
  added-Added a t s v free q r = record {
    in_step = added-IsThread e o named a t s v free q r;
    modes = λ b. elim (Bool-cases (has (o b) t.poll_set)) [
      | inl h ↦
          let g = v.registered b h in
          let ne : (o a).fd ≢ (o b).fd =
            λ z. ground (arith, ap (λ fd. find fd t.mode) z, free, g.found) in
          let other : a ≢ b = λ z. ne (ap (λ i. (o i).fd) z) in
          ground (
            arith,
            has-itself e o named a b t.poll_set,
            find-assign (o a).fd (o a).poll_mode t.mode (o b).fd,
            ne,
            other,
            h,
          )
      | inr h ↦ ground (
        arith,
        has-itself e o named a b t.poll_set,
        find-assign (o a).fd (o a).poll_mode t.mode (o b).fd,
        h,
      )
    ];
  }

  changed-Updated :
      (a w : ℕ) (t : PollThread e) (v : IsThread e o t) (h : has (o a) t.poll_set ≡ true)
      (s : e.State)
      (q : (j : ℕ)
        → e.interest s j
          ≡ (if (o a).fd == j then some (mode_interest e (o a) w) else e.interest t.epoll j))
      → Updated a w t (changed e o named a t v h w s q)
  unfolding mode_of
  changed-Updated a w t v h s q =
      let g = v.registered a h in
      record {
        in_step = changed-IsThread e o named a t v h w s q;
        modes = λ b. elim (Bool-cases (has (o b) t.poll_set)) [
          | inl m ↦
              let apart : (o a).fd ≡ (o b).fd → a ≡ b = v.apart a b h m in
              ground (arith, find-assign (o a).fd w t.mode (o b).fd, h, m, g.found, apart)
          | inr m ↦ ground (arith, find-assign (o a).fd w t.mode (o b).fd, h, m, g.found)
        ];
      }

  pub add-Added :
      (a : ℕ) (t t' : PollThread e) (counts counts' : Counts)
      → IsThread e o t
      → reads (o a).poll_mode ≡ true
      → add e (o a) t counts ≡ some (t', counts')
      → Added a t t'
  unfolding add
  add-Added a t t' counts counts' v r q = elim (Option-cases (ref_copy (o a).address counts)) [
    | inl c ↦ absurd (ground (arith, q, c))
    | inr (c1, c) ↦ elim (Bool-cases (has (o a) t.poll_set)) [
      | inl h ↦ absurd (ground (arith, q, c, h))
      | inr h ↦ elim (Option-cases (find (o a).fd t.mode)) [
        | inr (w, f) ↦ absurd (ground (arith, q, c, h, f))
        | inl f ↦ elim (Option-cases (e.ctl_add (o a).fd (add_interest e (o a)) t.epoll)) [
          | inl z ↦ absurd (ground (arith, q, c, h, f, z))
          | inr (s, z) ↦
              let same : added e o named a t s v f z ≡ t' =
                ap (λ (x : PollThread e × Counts). x.0)
                  (some-injective (added e o named a t s v f z, c1) (t', counts')
                    (sym (rw (add, c, h, f, z, ◌>>=◌) refl) ∙ q)) in
              subst (Added a t) same (added-Added a t s v f z r)
        ]
      ]
    ]
  ]

  pub update_mode-Updated :
      (a w : ℕ) (t t' : PollThread e)
      → IsThread e o t
      → update_mode e (o a) w t ≡ some t'
      → Updated a w t t'
  unfolding update_mode change_mode mode_of
  update_mode-Updated a w t t' v q = elim (Bool-cases (has (o a) t.poll_set)) [
    | inr h ↦
        let same : t ≡ t' = ground (arith, q, h) in
        subst (Updated a w t) same (record { in_step = v; modes = λ b. ground (arith, h) })
    | inl h ↦
        let g = v.registered a h in
        elim (Bool-cases (w == g.as_mode)) [
          | inl z ↦
              let si = same_interest e o named a w t g z in
              let same : changed e o named a t v h w t.epoll si ≡ t' =
                some-injective _ t'
                  (sym (rw (update_mode, h, g.found, ◌>>=◌, change_mode, z) refl) ∙ q) in
              subst (Updated a w t) same (changed-Updated a w t v h t.epoll si)
          | inr z ↦ elim (Option-cases (e.ctl_mod (o a).fd (mode_interest e (o a) w) t.epoll)) [
            | inl y ↦ absurd (ground (arith, q, h, g.found, z, y))
            | inr (s, y) ↦
                let si = e.interest-mod (o a).fd (mode_interest e (o a) w) t.epoll s y in
                let same : changed e o named a t v h w s si ≡ t' =
                  some-injective _ t'
                    (sym (rw (update_mode, h, g.found, ◌>>=◌, change_mode, z, y) refl) ∙ q) in
                subst (Updated a w t) same (changed-Updated a w t v h s si)
          ]
        ]
  ]
