-- ===== src/Polling/Destroyed.antt =====
-- `~PollThread` of polling.cc, and what its thread then releases.
use vncproxy.Prelude.{
  ℕ, ◌≡◌, refl, sym, ap, subst, ◌∙◌, true, false, Option, none, some, List, [], ◌∷◌, arith, ◌==◌,
  ◌>>=◌, inl, inr, ◌⊎◌, Bool-cases, map,
}
use vncproxy.Poller.{Pollable}
use vncproxy.Polling.{Epoll, PollThread, Counts, remove, find, has}
use vncproxy.Polling.Registry.{find-erase, has-insert}
use vncproxy.Polling.Invariant.{IsThread, has-removed, removed, removed-IsThread}
use vncproxy.Polling.Methods.{remove-eq, remove-absent}
use vncproxy.Polling.Loop.{Handlers, Round, Running, poll_loop, remove_each, destroy}
use vncproxy.Polling.Stop.{entries, stops, poll_loop-release}

module _ (e : Epoll) (o : ℕ → Pollable) (named : (a : ℕ) → (o a).address ≡ a) where
  ==→eq : (a b : ℕ) → (a == b) ≡ true → a ≡ b
  ==→eq a b h = ground arith

  -- It is there, or its descriptor is free.
  abbrev Removable : PollThread e → ℕ → Type 0
  Removable t a = (has (o a) t.poll_set ≡ true) ⊎ (find (o a).fd t.mode ≡ none)

  record Emptied (rest : List ℕ) (t : PollThread e) (out : Option (PollThread e)) : Type 0 where
    after : PollThread e
    returns : out ≡ some after
    in_step : IsThread e o after
    gone : (b : ℕ) → has (o b) (map o rest) ≡ true → has (o b) after.poll_set ≡ false
    fewer : (b : ℕ) → has (o b) t.poll_set ≡ false → has (o b) after.poll_set ≡ false
    waits :
        (b : ℕ)
        → (has (o b) t.poll_set ≡ true) ⊎ (has (o b) t.pending_remove ≡ true)
        → (has (o b) after.poll_set ≡ true) ⊎ (has (o b) after.pending_remove ≡ true)

  remove_each-Emptied :
      (rest : List ℕ) (t : PollThread e)
      → IsThread e o t
      → ((a : ℕ) → has (o a) (map o rest) ≡ true → Removable t a)
      → Emptied rest t (remove_each e (map o rest) t)
  unfolding remove_each has
  remove_each-Emptied [] t v r = record {
    after = t;
    returns = refl;
    in_step = v;
    gone = λ b h. absurd (ground (arith, h));
    fewer = λ b h. h;
    waits = λ b h. h;
  }
  remove_each-Emptied (a ∷ rest) t v r = elim (Bool-cases (has (o a) t.poll_set)) [
    | inl h ↦
        let t1 = removed e o named a t v h in
        let still : (b : ℕ) → Removable t b → Removable t1 b = λ b m. elim m [
          | inr n ↦ inr (ground (arith, find-erase (o a).fd t.mode (o b).fd, n))
          | inl n ↦ elim (Bool-cases (a == b)) [
            | inl z ↦ inr (ground (arith, find-erase (o a).fd t.mode (o b).fd, z))
            | inr z ↦ inl (ground (arith, has-removed e o named a b t.poll_set, n, z))
          ]
        ] in
        let f =
          remove_each-Emptied rest t1 (removed-IsThread e o named a t v h)
            (λ b m. still b (r b (ground (arith, m)))) in
        record {
          after = f.after;
          returns = rw (remove_each, remove-eq e o named a t v h, ◌>>=◌) f.returns;
          in_step = f.in_step;
          gone = λ b m. elim (Bool-cases (a == b)) [
            | inl z ↦ f.fewer b (ground (arith, has-removed e o named a b t.poll_set, z))
            | inr z ↦ f.gone b (ground (arith, m, z, named a, named b))
          ];
          fewer = λ b m. f.fewer b (ground (arith, has-removed e o named a b t.poll_set, m));
          waits = λ b m. f.waits b (elim m [
            | inr n ↦ inr (ground (arith, has-insert (o a) (o b) t.pending_remove, n))
            | inl n ↦ elim (Bool-cases (a == b)) [
              | inl z ↦
                  inr (ground (arith, has-insert (o a) (o b) t.pending_remove, z, named a, named b))
              | inr z ↦ inl (ground (arith, has-removed e o named a b t.poll_set, n, z))
            ]
          ]);
        }
    | inr h ↦
        let same : remove e (o a) t ≡ some t =
          remove-absent e o named a t h ∙ (elim (r a (ground (arith, named a))) [
            | inl n ↦ absurd (ground (arith, h, n))
            | inr n ↦ rw (n) refl
          ]) in
        let f = remove_each-Emptied rest t v (λ b m. r b (ground (arith, m))) in
        record {
          after = f.after;
          returns = rw (remove_each, same, ◌>>=◌) f.returns;
          in_step = f.in_step;
          gone = λ b m. elim (Bool-cases (a == b)) [
            | inl z ↦ f.fewer b (subst (λ x. has (o x) t.poll_set ≡ false) (==→eq a b z) h)
            | inr z ↦ f.gone b (ground (arith, m, z, named a, named b))
          ];
          fewer = f.fewer;
          waits = f.waits;
        }
  ]

  entries-absent : (a : ℕ) (ps : List Pollable) → has (o a) ps ≡ false → entries a ps ≡ 0
  unfolding entries has
  entries-absent a [] h = refl
  entries-absent a (p ∷ ps) h =
      let rest = entries-absent a ps (ground (arith, h)) in ground (arith, h, rest, named a)

  -- On a thread in step whose poll_set_ has objects that keep their descriptors, the removals of
  -- the destructor fail no assertion and move each object of poll_set_ to pending_remove_; where
  -- the loop then finds the stop flag, at the start of a round or after epoll_wait, it ends, and no
  -- object has a reference less: none is released.
  pub destroy-release :
      (on : Handlers (Running e)) (last : Round) (later : List Round) (addresses : List ℕ)
      (t : PollThread e) (counts : Counts)
      → IsThread e o t
      → t.poll_set ≡ map o addresses
      → stops last ≡ true
      → (t' : PollThread e) × (counts' : Counts) × (destroy e t ≡ some t')
        × ((a : ℕ) → has (o a) t.poll_set ≡ true → has (o a) t'.pending_remove ≡ true)
        × (poll_loop e on (last ∷ later) (t', counts) ≡ some ((t', counts), some counts'))
        × ((a : ℕ) → counts' a ≡ counts a)
  unfolding destroy poll_loop
  destroy-release on last later addresses t counts v objects stop =
      let f =
        remove_each-Emptied addresses t v
          (λ a m. inl (subst (λ ps. has (o a) ps ≡ true) (sym objects) m)) in
      let empty : (a : ℕ) → has (o a) f.after.poll_set ≡ false = λ a.
        elim (Bool-cases (has (o a) t.poll_set)) [
          | inl h ↦ f.gone a (subst (λ ps. has (o a) ps ≡ true) objects h)
          | inr h ↦ f.fewer a h
        ] in
      let none_left = λ (a : ℕ). entries-absent a f.after.poll_set (empty a) in
      let r =
        poll_loop-release e on [] later last (f.after, counts) (f.after, counts) stop refl
          (λ a. omega (arith, none_left a)) in
      (
        f.after,
        r.0,
        ap (λ ps. remove_each e ps t) objects ∙ f.returns,
        λ a h. elim (f.waits a (inl h)) [ inl m ↦ absurd (ground (arith, m, empty a)) | inr m ↦ m ],
        r.1,
        λ a. omega (arith, r.2 a, none_left a),
      )
