-- ===== src/Polling/Registry.antt =====
-- The containers of class PollThread: what is found after each change.
use vncproxy.Prelude.{
  ℕ, ◌≡◌, refl, true, false, none, some, List, [], ◌∷◌, arith, ◌==◌, if◌then◌else◌,
}
use vncproxy.Poller.{Pollable}
use vncproxy.Polling.{Modes, find, erase, assign, has, insert, remove_from}

pub find-erase :
    (fd : ℕ) (ms : Modes) (j : ℕ) → find j (erase fd ms) ≡ (if fd == j then none else find j ms)
unfolding find erase
find-erase fd [] j = ground arith
find-erase fd ((i, w) ∷ ms) j = ground (arith, find-erase fd ms j)

pub find-assign :
    (fd w : ℕ) (ms : Modes) (j : ℕ)
    → find j (assign fd w ms) ≡ (if fd == j then some w else find j ms)
unfolding find assign
find-assign fd w ms j = ground (arith, find-erase fd ms j)

pub has-remove_from :
    (q p : Pollable) (ps : List Pollable)
    → has p (remove_from q ps) ≡ (if q.address == p.address then false else has p ps)
unfolding has remove_from
has-remove_from q p [] = ground arith
has-remove_from q p (r ∷ ps) = ground (arith, has-remove_from q p ps)

has-same : (q p : Pollable) (ps : List Pollable) → q.address ≡ p.address → has q ps ≡ has p ps
unfolding has
has-same q p [] e = refl
has-same q p (r ∷ ps) e = ground (arith, has-same q p ps e, e)

pub has-insert :
    (q p : Pollable) (ps : List Pollable)
    → has p (insert q ps) ≡ (if q.address == p.address then true else has p ps)
unfolding has insert
has-insert q p ps = ground (arith, has-same q p ps)
