-- ===== src/Polling/Tests.antt =====
-- A PollThread with one object, and the theorems there.
use vncproxy.Prelude.{
  ℕ, ◌+◌, ◌==◌, ◌≡◌, refl, true, false, none, some, [], ◌∷◌, arith, if◌then◌else◌,
}
use vncproxy.Poller.{Pollable}
use vncproxy.Polling.{
  assign, erase, insert, add_interest, PollThread, set_count, find, has, add, remove,
}
use vncproxy.Polling.Table.{all}
use vncproxy.Polling.Invariant.{IsThread, added-IsThread}
use vncproxy.Polling.Methods.{add_lem, remove_lem}

-- The object at `a` has the descriptor `a + 10`.
abbrev pub object : ℕ → Pollable
object a = record { address = a; fd = a + 10; poll_mode = 3 }

abbrev pub nothing : PollThread all
nothing = record { mode = []; poll_set = []; pending_remove = []; epoll = λ j. none }

pub nothing-IsThread : IsThread all object nothing
unfolding has find
nothing-IsThread = record {
  registered = λ a h. absurd (ground (arith, h));
  owned = λ fd w h. absurd (ground (arith, h));
  apart = λ a b h k same. absurd (ground (arith, h));
}

pub nothing-free : find 11 [] ≡ none
unfolding find
nothing-free = refl

add_lem_example :
    (t' : PollThread all) × (add all (object 1) nothing (λ a. 1)
      ≡ some (t', set_count 1 2 (λ a. 1)))
    × IsThread all object t'
    × (has (object 1) t'.poll_set ≡ true)
    × (find 11 t'.mode ≡ some 3)
add_lem_example =
    add_lem all object (λ a. refl) 1 nothing (λ a. 1) _ nothing-IsThread refl nothing-free refl
      (omega arith) (omega arith)

abbrev pub one : PollThread all
one = record {
  mode = (11, 3) ∷ [];
  poll_set = object 1 ∷ [];
  pending_remove = [];
  epoll =
      λ j. if 11 == j then some (record { readable = true; writable = true; ptr = 1 }) else none;
}

pub one-IsThread : IsThread all object one
unfolding assign erase insert has find add_interest
one-IsThread =
    added-IsThread all object (λ a. refl) 1 nothing one.epoll nothing-IsThread refl refl refl

pub one-has : has (object 1) one.poll_set ≡ true
unfolding has
one-has = refl

one-find : find 11 one.mode ≡ some 3
unfolding find
one-find = refl

-- Another object with the descriptor 11.
abbrev twin : ℕ → Pollable
twin a = record { address = a; fd = 11; poll_mode = 3 }

twin-absent : has (twin 2) one.poll_set ≡ false
unfolding has
twin-absent = refl

remove_lem_example :
    (t' : PollThread all) × (remove all (object 1) one ≡ some t')
    × IsThread all object t'
    × (has (object 1) t'.poll_set ≡ false)
    × (find 11 t'.mode ≡ none)
    × (has (object 1) t'.pending_remove ≡ true)
remove_lem_example = remove_lem all object (λ a. refl) 1 one one-IsThread one-has
