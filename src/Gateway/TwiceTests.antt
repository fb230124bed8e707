-- ===== src/Gateway/TwiceTests.antt =====
-- The errors of a pair with the descriptors 11 and 12.
use vncproxy.Prelude.{ℕ, ◌+◌, ◌==◌, ◌≡◌, refl, true, none, some, [], ◌∷◌, arith, if◌then◌else◌}
use vncproxy.Poller.{Pollable}
use vncproxy.Polling.{
  PollThread, Counts, end_round, Interest, find, erase, assign, has, insert, add_interest,
}
use vncproxy.Polling.Table.{all}
use vncproxy.Polling.Invariant.{IsThread, added-IsThread}
use vncproxy.Gateway.{EndPoint}
use vncproxy.Gateway.Shutdown.{Shared, handle_error}
use vncproxy.Gateway.Twice.{shutdown-twice}
use vncproxy.Gateway.Once.{shutdown-once}

abbrev pub object : ℕ → Pollable
object a = record { address = a; fd = a + 10; poll_mode = 3 }

abbrev full : ℕ → Interest
full a = record { readable = true; writable = true; ptr = a }

abbrev pub nothing : PollThread all
nothing = record { mode = []; poll_set = []; pending_remove = []; epoll = λ j. none }

abbrev one : PollThread all
one = record nothing {
  mode = (11, 3) ∷ [];
  poll_set = object 1 ∷ [];
  epoll = λ j. if 11 == j then some (full 1) else none;
}

abbrev pub two : PollThread all
two = record nothing {
  mode = (12, 3) ∷ (11, 3) ∷ [];
  poll_set = object 2 ∷ object 1 ∷ [];
  epoll = λ j. if 12 == j then some (full 2) else one.epoll j;
}

pub nothing-IsThread : IsThread all object nothing
unfolding has find
nothing-IsThread = record {
  registered = λ a h. absurd (ground (arith, h));
  owned = λ fd w h. absurd (ground (arith, h));
  apart = λ a b h k same. absurd (ground (arith, h));
}

one-IsThread : IsThread all object one
unfolding assign erase insert has find add_interest
one-IsThread =
    added-IsThread all object (λ a. refl) 1 nothing one.epoll nothing-IsThread refl refl refl

pub two-IsThread : IsThread all object two
unfolding assign erase insert has find add_interest
two-IsThread = added-IsThread all object (λ a. refl) 2 one two.epoll one-IsThread refl refl refl

abbrev pub end_of : ℕ → EndPoint
end_of a = record {
  address = a;
  fd = a + 10;
  forward_key = 65 ∷ [];
  leader = a == 1;
  buf = record { chunks = []; write_counter = 0 };
  enabled = true;
}

abbrev pub shared : Shared all
shared = record { thread = two; counts = λ a. 2; leaders = (65 ∷ [], 1) ∷ []; closed = [] }

pub two-has : (has (object 1) two.poll_set ≡ true) × (has (object 2) two.poll_set ≡ true)
unfolding has
two-has = (refl, refl)

shutdown-twice_example :
    (sh : Shared all) × (handle_error all (end_of 1) (end_of 2) shared ≡ some sh)
    × (sh.counts 1 ≡ 1)
    × (sh.counts 2 ≡ 1)
    × (has (object 1) sh.thread.pending_remove ≡ true)
    × (has (object 2) sh.thread.pending_remove ≡ true)
    × (handle_error all (end_of 2) (end_of 1) sh ≡ none)
shutdown-twice_example =
    shutdown-twice all object (λ a. refl) (end_of 1) (end_of 2) shared (refl, refl) (refl, refl)
      refl refl (omega arith) two-IsThread two-has.0 two-has.1 refl refl

shutdown-once_example :
    (sh : Shared all) × (t : PollThread all) × (counts : Counts) × (handle_error all
        (end_of 1)
        (end_of 2)
        shared
      ≡ some sh)
    × (sh.closed ≡ 12 ∷ 11 ∷ [])
    × (end_round all sh.thread sh.counts ≡ some (t, counts))
    × (counts 1 ≡ 0)
    × (counts 2 ≡ 0)
    × (t.pending_remove ≡ [])
shutdown-once_example =
    shutdown-once all object (λ a. refl) (end_of 1) (end_of 2) shared (refl, refl) refl refl
      (omega arith) two-IsThread refl two-has.0 two-has.1 refl refl
