-- ===== src/Polling/LoopTests.antt =====
-- The loop of a PollThread with one object, stopped in its second round.
use vncproxy.Prelude.{ℕ, ◌+◌, ◌-◌, ◌≤◌, ◌≡◌, refl, true, false, some, none, [], ◌∷◌, ◌++◌, arith}
use vncproxy.Polling.{has, PollThread, Counts, end_round, remove_all}
use vncproxy.Polling.Table.{all}
use vncproxy.Polling.Tests.{object, one, one-IsThread}
use vncproxy.Polling.Destroyed.{destroy-release}
use vncproxy.Polling.Loop.{
  Handlers, Round, Running, handle_events, handle_event, call_if, poll_loop, destroy,
}
use vncproxy.Polling.Stop.{entries, stops, poll_loop-release}

-- A read takes a count.
abbrev counting : Handlers (Running all)
counting = record {
  handle_read = λ a s. some (s.0, λ b. s.1 b + 1);
  handle_write = λ a s. some s;
  handle_error = λ a s. some s;
}

abbrev first : Round
first = record {
  stop_before = false;
  stop_after = false;
  events = record { ptr = 1; readable = true; writable = true; broken = false } ∷ [];
}

abbrev last : Round
last = record { stop_before = false; stop_after = true; events = [] }

stopping : stops last ≡ true
unfolding stops
stopping = refl

abbrev before : Running all
before = (one, λ a. 2)

abbrev after : Running all
after = (one, λ a. 2 + 1)

runs : poll_loop all counting (first ∷ []) before ≡ some (after, none)
unfolding poll_loop handle_events handle_event call_if end_round remove_all
runs = refl

enough : (a : ℕ) → entries a one.poll_set ≤ 3
unfolding entries
enough a = ground arith

poll_loop-release_example :
    (counts : Counts) × (poll_loop all counting ((first ∷ []) ++ last ∷ last ∷ []) before
      ≡ some (after, some counts))
    × ((a : ℕ) → counts a ≡ 3 - entries a one.poll_set)
poll_loop-release_example =
    poll_loop-release all counting (first ∷ []) (last ∷ []) last before after stopping runs enough

destroy-release_example :
    (t : PollThread all) × (counts : Counts) × (destroy all one ≡ some t)
    × ((a : ℕ) → has (object a) one.poll_set ≡ true → has (object a) t.pending_remove ≡ true)
    × (poll_loop all counting (last ∷ []) (t, λ a. 1) ≡ some ((t, λ a. 1), some counts))
    × ((a : ℕ) → counts a ≡ 1)
destroy-release_example =
    destroy-release all object (λ a. refl) counting last [] (1 ∷ []) one (λ a. 1) one-IsThread refl
      stopping
