-- ===== src/Gateway/LostTests.antt =====
-- The pair with the descriptors 11 and 12, whose events come before it is enabled.
use vncproxy.Prelude.{ℕ, ◌≡◌, refl, true, false, none, some, Option, [], ◌∷◌, arith, add_int}
use vncproxy.Kernel.Pipes.{pipes, five_bytes}
use vncproxy.Polling
use vncproxy.Polling.{PollThread, has, find}
use vncproxy.Polling.Invariant.{IsThread}
use vncproxy.Polling.Edge.{after_report}
use vncproxy.Polling.EdgeTable.{edged, edged_edges}
use vncproxy.Polling.Loop.{Ready, handle_event, call_if}
use vncproxy.Polling.AsPoller.{checked, InStep, thread_poller, fits, add_fitting, keep_added}
use vncproxy.Gateway.{
  insert_leader, EndPoint, tie, new_end_point, Leaders, handle_read, handle_write,
}
use vncproxy.Gateway.Relay.{step}
use vncproxy.Gateway.Tied.{World_of}
use vncproxy.Gateway.Dispatch.{choose, end_pair, pair_handlers}
use vncproxy.Gateway.Edges.{tie_adds, fd_of, enable, Pair, with_report, Turn, turn}
use vncproxy.Gateway.Lost.{tie_adds-lost}
use vncproxy.Gateway.TwiceTests.{object}

abbrev empty : PollThread edged
empty = record {
  mode = [];
  poll_set = [];
  pending_remove = [];
  epoll = ((λ j. none), (λ j. false));
}

empty-IsThread : IsThread edged object empty
unfolding has find
empty-IsThread = record {
  registered = λ a h. absurd (ground (arith, h));
  owned = λ fd w h. absurd (ground (arith, h));
  apart = λ a b h k same. absurd (ground (arith, h));
}

abbrev idle : InStep edged object (λ a. refl)
idle = record { thread = empty; counts = λ a. 1; in_step = empty-IsThread }

abbrev Tied : Type 0
Tied = EndPoint × EndPoint × Leaders × InStep edged object (λ a. refl)

abbrev attempt : Option Tied
attempt = tie_adds pipes (thread_poller edged object (λ a. refl)) (65 ∷ []) 1 11 2 12 [] idle

abbrev made : Tied
made = elim attempt [ none ↦ (new_end_point 1 11, new_end_point 2 12, [], idle) | some x ↦ x ]

is_made : attempt ≡ some made
unfolding checked Polling.insert Polling.assign Polling.erase tie_adds tie insert_leader
    new_end_point add_fitting keep_added fits Polling.add Polling.ref_copy Polling.find Polling.has
    add_int
is_made = refl

abbrev fresh : Pair pipes edged edged_edges object (λ a. refl) 6
fresh = World_of pipes (thread_poller edged object (λ a. refl)) five_bytes made

abbrev reported :
    ℕ
    → Pair pipes edged edged_edges object (λ a. refl) 6
    → Pair pipes edged edged_edges object (λ a. refl) 6
reported fd w = with_report pipes edged edged_edges object (λ a. refl) 6 fd w

abbrev arrival : ℕ → Ready
arrival a = record { ptr = a; readable = true; writable = true; broken = false }

first_turn : Turn pipes edged edged_edges object (λ a. refl) 6 1 fresh (reported 11 fresh)
unfolding checked Polling.insert Polling.assign Polling.erase tie_adds tie insert_leader
    new_end_point add_fitting keep_added fits Polling.add Polling.ref_copy Polling.find Polling.has
    add_int fd_of handle_event call_if choose end_pair pair_handlers step handle_read handle_write
    after_report
first_turn = turn (arrival 1) 11 refl refl refl refl

second_turn :
    Turn pipes edged edged_edges object
      (λ a. refl)
      6
      2
      (reported 11 fresh)
      (reported 12 (reported 11 fresh))
unfolding checked Polling.insert Polling.assign Polling.erase tie_adds tie insert_leader
    new_end_point add_fitting keep_added fits Polling.add Polling.ref_copy Polling.find Polling.has
    add_int fd_of handle_event call_if choose end_pair pair_handlers step handle_read handle_write
    after_report
second_turn = turn (arrival 2) 12 refl refl refl refl

tie_adds-lost_example :
    (five_bytes ≡ five_bytes)
    × ((a : ℕ) (z : Pair pipes edged edged_edges object (λ a. refl) 6)
        → ¬ Turn pipes edged edged_edges object
            (λ a. refl)
            6
            a
            (enable pipes
              (thread_poller edged object (λ a. refl))
              (reported 12 (reported 11 fresh)))
            z)
tie_adds-lost_example =
    tie_adds-lost pipes edged edged_edges object (λ a. refl) 6 (65 ∷ []) 1 11 2 12 [] five_bytes
      idle made (reported 11 fresh) (reported 12 (reported 11 fresh)) (omega arith) is_made
      first_turn second_turn
