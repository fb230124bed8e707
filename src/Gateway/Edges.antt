-- ===== src/Gateway/Edges.antt =====
-- `tie_fd` of vncproxy.cc beside the poll thread: its calls of `add` and of `ready` are apart, and the
-- poll thread may handle events between them.
use vncproxy.Prelude.{ℕ, ◌==◌, ◌≡◌, true, Option, none, some, List, if◌then◌else◌, ◌>>=◌}
use vncproxy.Kernel.{Kernel}
use vncproxy.Poller.{Poller, Pollable}
use vncproxy.Polling.{Epoll}
use vncproxy.Polling.Loop.{Ready, handle_event}
use vncproxy.Polling.AsPoller.{thread_poller}
use vncproxy.Polling.Edge.{EdgeTriggered, after_report}
use vncproxy.Gateway.{EndPoint, Leaders, pollable, new_end_point, tie, ready}
use vncproxy.Gateway.Relay.{World}
use vncproxy.Gateway.Dispatch.{pair_handlers}

module _ (k : Kernel) (poller : Poller) where
  open poller use {add}

  -- `tie_fd` up to the second `add`
  unfoldable pub tie_adds :
      List ℕ
      → ℕ
      → ℕ
      → ℕ
      → ℕ
      → Leaders
      → poller.State
      → Option (EndPoint × EndPoint × Leaders × poller.State)
  tie_adds forward_key a1 fd1 a2 fd2 leaders p = do
    let tied = tie (new_end_point a1 fd1) forward_key leaders
    p' ← add (pollable tied.0) p
    p'' ← add (pollable (new_end_point a2 fd2)) p'
    some (tied.0, new_end_point a2 fd2, tied.1, p'')

  -- `ep1->ready(); ep2->ready();`
  unfoldable pub enable : World k poller → World k poller
  enable w = record {
    first = ready w.first;
    second = ready w.second;
    kernel = w.kernel;
    poll = w.poll;
  }

  unfoldable pub fd_of : ℕ → World k poller → Option ℕ
  fd_of a w =
      if a == w.first.address
      then some w.first.fd
      else if a == w.second.address
      then some w.second.fd
      else none

module _ (k : Kernel) (e : Epoll) (edges : EdgeTriggered e) (o : ℕ → Pollable)
    (named : (a : ℕ) → (o a).address ≡ a) (fuel : ℕ) where
  abbrev pub Pair : Type 0
  Pair = World k (thread_poller e o named)

  abbrev pub with_report : ℕ → Pair → Pair
  with_report fd w = record {
    first = w.first;
    second = w.second;
    kernel = w.kernel;
    poll = after_report e edges o named fd w.poll;
  }

  -- The poll thread handles an event of the object at `a`, which was due.
  pub data Turn (a : ℕ) (w : Pair) : Pair → Type 0 where
    turn :
        {v : Pair} (ev : Ready) (fd : ℕ)
        → ev.ptr ≡ a
        → fd_of k (thread_poller e o named) a w ≡ some fd
        → edges.due w.poll.thread.epoll fd ≡ true
        → handle_event (pair_handlers k (thread_poller e o named) fuel) ev (with_report fd w)
          ≡ some v
        → Turn a w v
