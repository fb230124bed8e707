-- ===== src/Polling/Loop.antt =====
-- `PollMgr::PollThread::poll_loop` of polling.cc on epoll: the events of a round in their order, and
-- the end of the loop.
use vncproxy.Prelude.{
  ℕ, ◌==◌, Bool, true, false, Option, none, some, List, [], ◌∷◌, ◌>>=◌, ◌>>◌, require, not,
}
use vncproxy.Poller.{Pollable}
use vncproxy.Polling.{Epoll, PollThread, Counts, release, remove, end_round}

-- `struct epoll_event` as epoll_wait gives it: EPOLLIN, EPOLLOUT, and one of EPOLLERR, EPOLLHUP and
-- EPOLLRDHUP.
pub record Ready : Type 0 where
  pub ptr : ℕ
  pub readable : Bool
  pub writable : Bool
  pub broken : Bool

-- The virtual methods of the pollables.
pub record Handlers (S : Type 0) : Type 0 where
  pub handle_read : ℕ → S → Option S
  pub handle_write : ℕ → S → Option S
  pub handle_error : ℕ → S → Option S

unfoldable pub call_if : {S : Type 0} → Bool → (S → Option S) → S → Option S
call_if true f s = f s
call_if false f s = some s

module _ {S : Type 0} (on : Handlers S) where
  unfoldable pub handle_event : Ready → S → Option S
  handle_event ev s = do
    require (not (ev.ptr == 0))
    s1 ← call_if ev.readable (on.handle_read ev.ptr) s
    s2 ← call_if ev.writable (on.handle_write ev.ptr) s1
    call_if ev.broken (on.handle_error ev.ptr) s2

  unfoldable pub handle_events : List Ready → S → Option S
  handle_events [] s = some s
  handle_events (ev ∷ evs) s = do s' ← handle_event ev s; handle_events evs s'

-- What a round finds: `stop_flag_` at its start and after epoll_wait, and the events.
pub record Round : Type 0 where
  pub stop_before : Bool
  pub stop_after : Bool
  pub events : List Ready

-- "when stopping, release anything registered in pollmgr"
unfoldable pub release_all : List Pollable → Counts → Option Counts
release_all [] counts = some counts
release_all (q ∷ qs) counts = do counts' ← release q.address counts; release_all qs counts'

module _ (e : Epoll) where
  -- The loop of `~PollThread` over a copy of `poll_set_`
  unfoldable pub remove_each : List Pollable → PollThread e → Option (PollThread e)
  remove_each [] t = some t
  remove_each (q ∷ qs) t = do t' ← remove e q t; remove_each qs t'

  -- What `~PollThread` does before it sets `stop_flag_`
  unfoldable pub destroy : PollThread e → Option (PollThread e)
  destroy t = remove_each t.poll_set t

  -- The thread with the counts.
  abbrev pub Running : Type 0
  Running = PollThread e × Counts

  -- The loop, on what its rounds find. `none` beside the state: it still runs.
  unfoldable pub poll_loop :
      Handlers Running → List Round → Running → Option (Running × Option Counts)
  poll_loop on [] s = some (s, none)
  poll_loop on (round ∷ rounds) s = elim round.stop_before [
    | true ↦ do counts ← release_all s.0.poll_set s.1; some (s, some counts)
    | false ↦ elim round.stop_after [
      | true ↦ do counts ← release_all s.0.poll_set s.1; some (s, some counts)
      | false ↦ do
        s' ← handle_events on round.events s
        s'' ← end_round e s'.0 s'.1
        poll_loop on rounds s''
    ]
  ]
