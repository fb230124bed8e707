-- ===== src/Polling/Edge.antt =====
-- What epoll(7) says of EPOLLET: an event that was reported is not reported again until there is a
-- new one, or the descriptor is added or changed.
use vncproxy.Prelude.{ℕ, ◌==◌, ◌≡◌, Bool, false, if◌then◌else◌, ◌∙◌}
use vncproxy.Poller.{Pollable}
use vncproxy.Polling.{Epoll, PollThread}
use vncproxy.Polling.Invariant.{IsThread}
use vncproxy.Polling.AsPoller.{InStep}

-- `due s fd`: epoll_wait has an event of `fd` to report.
pub record EdgeTriggered (e : Epoll) : Type 0 where
  pub due : e.State → ℕ → Bool
  pub report : ℕ → e.State → e.State
  pub due-report :
      (fd : ℕ) (s : e.State) (j : ℕ) → due (report fd s) j ≡ (if fd == j then false else due s j)
  pub interest-report : (fd : ℕ) (s : e.State) (j : ℕ) → e.interest (report fd s) j ≡ e.interest s j

module _ (e : Epoll) (edges : EdgeTriggered e) (o : ℕ → Pollable)
    (named : (a : ℕ) → (o a).address ≡ a) where
  open edges use {report, interest-report}

  abbrev pub reported : ℕ → PollThread e → PollThread e
  reported fd t = record t { epoll = report fd t.epoll }

  pub reported-IsThread :
      (fd : ℕ) (t : PollThread e) → IsThread e o t → IsThread e o (reported fd t)
  reported-IsThread fd t v = record {
    registered = λ a h.
        let r = v.registered a h in
        record {
          as_mode = r.as_mode;
          found = r.found;
          watched = interest-report fd t.epoll (o a).fd ∙ r.watched;
        };
    owned = λ j w h.
        let own = v.owned j w h in
        record { owner = own.owner; member = own.member; same_fd = own.same_fd };
    apart = v.apart;
  }

  -- epoll_wait reports the event of `fd`.
  unfoldable pub after_report : ℕ → InStep e o named → InStep e o named
  after_report fd s = record {
    thread = reported fd s.thread;
    counts = s.counts;
    in_step = reported-IsThread fd s.thread s.in_step;
  }
