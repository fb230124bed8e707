-- ===== src/Polling/Manager.antt =====
-- Class PollMgr of polling.cc: the threads, and the choice of one by the descriptor. A descriptor
-- is the bit pattern of an `int`.
use vncproxy.Prelude.{
  ℕ, zero, suc, ◌%◌, true, false, Option, none, some, List, [], ◌∷◌, length, ltb, int_limit, ◌>>=◌,
}
use vncproxy.Poller.{Pollable}
use vncproxy.Polling.{Epoll, PollThread, Counts, add, remove, update_mode}

module _ {ℓ} {A : Type ℓ} where
  unfoldable pub nth : ℕ → List A → Option A
  nth i [] = none
  nth zero (a ∷ xs) = some a
  nth (suc i) (a ∷ xs) = nth i xs

  unfoldable pub set_nth : ℕ → A → List A → List A
  set_nth i b [] = []
  set_nth zero b (a ∷ xs) = b ∷ xs
  set_nth (suc i) b (a ∷ xs) = a ∷ set_nth i b xs

-- `fd % n_`: a remainder by zero is undefined.
unfoldable pub thread_of : ℕ → ℕ → Option ℕ
thread_of fd zero = none
thread_of fd (suc n) = some (fd % suc n)

module _ (e : Epoll) where
  -- `poll_threads_`, of which there are `n_`
  abbrev pub Threads : Type 0
  Threads = List (PollThread e)

  -- `PollThread()`, with the descriptor of `epoll_create`
  unfoldable pub new_thread : e.State → PollThread e
  new_thread s = record { mode = []; poll_set = []; pending_remove = []; epoll = s }

  -- `new PollThread[n_]`
  unfoldable pub new_threads : List e.State → Threads
  new_threads [] = []
  new_threads (s ∷ rest) = new_thread s ∷ new_threads rest

  -- A method of `poll_threads_[fd % n_]`
  unfoldable pub on_thread : ℕ → (PollThread e → Option (PollThread e)) → Threads → Option Threads
  on_thread fd method ts = do
    tid ← thread_of fd (length ts)
    t ← nth tid ts
    t' ← method t
    some (set_nth tid t' ts)

  -- `if (fd >= 0)`
  unfoldable pub if_valid : ℕ → Option Threads → Threads → Option Threads
  if_valid fd result ts = elim (ltb fd int_limit) [ true ↦ result | false ↦ some ts ]

  unfoldable pub mgr_remove : Pollable → Threads → Option Threads
  mgr_remove q ts = if_valid q.fd (on_thread q.fd (remove e q) ts) ts

  unfoldable pub mgr_update_mode : Pollable → ℕ → Threads → Option Threads
  mgr_update_mode q new_mode ts = if_valid q.fd (on_thread q.fd (update_mode e q new_mode) ts) ts

  -- `add` counts a reference too.
  unfoldable pub mgr_add : Pollable → Threads → Counts → Option (Threads × Counts)
  mgr_add q ts counts = elim (ltb q.fd int_limit) [
    | false ↦ some (ts, counts)
    | true ↦ do
      tid ← thread_of q.fd (length ts)
      t ← nth tid ts
      out ← add e q t counts
      some (set_nth tid out.0 ts, out.1)
  ]
