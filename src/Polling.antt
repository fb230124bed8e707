-- ===== src/Polling.antt =====
-- Class PollMgr::PollThread of polling.cc, as it is built on epoll, and class RefCounted of
-- utils.h, whose counts it takes part in. Each method is one step: the mutexes are not modelled.
pub mod Registry
pub mod Invariant
pub mod Methods
pub mod Table
pub mod Manager
pub mod Placed
pub mod Managed
pub mod Moded
pub mod Loop
pub mod Fills
pub mod AsPoller
pub mod Edge
pub mod EdgeTable
pub mod Stop
pub mod Destroyed
mod Tests
mod ManagerTests
mod LoopTests
use vncproxy.Prelude.{
  ℕ, ◌+◌, ◌-◌, ◌/◌, ◌%◌, ◌==◌, ◌≡◌, Bool, true, false, not, Option, none, some, List, [], ◌∷◌, ◌++◌,
  if◌then◌else◌, ◌>>=◌, ◌>>◌, require, ltb, int_limit, add_int, length,
}
use vncproxy.Poller.{Pollable}

-- `refcnt_` of the object at each address. A deleted object has the count 0, and no use of it is
-- defined.
abbrev pub Counts : Type 0
Counts = ℕ → ℕ

abbrev pub set_count : ℕ → ℕ → Counts → Counts
set_count a n counts = λ b. if a == b then n else counts b

unfoldable pub ref_copy : ℕ → Counts → Option Counts
ref_copy a counts = do
  require (ltb 0 (counts a))
  n ← add_int (counts a) 1
  some (set_count a n counts)

-- `delete this` at the count 0
unfoldable pub release : ℕ → Counts → Option Counts
release a counts = do require (ltb 0 (counts a)); some (set_count a (counts a - 1) counts)

-- `std::map<int, int>`: the keys are distinct.
abbrev pub Modes : Type 0
Modes = List (ℕ × ℕ)

unfoldable pub find : ℕ → Modes → Option ℕ
find fd [] = none
find fd ((j, w) ∷ ms) = if fd == j then some w else find fd ms

unfoldable pub erase : ℕ → Modes → Modes
erase fd [] = []
erase fd ((j, w) ∷ ms) = let rest = erase fd ms in if fd == j then rest else (j, w) ∷ rest

-- `mode_[fd] = w`
unfoldable pub assign : ℕ → ℕ → Modes → Modes
assign fd w ms = (fd, w) ∷ erase fd ms

abbrev pub is_some : Option ℕ → Bool
is_some none = false
is_some (some w) = true

-- `std::set<Pollable*>`: the order of the addresses is not modelled.
unfoldable pub has : Pollable → List Pollable → Bool
has q [] = false
has q (p ∷ ps) = if q.address == p.address then true else has q ps

unfoldable pub insert : Pollable → List Pollable → List Pollable
insert q ps = if has q ps then ps else q ∷ ps

unfoldable pub remove_from : Pollable → List Pollable → List Pollable
remove_from q [] = []
remove_from q (p ∷ ps) =
    let rest = remove_from q ps in if q.address == p.address then rest else p ∷ rest

-- `mode & Pollable::READ` and `mode & Pollable::WRITE`
abbrev pub reads : ℕ → Bool
reads w = w % 2 == 1

abbrev pub writes : ℕ → Bool
writes w = w / 2 % 2 == 1

-- `struct epoll_event`: whether EPOLLIN and EPOLLOUT are among the events. EPOLLET and EPOLLRDHUP
-- always are.
pub record Interest : Type 0 where
  pub readable : Bool
  pub writable : Bool
  pub ptr : ℕ

-- The interest list of an epoll descriptor: `none` is the result -1. `ctl_del` has no result, since
-- the code looks at none.
pub record Epoll : Type 1 where
  pub State : Type 0
  pub interest : State → ℕ → Option Interest
  pub ctl_add : ℕ → Interest → State → Option State
  pub ctl_mod : ℕ → Interest → State → Option State
  pub ctl_del : ℕ → State → State
  pub interest-add :
      (fd : ℕ) (i : Interest) (s s' : State)
      → ctl_add fd i s ≡ some s'
      → (j : ℕ) → interest s' j ≡ (if fd == j then some i else interest s j)
  pub interest-mod :
      (fd : ℕ) (i : Interest) (s s' : State)
      → ctl_mod fd i s ≡ some s'
      → (j : ℕ) → interest s' j ≡ (if fd == j then some i else interest s j)
  pub interest-del :
      (fd : ℕ) (s : State) (j : ℕ)
      → interest (ctl_del fd s) j ≡ (if fd == j then none else interest s j)

module _ (e : Epoll) where
  pub record PollThread : Type 0 where
    pub mode : Modes
    pub poll_set : List Pollable
    pub pending_remove : List Pollable
    pub epoll : e.State

  -- `events = EPOLLIN | …`, whether the mode reads or not
  unfoldable pub add_interest : Pollable → Interest
  add_interest q = record { readable = true; writable = writes q.poll_mode; ptr = q.address }

  unfoldable pub mode_interest : Pollable → ℕ → Interest
  mode_interest q w = record { readable = reads w; writable = writes w; ptr = q.address }

  unfoldable pub add : Pollable → PollThread → Counts → Option (PollThread × Counts)
  add q t counts = do
    counts' ← ref_copy q.address counts
    require (not (has q t.poll_set))
    require (not (is_some (find q.fd t.mode)))
    s ← e.ctl_add q.fd (add_interest q) t.epoll
    some (
      record t { poll_set = insert q t.poll_set; mode = assign q.fd q.poll_mode t.mode; epoll = s },
      counts',
    )

  unfoldable pub remove : Pollable → PollThread → Option PollThread
  remove q t = elim (has q t.poll_set) [
    | true ↦ do
      require (is_some (find q.fd t.mode))
      some (record t {
        poll_set = remove_from q t.poll_set;
        mode = erase q.fd t.mode;
        pending_remove = insert q t.pending_remove;
      })
    | false ↦ do require (not (is_some (find q.fd t.mode))); some t
  ]

  -- `it->second = new_mode;` and the call of epoll where the mode changes
  unfoldable pub change_mode : Pollable → ℕ → ℕ → PollThread → Option PollThread
  change_mode q new_mode old_mode t = elim (new_mode == old_mode) [
    | true ↦ some (record t { mode = assign q.fd new_mode t.mode })
    | false ↦ do
      s ← e.ctl_mod q.fd (mode_interest q new_mode) t.epoll
      some (record t { mode = assign q.fd new_mode t.mode; epoll = s })
  ]

  unfoldable pub update_mode : Pollable → ℕ → PollThread → Option PollThread
  update_mode q new_mode t = elim (has q t.poll_set) [
    | false ↦ some t
    | true ↦ do old_mode ← find q.fd t.mode; change_mode q new_mode old_mode t
  ]

  -- What `poll_loop` does for each pollable that waits to be removed.
  unfoldable pub remove_all : List Pollable → Modes → e.State → Counts → Option (e.State × Counts)
  remove_all [] mode s counts = some (s, counts)
  remove_all (q ∷ qs) mode s counts = do
    require (ltb 0 (counts q.address))
    counts' ← release q.address counts
    remove_all qs mode (if is_some (find q.fd mode) then s else e.ctl_del q.fd s) counts'

  -- `poll_loop` after the events of a round
  unfoldable pub end_round : PollThread → Counts → Option (PollThread × Counts)
  end_round t counts = do
    out ← remove_all t.pending_remove t.mode t.epoll counts
    some (record t { pending_remove = []; epoll = out.0 }, out.1)
