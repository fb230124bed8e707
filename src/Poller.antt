-- ===== src/Poller.antt =====
-- What class EndPoint asks of class PollMgr (polling.h), and the methods that PollMgr asks of a
-- Pollable.
pub mod Table
use vncproxy.Prelude.{ℕ, ◌==◌, ◌≡◌, Option, none, some, if◌then◌else◌}

-- `Pollable::READ` and `Pollable::WRITE`
abbrev pub read_mode : ℕ
read_mode = 1

abbrev pub write_mode : ℕ
write_mode = 2

-- `Pollable::READ | Pollable::WRITE`
abbrev pub both_modes : ℕ
both_modes = 3

-- An object with the values of its `fd()` and `poll_mode()`.
pub record Pollable : Type 0 where
  pub address : ℕ
  pub fd : ℕ
  pub poll_mode : ℕ

-- `mode s a` is the mode with which the object at the address `a` is registered. `none` is an
-- abort.
pub record Poller : Type 1 where
  pub State : Type 0
  pub mode : State → ℕ → Option ℕ
  pub add : Pollable → State → Option State
  pub update_mode : Pollable → ℕ → State → Option State
  pub mode-add :
      (a : Pollable) (p p' : State)
      → add a p ≡ some p'
      → (b : ℕ) → mode p' b ≡ (if a.address == b then some a.poll_mode else mode p b)
  pub mode-update_mode :
      (a : Pollable) (w : ℕ) (p p' : State)
      → update_mode a w p ≡ some p'
      → (b : ℕ)
      → mode p' b ≡ (
          if a.address == b
          then elim (mode p a.address) [ none ↦ none | some old ↦ some w ]
          else mode p b)
