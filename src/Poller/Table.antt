-- ===== src/Poller/Table.antt =====
-- A poller that only keeps the modes, and refuses nothing.
use vncproxy.Prelude.{ℕ, ◌==◌, Option, none, some, if◌then◌else◌, ap, sym}
use mathlib.Core.Option.{some-injective}
use vncproxy.Poller.{Poller, Pollable}

abbrev table_add : Pollable → (ℕ → Option ℕ) → Option (ℕ → Option ℕ)
table_add a p = some (λ b. if a.address == b then some a.poll_mode else p b)

abbrev table_update : Pollable → ℕ → (ℕ → Option ℕ) → Option (ℕ → Option ℕ)
table_update a w p =
    some
      (λ b. if a.address == b then elim (p a.address) [ none ↦ none | some old ↦ some w ] else p b)

abbrev pub table : Poller
table = record {
  State = ℕ → Option ℕ;
  mode = λ p. p;
  add = table_add;
  update_mode = table_update;
  mode-add = λ a p p' e b. sym (ap (λ f. f b) (some-injective _ p' e));
  mode-update_mode = λ a w p p' e b. sym (ap (λ f. f b) (some-injective _ p' e));
}
