-- ===== src/Polling/Table.antt =====
-- An interest list that meets the laws of `Epoll`.
use vncproxy.Prelude.{ℕ, ◌==◌, refl, sym, ap, Option, none, some, if◌then◌else◌}
use mathlib.Core.Option.{some-injective}
use vncproxy.Polling.{Epoll, Interest}

-- It refuses nothing.
abbrev put : ℕ → Interest → (ℕ → Option Interest) → Option (ℕ → Option Interest)
put fd i s = some (λ j. if fd == j then some i else s j)

abbrev pub all : Epoll
all = record {
  State = ℕ → Option Interest;
  interest = λ s. s;
  ctl_add = put;
  ctl_mod = put;
  ctl_del = λ fd s j. if fd == j then none else s j;
  interest-add = λ fd i s s' q j. sym (ap (λ f. f j) (some-injective _ s' q));
  interest-mod = λ fd i s s' q j. sym (ap (λ f. f j) (some-injective _ s' q));
  interest-del = λ fd s j. refl;
}
