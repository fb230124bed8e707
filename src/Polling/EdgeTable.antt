-- ===== src/Polling/EdgeTable.antt =====
-- An interest list that refuses nothing and has an event due for what is added or changed, until it
-- is reported.
use mathlib.Core.Option.{some-injective}
use vncproxy.Prelude.{ℕ, refl, Bool, true, false, Option, none, some, ◌==◌, if◌then◌else◌, ap, sym}
use vncproxy.Polling.{Epoll, Interest}
use vncproxy.Polling.Edge.{EdgeTriggered}

abbrev Flags : Type 0
Flags = (ℕ → Option Interest) × (ℕ → Bool)

abbrev entered : ℕ → Interest → Flags → Flags
entered fd i s = ((λ j. if fd == j then some i else s.0 j), (λ j. if fd == j then true else s.1 j))

abbrev pub edged : Epoll
edged = record {
  State = Flags;
  interest = λ s. s.0;
  ctl_add = λ fd i s. some (entered fd i s);
  ctl_mod = λ fd i s. some (entered fd i s);
  ctl_del = λ fd s. ((λ j. if fd == j then none else s.0 j), s.1);
  interest-add = λ fd i s s' q j. sym (ap (λ (f : Flags). f.0 j) (some-injective _ s' q));
  interest-mod = λ fd i s s' q j. sym (ap (λ (f : Flags). f.0 j) (some-injective _ s' q));
  interest-del = λ fd s j. refl;
}

abbrev pub edged_edges : EdgeTriggered edged
edged_edges = record {
  due = λ s. s.1;
  report = λ fd s. (s.0, (λ j. if fd == j then false else s.1 j));
  due-report = λ fd s j. refl;
  interest-report = λ fd s j. refl;
}
