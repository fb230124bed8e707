-- ===== src/System/Held.antt =====
-- Which descriptors a piece of code holds, by its calls.
use vncproxy.Prelude.{arith, ℕ, ◌==◌, ◌≡◌, Option, none, some, List, [], ◌∷◌, if◌then◌else◌}
use vncproxy.System.{
  History, get_flags, set_flags, sent, received, closed, looked_up, socket_opened, connected, bound,
  listened, random, queried, handed_over,
}

-- Without one occurrence of `fd`; `none` where there is none.
unfoldable pub give_up : ℕ → List ℕ → Option (List ℕ)
give_up fd [] = none
give_up fd (j ∷ fds) =
    let rest = give_up fd fds in
    if fd == j then some fds else elim rest [ none ↦ none | some left ↦ some (j ∷ left) ]

unfoldable pub give_up_from : ℕ → Option (List ℕ) → Option (List ℕ)
give_up_from fd none = none
give_up_from fd (some fds) = give_up fd fds

abbrev pub acquire : Option ℕ → Option (List ℕ) → Option (List ℕ)
acquire (some fd) (some fds) = some (fd ∷ fds)
acquire (some fd) none = none
acquire none held = held

-- What is held after the calls, of `first` at the start, the newest first. `none`: something was
-- closed or handed over that was not held.
unfoldable pub held : List ℕ → History → Option (List ℕ)
held first [] = some first
held first (closed fd ∷ h) = give_up_from fd (held first h)
held first (handed_over key fd1 fd2 ∷ h) = give_up_from fd2 (give_up_from fd1 (held first h))
held first (socket_opened addr r ∷ h) = acquire r (held first h)
held first (get_flags fd r ∷ h) = held first h
held first (set_flags fd f r ∷ h) = held first h
held first (sent fd bs r ∷ h) = held first h
held first (received fd n r ∷ h) = held first h
held first (looked_up host port r ∷ h) = held first h
held first (connected fd addr r ∷ h) = held first h
held first (bound fd addr r ∷ h) = held first h
held first (listened fd r ∷ h) = held first h
held first (random r ∷ h) = held first h
held first (queried r ∷ h) = held first h

pub give_up_first : (fd : ℕ) (fds : List ℕ) → give_up fd (fd ∷ fds) ≡ some fds
unfolding give_up
give_up_first fd fds = ground arith
