-- ===== src/Utils/LogTests.antt =====
-- Messages at the level WARN, and three calls of `next`.
use vncproxy.Prelude.{refl, ◌≡◌, some, none, List, [], ◌∷◌}
use vncproxy.Utils.Log.{Log, pos, negsuc, log, log_v, int_leb, print_line, indicator, nth}
use vncproxy.Utils.Lines.{Message, log_all}
use vncproxy.Utils.Counter.{new_counter, next, draws}

abbrev warnings : Log
warnings = record { level = pos 2; fp = 1; lines = [] }

-- An error and an info
abbrev messages : List Message
messages = (1, 120 ∷ []) ∷ (3, 121 ∷ []) ∷ []

-- "E: x" goes to the file, and the info nowhere.
prints :
    log_all messages warnings
    ≡ some (record warnings { lines = (1, 69 ∷ 58 ∷ 32 ∷ 120 ∷ 10 ∷ []) ∷ [] })
unfolding log_all log log_v int_leb print_line indicator nth
prints = refl

-- `Log::log` takes a level below FATAL, for which there is no mark.
below_fatal : log (negsuc 0) [] warnings ≡ none
unfolding log log_v int_leb print_line indicator
below_fatal = refl

three_draws : draws 3 new_counter ≡ some (0 ∷ 1 ∷ 2 ∷ [], 3)
unfolding draws new_counter next
three_draws = refl
