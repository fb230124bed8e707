-- ===== src/Utils/Lines.antt =====
-- What class Log of utils.cc prints of a sequence of messages.
use vncproxy.Prelude.{
  ℕ, zero, suc, ◌==◌, ◌≡◌, ◌<◌, refl, ap, ◌∙◌, sym, true, false, Option, some, List, [], ◌∷◌, ◌++◌,
  ◌>>=◌, ◌>>◌, if◌then◌else◌, arith, Bool-cases, inl, inr, append_assoc, append-nil, require,
}
use vncproxy.Utils.Log.{ℤ, pos, int_leb, Log, nth, indicator, print_line, log_v, log}

-- A message with its level.
abbrev pub Message : Type 0
Message = ℕ × List ℕ

unfoldable pub log_all : List Message → Log → Option Log
log_all [] l = some l
log_all (m ∷ ms) l = do l' ← log (pos m.0) m.1 l; log_all ms l'

-- The messages that a level lets through, each with the file at which they go
unfoldable pub passed : ℤ → List Message → List Message
passed level [] = []
passed level (m ∷ ms) =
    let rest = passed level ms in if int_leb (pos m.0) level then m ∷ rest else rest

-- 'F', 'E', 'W', 'I' or 'D'
unfoldable pub mark : ℕ → ℕ
mark n =
    if n == 0 then 70 else if n == 1 then 69 else if n == 2 then 87 else if n == 3 then 73 else 68

-- "W: message\n"
unfoldable pub line : Message → List ℕ
line m = mark m.0 ∷ 58 ∷ 32 ∷ m.1 ++ 10 ∷ []

unfoldable pub lines_to : ℕ → List Message → List (ℕ × List ℕ)
lines_to fp [] = []
lines_to fp (m ∷ ms) = (fp, line m) ∷ lines_to fp ms

abbrev pub Known : List Message → Type 0
Known [] = Unit
Known (m ∷ ms) = (m.0 < 5) × Known ms

indicator_lem : (n : ℕ) → n < 5 → indicator (pos n) ≡ some (mark n)
unfolding indicator nth mark
indicator_lem zero h = refl
indicator_lem (suc zero) h = refl
indicator_lem (suc (suc zero)) h = refl
indicator_lem (suc (suc (suc zero))) h = refl
indicator_lem (suc (suc (suc (suc zero)))) h = refl
indicator_lem (suc (suc (suc (suc (suc n))))) h = absurd (omega (arith, h))

in_range : (n : ℕ) → n < 5 → int_leb (pos n) (pos 4) ≡ true
unfolding int_leb
in_range n h = ground (arith, h)

-- The log with more lines
abbrev pub with_lines : Log → List (ℕ × List ℕ) → Log
with_lines l more = record l { lines = l.lines ++ more }

log-true :
    (m : Message) (l : Log)
    → m.0 < 5
    → int_leb (pos m.0) l.level ≡ true
    → log (pos m.0) m.1 l ≡ some (with_lines l ((l.fp, line m) ∷ []))
unfolding log log_v print_line line
log-true m l h z =
    rw (log, log_v, in_range m.0 h, z, print_line, indicator_lem m.0 h, ◌>>=◌, ◌>>◌, require) refl

log-false :
    (m : Message) (l : Log)
    → m.0 < 5
    → int_leb (pos m.0) l.level ≡ false
    → log (pos m.0) m.1 l ≡ some l
unfolding log log_v
log-false m l h z = rw (log, log_v, in_range m.0 h, z, ◌>>=◌, ◌>>◌, require) refl

-- Messages at the levels FATAL to DEBUG always have a result: the file gets one line for each that
-- the log's level lets through, in order, with its mark.
pub log_all_lem :
    (ms : List Message) (l : Log)
    → Known ms
    → log_all ms l ≡ some (with_lines l (lines_to l.fp (passed l.level ms)))
unfolding log_all passed lines_to
log_all_lem [] l k = ap (λ xs. some (record l { lines = xs })) (sym (append-nil l.lines))
log_all_lem (m ∷ ms) l (h, k) = elim (Bool-cases (int_leb (pos m.0) l.level)) [
  | inl z ↦
      rw (log_all, log-true m l h z, ◌>>=◌, passed, z, lines_to)
        (log_all_lem ms (with_lines l ((l.fp, line m) ∷ [])) k
          ∙ ap (λ xs. some (record l { lines = xs }))
              (append_assoc l.lines ((l.fp, line m) ∷ []) (lines_to l.fp (passed l.level ms))))
  | inr z ↦ rw (log_all, log-false m l h z, ◌>>=◌, passed, z) (log_all_lem ms l k)
]
