-- ===== src/Operator/Types.antt =====
-- The authentication types that the remote server names, in `buf`.
use vncproxy.Prelude.{
  ℕ, zero, suc, ◌≤◌, ◌<◌, ◌≡◌, refl, Bool, false, none, some, List, [], ◌∷◌, ◌++◌, arith, length,
  drop, le→leb, lt→ltb, length-append, length-drop, ◌==◌, dec_le, ◌⊎◌, inl, inr,
}
use mathlib.Core.Bool.{◌||◌}
use vncproxy.System.{System, History, done, fault, received}
use vncproxy.Operator.Messages.{store, arrived, recv_or}
use vncproxy.Operator.Remote.{loop_bound, recv_size, scan_types, remote_types}

scan_types-short : (n : ℕ) (bs : List ℕ) → length bs < n → scan_types n bs ≡ none
unfolding scan_types
scan_types-short zero bs h = absurd (omega arith)
scan_types-short (suc n) [] h = refl
scan_types-short (suc n) (b ∷ bs) h = rw (scan_types, scan_types-short n bs (omega arith)) refl

scan_types-long :
    (n : ℕ) (bs : List ℕ) → n ≤ length bs → (p : Bool × Bool) × (scan_types n bs ≡ some p)
unfolding scan_types
scan_types-long zero bs h = ((false, false), refl)
scan_types-long (suc n) [] h = absurd (omega arith)
scan_types-long (suc n) (b ∷ bs) h =
    let rest = scan_types-long n bs (omega arith) in
    (((b == 1) || rest.0.0, (b == 2) || rest.0.1), rw (scan_types, rest.1) refl)

store-fits :
    (buf bs : List ℕ)
    → length bs ≤ length buf
    → (out : List ℕ) × (store buf bs ≡ some out) × (length out ≡ length buf)
unfolding store
store-fits buf bs h = (
  bs ++ drop (length bs) buf,
  rw (store, le→leb (length bs) (length buf) h) refl,
  omega (arith, length-append bs (drop (length bs) buf), length-drop (length bs) buf),
)

store-overflows : (buf bs : List ℕ) → length buf < length bs → store buf bs ≡ none
unfolding store
store-overflows buf bs h = ground arith

module _ (des : List ℕ → List ℕ → List ℕ) (sys : System) (clnt remote : ℕ) where
  types-overflow :
      (b : ℕ) (rest bs : List ℕ) (h : History)
      → b < 128
      → length (b ∷ rest) ≡ 16
      → sys.recv h remote b ≡ some bs
      → 16 < b
      → remote_types des sys clnt remote (b ∷ rest) h ≡ fault
  unfolding remote_types recv_or arrived loop_bound recv_size
  types-overflow b rest bs h signed size r over =
      let small = lt→ltb b 128 signed in
      elim (dec_le (length bs) 16) [
        | yes le ↦
            let st = store-fits (b ∷ rest) bs (omega (arith, size)) in
            let sc = scan_types-short b st.0 (omega (arith, size, st.2)) in
            rw (remote_types, recv_or, recv_size, loop_bound, small, r, arrived, st.1, sc) refl
        | no gt ↦
            let st = store-overflows (b ∷ rest) bs (omega (arith, gt, size)) in
            rw (remote_types, recv_or, recv_size, loop_bound, small, r, arrived, st) refl
      ]

  -- With a buffer of 16 bytes in front of which stands a count b below 128, and a recv that gives
  -- at most b bytes, the reading of the authentication types succeeds where b is at most 16, and
  -- runs out of the buffer where it is more.
  pub remote_types_lem :
      (b : ℕ) (rest bs : List ℕ) (h : History)
      → b < 128
      → length (b ∷ rest) ≡ 16
      → sys.recv h remote b ≡ some bs
      → length bs ≤ b
      → ((b ≤ 16)
          × (types : Bool × Bool) × (remote_types des sys clnt remote (b ∷ rest) h
              ≡ done types (received remote b (some bs) ∷ h)))
        ⊎ ((16 < b) × (remote_types des sys clnt remote (b ∷ rest) h ≡ fault))
  unfolding remote_types recv_or arrived loop_bound recv_size
  remote_types_lem b rest bs h signed size r fits =
      let small = lt→ltb b 128 signed in
      elim (dec_le b 16) [
        | yes le ↦
            let st = store-fits (b ∷ rest) bs (omega (arith, size)) in
            let sc = scan_types-long b st.0 (omega (arith, size, st.2)) in
            inl (
              le,
              sc.0,
              rw (remote_types, recv_or, recv_size, loop_bound, small, r, arrived, st.1, sc.1) refl,
            )
        | no gt ↦
            inr (omega (arith, gt), types-overflow b rest bs h signed size r (omega (arith, gt)))
      ]
