-- ===== src/Prelude/Lists.antt =====
-- Arrays and byte strings as lists with native indices.
use Prim.Native.Nat.{ℕ, zero, suc, ◌+◌, ◌-◌, ◌≤◌, min}
use mathlib.Core.Path.{◌≡◌, refl, ap, sym, ◌∙◌}
use mathlib.Core.List.{List, [], ◌∷◌, ◌++◌}
use native.Mathlib.Omega.{arith}

module _ {ℓ} {A : Type ℓ} where
  abbrev pub length : List A → ℕ
  length [] = 0
  length (x ∷ xs) = suc (length xs)

  abbrev pub take : ℕ → List A → List A
  take zero xs = []
  take (suc n) [] = []
  take (suc n) (x ∷ xs) = x ∷ take n xs

  abbrev pub drop : ℕ → List A → List A
  drop zero xs = xs
  drop (suc n) [] = []
  drop (suc n) (x ∷ xs) = drop n xs

  abbrev pub replicate : ℕ → A → List A
  replicate zero a = []
  replicate (suc n) a = a ∷ replicate n a

  -- `memcpy(xs + i, src, length src)`
  abbrev pub copy_at : List A → ℕ → List A → List A
  copy_at xs i src = take i xs ++ (src ++ drop (i + length src) xs)

module _ {ℓ} {A : Type ℓ} where
  pub length-append : (xs ys : List A) → length (xs ++ ys) ≡ length xs + length ys
  length-append [] ys = omega arith
  length-append (x ∷ xs) ys = omega (arith, length-append xs ys)

  pub length-take : (n : ℕ) (xs : List A) → length (take n xs) ≡ min n (length xs)
  length-take zero xs = omega arith
  length-take (suc n) [] = omega arith
  length-take (suc n) (x ∷ xs) = omega (arith, length-take n xs)

  pub length-drop : (n : ℕ) (xs : List A) → length (drop n xs) ≡ length xs - n
  length-drop zero xs = omega arith
  length-drop (suc n) [] = omega arith
  length-drop (suc n) (x ∷ xs) = omega (arith, length-drop n xs)

  pub length-replicate : (n : ℕ) (a : A) → length (replicate n a) ≡ n
  length-replicate zero a = refl
  length-replicate (suc n) a = ap suc (length-replicate n a)

  pub take-append-drop : (n : ℕ) (xs : List A) → take n xs ++ drop n xs ≡ xs
  take-append-drop zero xs = refl
  take-append-drop (suc n) [] = refl
  take-append-drop (suc n) (x ∷ xs) = ap (◌∷◌ x) (take-append-drop n xs)

  pub take_of_length_le : (n : ℕ) (xs : List A) → length xs ≤ n → take n xs ≡ xs
  take_of_length_le zero [] h = refl
  take_of_length_le zero (x ∷ xs) h = absurd (omega arith)
  take_of_length_le (suc n) [] h = refl
  take_of_length_le (suc n) (x ∷ xs) h = ap (◌∷◌ x) (take_of_length_le n xs (omega arith))

  pub drop_of_length_le : (n : ℕ) (xs : List A) → length xs ≤ n → drop n xs ≡ []
  drop_of_length_le zero [] h = refl
  drop_of_length_le zero (x ∷ xs) h = absurd (omega arith)
  drop_of_length_le (suc n) [] h = refl
  drop_of_length_le (suc n) (x ∷ xs) h = drop_of_length_le n xs (omega arith)

  -- A prefix taken up to the first part, and past it.
  pub take-append_le : (n : ℕ) (xs ys : List A) → n ≤ length xs → take n (xs ++ ys) ≡ take n xs
  take-append_le zero xs ys h = refl
  take-append_le (suc n) [] ys h = absurd (omega arith)
  take-append_le (suc n) (x ∷ xs) ys h = ap (◌∷◌ x) (take-append_le n xs ys (omega arith))

  pub drop-append_le :
      (n : ℕ) (xs ys : List A) → n ≤ length xs → drop n (xs ++ ys) ≡ drop n xs ++ ys
  drop-append_le zero xs ys h = refl
  drop-append_le (suc n) [] ys h = absurd (omega arith)
  drop-append_le (suc n) (x ∷ xs) ys h = drop-append_le n xs ys (omega arith)

  pub take-append_ge :
      (n : ℕ) (xs ys : List A) → length xs ≤ n → take n (xs ++ ys) ≡ xs ++ take (n - length xs) ys
  take-append_ge n [] ys h = ap (λ k. take k ys) (omega arith)
  take-append_ge zero (x ∷ xs) ys h = absurd (omega arith)
  take-append_ge (suc n) (x ∷ xs) ys h =
      ap (◌∷◌ x) (take-append_ge n xs ys (omega arith) ∙ ap (λ k. xs ++ take k ys) (omega arith))

  pub drop-append_ge :
      (n : ℕ) (xs ys : List A) → length xs ≤ n → drop n (xs ++ ys) ≡ drop (n - length xs) ys
  drop-append_ge n [] ys h = ap (λ k. drop k ys) (omega arith)
  drop-append_ge zero (x ∷ xs) ys h = absurd (omega arith)
  drop-append_ge (suc n) (x ∷ xs) ys h =
      drop-append_ge n xs ys (omega arith) ∙ ap (λ k. drop k ys) (omega arith)

  pub drop-nil : (n : ℕ) → drop {A = A} n [] ≡ []
  drop-nil zero = refl
  drop-nil (suc n) = refl

  pub take-nil : (n : ℕ) → take {A = A} n [] ≡ []
  take-nil zero = refl
  take-nil (suc n) = refl

  pub drop-drop : (i j : ℕ) (xs : List A) → drop i (drop j xs) ≡ drop (j + i) xs
  drop-drop i zero xs = ap (λ (k : ℕ). drop k xs) {x = i} (omega arith)
  drop-drop i (suc j) [] = drop-nil i ∙ sym (drop-nil (suc j + i))
  drop-drop i (suc j) (x ∷ xs) =
      drop-drop i j xs ∙ ap (λ (k : ℕ). drop k (x ∷ xs)) {x = suc (j + i)} (omega arith)

  pub take-take : (i j : ℕ) (xs : List A) → i ≤ j → take i (take j xs) ≡ take i xs
  take-take zero j xs h = refl
  take-take (suc i) zero xs h = absurd (omega arith)
  take-take (suc i) (suc j) [] h = refl
  take-take (suc i) (suc j) (x ∷ xs) h = ap (◌∷◌ x) (take-take i j xs (omega arith))

  -- A count capped by the length takes the same prefix.
  pub take-min-length : (n : ℕ) (xs : List A) → take (min n (length xs)) xs ≡ take n xs
  take-min-length zero xs =
      ap (λ (k : ℕ). take k xs) {x = min zero (length xs)} {y = zero} (omega arith)
  take-min-length (suc n) [] = take-nil (min (suc n) 0)
  take-min-length (suc n) (x ∷ xs) =
      ap (λ (k : ℕ). take k (x ∷ xs)) {x = min (suc n) (suc (length xs))}
        {y = suc (min n (length xs))} (omega arith)
      ∙ ap (◌∷◌ x) (take-min-length n xs)

  pub take-length-take : (n : ℕ) (xs : List A) → take (length (take n xs)) xs ≡ take n xs
  take-length-take zero xs = refl
  take-length-take (suc n) [] = refl
  take-length-take (suc n) (x ∷ xs) = ap (◌∷◌ x) (take-length-take n xs)

  -- A longer prefix is a shorter one and what follows it.
  pub take-add : (i j : ℕ) (xs : List A) → take (i + j) xs ≡ take i xs ++ take j (drop i xs)
  take-add zero j xs = ap (λ (k : ℕ). take k xs) {x = zero + j} (omega arith)
  take-add (suc i) j [] = take-nil (suc i + j) ∙ sym (take-nil j)
  take-add (suc i) j (x ∷ xs) =
      ap (λ (k : ℕ). take k (x ∷ xs)) {x = suc i + j} {y = suc (i + j)} (omega arith)
      ∙ ap (◌∷◌ x) (take-add i j xs)

  -- A prefix taken in two goes, where the first stops at the end of the first part.
  pub take-append-take :
      (k r m : ℕ) (xs ys : List A)
      → r ≡ length (take k xs)
      → k ≡ r + m
      → take k xs ++ take m (drop r (xs ++ ys)) ≡ take k (xs ++ ys)
  take-append-take k r m xs ys e f = sym (
      ap (λ (j : ℕ). take j (xs ++ ys)) f
      ∙ take-add r m (xs ++ ys)
      ∙ ap (λ zs. zs ++ take m (drop r (xs ++ ys)))
          (take-append_le r xs ys (omega (arith, length-take k xs))
            ∙ ap (λ (j : ℕ). take j xs) e
            ∙ take-length-take k xs))

  -- Cutting the end off and then the start is cutting the start off and then the end.
  pub drop-take : (i j : ℕ) (xs : List A) → drop i (take j xs) ≡ take (j - i) (drop i xs)
  drop-take zero j xs = ap (λ (k : ℕ). take k xs) {x = j} (omega arith)
  drop-take (suc i) zero xs =
      ap (λ (k : ℕ). take k (drop (suc i) xs)) {x = zero} {y = zero - suc i} (omega arith)
  drop-take (suc i) (suc j) [] = sym (take-nil (suc j - suc i))
  drop-take (suc i) (suc j) (x ∷ xs) =
      drop-take i j xs ∙ ap (λ (k : ℕ). take k (drop i xs)) {x = j - i} (omega arith)

  -- Writing `src` at `i` keeps the array's length, and the array up to its end is what stood
  -- before it and `src`.
  pub length-copy_at :
      (xs : List A) (i : ℕ) (src : List A)
      → i + length src ≤ length xs
      → length (copy_at xs i src) ≡ length xs
  length-copy_at xs i src h = omega (
    arith,
    length-append (take i xs) (src ++ drop (i + length src) xs),
    length-append src (drop (i + length src) xs),
    length-take i xs,
    length-drop (i + length src) xs,
  )

  pub take-copy_at :
      (xs : List A) (i : ℕ) (src : List A)
      → i + length src ≤ length xs
      → take (i + length src) (copy_at xs i src) ≡ take i xs ++ src
  take-copy_at xs i src h =
      simp
        (
          take-append_ge (i + length src) (take i xs) (src ++ drop (i + length src) xs)
              (omega (arith, len)),
          cut,
        )
        (ap (◌++◌ (take i xs)) (
          take-append_le (length src) src _ (omega arith)
          ∙ take_of_length_le (length src) src (omega arith)))
    where
      len : length (take i xs) ≡ i
      len = omega (arith, length-take i xs)

      cut : i + length src - length (take i xs) ≡ length src
      cut = omega (arith, len)
