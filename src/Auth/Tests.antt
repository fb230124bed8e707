-- ===== src/Auth/Tests.antt =====
-- The authentication at a small table, and its theorems there.
use vncproxy.Prelude.{ℕ, ◌≡◌, refl, none, some, List, [], ◌∷◌, ◌++◌, arith, map, ◌+◌}
use vncproxy.Auth.{new_auth_info, authenticate, answer, auth_key, encrypt, same_bytes}
use vncproxy.Auth.Match.{Entry, rows_of, first_fit, settled, authenticate_lem, authenticate-long}

-- A toy cipher: the block, shifted by the first byte of the key.
abbrev shift : List ℕ → List ℕ → List ℕ
shift [] block = block
shift (k ∷ ks) block = map (λ b. b + k) block

abbrev entry : ℕ → Entry
entry n = record { key = n ∷ []; short = omega arith; addr = 49 ∷ []; passwd = some (7 ∷ []) }

abbrev challenge : List ℕ
challenge = 1 ∷ 2 ∷ 3 ∷ 4 ∷ 5 ∷ 6 ∷ 7 ∷ 8 ∷ 9 ∷ 10 ∷ 11 ∷ 12 ∷ 13 ∷ 14 ∷ 15 ∷ 16 ∷ []

abbrev response : List ℕ
response = map (λ b. b + 5) challenge

authenticate_lem_example :
    authenticate shift (rows_of (entry 4 ∷ entry 5 ∷ [])) (new_auth_info challenge response)
    ≡ some (
        settled shift challenge response
          (first_fit shift challenge response (entry 4 ∷ entry 5 ∷ [])))
authenticate_lem_example = authenticate_lem shift (entry 4 ∷ entry 5 ∷ []) challenge response

answered : answer shift (5 ∷ []) challenge ≡ some response
unfolding answer auth_key encrypt
answered = refl

-- No row before the long key fits: the second row would.
authenticate-long_example :
    authenticate shift
      (rows_of (entry 4 ∷ [])
        ++ record {
          key = some (1 ∷ 2 ∷ 3 ∷ 4 ∷ 5 ∷ 6 ∷ 7 ∷ 8 ∷ 9 ∷ []);
          addr = none;
          passwd = none;
        }
          ∷ rows_of (entry 5 ∷ []))
      (new_auth_info challenge response)
    ≡ elim (first_fit shift challenge response (entry 4 ∷ [])) [
      | none ↦ none
      | some r ↦ some (settled shift challenge response (some r))
    ]
authenticate-long_example =
    authenticate-long shift (entry 4 ∷ []) (1 ∷ 2 ∷ 3 ∷ 4 ∷ 5 ∷ 6 ∷ 7 ∷ 8 ∷ 9 ∷ []) none none
      (rows_of (entry 5 ∷ [])) challenge response (omega arith)

no_fit : first_fit shift challenge response (entry 4 ∷ []) ≡ none
unfolding same_bytes encrypt
no_fit = refl

-- The same table lets in a client whose row comes first.
earlier_fit : first_fit shift challenge response (entry 5 ∷ []) ≡ some (entry 5)
unfolding same_bytes encrypt
earlier_fit = refl
