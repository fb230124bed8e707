-- ===== src/Gateway/Outliers.antt =====
-- Lists of leaders: those with a valid key, no leader twice, and a predicate on each.
use vncproxy.Prelude.{
  ℕ, ◌≡◌, ◌≢◌, refl, Bool, true, false, List, [], ◌∷◌, ◌++◌, arith, ◌==◌, if◌then◌else◌,
}
use vncproxy.Gateway.{Leaders}
use vncproxy.Gateway.Shutdown.{same_key, erase_leader, is_valid_key}

-- The leaders whose key is valid.
unfoldable pub kept : List (List ℕ) → Leaders → Leaders
kept valid [] = []
kept valid ((k, a) ∷ ls) =
    let rest = kept valid ls in if is_valid_key k valid then (k, a) ∷ rest else rest

unfoldable pub mentions : ℕ → Leaders → Bool
mentions a [] = false
mentions a ((k, b) ∷ ls) = if a == b then true else mentions a ls

-- No leader is there twice.
unfoldable pub distinct : Leaders → Bool
distinct [] = true
distinct ((k, a) ∷ ls) = if mentions a ls then false else distinct ls

unfoldable pub All : (List ℕ → ℕ → Type 0) → Leaders → Type 0
All p [] = Unit
All p ((k, a) ∷ ls) = p k a × All p ls

mentions-kept :
    (valid : List (List ℕ)) (a : ℕ) (ls : Leaders)
    → mentions a ls ≡ false
    → mentions a (kept valid ls) ≡ false
unfolding mentions kept
mentions-kept valid a [] h = refl
mentions-kept valid a ((k, b) ∷ ls) h =
    let rest = mentions-kept valid a ls (ground (arith, h)) in ground (arith, h, rest)

distinct-kept :
    (valid : List (List ℕ)) (ls : Leaders) → distinct ls ≡ true → distinct (kept valid ls) ≡ true
unfolding distinct kept
distinct-kept valid [] h = refl
distinct-kept valid ((k, a) ∷ ls) h =
    let rest = distinct-kept valid ls (ground (arith, h)) in
    ground (arith, h, rest, mentions-kept valid a ls (ground (arith, h)))

same_key_refl : (k : List ℕ) → same_key k k ≡ true
unfolding same_key
same_key_refl [] = refl
same_key_refl (x ∷ xs) = ground (arith, same_key_refl xs)

-- Its own entry is the first with its address.
pub erase-own :
    (k : List ℕ) (a : ℕ) (front back : Leaders)
    → mentions a front ≡ false
    → erase_leader k a (front ++ (k, a) ∷ back) ≡ front ++ back
unfolding erase_leader mentions
erase-own k a [] back h = ground (arith, same_key_refl k)
erase-own k a ((j, b) ∷ front) back h =
    let rest = erase-own k a front back (ground (arith, h)) in ground (arith, h, rest)

pub distinct-middle :
    (k : List ℕ) (a : ℕ) (front back : Leaders)
    → distinct (front ++ (k, a) ∷ back) ≡ true
    → (mentions a front ≡ false)
      × (mentions a (front ++ back) ≡ false)
      × (distinct (front ++ back) ≡ true)
unfolding distinct mentions
distinct-middle k a [] back h = (refl, ground (arith, h), ground (arith, h))
distinct-middle k a ((j, b) ∷ front) back h =
    let (x, y, z) = distinct-middle k a front back (ground (arith, h)) in
    let other = mentions-middle b k a front back (ground (arith, h)) in
    (ground (arith, x, other), ground (arith, y, other), ground (arith, z, other))
  where
    mentions-middle :
        (b : ℕ) (k : List ℕ) (a : ℕ) (front back : Leaders)
        → mentions b (front ++ (k, a) ∷ back) ≡ false
        → ((b == a) ≡ false) × (mentions b (front ++ back) ≡ false)
    mentions-middle b k a [] back h = (ground (arith, h), ground (arith, h))
    mentions-middle b k a ((j, c) ∷ front) back h =
        let (x, y) = mentions-middle b k a front back (ground (arith, h)) in
        (x, ground (arith, h, y))

pub All-own :
    (p : List ℕ → ℕ → Type 0) (k : List ℕ) (a : ℕ) (front back : Leaders)
    → All p (front ++ (k, a) ∷ back)
    → p k a
unfolding All
All-own p k a [] back h = h.0
All-own p k a ((j, b) ∷ front) back h = All-own p k a front back h.1

All-map :
    (p q : List ℕ → ℕ → Type 0) (a : ℕ) (ls : Leaders)
    → ((j : List ℕ) (b : ℕ) → a ≢ b → p j b → q j b)
    → mentions a ls ≡ false
    → All p ls
    → All q ls
unfolding All mentions
All-map p q a [] f m h = tt
All-map p q a ((j, b) ∷ ls) f m h =
    (f j b (ground (arith, m)) h.0, All-map p q a ls f (ground (arith, m)) h.1)

pub All-others :
    (p q : List ℕ → ℕ → Type 0) (k : List ℕ) (a : ℕ) (front back : Leaders)
    → ((j : List ℕ) (b : ℕ) → a ≢ b → p j b → q j b)
    → mentions a (front ++ back) ≡ false
    → All p (front ++ (k, a) ∷ back)
    → All q (front ++ back)
unfolding All mentions
All-others p q k a [] back f m h = All-map p q a back f m h.1
All-others p q k a ((j, b) ∷ front) back f m h =
    (f j b (ground (arith, m)) h.0, All-others p q k a front back f (ground (arith, m)) h.1)
