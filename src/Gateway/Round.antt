-- ===== src/Gateway/Round.antt =====
-- A round of `cleanup_thread` of vncproxy.cc whose query succeeds.
use vncproxy.Prelude.{
  ℕ, ◌≡◌, refl, sym, ap, subst, ◌∙◌, true, some, List, [], ◌∷◌, arith, ◌||◌, ◌>>=◌, Bool-cases, inl,
  inr, map,
}
use vncproxy.Poller.{Pollable}
use vncproxy.Polling.{Epoll}
use vncproxy.Gateway.{EndPoint, Leaders}
use vncproxy.Gateway.Shutdown.{Shared, same_key, is_valid_key, outliers}
use vncproxy.Gateway.Cleanup.{insert_key, collect, cleanup_round}
use vncproxy.Gateway.Outliers.{kept}
use vncproxy.Gateway.Expired.{closings, IsTied, cleanup_lem}

same_key-eq : (x y : List ℕ) → same_key x y ≡ true → x ≡ y
unfolding same_key
same_key-eq [] [] h = refl
same_key-eq [] (b ∷ y) h = absurd (ground (arith, h))
same_key-eq (a ∷ x) [] h = absurd (ground (arith, h))
same_key-eq (a ∷ x) (b ∷ y) h =
    let rest = same_key-eq x y (ground (arith, h)) in
    let head : a ≡ b = ground (arith, h) in ap (λ c. c ∷ x) head ∙ ap (◌∷◌ b) rest

valid-insert :
    (k key : List ℕ) (valid : List (List ℕ))
    → is_valid_key k (insert_key key valid) ≡ (same_key k key || is_valid_key k valid)
unfolding insert_key is_valid_key
valid-insert k key valid = elim (Bool-cases (is_valid_key key valid)) [
  | inr z ↦ ground (arith, z)
  | inl z ↦ elim (Bool-cases (same_key k key)) [
    | inr w ↦ ground (arith, z, w)
    | inl w ↦
        let known = subst (λ x. is_valid_key x valid ≡ true) (sym (same_key-eq k key w)) z in
        ground (arith, z, w, known)
  ]
]

-- What the callback collects has the keys of the rows and what it had before.
pub collect_lem :
    (keys valid : List (List ℕ))
    → (valid' : List (List ℕ)) × (collect (map some keys) valid ≡ some valid')
      × ((k : List ℕ) → is_valid_key k valid' ≡ (is_valid_key k keys || is_valid_key k valid))
unfolding collect is_valid_key
collect_lem [] valid = (valid, refl, λ k. refl)
collect_lem (key ∷ keys) valid =
    let (valid', eq, all) = collect_lem keys (insert_key key valid) in
    (valid', eq, λ k. ground (arith, all k, valid-insert k key valid))

module _ (valid other : List (List ℕ))
    (same : (k : List ℕ) → is_valid_key k valid ≡ is_valid_key k other) where
  kept-same : (ls : Leaders) → kept valid ls ≡ kept other ls
  unfolding kept
  kept-same [] = refl
  kept-same ((k, a) ∷ ls) = ground (arith, same k, kept-same ls)

  outliers-same : (ls : Leaders) → outliers valid ls ≡ outliers other ls
  unfolding outliers
  outliers-same [] = refl
  outliers-same ((k, a) ∷ ls) = ground (arith, same k, outliers-same ls)

module _ (e : Epoll) (o : ℕ → Pollable) (named : (a : ℕ) → (o a).address ≡ a)
    (mem : ℕ → EndPoint × EndPoint) (owner : ℕ → ℕ) where
  -- Where the thread is in step and each leader in all_tie_leaders is there once, with a registered
  -- pair of its own whose end points have two references each, a round of cleanup_thread whose
  -- query lists keys that are not NULL fails no check: the leaders left are those with a listed
  -- key, in their order, the descriptors of each other pair are closed once and no other is, and
  -- the leaders left are as the first condition says.
  pub cleanup_round_lem :
      (keys : List (List ℕ)) (sh : Shared e)
      → IsTied e o named mem owner sh
      → (sh' : Shared e) × (cleanup_round e mem (map some keys, true) sh ≡ some sh')
        × (sh'.leaders ≡ kept keys sh.leaders)
        × (sh'.closed ≡ closings mem (outliers keys sh.leaders) sh.closed)
        × IsTied e o named mem owner sh'
  unfolding cleanup_round is_valid_key
  cleanup_round_lem keys sh v =
      let (valid, eq, all) = collect_lem keys [] in
      let same : (k : List ℕ) → is_valid_key k valid ≡ is_valid_key k keys =
        λ k. ground (arith, all k) in
      let (sh', run, ls, cs, v') = cleanup_lem e o named mem owner valid sh v in
      (
        sh',
        rw (cleanup_round, eq, ◌>>=◌) run,
        ls ∙ kept-same valid keys same sh.leaders,
        cs ∙ ap (λ ends. closings mem ends sh.closed) (outliers-same valid keys same sh.leaders),
        v',
      )
