-- ===== src/Marshal/Places.antt =====
-- Where a pointer of a bookmark points to in the content of a marshal.
use vncproxy.Prelude.{
  ℕ, zero, suc, ◌+◌, ◌-◌, ◌<◌, ◌≤◌, ◌≡◌, refl, sym, ap, ◌∙◌, true, List, [], ◌∷◌, ◌++◌, arith,
  length, take, drop, copy_at, lt→ltb, length-copy_at, length-take, drop-nil,
}
use vncproxy.Chunk.{Chunk}
use vncproxy.Chunk.Contents.{IsValid, content, length-content}
use vncproxy.Marshal.Valid.{AllValid, IsFullUnlessLast, contents_of}
use vncproxy.Marshal.Extends.{Extends, Extends-refl}
use vncproxy.Marshal.Bookmark.{put, within, poked}

module _ {ℓ} {A : Type ℓ} where
  abbrev pub set_at : ℕ → A → List A → List A
  set_at j b [] = b ∷ []
  set_at zero b (x ∷ xs) = b ∷ xs
  set_at (suc j) b (x ∷ xs) = x ∷ set_at j b xs

  pub copy_at-set_at : (xs : List A) (j : ℕ) (b : A) → copy_at xs j (b ∷ []) ≡ set_at j b xs
  copy_at-set_at [] zero b = refl
  copy_at-set_at [] (suc j) b = ap (◌∷◌ b) (drop-nil (suc j + 1))
  copy_at-set_at (x ∷ xs) zero b = refl
  copy_at-set_at (x ∷ xs) (suc j) b =
      ap (λ (n : ℕ). x ∷ (take j xs ++ b ∷ drop n (x ∷ xs))) {x = suc j + 1} {y = suc (j + 1)}
        (omega arith)
      ∙ ap (◌∷◌ x) (copy_at-set_at xs j b)

  length-set_at : (xs : List A) (j : ℕ) (b : A) → j < length xs → length (set_at j b xs) ≡ length xs
  length-set_at [] j b h = absurd (omega arith)
  length-set_at (x ∷ xs) zero b h = refl
  length-set_at (x ∷ xs) (suc j) b h = ap suc (length-set_at xs j b (omega arith))

  take-set_at :
      (xs : List A) (w j : ℕ) (b : A)
      → j < w
      → w ≤ length xs
      → take w (set_at j b xs) ≡ set_at j b (take w xs)
  take-set_at xs zero j b h le = absurd (omega arith)
  take-set_at [] (suc w) j b h le = absurd (omega arith)
  take-set_at (x ∷ xs) (suc w) zero b h le = refl
  take-set_at (x ∷ xs) (suc w) (suc j) b h le =
      ap (◌∷◌ x) (take-set_at xs w j b (omega arith) (omega arith))

  drop-set_at :
      (r : ℕ) (xs : List A) (j k : ℕ) (b : A)
      → r ≤ length xs
      → j ≡ r + k
      → drop r (set_at j b xs) ≡ set_at k b (drop r xs)
  drop-set_at zero xs j k b le e = ap (λ (n : ℕ). set_at n b xs) {x = j} {y = k} (omega (arith, e))
  drop-set_at (suc r) [] j k b le e = absurd (omega arith)
  drop-set_at (suc r) (x ∷ xs) zero k b le e = absurd (omega (arith, e))
  drop-set_at (suc r) (x ∷ xs) (suc j) k b le e =
      drop-set_at r xs j k b (omega arith) (omega (arith, e))

  set_at-front :
      (xs ys : List A) (k : ℕ) (b : A) → k < length xs → set_at k b (xs ++ ys) ≡ set_at k b xs ++ ys
  set_at-front [] ys k b h = absurd (omega arith)
  set_at-front (x ∷ xs) ys zero b h = refl
  set_at-front (x ∷ xs) ys (suc k) b h = ap (◌∷◌ x) (set_at-front xs ys k b (omega arith))

  set_at-back :
      (xs ys : List A) (j k : ℕ) (b : A)
      → j ≡ length xs + k
      → set_at j b (xs ++ ys) ≡ xs ++ set_at k b ys
  set_at-back [] ys j k b e = ap (λ (n : ℕ). set_at n b ys) {x = j} {y = k} (omega (arith, e))
  set_at-back (x ∷ xs) ys zero k b e = absurd (omega (arith, e))
  set_at-back (x ∷ xs) ys (suc j) k b e = ap (◌∷◌ x) (set_at-back xs ys j k b (omega (arith, e)))

  pub put-between : (xs ys : List A) (a b : A) → set_at (length xs) b (xs ++ a ∷ ys) ≡ xs ++ b ∷ ys
  put-between [] ys a b = refl
  put-between (x ∷ xs) ys a b = ap (◌∷◌ x) (put-between xs ys a b)

  -- An element may be set to what it is.
  pub set_at-itself : (xs : List A) (j : ℕ) → j < length xs → (b : A) × (set_at j b xs ≡ xs)
  set_at-itself [] j h = absurd (omega arith)
  set_at-itself (x ∷ xs) zero h = (x, refl)
  set_at-itself (x ∷ xs) (suc j) h =
      let (b, e) = set_at-itself xs j (omega arith) in (b, ap (◌∷◌ x) e)

-- The pointer points to the byte `k` of the content.
abbrev pub Place : ℕ → ℕ → ℕ → List Chunk → Type 0
Place i j k [] = ⊥
Place zero j k (c ∷ cs) = (j ≡ c.read_idx + k) × (j < c.write_idx)
Place (suc i) j k (c ∷ cs) = (l : ℕ) × (k ≡ (c.write_idx - c.read_idx) + l) × Place i j l cs

-- A write behind the content leaves the places.
pub Place-Extends :
    (i j k : ℕ) (cs ds : List Chunk) → Extends cs ds → Place i j k cs → Place i j k ds
Place-Extends i j k [] ds x p = absurd p
Place-Extends i j k (c ∷ cs) [] x p = absurd x
Place-Extends zero j k (c ∷ cs) (d ∷ ds) x p = (omega (arith, p.0, x.0), omega (arith, p.1, x.1))
Place-Extends (suc i) j k (c ∷ []) (d ∷ ds) x p = absurd p.2
Place-Extends (suc i) j k (c ∷ c' ∷ cs) (d ∷ ds) x p =
    (p.0, omega (arith, p.1, x.0, x.2), Place-Extends i j p.0 (c' ∷ cs) ds x.3 p.2)

-- A byte written at its place.
pub record Poked (i j k b : ℕ) (cs : List Chunk) : Type 0 where
  pub points : within i j cs ≡ true
  pub valid : AllValid (poked i j b cs)
  pub contents : contents_of (poked i j b cs) ≡ set_at k b (contents_of cs)
  pub extends : Extends cs (poked i j b cs)

put-IsValid : (j b : ℕ) (c : Chunk) → IsValid c → j < c.write_idx → IsValid (put j b c)
put-IsValid j b c v h = record {
  fits = v.fits;
  ordered = v.ordered;
  storage = length-copy_at c.bytes j (b ∷ []) (omega (arith, v.fits, v.storage)) ∙ v.storage;
}

content-put :
    (j k b : ℕ) (c : Chunk)
    → IsValid c
    → j ≡ c.read_idx + k
    → j < c.write_idx
    → content (put j b c) ≡ set_at k b (content c)
content-put j k b c v e h =
    ap (λ bs. drop c.read_idx (take c.write_idx bs)) (copy_at-set_at c.bytes j b)
    ∙ ap (drop c.read_idx)
        (take-set_at c.bytes c.write_idx j b h (omega (arith, v.fits, v.storage)))
    ∙ drop-set_at c.read_idx (take c.write_idx c.bytes) j k b
        (omega (arith, length-take {0} c.write_idx c.bytes, v.fits, v.storage, v.ordered)) e

pub Place-Poked : (i j k b : ℕ) (cs : List Chunk) → AllValid cs → Place i j k cs → Poked i j k b cs
unfolding within poked
Place-Poked i j k b [] v p = absurd p
Place-Poked zero j k b (c ∷ cs) v (e, h) = record {
  points = lt→ltb j c.size (omega (arith, h, v.0.fits));
  valid = (put-IsValid j b c v.0 h, v.1, front_full cs v.2, v.3);
  contents =
      ap (λ bs. bs ++ contents_of cs) (content-put j k b c v.0 e h)
      ∙ sym (
          set_at-front (content c) (contents_of cs) k b
            (omega (arith, length-content c v.0, e, h)));
  extends = front_extends cs;
}
  where
    front_full : (ds : List Chunk) → IsFullUnlessLast c ds → IsFullUnlessLast (put j b c) ds
    front_full [] f = tt
    front_full (d ∷ ds) f = f

    front_extends : (ds : List Chunk) → Extends (c ∷ ds) (put j b c ∷ ds)
    front_extends [] = (refl, omega arith, tt, tt)
    front_extends (d ∷ ds) = (refl, omega arith, refl, Extends-refl (d ∷ ds))
Place-Poked (suc i) j k b (c ∷ []) v p = absurd p.2
Place-Poked (suc i) j k b (c ∷ d ∷ cs) v (l, e, p) =
    let r = Place-Poked i j l b (d ∷ cs) v.3 p in
    record {
      points = r.points;
      valid = (v.0, v.1, next_full i v.2, r.valid);
      contents =
          ap (◌++◌ (content c)) r.contents
          ∙ sym (
              set_at-back (content c) (contents_of (d ∷ cs)) k l b
                (omega (arith, length-content c v.0, e)));
      extends = (refl, omega arith, refl, r.extends);
    }
  where
    next_full : (n : ℕ) → IsFullUnlessLast c (d ∷ cs) → IsFullUnlessLast c (poked n j b (d ∷ cs))
    next_full zero f = f
    next_full (suc n) f = f
