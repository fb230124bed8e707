-- ===== src/Marshal/Extends.antt =====
-- What the writing methods of class Marshal leave alone: a chunk that is followed by another is not
-- written any more, and the last is only written behind its content.
use vncproxy.Prelude.{◌≤◌, ◌≡◌, refl, ◌∙◌, List, [], ◌∷◌, ◌++◌, arith}
use vncproxy.Chunk.{Chunk}
use vncproxy.Marshal.Valid.{back, set_back}

abbrev pub IsSameUnlessLast : Chunk → Chunk → List Chunk → Type 0
IsSameUnlessLast c d [] = Unit {0}
IsSameUnlessLast c d (e ∷ cs) = d.write_idx ≡ c.write_idx

abbrev pub Extends : List Chunk → List Chunk → Type 0
Extends [] ds = Unit {0}
Extends (c ∷ cs) [] = ⊥
Extends (c ∷ cs) (d ∷ ds) =
    (d.read_idx ≡ c.read_idx)
    × (c.write_idx ≤ d.write_idx)
    × IsSameUnlessLast c d cs
    × Extends cs ds

pub Extends-refl : (cs : List Chunk) → Extends cs cs
Extends-refl [] = tt
Extends-refl (c ∷ []) = (refl, omega arith, tt, tt)
Extends-refl (c ∷ d ∷ cs) = (refl, omega arith, refl, Extends-refl (d ∷ cs))

pub Extends-trans : (cs ds es : List Chunk) → Extends cs ds → Extends ds es → Extends cs es
Extends-trans [] ds es p q = tt
Extends-trans (c ∷ cs) [] es p q = absurd p
Extends-trans (c ∷ cs) (d ∷ ds) [] p q = absurd q
Extends-trans (c ∷ []) (d ∷ ds) (e ∷ es) p q = (q.0 ∙ p.0, omega (arith, p.1, q.1), tt, tt)
Extends-trans (c ∷ c' ∷ cs) (d ∷ []) (e ∷ es) p q = absurd p.3
Extends-trans (c ∷ c' ∷ cs) (d ∷ d' ∷ ds) (e ∷ es) p q =
    (q.0 ∙ p.0, omega (arith, p.1, q.1), q.2 ∙ p.2, Extends-trans (c' ∷ cs) (d' ∷ ds) es p.3 q.3)

pub Extends-append : (cs ds : List Chunk) → Extends cs (cs ++ ds)
Extends-append [] ds = tt
Extends-append (c ∷ []) ds = (refl, omega arith, tt, tt)
Extends-append (c ∷ d ∷ cs) ds = (refl, omega arith, refl, Extends-append (d ∷ cs) ds)

pub Extends-set_back :
    (c : Chunk) (cs : List Chunk) (b : Chunk)
    → b.read_idx ≡ (back c cs).read_idx
    → (back c cs).write_idx ≤ b.write_idx
    → Extends (c ∷ cs) (set_back c cs b)
Extends-set_back c [] b r w = (r, w, tt, tt)
Extends-set_back c (d ∷ cs) b r w = (refl, omega arith, refl, Extends-set_back d cs b r w)
