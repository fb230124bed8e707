-- ===== src/Marshal/Bookmarked.antt =====
-- A bookmark of marshal.cc that is set, and written after whatever is written behind it.
use vncproxy.Prelude.{
  ℕ, suc, ◌+◌, ◌<◌, ◌≡◌, refl, sym, ap, subst, ◌∙◌, some, Option, List, [], ◌∷◌, ◌++◌, ◌>>=◌, arith,
  length, append_assoc, append-nil, length-append, require, ◌==◌, int_limit, inl,
}
use vncproxy.Chunk.{Chunk}
use vncproxy.Marshal.{Marshal}
use vncproxy.Marshal
use vncproxy.Marshal.Valid.{AllValid, IsMarshal, contents_of, contents, front_live-eq}
use vncproxy.Marshal.Writing.{Written, write_lem}
use vncproxy.Marshal.Extends.{Extends-refl, Extends-trans}
use vncproxy.Marshal.Places.{Place-Poked, put-between, set_at}
use vncproxy.Marshal.Reserved.{Places, Places-Extends, reserve_all-ReservesAll}
use vncproxy.Marshal.Bookmark.{Pointer, write_all, poked, set_bookmark, write_bookmark}

-- Bytes written to the places of `zs`, between `xs` and `ys`.
write_all-Places :
    (bs : List ℕ) (ps : List Pointer) (xs zs ys : List ℕ) (cs : List Chunk)
    → length ps ≡ length bs
    → length zs ≡ length bs
    → AllValid cs
    → Places (length xs) ps cs
    → contents_of cs ≡ xs ++ (zs ++ ys)
    → (left : List Chunk) × (write_all ps bs cs ≡ some left)
      × AllValid left
      × (contents_of left ≡ xs ++ (bs ++ ys))
unfolding write_all
write_all-Places [] [] xs [] ys cs p z v h e = (cs, refl, v, e)
write_all-Places [] [] xs (a ∷ zs) ys cs p z v h e = absurd (omega (arith, z))
write_all-Places [] (q ∷ ps) xs zs ys cs p z v h e = absurd (omega (arith, p))
write_all-Places (b ∷ bs) [] xs zs ys cs p z v h e = absurd (omega (arith, p))
write_all-Places (b ∷ bs) (q ∷ ps) xs [] ys cs p z v h e = absurd (omega (arith, z))
write_all-Places (b ∷ bs) (q ∷ ps) xs (a ∷ zs) ys cs p z v (h, hs) e =
    let r = Place-Poked q.0 q.1 (length xs) b cs v h in
    let now : contents_of (poked q.0 q.1 b cs) ≡ (xs ++ b ∷ []) ++ (zs ++ ys) =
      r.contents
      ∙ ap (set_at (length xs) b) e
      ∙ put-between xs (zs ++ ys) a b
      ∙ sym (append_assoc xs (b ∷ []) (zs ++ ys)) in
    let next : suc (length xs) ≡ length (xs ++ b ∷ []) = omega (arith, length-append xs (b ∷ [])) in
    let rest =
      write_all-Places bs ps (xs ++ b ∷ []) zs ys (poked q.0 q.1 b cs) (omega (arith, p))
        (omega (arith, z)) r.valid
        (subst (λ (k : ℕ). Places k ps (poked q.0 q.1 b cs)) next
          (Places-Extends (suc (length xs)) ps cs _ r.extends hs))
        now in
    (
      rest.0,
      rw (write_all, r.points, ◌>>=◌) rest.1,
      rest.2,
      rest.3 ∙ append_assoc xs (b ∷ []) (bs ++ ys),
    )

-- Writes one after the other.
unfoldable pub writes : List (List ℕ) → Marshal → Option Marshal
writes [] m = some m
writes (p ∷ ps) m = do out ← Marshal.write p m; writes ps out.1

abbrev pub joined : List (List ℕ) → List ℕ
joined [] = []
joined (p ∷ ps) = p ++ joined ps

abbrev pub NoneEmpty : List (List ℕ) → Type 0
NoneEmpty [] = Unit
NoneEmpty (p ∷ ps) = (0 < length p) × NoneEmpty ps

writes_lem :
    (ps : List (List ℕ)) (m : Marshal)
    → IsMarshal m
    → NoneEmpty ps
    → m.write_counter + length (joined ps) < int_limit
    → (m' : Marshal) × (writes ps m ≡ some m') × Written (joined ps) m m'
unfolding writes
writes_lem [] m v h lim = (
  m,
  refl,
  record {
    valid = v;
    grown = sym (append-nil (contents m));
    counted = omega arith;
    extends = Extends-refl m.chunks;
  },
)
writes_lem (p ∷ ps) m v (h, hs) lim =
    let total = length-append p (joined ps) in
    let (m1, e1, w1) = write_lem p m v (omega (arith, total, lim)) (inl h) in
    let (m2, e2, w2) = writes_lem ps m1 w1.valid hs (omega (arith, total, lim, w1.counted)) in
    (
      m2,
      rw (writes, e1, ◌>>=◌) e2,
      record {
        valid = w2.valid;
        grown =
            w2.grown
            ∙ ap (λ bs. bs ++ joined ps) w1.grown
            ∙ append_assoc (contents m) p (joined ps);
        counted = omega (arith, total, w1.counted, w2.counted);
        extends = Extends-trans m.chunks m1.chunks m2.chunks w1.extends w2.extends;
      },
    )

-- On a marshal in order whose counter is 0, a bookmark is set of the length of a buffer, other
-- buffers that are not empty and have an int length together are written, and then the buffer is
-- written to the bookmark, over as many chunks as it reserved: it stands behind the content and
-- before what was written since, the order is kept, and the counter has the length of the others.
pub write_bookmark-writes :
    (bs : List ℕ) (ps : List (List ℕ)) (m : Marshal)
    → IsMarshal m
    → m.write_counter ≡ 0
    → NoneEmpty ps
    → length (joined ps) < int_limit
    → (marks : List Pointer) × (m1 : Marshal) × (m2 : Marshal) × (m3 : Marshal) × (set_bookmark
          (length bs)
          m
        ≡ some (marks, m1))
      × (writes ps m1 ≡ some m2)
      × (write_bookmark marks bs m2 ≡ some m3)
      × IsMarshal m3
      × (contents m3 ≡ contents m ++ (bs ++ joined ps))
      × (m3.write_counter ≡ length (joined ps))
unfolding set_bookmark write_bookmark
write_bookmark-writes bs ps m v z h lim =
    let r = reserve_all-ReservesAll (length bs) m.chunks v in
    let unused : require (m.write_counter == 0) ≡ some tt = ground (arith, z) in
    let m1 = record m { chunks = r.after } in
    let (m2, e2, w2) = writes_lem ps m1 r.valid h (omega (arith, z, lim)) in
    let (left, e3, v3, g3) =
      write_all-Places bs r.pointers (contents m) r.bytes (joined ps) m2.chunks r.many r.as_many
        w2.valid (Places-Extends _ r.pointers r.after m2.chunks w2.extends r.places)
        (w2.grown
          ∙ ap (λ xs. xs ++ joined ps) r.grown
          ∙ append_assoc (contents m) r.bytes (joined ps)) in
    (
      r.pointers,
      m1,
      m2,
      record m2 { chunks = left },
      rw (set_bookmark, unused, front_live-eq m.chunks v, r.reserved, ◌>>=◌) refl,
      e2,
      rw (write_bookmark, e3, ◌>>=◌) refl,
      v3,
      g3,
      omega (arith, w2.counted, z),
    )

-- On a marshal in order whose counter is 0, a bookmark of the length of a buffer is set, and the
-- buffer can be written to it at once, over as many chunks as it reserved: the whole buffer then
-- stands behind the content, the order is kept and the counter stays 0.
pub write_bookmark-set_bookmark :
    (bs : List ℕ) (m : Marshal)
    → IsMarshal m
    → m.write_counter ≡ 0
    → (ps : List Pointer) × (m1 : Marshal) × (m2 : Marshal) × (set_bookmark (length bs) m
        ≡ some (ps, m1))
      × (write_bookmark ps bs m1 ≡ some m2)
      × IsMarshal m2
      × (contents m2 ≡ contents m ++ bs)
      × (m2.write_counter ≡ 0)
unfolding writes
write_bookmark-set_bookmark bs m v z =
    let (ps, m1, m2, m3, e1, e2, e3, v3, g, c) =
      write_bookmark-writes bs [] m v z tt (omega arith) in
    let same : m1 ≡ m2 = ground (arith, e2) in
    (
      ps,
      m1,
      m3,
      e1,
      ap (write_bookmark ps bs) same ∙ e3,
      v3,
      g ∙ ap (◌++◌ (contents m)) (append-nil bs),
      c,
    )
