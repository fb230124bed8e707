-- ===== src/Marshal/Reserved.antt =====
-- What `set_bookmark` of marshal.cc reserves: the places behind the content.
use vncproxy.Prelude.{
  ℕ, zero, suc, ◌+◌, ◌-◌, ◌<◌, ◌≡◌, refl, sym, ap, subst, ◌∙◌, some, List, [], ◌∷◌, ◌++◌, ◌>>=◌,
  arith, length, length-append, append_assoc, append-nil,
}
use vncproxy.Chunk
use vncproxy.Chunk.{Chunk}
use vncproxy.Chunk.Contents.{content, length-content}
use vncproxy.Chunk.Methods.{Appends, appended, appended-Appends, set_bookmark-eq}
use vncproxy.Marshal.Valid.{
  AllValid, contents_of, back, set_back, back-IsValid, on_back-eq, set_back-AllValid,
  set_back-contents,
}
use vncproxy.Marshal.Room.{make_room-Roomy}
use vncproxy.Marshal.Extends.{Extends, Extends-refl, Extends-trans, Extends-set_back}
use vncproxy.Marshal.Places.{Place, Place-Extends, set_at-itself, copy_at-set_at}
use vncproxy.Marshal.Bookmark.{Pointer, reserve, reserve_all}

-- The first byte behind what was written is a place once the back has more.
back-Place :
    (c : Chunk) (cs : List Chunk) (d : Chunk)
    → AllValid (c ∷ cs)
    → d.read_idx ≡ (back c cs).read_idx
    → (back c cs).write_idx < d.write_idx
    → Place (length cs) (back c cs).write_idx (length (contents_of (c ∷ cs))) (set_back c cs d)
back-Place c [] d v r w =
    (omega (arith, r, length-content c v.0, v.0.ordered, ap length (append-nil (content c))), w)
back-Place c (e ∷ cs) d v r w = (
  length (contents_of (e ∷ cs)),
  omega (arith, length-append (content c) (contents_of (e ∷ cs)), length-content c v.0),
  back-Place e cs d v.3 r w,
)

-- A reserved byte.
record Reserves (cs : List Chunk) : Type 0 where
  pointer : Pointer
  after : List Chunk
  reserved : reserve cs ≡ some (pointer, after)
  valid : AllValid after
  place : Place pointer.0 pointer.1 (length (contents_of cs)) after
  byte : ℕ
  grown : contents_of after ≡ contents_of cs ++ byte ∷ []
  extends : Extends cs after

reserve-Reserves : (cs : List Chunk) → AllValid cs → Reserves cs
unfolding reserve
reserve-Reserves cs v =
    let r = make_room-Roomy cs v in
    let c = back r.head r.tail in
    let w = back-IsValid r.head r.tail r.valid in
    let d : Chunk = record c { write_idx = c.write_idx + 1 } in
    let (x, itself) = set_at-itself c.bytes c.write_idx (omega (arith, r.space, w.storage)) in
    let same : appended c (x ∷ []) ≡ d =
      ap (λ bs. record c { bytes = bs; write_idx = c.write_idx + 1 })
        (copy_at-set_at c.bytes c.write_idx x ∙ itself) in
    let a =
      subst (Appends (x ∷ []) c) same (appended-Appends c (x ∷ []) w (omega (arith, r.space))) in
    let taken =
      on_back-eq Chunk.set_bookmark r.head r.tail c.write_idx d
        (set_bookmark-eq c w (omega (arith, r.space))) in
    record {
      pointer = (length r.tail, c.write_idx);
      after = set_back r.head r.tail d;
      reserved =
          rw (reserve, r.result, ◌>>=◌, taken)
            (ap (λ (n : ℕ). some ((n, c.write_idx), set_back r.head r.tail d))
              {x = suc (length r.tail) - 1} (omega arith));
      valid = set_back-AllValid (x ∷ []) r.head r.tail d r.valid a;
      place =
          subst (λ bs. Place (length r.tail) c.write_idx (length bs) (set_back r.head r.tail d))
            r.same (back-Place r.head r.tail d r.valid refl (omega arith));
      byte = x;
      grown = set_back-contents (x ∷ []) r.head r.tail d a ∙ ap (λ bs. bs ++ x ∷ []) r.same;
      extends =
          Extends-trans cs (r.head ∷ r.tail) _ r.extends
            (Extends-set_back r.head r.tail d refl (omega arith));
    }

-- The pointers are to the bytes from `k` on.
abbrev pub Places : ℕ → List Pointer → List Chunk → Type 0
Places k [] cs = Unit
Places k (p ∷ ps) cs = Place p.0 p.1 k cs × Places (suc k) ps cs

pub Places-Extends :
    (k : ℕ) (ps : List Pointer) (cs ds : List Chunk)
    → Extends cs ds
    → Places k ps cs
    → Places k ps ds
Places-Extends k [] cs ds x h = tt
Places-Extends k (p ∷ ps) cs ds x (h, hs) =
    (Place-Extends p.0 p.1 k cs ds x h, Places-Extends (suc k) ps cs ds x hs)

pub record ReservesAll (n : ℕ) (cs : List Chunk) : Type 0 where
  pub pointers : List Pointer
  pub after : List Chunk
  pub reserved : reserve_all n cs ≡ some (pointers, after)
  pub many : length pointers ≡ n
  pub valid : AllValid after
  pub places : Places (length (contents_of cs)) pointers after
  pub bytes : List ℕ
  pub as_many : length bytes ≡ n
  pub grown : contents_of after ≡ contents_of cs ++ bytes
  pub extends : Extends cs after

pub reserve_all-ReservesAll : (n : ℕ) (cs : List Chunk) → AllValid cs → ReservesAll n cs
unfolding reserve_all
reserve_all-ReservesAll zero cs v = record {
  pointers = [];
  after = cs;
  reserved = refl;
  many = refl;
  valid = v;
  places = tt;
  bytes = [];
  as_many = refl;
  grown = sym (append-nil (contents_of cs));
  extends = Extends-refl cs;
}
reserve_all-ReservesAll (suc n) cs v =
    let r = reserve-Reserves cs v in
    let f = reserve_all-ReservesAll n r.after r.valid in
    let next : length (contents_of r.after) ≡ suc (length (contents_of cs)) =
      omega (arith, ap length r.grown, length-append (contents_of cs) (r.byte ∷ [])) in
    record {
      pointers = r.pointer ∷ f.pointers;
      after = f.after;
      reserved = rw (reserve_all, r.reserved, ◌>>=◌, f.reserved) refl;
      many = ap suc f.many;
      valid = f.valid;
      places = (
        Place-Extends r.pointer.0 r.pointer.1 _ r.after f.after f.extends r.place,
        subst (λ (k : ℕ). Places k f.pointers f.after) next f.places,
      );
      bytes = r.byte ∷ f.bytes;
      as_many = ap suc f.as_many;
      grown =
          f.grown
          ∙ ap (λ xs. xs ++ f.bytes) r.grown
          ∙ append_assoc (contents_of cs) (r.byte ∷ []) f.bytes;
      extends = Extends-trans cs r.after f.after r.extends f.extends;
    }
