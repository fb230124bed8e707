-- ===== src/Marshal/Valid.antt =====
-- The representation invariant of class Marshal, and its content as one byte string.
use vncproxy.Prelude.{
  ℕ, ◌<◌, ◌≡◌, refl, Option, sym, ap, ◌∙◌, some, List, [], ◌∷◌, ◌++◌, arith, append_assoc,
  append-nil, ◌==◌,
}
use vncproxy.Chunk.{Chunk}
use vncproxy.Chunk.Contents.{IsValid, content}
use vncproxy.Chunk.Methods.{Appends, fully_written-eq, fully_read-eq}
use vncproxy.Marshal.{Marshal}
use vncproxy.Marshal.Chunks.{back_full, on_back, front_live}

-- Every chunk but the last is full.
abbrev pub IsFullUnlessLast : Chunk → List Chunk → Type 0
IsFullUnlessLast c [] = Unit {0}
IsFullUnlessLast c (d ∷ cs) = c.write_idx ≡ c.size

-- No chunk has been read to its end, and only the last can still be written.
abbrev pub AllValid : List Chunk → Type 0
AllValid [] = Unit {0}
AllValid (c ∷ cs) = IsValid c × (c.read_idx < c.size) × IsFullUnlessLast c cs × AllValid cs

abbrev pub contents_of : List Chunk → List ℕ
contents_of [] = []
contents_of (c ∷ cs) = content c ++ contents_of cs

abbrev pub contents : Marshal → List ℕ
contents m = contents_of m.chunks

-- A marshal that is in order.
abbrev pub IsMarshal : Marshal → Type 0
IsMarshal m = AllValid m.chunks

pub contents_of-append :
    (cs ds : List Chunk) → contents_of (cs ++ ds) ≡ contents_of cs ++ contents_of ds
contents_of-append [] ds = refl
contents_of-append (c ∷ cs) ds =
    ap (◌++◌ (content c)) (contents_of-append cs ds)
    ∙ sym (append_assoc (content c) (contents_of cs) (contents_of ds))

-- `chunk_.empty() || chunk_.back()->fully_written()`, as a property.
abbrev pub IsBackFull : List Chunk → Type 0
IsBackFull [] = Unit {0}
IsBackFull (c ∷ []) = c.write_idx ≡ c.size
IsBackFull (c ∷ d ∷ cs) = IsBackFull (d ∷ cs)

abbrev pub back : Chunk → List Chunk → Chunk
back c [] = c
back c (d ∷ cs) = back d cs

abbrev pub set_back : Chunk → List Chunk → Chunk → List Chunk
set_back c [] b = b ∷ []
set_back c (d ∷ cs) b = c ∷ set_back d cs b

pub front_live-eq : (cs : List Chunk) → AllValid cs → front_live cs ≡ some tt
unfolding front_live
front_live-eq [] v = refl
front_live-eq (c ∷ cs) v = rw (fully_read-eq c v.0) (ground arith)

pub back-IsValid : (c : Chunk) (cs : List Chunk) → AllValid (c ∷ cs) → IsValid (back c cs)
back-IsValid c [] v = v.0
back-IsValid c (d ∷ cs) v = back-IsValid d cs v.3

pub back_full-eq :
    (c : Chunk) (cs : List Chunk)
    → AllValid (c ∷ cs)
    → back_full (c ∷ cs) ≡ some ((back c cs).write_idx == (back c cs).size)
unfolding back_full
back_full-eq c [] v = fully_written-eq c v.0
back_full-eq c (d ∷ cs) v = back_full-eq d cs v.3

-- A chunk may be pushed behind a full back.
pub AllValid-push :
    (cs : List Chunk) (d : Chunk)
    → AllValid cs
    → IsBackFull cs
    → IsValid d
    → d.read_idx < d.size
    → AllValid (cs ++ d ∷ [])
AllValid-push [] d v f w lt = (w, lt, tt, tt)
AllValid-push (c ∷ []) d v f w lt = (v.0, v.1, f, (w, lt, tt, tt))
AllValid-push (c ∷ e ∷ cs) d v f w lt = (v.0, v.1, v.2, AllValid-push (e ∷ cs) d v.3 f w lt)

-- Writing into the back keeps the invariant, and appends to the contents.
pub on_back-eq {ℓ} :
    {R : Type ℓ} (f : Chunk → Option (R × Chunk)) (c : Chunk) (cs : List Chunk) (r : R) (b : Chunk)
    → f (back c cs) ≡ some (r, b)
    → on_back f (c ∷ cs) ≡ some (r, set_back c cs b)
unfolding on_back
on_back-eq f c [] r b e = rw e
on_back-eq f c (d ∷ cs) r b e = rw (on_back-eq f d cs r b e)

pub set_back-AllValid :
    (src : List ℕ) (c : Chunk) (cs : List Chunk) (b : Chunk)
    → AllValid (c ∷ cs)
    → Appends src (back c cs) b
    → AllValid (set_back c cs b)
set_back-AllValid src c [] b v a = (a.valid, omega (arith, a.same_read, a.same_size, v.1), tt, tt)
set_back-AllValid src c (d ∷ []) b v a = (v.0, v.1, v.2, set_back-AllValid src d [] b v.3 a)
set_back-AllValid src c (d ∷ e ∷ cs) b v a =
    (v.0, v.1, v.2, set_back-AllValid src d (e ∷ cs) b v.3 a)

pub set_back-contents :
    (src : List ℕ) (c : Chunk) (cs : List Chunk) (b : Chunk)
    → Appends src (back c cs) b
    → contents_of (set_back c cs b) ≡ contents_of (c ∷ cs) ++ src
set_back-contents src c [] b a =
    append-nil (content b) ∙ a.contents ∙ ap (λ bs. bs ++ src) (sym (append-nil (content c)))
set_back-contents src c (d ∷ cs) b a =
    ap (◌++◌ (content c)) (set_back-contents src d cs b a)
    ∙ sym (append_assoc (content c) (contents_of (d ∷ cs)) src)

pub set_back-IsBackFull :
    (c : Chunk) (cs : List Chunk) (b : Chunk) → b.write_idx ≡ b.size → IsBackFull (set_back c cs b)
set_back-IsBackFull c [] b h = h
set_back-IsBackFull c (d ∷ []) b h = h
set_back-IsBackFull c (d ∷ e ∷ cs) b h = set_back-IsBackFull d (e ∷ cs) b h

pub back-IsBackFull :
    (c : Chunk) (cs : List Chunk) → (back c cs).write_idx ≡ (back c cs).size → IsBackFull (c ∷ cs)
back-IsBackFull c [] h = h
back-IsBackFull c (d ∷ cs) h = back-IsBackFull d cs h
