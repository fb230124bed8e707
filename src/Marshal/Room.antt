-- ===== src/Marshal/Room.antt =====
-- `if (chunk_.empty() || chunk_.back()->fully_written()) chunk_.push_back(new Chunk);`: afterwards
-- the back can be written, and the content is the same.
use vncproxy.Prelude.{
  ◌<◌, ◌≡◌, refl, ap, ◌∙◌, Option, some, List, [], ◌∷◌, ◌++◌, arith, append-nil, ◌>>=◌,
}
use vncproxy.Chunk.{Chunk, new_chunk, min_size}
use vncproxy.Chunk.Contents.{
  room, new_chunk-IsValid, new_chunk-live, new_chunk-room, content-new_chunk,
}
use vncproxy.Marshal.Chunks.{make_room}
use vncproxy.Marshal.Valid.{
  AllValid, IsBackFull, contents_of, contents_of-append, back, AllValid-push,
}
use vncproxy.Marshal.Extends.{Extends, Extends-refl, Extends-append}
use vncproxy.Marshal.Writing.{BackRoom, full, open_back, back_room}

pub record Roomy (cs : List Chunk) (out : Option (List Chunk)) : Type 0 where
  pub head : Chunk
  pub tail : List Chunk
  pub result : out ≡ some (head ∷ tail)
  pub valid : AllValid (head ∷ tail)
  pub same : contents_of (head ∷ tail) ≡ contents_of cs
  pub space : 0 < room (back head tail)
  pub extends : Extends cs (head ∷ tail)

back-push : (c : Chunk) (cs : List Chunk) (d : Chunk) → back c (cs ++ d ∷ []) ≡ d
back-push c [] d = refl
back-push c (e ∷ cs) d = back-push e cs d

contents_of-push_new :
    (cs : List Chunk) → contents_of (cs ++ new_chunk min_size ∷ []) ≡ contents_of cs
contents_of-push_new cs =
    contents_of-append cs (new_chunk min_size ∷ [])
    ∙ ap (λ bs. contents_of cs ++ bs) (append-nil _ ∙ content-new_chunk min_size)
    ∙ append-nil (contents_of cs)

push_new-valid :
    (cs : List Chunk) → AllValid cs → IsBackFull cs → AllValid (cs ++ new_chunk min_size ∷ [])
push_new-valid cs v f =
    AllValid-push cs (new_chunk min_size) v f (new_chunk-IsValid min_size) (new_chunk-live min_size)

pub push_new-Roomy :
    (cs : List Chunk) (out : Option (List Chunk))
    → AllValid cs
    → IsBackFull cs
    → out ≡ some (cs ++ new_chunk min_size ∷ [])
    → Roomy cs out
push_new-Roomy [] out v f e = record {
  head = new_chunk min_size;
  tail = [];
  result = e;
  valid = push_new-valid [] v f;
  same = contents_of-push_new [];
  space = new_chunk-room min_size;
  extends = tt;
}
push_new-Roomy (c ∷ cs) out v f e = record {
  head = c;
  tail = cs ++ new_chunk min_size ∷ [];
  result = e;
  valid = push_new-valid (c ∷ cs) v f;
  same = contents_of-push_new (c ∷ cs);
  space = rw (back-push c cs (new_chunk min_size)) (new_chunk-room min_size);
  extends = Extends-append (c ∷ cs) (new_chunk min_size ∷ []);
}

make_room_of : (cs : List Chunk) → AllValid cs → BackRoom cs → Roomy cs (make_room cs)
unfolding make_room
make_room_of cs v (full f t) = push_new-Roomy cs _ v f (rw (t, ◌>>=◌))
make_room_of cs v (open_back c ds lt t) = record {
  head = c;
  tail = ds;
  result = rw (t, ◌>>=◌);
  valid = v;
  same = refl;
  space = omega arith;
  extends = Extends-refl (c ∷ ds);
}

pub make_room-Roomy : (cs : List Chunk) → AllValid cs → Roomy cs (make_room cs)
make_room-Roomy cs v = make_room_of cs v (back_room cs v)
