-- ===== src/Marshal/Transfer/Moves.antt =====
-- `read_from_marshal` takes from the front of one content and puts behind the other.
use vncproxy.Prelude.{
  ℕ, ◌+◌, ◌-◌, ◌≤◌, ◌<◌, min, ◌≡◌, sym, ap, ◌∙◌, true, false, some, List, [], ◌∷◌, ◌++◌, arith,
  length, take, drop, Bool-cases, inl, inr, length-append, length-take, length-drop, take-append_le,
  take-append-drop, take-add, take-nil, drop-drop, add_int-eq, int_limit, ◌==◌, not-==→ne, ==_iff,
  ◌>>=◌, subst,
}
use vncproxy.Chunk.{Chunk}
use vncproxy.Chunk.Contents.{content, room, length-content}
use vncproxy.Chunk.Methods.{
  appended, advanced, moved_count, read_from_chunk-eq, read_from_chunk-Appends, advanced-Advances,
}
use vncproxy.Marshal.Chunks.{on_back, drop_read}
use vncproxy.Marshal.Valid.{AllValid, contents_of, back, set_back, back-IsValid, on_back-eq}
use vncproxy.Marshal.Front.{Left, Dropped, drop_read-Dropped, contents_of-stalled}
use vncproxy.Marshal.Writing.{Grown, Grown-trans, set_back-Grown}
use vncproxy.Marshal.Transfer.{Outcome, copy_back, copy_round}

-- `j` bytes, or all there are, went from the front of `ms` to the back of `cs`.
pub record Moves (j n_read : ℕ) (cs ms : List Chunk) (out : Outcome) : Type 0 where
  pub count : ℕ
  pub into : List Chunk
  pub from : List Chunk
  pub result : out ≡ some (n_read + count, into, from)
  pub count_eq : count ≡ min j (length (contents_of ms))
  pub grown : Grown (take j (contents_of ms)) cs into
  pub left : Left j ms from

-- A first part, and then what the loop goes on to move.
pub Moves-more :
    (j r n_read : ℕ) (cs ms cs' ms' : List Chunk) (out more : Outcome)
    → r ≤ j
    → r ≤ length (contents_of ms)
    → Grown (take r (contents_of ms)) cs cs'
    → Left r ms ms'
    → (w : Moves (j - r) (n_read + r) cs' ms' more)
    → out ≡ some (n_read + r + w.count, w.into, w.from)
    → Moves j n_read cs ms out
Moves-more j r n_read cs ms cs' ms' out more le le' g l w e =
    let all : r + (j - r) ≡ j = omega arith in
    let parts : take r (contents_of ms) ++ take (j - r) (contents_of ms')
        ≡ take j (contents_of ms) =
      ap (λ bs. take r (contents_of ms) ++ take (j - r) bs) l.rest
      ∙ sym (take-add r (j - r) (contents_of ms))
      ∙ ap (λ (i : ℕ). take i (contents_of ms)) all in
    record {
      count = r + w.count;
      into = w.into;
      from = w.from;
      result =
          e ∙ ap (λ (i : ℕ). some (i, w.into, w.from)) {x = n_read + r + w.count} (omega arith);
      count_eq = omega (arith, w.count_eq, ap length l.rest, length-drop {0} r (contents_of ms));
      grown =
          subst (λ bs. Grown bs cs w.into) parts
            (Grown-trans (take r (contents_of ms)) (take (j - r) (contents_of ms')) cs cs' w.into g
              w.grown);
      left = record {
        valid = w.left.valid;
        rest =
            w.left.rest
            ∙ ap (drop (j - r)) l.rest
            ∙ drop-drop (j - r) r (contents_of ms)
            ∙ ap (λ (i : ℕ). drop i (contents_of ms)) all;
      };
    }

-- Nothing to move, or nothing wanted.
pub Moves-none :
    (j n_read : ℕ) (cs ms cs' ms' : List Chunk) (out : Outcome)
    → take j (contents_of ms) ≡ []
    → Grown [] cs cs'
    → Left 0 ms ms'
    → out ≡ some (n_read, cs', ms')
    → Moves j n_read cs ms out
Moves-none j n_read cs ms cs' ms' out z g l e =
    let short : 0 ≡ min j (length (contents_of ms)) =
      omega (arith, ap length z, length-take {0} j (contents_of ms)) in
    record {
      count = 0;
      into = cs';
      from = ms';
      result = e ∙ ap (λ (i : ℕ). some (i, cs', ms')) {x = n_read} (omega arith);
      count_eq = short;
      grown = subst (λ bs. Grown bs cs cs') (sym z) g;
      left = record {
        valid = l.valid;
        rest =
            l.rest
            ∙ sym (take-append-drop j (contents_of ms))
            ∙ ap (λ bs. bs ++ drop j (contents_of ms)) z;
      };
    }

-- A round that copies: `head ∷ tail` is the list that is written, and its back has room.
module _ (n n_read : ℕ) (head : Chunk) (tail : List Chunk) (h : Chunk) (t : List Chunk)
    (v : AllValid (head ∷ tail)) (w : AllValid (h ∷ t)) (space : 0 < room (back head tail)) where
  abbrev pub j : ℕ
  j = n - n_read

  abbrev pub r : ℕ
  r = moved_count (back head tail) h j

  abbrev pub src : List ℕ
  src = take r (content h)

  abbrev pub to : List Chunk
  to = set_back head tail (appended (back head tail) src)

  r-le : r ≤ length (content h)
  r-le = omega (arith, length-content h w.0)

  copied : on_back (copy_back h j) (head ∷ tail) ≡ some ((r, advanced h r), to)
  unfolding copy_back
  copied =
      on_back-eq (copy_back h j) head tail _ (appended (back head tail) src)
        (rw (read_from_chunk-eq (back head tail) h j (back-IsValid head tail v) w.0, ◌>>=◌))

  pub src-Grown : Grown (take r (contents_of (h ∷ t))) (head ∷ tail) to
  src-Grown =
      subst (λ bs. Grown bs (head ∷ tail) to)
        (sym (take-append_le r (content h) (contents_of t) r-le))
        (set_back-Grown src head tail _ v
          (read_from_chunk-Appends (back head tail) h j (back-IsValid head tail v) w.0))

  pub dropped : Dropped r (h ∷ t) (drop_read (advanced h r ∷ t))
  dropped = drop_read-Dropped r h (advanced h r) t w (advanced-Advances h r w.0 (omega arith)) r-le

  copy_round-stop :
      (again : ℕ → List Chunk → List Chunk → Outcome)
      → (r == 0) ≡ true
      → copy_round again n n_read (head ∷ tail) h t ≡ some (n_read, to, dropped.left)
  unfolding copy_round
  copy_round-stop again z = rw (copied, dropped.result, z, copy_round, ◌>>=◌)

  copy_round-more :
      (again : ℕ → List Chunk → List Chunk → Outcome) (out : ℕ × List Chunk × List Chunk)
      → (r == 0) ≡ false
      → n_read + r < int_limit
      → again (n_read + r) to dropped.left ≡ some out
      → copy_round again n n_read (head ∷ tail) h t ≡ some out
  unfolding copy_round
  copy_round-more again out ne lim e =
      rw (copied, dropped.result, ne, add_int-eq n_read r lim, e, copy_round, ◌>>=◌)

  pub copy_round-Moves :
      (again : ℕ → List Chunk → List Chunk → Outcome)
      → n < int_limit
      → n_read < n
      → (0 < r → Moves (j - r) (n_read + r) to dropped.left (again (n_read + r) to dropped.left))
      → Moves j n_read (head ∷ tail) (h ∷ t) (copy_round again n n_read (head ∷ tail) h t)
  copy_round-Moves again lim lt rest = elim (Bool-cases (r == 0)) [
    | inr ne ↦
        let pos : 0 < r = omega (arith, not-==→ne r 0 ne) in
        let more = rest pos in
        Moves-more j r n_read (head ∷ tail) (h ∷ t) to dropped.left _ _ (omega arith)
          (omega (arith, r-le, length-append (content h) (contents_of t))) src-Grown dropped.after
          more (copy_round-more again _ ne (omega arith) more.result)
    | inl e ↦
        let z : r ≡ 0 = (==_iff r 0).0 e in
        let empty : length (content h) ≡ 0 = omega (arith, z, length-content h w.0) in
        Moves-none j n_read (head ∷ tail) (h ∷ t) to dropped.left _
          (ap (take j) (contents_of-stalled h t w empty) ∙ take-nil j)
          (subst (λ (i : ℕ). Grown (take i (contents_of (h ∷ t))) (head ∷ tail) to) z src-Grown)
          (subst (λ (i : ℕ). Left i (h ∷ t) dropped.left) z dropped.after) (copy_round-stop again e)
  ]
