-- ===== src/Marshal/FdReads.antt =====
-- `Marshal::read_from_fd` on a marshal in order: its rounds and its result.
use vncproxy.Prelude.{
  ℕ, zero, suc, ◌+◌, ◌<◌, ◌≡◌, refl, sym, ap, ◌∙◌, Option, some, List, ◌∷◌, ◌++◌, arith, length,
  dec_lt, length-append, append_assoc, add_int-eq, int_limit, lt→ltb, le→not-ltb, ◌>>=◌,
}
use vncproxy.Kernel.{Kernel, Drains, bytes_of, on_fd, on_fd-append}
use vncproxy.Chunk.{Chunk}
use vncproxy.Chunk.Contents.{IsValid, room}
use vncproxy.Chunk.Methods.{appended}
use vncproxy.Chunk.Io.{read_from_fd-eq, read_from_fd-Appends}
use vncproxy.Marshal.{Marshal}
use vncproxy.Marshal.Chunks.{make_room, on_back}
use vncproxy.Marshal.Valid.{
  AllValid, IsMarshal, contents, front_live-eq, back, set_back, back-IsValid, on_back-eq,
}
use vncproxy.Marshal.Extends.{Extends-trans}
use vncproxy.Marshal.Room.{Roomy, make_room-Roomy}
use vncproxy.Marshal.Writing.{Grown, Grown-trans, set_back-Grown}
use vncproxy.Marshal.Io.{read_back, read_fd_loop, read_from_fd}

module _ (k : Kernel) where
  open k use {State, sys_read, received, sent, read_le, received-read, sent-read}

  -- Between `s` and `s'` the process read `bs` from `fd`, and wrote nothing.
  pub record Received (fd : ℕ) (bs : List ℕ) (s s' : State) : Type 0 where
    pub receives : (j : ℕ) → received s' j ≡ received s j ++ on_fd fd j bs
    pub sends : (j : ℕ) → sent s' j ≡ sent s j

  -- The last call, which asked for at least a byte and got none.
  pub record Dry (fd : ℕ) (s : State) : Type 0 where
    pub before : State
    pub asked : ℕ
    pub some_asked : 0 < asked
    pub got_none : length (bytes_of (sys_read fd asked before).0) ≡ 0
    pub last : (sys_read fd asked before).1 ≡ s

  call-Received :
      (fd n : ℕ) (s : State) → Received fd (bytes_of (sys_read fd n s).0) s (sys_read fd n s).1
  call-Received fd n s = record {
    receives = λ j. received-read fd n s j;
    sends = λ j. sent-read fd n s j;
  }

  Received-trans :
      (fd : ℕ) (xs ys : List ℕ) (s t u : State)
      → Received fd xs s t
      → Received fd ys t u
      → Received fd (xs ++ ys) s u
  Received-trans fd xs ys s t u p q = record {
    receives = λ j.
        q.receives j
        ∙ ap (λ bs. bs ++ on_fd fd j ys) (p.receives j)
        ∙ append_assoc (received s j) (on_fd fd j xs) (on_fd fd j ys)
        ∙ ap (◌++◌ (received s j)) (sym (on_fd-append fd j xs ys));
    sends = λ j. q.sends j ∙ p.sends j;
  }

  module _ (fd : ℕ) where
    record Reads (n_read : ℕ) (cs : List Chunk) (s : State) (out : Option (ℕ × List Chunk × State))
        : Type 0 where
      bytes : List ℕ
      left : List Chunk
      state : State
      result : out ≡ some (n_read + length bytes, left, state)
      after : Grown bytes cs left
      receiving : Received fd bytes s state
      drained : Dry fd state

    read_back-eq :
        (s : State) (c : Chunk)
        → IsValid c
        → let out = sys_read fd (room c) s in
          read_back k fd s c ≡ some ((out.0, out.1), appended c (bytes_of out.0))
    unfolding read_back
    read_back-eq s c v = rw (read_from_fd-eq k fd c s v, ◌>>=◌)

    -- One round of the loop: the back is made writable, and one call appends to it.
    record Round (cs : List Chunk) (s : State) : Type 0 where
      asked : ℕ
      some_asked : 0 < asked
      made : List Chunk
      made_eq : make_room cs ≡ some made
      left : List Chunk
      back_eq :
          on_back (read_back k fd s) made
          ≡ some (((sys_read fd asked s).0, (sys_read fd asked s).1), left)
      after : Grown (bytes_of (sys_read fd asked s).0) cs left

    Roomy-Round : (cs : List Chunk) (s : State) (r : Roomy cs (make_room cs)) → Round cs s
    Roomy-Round cs s r =
        let b = back r.head r.tail in
        let w = back-IsValid r.head r.tail r.valid in
        let bs = bytes_of (sys_read fd (room b) s).0 in
        let g =
          set_back-Grown bs r.head r.tail (appended b bs) r.valid
            (read_from_fd-Appends k fd b s w) in
        record {
          asked = room b;
          some_asked = r.space;
          made = r.head ∷ r.tail;
          made_eq = r.result;
          left = set_back r.head r.tail (appended b bs);
          back_eq =
              on_back-eq (read_back k fd s) r.head r.tail _ (appended b bs) (read_back-eq s b w);
          after = record {
            valid = g.valid;
            grown = g.grown ∙ ap (λ zs. zs ++ bs) r.same;
            extends = Extends-trans cs (r.head ∷ r.tail) _ r.extends g.extends;
          };
        }

    module _ (fuel n_read : ℕ) (cs : List Chunk) (s : State) (r : Round cs s) where
      loop-stop :
          length (bytes_of (sys_read fd r.asked s).0) ≡ 0
          → read_fd_loop k fd (suc fuel) n_read cs s
            ≡ some (n_read, r.left, (sys_read fd r.asked s).1)
      unfolding read_fd_loop
      loop-stop z = rw (
        r.made_eq,
        r.back_eq,
        le→not-ltb 0 (length (bytes_of (sys_read fd r.asked s).0)) (omega arith),
        read_fd_loop,
        ◌>>=◌,
      )

      loop-more :
          (out : ℕ × List Chunk × State)
          → let n = length (bytes_of (sys_read fd r.asked s).0) in
            0 < n
            → n_read + n < int_limit
            → read_fd_loop k fd fuel (n_read + n) r.left (sys_read fd r.asked s).1 ≡ some out
            → read_fd_loop k fd (suc fuel) n_read cs s ≡ some out
      unfolding read_fd_loop
      loop-more out pos lim e = rw (
        r.made_eq,
        r.back_eq,
        lt→ltb 0 (length (bytes_of (sys_read fd r.asked s).0)) pos,
        add_int-eq n_read (length (bytes_of (sys_read fd r.asked s).0)) lim,
        e,
        read_fd_loop,
        ◌>>=◌,
      )

    stop-Reads :
        (fuel n_read : ℕ) (cs : List Chunk) (s : State) (r : Round cs s)
        → length (bytes_of (sys_read fd r.asked s).0) ≡ 0
        → Reads n_read cs s (read_fd_loop k fd (suc fuel) n_read cs s)
    stop-Reads fuel n_read cs s r z = record {
      bytes = bytes_of (sys_read fd r.asked s).0;
      left = r.left;
      state = (sys_read fd r.asked s).1;
      result =
          loop-stop fuel n_read cs s r z
          ∙ ap (λ (i : ℕ). some (i, r.left, (sys_read fd r.asked s).1)) {x = n_read}
              (omega (arith, z));
      after = r.after;
      receiving = call-Received fd r.asked s;
      drained = record {
        before = s;
        asked = r.asked;
        some_asked = r.some_asked;
        got_none = z;
        last = refl;
      };
    }

    more-Reads :
        (fuel n_read : ℕ) (cs : List Chunk) (s : State) (r : Round cs s)
        → let n = length (bytes_of (sys_read fd r.asked s).0) in
          0 < n
          → n_read + n < int_limit
          → Reads
              (n_read + n)
              r.left
              (sys_read fd r.asked s).1
              (read_fd_loop k fd fuel (n_read + n) r.left (sys_read fd r.asked s).1)
          → Reads n_read cs s (read_fd_loop k fd (suc fuel) n_read cs s)
    more-Reads fuel n_read cs s r pos lim w =
        let now = bytes_of (sys_read fd r.asked s).0 in
        record {
          bytes = now ++ w.bytes;
          left = w.left;
          state = w.state;
          result =
              loop-more fuel n_read cs s r _ pos lim w.result
              ∙ ap (λ (i : ℕ). some (i, w.left, w.state)) {x = n_read + length now + length w.bytes}
                  (omega (arith, length-append now w.bytes));
          after = Grown-trans now w.bytes cs r.left w.left r.after w.after;
          receiving =
              Received-trans fd now w.bytes s (sys_read fd r.asked s).1 w.state
                (call-Received fd r.asked s) w.receiving;
          drained = w.drained;
        }

    module _ (drains : Drains k) where
      open drains use {pending, pending-read}

      read_fd_loop-Reads :
          (fuel n_read : ℕ) (cs : List Chunk) (s : State)
          → AllValid cs
          → n_read + pending s fd < int_limit
          → pending s fd < fuel
          → Reads n_read cs s (read_fd_loop k fd fuel n_read cs s)
      read_fd_loop-Reads zero n_read cs s v lim f = absurd (omega arith)
      read_fd_loop-Reads (suc fuel) n_read cs s v lim f =
          let r = Roomy-Round cs s (make_room-Roomy cs v) in
          let n = length (bytes_of (sys_read fd r.asked s).0) in
          let left = pending-read fd r.asked s in
          elim (dec_lt 0 n) [
            | no z ↦ stop-Reads fuel n_read cs s r (omega arith)
            | yes pos ↦ more-Reads fuel n_read cs s r pos (omega (arith, left)) (
                read_fd_loop-Reads fuel (n_read + n) r.left _ r.after.valid (omega (arith, left))
                  (omega (arith, left)))
          ]

      -- On a marshal in order, with a descriptor that has finitely many bytes (an int) and more
      -- rounds than that, read_from_fd returns: what it read from the descriptor stands behind the
      -- content in order, its result is their number, no other descriptor is read and none written,
      -- the counter is unchanged, and its last call asked for at least a byte and got none.
      pub read_from_fd_lem :
          (fuel : ℕ) (m : Marshal) (s : State)
          → IsMarshal m
          → pending s fd < int_limit
          → pending s fd < fuel
          → (bs : List ℕ) × (m' : Marshal) × (s' : State) × (read_from_fd k fuel fd m s
              ≡ some (length bs, m', s'))
            × IsMarshal m'
            × (contents m' ≡ contents m ++ bs)
            × (m'.write_counter ≡ m.write_counter)
            × Received fd bs s s'
            × Dry fd s'
      unfolding read_from_fd
      read_from_fd_lem fuel m s v lim f =
          let w = read_fd_loop-Reads fuel 0 m.chunks s v (omega arith) f in
          (
            w.bytes,
            record m { chunks = w.left },
            w.state,
            rw (front_live-eq m.chunks v, w.result, front_live-eq w.left w.after.valid, ◌>>=◌)
                (ap (λ (i : ℕ). some (i, record m { chunks = w.left }, w.state))
                  {x = 0 + length w.bytes} (omega arith)),
            w.after.valid,
            w.after.grown,
            refl,
            w.receiving,
            w.drained,
          )
