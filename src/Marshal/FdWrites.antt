-- ===== src/Marshal/FdWrites.antt =====
-- `Marshal::write_to_fd` sends a prefix of the content, in order, and keeps the rest.
use vncproxy.Prelude.{
  ℕ, zero, suc, ◌+◌, ◌-◌, ◌≤◌, ◌<◌, ◌≡◌, refl, sym, ap, ◌∙◌, Option, some, List, [], ◌∷◌, ◌++◌,
  arith, length, take, drop, dec_lt, length-append, length-drop, take-append_le, take-add,
  drop-drop, append-nil, append_assoc, add_int-eq, int_limit, lt→ltb, le→not-ltb, ◌>>=◌,
}
use vncproxy.Kernel.{Kernel, count_of, on_fd, on_fd-append}
use vncproxy.Chunk.{Chunk}
use vncproxy.Chunk.Contents.{content}
use vncproxy.Chunk.Methods.{advanced}
use vncproxy.Chunk.Io.{write_to_fd-eq, write_to_fd-Advances}
use vncproxy.Marshal.{Marshal}
use vncproxy.Marshal.Chunks.{drop_read}
use vncproxy.Marshal.Valid.{AllValid, IsMarshal, contents_of, contents, front_live-eq}
use vncproxy.Marshal.Front.{Left, Dropped, drop_read-Dropped}
use vncproxy.Marshal.Reading.{Shortened}
use vncproxy.Marshal.Io.{write_fd_loop, write_to_fd}

module _ (k : Kernel) where
  open k use {State, sys_write, received, sent, write_le, sent-write, received-write}

  -- Between `s` and `s'` the process wrote `bs` to `fd`, and read nothing.
  pub record Sent (fd : ℕ) (bs : List ℕ) (s s' : State) : Type 0 where
    pub sends : (j : ℕ) → sent s' j ≡ sent s j ++ on_fd fd j bs
    pub receives : (j : ℕ) → received s' j ≡ received s j

  pub Sent-trans :
      (fd : ℕ) (xs ys zs : List ℕ) (s t u : State)
      → Sent fd xs s t
      → Sent fd ys t u
      → xs ++ ys ≡ zs
      → Sent fd zs s u
  Sent-trans fd xs ys zs s t u p q e = record {
    sends = λ j.
        q.sends j
        ∙ ap (λ bs. bs ++ on_fd fd j ys) (p.sends j)
        ∙ append_assoc (sent s j) (on_fd fd j xs) (on_fd fd j ys)
        ∙ ap (◌++◌ (sent s j)) (sym (on_fd-append fd j xs ys) ∙ ap (on_fd fd j) e);
    receives = λ j. q.receives j ∙ p.receives j;
  }

  module _ (fd : ℕ) where
    record Writes (n_write : ℕ) (cs : List Chunk) (s : State)
        (out : Option (ℕ × List Chunk × State)) : Type 0 where
      count : ℕ
      left : List Chunk
      state : State
      result : out ≡ some (n_write + count, left, state)
      bound : count ≤ length (contents_of cs)
      after : Left count cs left
      sending : Sent fd (take count (contents_of cs)) s state

    Writes-more :
        (n_write n : ℕ) (cs left : List Chunk) (s s' : State)
        (out more : Option (ℕ × List Chunk × State))
        → Left n cs left
        → n ≤ length (contents_of cs)
        → Sent fd (take n (contents_of cs)) s s'
        → (w : Writes (n_write + n) left s' more)
        → out ≡ some (n_write + n + w.count, w.left, w.state)
        → Writes n_write cs s out
    Writes-more n_write n cs left s s' out more l le sent_now w e = record {
      count = n + w.count;
      left = w.left;
      state = w.state;
      result =
          e ∙ ap (λ (i : ℕ). some (i, w.left, w.state)) {x = n_write + n + w.count} (omega arith);
      bound = omega (arith, w.bound, ap length l.rest, length-drop {0} n (contents_of cs), le);
      after = record {
        valid = w.after.valid;
        rest = w.after.rest ∙ ap (drop w.count) l.rest ∙ drop-drop w.count n (contents_of cs);
      };
      sending =
          Sent-trans fd (take n (contents_of cs)) (take w.count (contents_of left))
            (take (n + w.count) (contents_of cs)) s s' w.state sent_now w.sending
            (ap (λ bs. take n (contents_of cs) ++ take w.count bs) l.rest
              ∙ sym (take-add n w.count (contents_of cs)));
    }

    pub write_fd_loop-stop :
        (fuel n_write : ℕ) (c : Chunk) (cs : List Chunk) (s : State)
        → AllValid (c ∷ cs)
        → let out = sys_write fd (content c) s in
          (d : Dropped (count_of out.0) (c ∷ cs) (drop_read (advanced c (count_of out.0) ∷ cs)))
          → count_of out.0 ≡ 0
          → write_fd_loop k fd (suc fuel) n_write (c ∷ cs) s ≡ some (n_write, d.left, out.1)
    unfolding write_fd_loop
    write_fd_loop-stop fuel n_write c cs s v d z = rw (
      write_to_fd-eq k fd c s v.0,
      d.result,
      le→not-ltb 0 (count_of (sys_write fd (content c) s).0) (omega arith),
      write_fd_loop,
      ◌>>=◌,
    )

    pub write_fd_loop-more :
        (fuel n_write : ℕ) (c : Chunk) (cs : List Chunk) (s : State) (out : ℕ × List Chunk × State)
        → AllValid (c ∷ cs)
        → let r = sys_write fd (content c) s in
          (d : Dropped (count_of r.0) (c ∷ cs) (drop_read (advanced c (count_of r.0) ∷ cs)))
          → 0 < count_of r.0
          → n_write + count_of r.0 < int_limit
          → write_fd_loop k fd fuel (n_write + count_of r.0) d.left r.1 ≡ some out
          → write_fd_loop k fd (suc fuel) n_write (c ∷ cs) s ≡ some out
    unfolding write_fd_loop
    write_fd_loop-more fuel n_write c cs s out v d pos lim e = rw (
      write_to_fd-eq k fd c s v.0,
      d.result,
      lt→ltb 0 (count_of (sys_write fd (content c) s).0) pos,
      add_int-eq n_write (count_of (sys_write fd (content c) s).0) lim,
      e,
      write_fd_loop,
      ◌>>=◌,
    )

    -- One call of `write` on the front chunk.
    pub call-Sent :
        (c : Chunk) (cs : List Chunk) (s : State)
        → let r = sys_write fd (content c) s in
          Sent fd (take (count_of r.0) (contents_of (c ∷ cs))) s r.1
    call-Sent c cs s =
        let r = sys_write fd (content c) s in
        let same =
          take-append_le (count_of r.0) (content c) (contents_of cs) (write_le fd (content c) s) in
        record {
          sends =
              λ j. sent-write fd (content c) s j ∙ ap (λ bs. sent s j ++ on_fd fd j bs) (sym same);
          receives = λ j. received-write fd (content c) s j;
        }

    write_fd_loop-Writes :
        (fuel n_write : ℕ) (cs : List Chunk) (s : State)
        → AllValid cs
        → n_write + length (contents_of cs) < int_limit
        → length (contents_of cs) < fuel
        → Writes n_write cs s (write_fd_loop k fd fuel n_write cs s)
    unfolding write_fd_loop
    write_fd_loop-Writes zero n_write cs s v lim f = absurd (omega arith)
    write_fd_loop-Writes (suc fuel) n_write [] s v lim f = record {
      count = 0;
      left = [];
      state = s;
      result = ap (λ (i : ℕ). some (i, [], s)) {x = n_write} (omega arith);
      bound = omega arith;
      after = record { valid = tt; rest = refl };
      sending = record { sends = λ j. ground (arith, append-nil (sent s j)); receives = λ j. refl };
    }
    write_fd_loop-Writes (suc fuel) n_write (c ∷ cs) s v lim f =
        let n = count_of (sys_write fd (content c) s).0 in
        let s' = (sys_write fd (content c) s).1 in
        let le : n ≤ length (content c) = write_le fd (content c) s in
        let all = length-append (content c) (contents_of cs) in
        let d = drop_read-Dropped n c (advanced c n) cs v (write_to_fd-Advances k fd c s v.0) le in
        elim (dec_lt 0 n) [
          | no z ↦ record {
            count = n;
            left = d.left;
            state = s';
            result =
                write_fd_loop-stop fuel n_write c cs s v d (omega arith)
                ∙ ap (λ (i : ℕ). some (i, d.left, s')) {x = n_write} (omega arith);
            bound = omega (arith, all);
            after = d.after;
            sending = call-Sent c cs s;
          }
          | yes pos ↦
              let shorter : length (contents_of d.left) ≡ length (contents_of (c ∷ cs)) - n =
                ap length d.after.rest ∙ length-drop n (contents_of (c ∷ cs)) in
              let ih =
                write_fd_loop-Writes fuel (n_write + n) d.left s' d.after.valid
                  (omega (arith, shorter, all)) (omega (arith, shorter, all)) in
              Writes-more n_write n (c ∷ cs) d.left s s' _ _ d.after (omega (arith, all))
                (call-Sent c cs s) ih
                (write_fd_loop-more fuel n_write c cs s _ v d pos (omega (arith, all)) ih.result)
        ]

    -- On a marshal in order whose content has an int length, write_to_fd sends a prefix of the
    -- content to the descriptor in order, returns its length and keeps the rest in order; nothing
    -- goes to another descriptor and nothing is read.
    pub write_to_fd_lem :
        (m : Marshal) (s : State)
        → IsMarshal m
        → length (contents m) < int_limit
        → (n : ℕ) × (m' : Marshal) × (s' : State) × (write_to_fd k fd m s ≡ some (n, m', s'))
          × (n ≤ length (contents m))
          × Shortened n m m'
          × Sent fd (take n (contents m)) s s'
    unfolding write_to_fd
    write_to_fd_lem m s v lim =
        let w =
          write_fd_loop-Writes (suc (length (contents m))) 0 m.chunks s v (omega arith)
            (omega arith) in
        (
          w.count,
          record m { chunks = w.left },
          w.state,
          rw (front_live-eq m.chunks v, w.result, front_live-eq w.left w.after.valid, ◌>>=◌)
              (ap (λ (i : ℕ). some (i, record m { chunks = w.left }, w.state)) {x = 0 + w.count}
                (omega arith)),
          w.bound,
          record { valid = w.after.valid; rest = w.after.rest; same_counter = refl },
          w.sending,
        )
