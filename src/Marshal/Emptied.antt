-- ===== src/Marshal/Emptied.antt =====
-- `Marshal::write_to_fd` on a descriptor that takes bytes whenever there are some.
use vncproxy.Prelude.{
  drop_of_length_le, subst, take-append-drop, ℕ, zero, suc, ◌+◌, ◌-◌, ◌≤◌, ◌<◌, ◌≡◌, refl, ap, ◌∙◌,
  Option, some, List, [], ◌∷◌, ◌++◌, arith, length, take, drop, dec_lt, length-append, length-drop,
  int_limit, ◌>>=◌, take_of_length_le, append-nil,
}
use vncproxy.Kernel.{Kernel, count_of}
use vncproxy.Chunk.{Chunk}
use vncproxy.Chunk.Contents.{content}
use vncproxy.Chunk.Methods.{advanced}
use vncproxy.Chunk.Io.{write_to_fd-Advances}
use vncproxy.Marshal.{Marshal}
use vncproxy.Marshal.Valid.{AllValid, IsMarshal, contents_of, contents, front_live-eq}
use vncproxy.Marshal.Front.{drop_read-Dropped, contents_of-stalled}
use vncproxy.Marshal.FdWrites.{Sent, Sent-trans, call-Sent, write_fd_loop-stop, write_fd_loop-more}
use vncproxy.Marshal.Io.{write_fd_loop, write_to_fd}

module _ (k : Kernel) where
  open k use {State, sys_write, write_le}

  -- `fd` takes at least a byte of each buffer that is not empty.
  abbrev pub IsWilling : ℕ → Type 0
  IsWilling fd = (bs : List ℕ) (s : State) → 0 < length bs → 0 < count_of (sys_write fd bs s).0

  module _ (fd : ℕ) (willing : IsWilling fd) where
    record Empties (n_write : ℕ) (cs : List Chunk) (s : State)
        (out : Option (ℕ × List Chunk × State)) : Type 0 where
      left : List Chunk
      state : State
      result : out ≡ some (n_write + length (contents_of cs), left, state)
      empty : contents_of left ≡ []
      valid : AllValid left
      sending : Sent k fd (contents_of cs) s state

    write_fd_loop-Empties :
        (fuel n_write : ℕ) (cs : List Chunk) (s : State)
        → AllValid cs
        → n_write + length (contents_of cs) < int_limit
        → length (contents_of cs) < fuel
        → Empties n_write cs s (write_fd_loop k fd fuel n_write cs s)
    unfolding write_fd_loop
    write_fd_loop-Empties zero n_write cs s v lim f = absurd (omega arith)
    write_fd_loop-Empties (suc fuel) n_write [] s v lim f = record {
      left = [];
      state = s;
      result = ap (λ (i : ℕ). some (i, [], s)) {x = n_write} (omega arith);
      empty = refl;
      valid = tt;
      sending = record {
        sends = λ j. ground (arith, append-nil (k.sent s j));
        receives = λ j. refl;
      };
    }
    write_fd_loop-Empties (suc fuel) n_write (c ∷ cs) s v lim f =
        let n = count_of (sys_write fd (content c) s).0 in
        let s' = (sys_write fd (content c) s).1 in
        let le : n ≤ length (content c) = write_le fd (content c) s in
        let all = length-append (content c) (contents_of cs) in
        let d = drop_read-Dropped n c (advanced c n) cs v (write_to_fd-Advances k fd c s v.0) le in
        elim (dec_lt 0 n) [
          | no z ↦
              let idle : length (content c) ≡ 0 = nothing_to_send c s z in
              let stalled = contents_of-stalled c cs v idle in
              record {
                left = d.left;
                state = s';
                result =
                    write_fd_loop-stop k fd fuel n_write c cs s v d (omega arith)
                    ∙ ap (λ (i : ℕ). some (i, d.left, s')) {x = n_write}
                        (omega (arith, ap length stalled));
                empty = d.after.rest ∙ ap (drop n) stalled ∙ drop_of_length_le n [] (omega arith);
                valid = d.after.valid;
                sending =
                    subst (λ bs. Sent k fd bs s s')
                      (take_of_length_le n (contents_of (c ∷ cs))
                        (omega (arith, ap length stalled)))
                      (call-Sent k fd c cs s);
              }
          | yes pos ↦
              let shorter : length (contents_of d.left) ≡ length (contents_of (c ∷ cs)) - n =
                ap length d.after.rest ∙ length-drop n (contents_of (c ∷ cs)) in
              let ih =
                write_fd_loop-Empties fuel (n_write + n) d.left s' d.after.valid
                  (omega (arith, shorter, all)) (omega (arith, shorter, all)) in
              record {
                left = ih.left;
                state = ih.state;
                result =
                    write_fd_loop-more k fd fuel n_write c cs s _ v d pos (omega (arith, all))
                      ih.result
                    ∙ ap (λ (i : ℕ). some (i, ih.left, ih.state))
                        {x = n_write + n + length (contents_of d.left)}
                        (omega (arith, shorter, all));
                empty = ih.empty;
                valid = ih.valid;
                sending =
                    Sent-trans k fd (take n (contents_of (c ∷ cs))) (contents_of d.left)
                      (contents_of (c ∷ cs)) s s' ih.state (call-Sent k fd c cs s) ih.sending
                      (ap (◌++◌ (take n (contents_of (c ∷ cs)))) d.after.rest
                        ∙ take-append-drop n (contents_of (c ∷ cs)));
              }
        ]
      where
        nothing_to_send :
            (c : Chunk) (s : State)
            → ¬ (0 < count_of (sys_write fd (content c) s).0)
            → length (content c) ≡ 0
        nothing_to_send c s z = elim (dec_lt 0 (length (content c))) [
          | yes p ↦ absurd (z (willing (content c) s p))
          | no q ↦ omega arith
        ]

    -- The whole content is sent.
    pub write_to_fd-empties :
        (m : Marshal) (s : State)
        → IsMarshal m
        → length (contents m) < int_limit
        → (m' : Marshal) × (s' : State) × (write_to_fd k fd m s
            ≡ some (length (contents m), m', s'))
          × IsMarshal m'
          × (contents m' ≡ [])
          × Sent k fd (contents m) s s'
    unfolding write_to_fd
    write_to_fd-empties m s v lim =
        let w =
          write_fd_loop-Empties (suc (length (contents m))) 0 m.chunks s v (omega arith)
            (omega arith) in
        (
          record m { chunks = w.left },
          w.state,
          rw (front_live-eq m.chunks v, w.result, front_live-eq w.left w.valid, ◌>>=◌)
              (ap (λ (i : ℕ). some (i, record m { chunks = w.left }, w.state))
                {x = 0 + length (contents m)} (omega arith)),
          w.valid,
          w.empty,
          w.sending,
        )
