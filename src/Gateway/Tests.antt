-- ===== src/Gateway/Tests.antt =====
-- A tied pair of descriptors, and the theorems about it there.
use vncproxy.Prelude.{
  ℕ, add_int, ◌≡◌, refl, none, some, Option, List, [], ◌∷◌, ◌++◌, arith, true, false, inr, ◌==◌,
  if◌then◌else◌,
}
use vncproxy.Kernel.Pipes.{pipes, pipes_drain, five_bytes}
use vncproxy.Marshal
use vncproxy.Chunk
use vncproxy.Marshal.{Marshal}
use vncproxy.Marshal.Valid.{contents}
use vncproxy.Marshal.Io.{read_from_fd}
use vncproxy.Poller.Table.{table}
use vncproxy.Gateway.{
  insert_leader, ready, tie, new_end_point, EndPoint, handle_read, handle_write, ask_to_write,
  tie_fd, Leaders,
}
use vncproxy.Gateway.Forward.{DidRead, DidWrite, handle_read_lem, handle_write_lem}
use vncproxy.Gateway.Relay.{World, step, start, then_step, first_readable}
use vncproxy.Marshal.Emptied.{IsWilling}
use vncproxy.Marshal.FdWrites.{Sent}
use vncproxy.Gateway.Sending.{handle_write-empties}
use vncproxy.Gateway.Tied.{tie_fd-Relays, tie_fd-Reaches}
use vncproxy.Gateway.Armed.{ArmedBoth, Reaches-ArmedBoth}

-- Two bytes wait for the descriptor 8.
abbrev pub two_bytes : Marshal
two_bytes = record {
  chunks = record { bytes = 1 ∷ 2 ∷ 0 ∷ []; size = 3; read_idx = 0; write_idx = 2 } ∷ [];
  write_counter = 0;
}

abbrev pub end_7 : EndPoint
end_7 = record {
  address = 1;
  fd = 7;
  forward_key = 65 ∷ [];
  leader = true;
  buf = record { chunks = []; write_counter = 0 };
  enabled = true;
}

abbrev pub end_8 : EndPoint
end_8 = record {
  address = 2;
  fd = 8;
  forward_key = [];
  leader = false;
  buf = two_bytes;
  enabled = true;
}

abbrev both : ℕ → Option ℕ
both a = if a == 1 then some 3 else if a == 2 then some 3 else none

handle_read_lem_example :
    DidRead pipes table end_7 end_8 five_bytes both
      (handle_read pipes table 6 end_7 end_8 five_bytes both)
handle_read_lem_example =
    handle_read_lem pipes table pipes_drain 6 end_7 end_8 five_bytes both refl (omega arith)
      (omega arith) (omega arith)

handle_write_lem_example :
    DidWrite pipes table end_8 five_bytes both (handle_write pipes table end_8 five_bytes both)
handle_write_lem_example =
    handle_write_lem pipes table end_8 five_bytes both refl (omega arith) (omega arith)

abbrev pub fresh : EndPoint × EndPoint × Leaders × (ℕ → Option ℕ)
fresh = (
  record end_7 { buf = Marshal.empty },
  record end_8 { buf = Marshal.empty },
  (65 ∷ [], 1) ∷ [],
  (λ b. if 2 == b then some 3 else if 1 == b then some 3 else none),
)

pub fresh-tied : tie_fd pipes table (65 ∷ []) 1 7 2 8 [] (λ b. none) ≡ some fresh
unfolding tie_fd ready tie insert_leader new_end_point
fresh-tied = refl

abbrev pub tied : World pipes table
tied = record { first = fresh.0; second = fresh.1; kernel = five_bytes; poll = fresh.3 }

-- The five bytes came from descriptor 7.
abbrev pub after_read : World pipes table
after_read = elim (step pipes table (first_readable 6) tied) [ none ↦ tied | some w ↦ w ]

tied-reads : step pipes table (first_readable 6) tied ≡ some after_read
unfolding step handle_read read_from_fd Marshal.Chunks.front_live Marshal.empty
    Marshal.Chunks.make_room Marshal.Chunks.back_full Marshal.Chunks.on_back Chunk.read_from_fd
    Chunk.new_chunk Chunk.fully_written Chunk.fully_read Marshal.Io.read_fd_loop
    Marshal.Io.read_back ask_to_write Chunk.in_order Chunk.min_size add_int
tied-reads = refl

tie_fd-Reaches_example :
    (forth back : List ℕ) × (after_read.kernel.read_log 7
      ≡ [] ++ (forth ++ contents after_read.second.buf))
    × (after_read.kernel.write_log 8 ≡ [] ++ forth)
    × (after_read.kernel.read_log 8 ≡ [] ++ (back ++ contents after_read.first.buf))
    × (after_read.kernel.write_log 7 ≡ [] ++ back)
tie_fd-Reaches_example =
    tie_fd-Reaches pipes table pipes_drain (65 ∷ []) 1 7 2 8 [] five_bytes (λ b. none) fresh
      after_read (omega arith) fresh-tied
      (then_step (first_readable 6) start (omega arith, omega arith) tied-reads)

tied-ArmedBoth : ArmedBoth pipes table tied
tied-ArmedBoth = record {
  addresses = omega arith;
  first_armed = inr (inr refl);
  second_armed = inr (inr refl);
}

Reaches-ArmedBoth_example : ArmedBoth pipes table after_read
Reaches-ArmedBoth_example =
    Reaches-ArmedBoth pipes table pipes_drain [] [] [] [] 7 8
      (tie_fd-Relays pipes table (65 ∷ []) 1 7 2 8 [] five_bytes (λ b. none) fresh (omega arith)
        fresh-tied)
      tied-ArmedBoth (then_step (first_readable 6) start (omega arith, omega arith) tied-reads)

takes_bytes : IsWilling pipes 8
takes_bytes bs s h = omega arith

abbrev reading : ℕ → Option ℕ
reading b = if 2 == b then some 1 else both b

handle_write-empties_example :
    (after : EndPoint) × (s : pipes.State) × (handle_write pipes table end_8 five_bytes both
      ≡ some (after, s, reading))
    × (contents after.buf ≡ [])
    × Sent pipes 8 (1 ∷ 2 ∷ []) five_bytes s
handle_write-empties_example =
    handle_write-empties pipes table end_8 five_bytes both reading refl (omega arith) (omega arith)
      takes_bytes refl
