-- ===== src/Marshal/Tests.antt =====
-- Class Marshal at a small example, and its theorems there.
use vncproxy.Prelude.{
  ℕ, ◌≤◌, ◌≡◌, refl, none, some, List, [], ◌∷◌, ◌++◌, arith, length, take, inl, true, false,
}
use vncproxy.Kernel.Pipes.{Pipes, pipes, pipes_drain, five_bytes}
use vncproxy.Marshal.{Marshal, write, read, content_size_gt}
use vncproxy.Marshal.Chunks.{back_full}
use vncproxy.Marshal.Valid.{IsMarshal, contents, back_full-eq}
use vncproxy.Marshal.Bookmark.{Pointer, set_bookmark, write_bookmark}
use vncproxy.Marshal.Bookmarked.{writes, write_bookmark-writes}
use vncproxy.Marshal.Io.{write_to_fd, read_from_fd}
use vncproxy.Marshal.Reading.{Shortened, read_lem}
use vncproxy.Marshal.Writing.{Written, write_lem, write-nil-faults}
use vncproxy.Marshal.Sizes.{content_size_gt_lem}
use vncproxy.Marshal.FdWrites.{Sent, write_to_fd_lem}
use vncproxy.Marshal.FdReads.{Received, Dry, read_from_fd_lem}
use vncproxy.Marshal.Transfer.{read_from_marshal}
use vncproxy.Marshal.Transfer.Loop.{read_from_marshal_lem}

-- A full chunk of which one byte has been read, and a chunk with room.
abbrev five : Marshal
five = record {
  chunks =
      record { bytes = 9 ∷ 1 ∷ 2 ∷ 3 ∷ []; size = 4; read_idx = 1; write_idx = 4 }
      ∷ record { bytes = 4 ∷ 5 ∷ 0 ∷ 0 ∷ []; size = 4; read_idx = 0; write_idx = 2 }
      ∷ [];
  write_counter = 0;
}

five-IsMarshal : IsMarshal five
five-IsMarshal = omega arith

contents-five : contents five ≡ 1 ∷ 2 ∷ 3 ∷ 4 ∷ 5 ∷ []
contents-five = refl

read_lem_example :
    (m' : Marshal) × (read 4 five ≡ some (1 ∷ 2 ∷ 3 ∷ 4 ∷ [], m')) × Shortened 4 five m'
read_lem_example = read_lem five 4 five-IsMarshal (omega arith)

write_lem_example :
    (m' : Marshal) × (write (6 ∷ 7 ∷ 8 ∷ []) five ≡ some (3, m')) × Written (6 ∷ 7 ∷ 8 ∷ []) five m'
write_lem_example = write_lem (6 ∷ 7 ∷ 8 ∷ []) five five-IsMarshal (omega arith) (inl (omega arith))

back_full-five : back_full five.chunks ≡ some false
back_full-five = back_full-eq _ _ five-IsMarshal

-- The back of `five` has room, so an empty write stops the process.
write-nil-faults_example : write [] five ≡ none
write-nil-faults_example = write-nil-faults five five-IsMarshal back_full-five

content_size_gt_lem_example : content_size_gt 4 five ≡ some true
content_size_gt_lem_example = content_size_gt_lem 4 five five-IsMarshal (omega arith)

write_to_fd_lem_example :
    (n : ℕ) × (m' : Marshal) × (s' : Pipes) × (write_to_fd pipes 8 five five_bytes
      ≡ some (n, m', s'))
    × (n ≤ 5)
    × Shortened n five m'
    × Sent pipes 8 (take n (1 ∷ 2 ∷ 3 ∷ 4 ∷ 5 ∷ [])) five_bytes s'
write_to_fd_lem_example = write_to_fd_lem pipes 8 five five_bytes five-IsMarshal (omega arith)

read_from_fd_lem_example :
    (bs : List ℕ) × (m' : Marshal) × (s' : Pipes) × (read_from_fd pipes 6 7 five five_bytes
      ≡ some (length bs, m', s'))
    × IsMarshal m'
    × (contents m' ≡ contents five ++ bs)
    × (m'.write_counter ≡ 0)
    × Received pipes 7 bs five_bytes s'
    × Dry pipes 7 s'
read_from_fd_lem_example =
    read_from_fd_lem pipes 7 pipes_drain 6 five five_bytes five-IsMarshal (omega arith)
      (omega arith)

read_from_marshal_lem_example :
    (self' m' : Marshal) × (read_from_marshal 4 five five ≡ some (4, self', m'))
    × IsMarshal self'
    × (contents self' ≡ 1 ∷ 2 ∷ 3 ∷ 4 ∷ 5 ∷ 1 ∷ 2 ∷ 3 ∷ 4 ∷ [])
    × (self'.write_counter ≡ 0)
    × Shortened 4 five m'
read_from_marshal_lem_example =
    read_from_marshal_lem 4 five five five-IsMarshal five-IsMarshal (omega arith)

-- Two buffers are written between: the bookmark goes over the end of a chunk.
write_bookmark-writes_example :
    (marks : List Pointer) × (m1 : Marshal) × (m2 : Marshal) × (m3 : Marshal) × (set_bookmark 4 five
      ≡ some (marks, m1))
    × (writes ((1 ∷ 2 ∷ []) ∷ (3 ∷ []) ∷ []) m1 ≡ some m2)
    × (write_bookmark marks (6 ∷ 7 ∷ 8 ∷ 9 ∷ []) m2 ≡ some m3)
    × IsMarshal m3
    × (contents m3 ≡ contents five ++ (6 ∷ 7 ∷ 8 ∷ 9 ∷ []) ++ 1 ∷ 2 ∷ 3 ∷ [])
    × (m3.write_counter ≡ 3)
write_bookmark-writes_example =
    write_bookmark-writes (6 ∷ 7 ∷ 8 ∷ 9 ∷ []) ((1 ∷ 2 ∷ []) ∷ (3 ∷ []) ∷ []) five five-IsMarshal
      refl (omega arith, (omega arith, tt)) (omega arith)
