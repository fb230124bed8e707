-- ===== src/Gateway/WatchedTests.antt =====
-- The pair with the descriptors 11 and 12 on a PollThread, and five bytes to forward.
use vncproxy.Prelude.{◌≡◌, refl, none, some, Option, [], ◌∷◌, arith, ◌==◌, if◌then◌else◌, add_int}
use vncproxy.Kernel.Pipes.{Pipes, pipes, pipes_drain, five_bytes}
use vncproxy.Marshal
use vncproxy.Chunk
use vncproxy.Marshal.Io.{read_from_fd}
use vncproxy.Polling
use vncproxy.Polling.{has, find}
use vncproxy.Polling.Table.{all}
use vncproxy.Polling.AsPoller.{
  checked, InStep, thread_poller, fits, add_fitting, update_fitting, keep_added, keep_updated,
}
use vncproxy.Gateway.{
  insert_leader, EndPoint, ready, tie, new_end_point, handle_read, ask_to_write, tie_fd, Leaders,
}
use vncproxy.Gateway.Relay.{World, Allows, step, start, then_step, first_readable}
use vncproxy.Gateway.Tied.{World_of}
use vncproxy.Gateway.Watched.{Watched, tie_fd-Watched}
use vncproxy.Gateway.TwiceTests.{object, nothing, nothing-IsThread}

abbrev idle : InStep all object (λ a. refl)
idle = record { thread = nothing; counts = λ a. 1; in_step = nothing-IsThread }

abbrev inbox : Pipes
inbox = record five_bytes { inbox = λ fd. if fd == 11 then 1 ∷ 2 ∷ 3 ∷ 4 ∷ 5 ∷ [] else [] }

abbrev Tied : Type 0
Tied = EndPoint × EndPoint × Leaders × InStep all object (λ a. refl)

abbrev attempt : Option Tied
attempt = tie_fd pipes (thread_poller all object (λ a. refl)) (65 ∷ []) 1 11 2 12 [] idle

abbrev made : Tied
made = elim attempt [ none ↦ (new_end_point 1 11, new_end_point 2 12, [], idle) | some x ↦ x ]

is_made : attempt ≡ some made
unfolding checked Polling.insert Polling.assign Polling.erase tie_fd ready tie insert_leader
    new_end_point add_fitting keep_added fits Polling.add Polling.ref_copy Polling.find Polling.has
    add_int
is_made = refl

abbrev tied : World pipes (thread_poller all object (λ a. refl))
tied = World_of pipes (thread_poller all object (λ a. refl)) inbox made

-- The five bytes came from the descriptor 11.
abbrev after_read : World pipes (thread_poller all object (λ a. refl))
after_read = elim (step pipes (thread_poller all object (λ a. refl)) (first_readable 6) tied) [
  | none ↦ tied
  | some w ↦ w
]

tied-reads :
    step pipes (thread_poller all object (λ a. refl)) (first_readable 6) tied ≡ some after_read
unfolding checked Polling.insert Polling.assign Polling.erase tie_fd ready tie insert_leader
    new_end_point add_fitting keep_added update_fitting keep_updated fits Polling.add
    Polling.update_mode Polling.change_mode Polling.ref_copy Polling.find Polling.has add_int step
    handle_read read_from_fd Marshal.Chunks.front_live Marshal.empty Marshal.Chunks.make_room
    Marshal.Chunks.back_full Marshal.Chunks.on_back Chunk.read_from_fd Chunk.new_chunk
    Chunk.fully_written Chunk.fully_read Marshal.Io.read_fd_loop Marshal.Io.read_back ask_to_write
    Chunk.in_order Chunk.min_size
tied-reads = refl

bounds : Allows pipes (thread_poller all object (λ a. refl)) pipes_drain tied (first_readable 6)
unfolding checked Polling.insert Polling.assign Polling.erase tie_fd ready tie insert_leader
    new_end_point add_fitting keep_added fits Polling.add Polling.ref_copy Polling.find Polling.has
    add_int
bounds = (omega arith, omega arith)

tie_fd-Watched_example :
    Watched all object (λ a. refl) after_read.first after_read.poll
    × Watched all object (λ a. refl) after_read.second after_read.poll
tie_fd-Watched_example =
    tie_fd-Watched all object (λ a. refl) pipes pipes_drain (65 ∷ []) 1 11 2 12 [] inbox idle made
      after_read (omega arith) (omega arith) is_made
      (then_step (first_readable 6) start bounds tied-reads)
