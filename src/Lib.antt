-- ===== src/Lib.antt =====
-- The vncproxy gateway: a proxy that accepts VNC clients, picks the remote server by the password
-- that the client knows, and forwards the bytes between the two sockets.
--
-- Which file models which part of the repository:
--   Chunk      class Chunk of marshal.h: one block of a buffer, with its read and write positions
--   Marshal    class Marshal of marshal.h and marshal.cc: a queue of chunks as one byte string
--              (Marshal/Io: write_to_fd and read_from_fd; Marshal/Transfer: read_from_marshal;
--              Marshal/Bookmark: set_bookmark and write_bookmark)
--   Wire       the operators << and >> of marshal.h, as put_... and get_...
--   Poller     class Pollable of polling.h, and what an end point asks of PollMgr
--   Polling    PollMgr::PollThread of polling.cc on epoll, and RefCounted of utils.h
--              (Polling/Manager: class PollMgr; Polling/Loop: poll_loop; Polling/AsPoller: what Poller
--              asks, filled by add and update_mode of a PollThread in step; Polling/Edge: what
--              edge-triggered means for the events that are due)
--   Auth       vnc_auth_callback of vncproxy.cc, and the answer to the remote server's challenge
--   Utils      Queue of utils.h and ThreadPool of utils.cc (Utils/Worker: a thread of the pool, one
--              access to its queue at a time; Utils/Log: class Log; Utils/Counter: class Counter)
--   Gateway    class EndPoint of vncproxy.cc and tie_fd (Gateway/Shutdown: shutdown, handle_error and
--              the choice of cleanup; Gateway/Cleanup: cleanup and cleanup_thread; Gateway/Dispatch:
--              what poll_loop calls for the events of a pair; Gateway/Edges: tie_fd beside the poll
--              thread)
--   Main       the loop of main of vncproxy.cc that takes clients (Main/Startup: what comes before it)
--   System     the calls that the handshake makes of the system, of the database and of tie_fd, as
--              oracles, and the monad of a dialogue with them
--   Sockets    set_nonblocking of utils.cc, connect_to and bind_on of vncproxy.cc
--   Operator   VncOperator::run of vncproxy.cc (Operator/Client: up to the row of the database;
--              Operator/Remote: from there on; Operator/Messages: the messages and the ways out)
--   Kernel     the system calls read and write, as a parameter
--   Prelude    names, tests and list lemmas that the others share
--
-- How they interact. Two end points that tie_fd made share a PollMgr. handle_read of one reads from its
-- descriptor into the peer's Marshal and asks the PollMgr to watch the peer for writing; handle_write
-- writes the end point's own Marshal to its descriptor. Gateway takes the system calls (Kernel) and
-- the PollMgr (Poller) as parameters, and gives the events of a pair as a step function on a World,
-- with Reaches as the relation of the runs. An event elsewhere stands for the rest of the process and
-- for the other ends of the sockets. PollMgr chooses a PollThread by the descriptor, and poll_loop
-- calls the handlers, which are a parameter there. VncOperator::run is code over System: it uses Sockets for
-- the remote server, Auth for the choice of the row and for its answer, and ends in the call that
-- hands both descriptors to tie_fd. Main gives a job for each client to the pool of Utils; the job is
-- the run of Operator. A round of cleanup_thread works on the same PollThread, counts and leaders as
-- the handlers of errors.
--
-- State and faults. State is passed explicitly. `none` is a fault: an abort by assert or verify, an
-- exception that nothing catches, a signed overflow, or a use of memory whose meaning is undefined (a
-- deleted object, a write past a buffer). An int is a natural number below 2^31 where it cannot be
-- negative, its 32-bit pattern on the wire, and a ℤ as a level of the log. Words on the wire are in the byte order of a
-- little-endian machine. Reference counts are a function of the address. A dialogue is a
-- function of the history of its calls, with three outcomes: it goes on, it has returned, or a fault.
-- The arrays of the stack are arguments, with what is in them before they are written.
--
-- Fuel. Marshal::read of n bytes has n + 1 rounds, since each round but the last takes a byte.
-- write_to_fd has one round more than the buffer has bytes. read_from_marshal has n, the chunks and
-- one. read_from_fd has no bound of its own: its rounds are an argument, and its theorem asks for more
-- of them than the descriptor has bytes to read (the record Drains).
--
-- Parameters. Kernel: read and write with what their manual pages promise. Epoll: the interest
-- list, with what epoll_ctl promises when it succeeds. des: the cipher. The rows that a query
-- gives, and whether it goes through, are an argument. EdgeTriggered: the events that are due on an
-- Epoll, as epoll(7) says of EPOLLET. System: each call of the handshake gives what a function of
-- the calls before it and of its arguments says, so that a peer may answer anything.
--
-- Not modelled: the destructors but for the removals of ~PollThread and the tokens of ~ThreadPool;
-- the creation of threads and their mutexes, so each method is one step, but for tie_fd and the
-- threads of the pool, which are modelled both at once and in their parts; the kqueue branch of
-- polling.cc; a lack of memory, so that only an allocation of a negative length throws; the
-- signals, srand and the printing of main, which call the system; d3des.c, a copy of another
-- project.
pub mod Prelude
pub mod Kernel
pub mod Chunk
pub mod Marshal
pub mod Wire
pub mod Poller
pub mod Polling
pub mod Auth
pub mod Utils
pub mod System
pub mod Sockets
pub mod Operator
pub mod Gateway
pub mod Main
