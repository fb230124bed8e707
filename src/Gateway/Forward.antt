-- ===== src/Gateway/Forward.antt =====
-- `EndPoint::handle_read` and `handle_write`: what they do to the buffers and the descriptors.
use vncproxy.Prelude.{
  ℕ, ◌≤◌, ◌<◌, ◌≡◌, ap, true, Option, some, List, ◌++◌, arith, length, take, int_limit, ltb,
  if◌then◌else◌, ◌>>=◌, length-drop,
}
use vncproxy.Kernel.{Kernel, Drains}
use vncproxy.Marshal.{Marshal}
use vncproxy.Marshal.Valid.{IsMarshal, contents}
use vncproxy.Marshal.Reading.{Shortened}
use vncproxy.Marshal.Sizes.{content_size_gt_lem}
use vncproxy.Marshal.Io.{read_from_fd, write_to_fd}
use vncproxy.Marshal.FdReads.{Received, Dry, read_from_fd_lem}
use vncproxy.Marshal.FdWrites.{Sent, write_to_fd_lem}
use vncproxy.Poller.{Poller, both_modes, read_mode}
use vncproxy.Gateway.{EndPoint, pollable, handle_read, handle_write, ask_to_write}

module _ (k : Kernel) (poller : Poller) where
  -- `bs` was read from the end point and put behind the content of its peer's buffer.
  pub record DidRead (self peer : EndPoint) (s : k.State) (p : poller.State)
      (out : Option (EndPoint × k.State × poller.State)) : Type 0 where
    pub bytes : List ℕ
    pub buffer : Marshal
    pub state : k.State
    pub result : out ≡ (
        ask_to_write k poller (length bytes) peer p >>= λ p'.
        some (record peer { buf = buffer }, state, p'))
    pub valid : IsMarshal buffer
    pub grown : contents buffer ≡ contents peer.buf ++ bytes
    pub receiving : Received k self.fd bytes s state
    pub drained : Dry k self.fd state

  -- The first `count` bytes of the buffer were written to the end point, and the rest is kept.
  pub record DidWrite (self : EndPoint) (s : k.State) (p : poller.State)
      (out : Option (EndPoint × k.State × poller.State)) : Type 0 where
    pub count : ℕ
    pub buffer : Marshal
    pub state : k.State
    pub result : out ≡ (
        poller.update_mode
          (pollable self)
          (if ltb 0 (length (contents buffer)) then both_modes else read_mode)
          p
        >>= λ p'. some (record self { buf = buffer }, state, p'))
    pub shortened : Shortened count self.buf buffer
    pub sending : Sent k self.fd (take count (contents self.buf)) s state

  -- An enabled end point whose descriptor has finitely many bytes (an `int`) and that is given more
  -- rounds than that.
  pub handle_read_lem :
      (drains : Drains k) (fuel : ℕ) (self peer : EndPoint) (s : k.State) (p : poller.State)
      → self.enabled ≡ true
      → IsMarshal peer.buf
      → drains.pending s self.fd < int_limit
      → drains.pending s self.fd < fuel
      → DidRead self peer s p (handle_read k poller fuel self peer s p)
  unfolding handle_read
  handle_read_lem drains fuel self peer s p on v lim f =
      go (read_from_fd_lem k self.fd drains fuel peer.buf s v lim f)
    where
      go :
          (bs : List ℕ) × (m' : Marshal) × (s' : k.State) × (read_from_fd k fuel self.fd peer.buf s
              ≡ some (length bs, m', s'))
            × IsMarshal m'
            × (contents m' ≡ contents peer.buf ++ bs)
            × (m'.write_counter ≡ peer.buf.write_counter)
            × Received k self.fd bs s s'
            × Dry k self.fd s'
          → DidRead self peer s p (handle_read k poller fuel self peer s p)
      go (bs, m', s', e, v', g, c, r, d) = record {
        bytes = bs;
        buffer = m';
        state = s';
        result = rw (on, e, ◌>>=◌);
        valid = v';
        grown = g;
        receiving = r;
        drained = d;
      }

  -- An enabled end point whose buffer has an `int` length.
  pub handle_write_lem :
      (self : EndPoint) (s : k.State) (p : poller.State)
      → self.enabled ≡ true
      → IsMarshal self.buf
      → length (contents self.buf) < int_limit
      → DidWrite self s p (handle_write k poller self s p)
  unfolding handle_write
  handle_write_lem self s p on v lim = go (write_to_fd_lem k self.fd self.buf s v lim)
    where
      go :
          (n : ℕ) × (m' : Marshal) × (s' : k.State) × (write_to_fd k self.fd self.buf s
              ≡ some (n, m', s'))
            × (n ≤ length (contents self.buf))
            × Shortened n self.buf m'
            × Sent k self.fd (take n (contents self.buf)) s s'
          → DidWrite self s p (handle_write k poller self s p)
      go (n, m', s', e, le, sh, snt) =
          let short : length (contents m') < int_limit =
            omega (arith, ap length sh.rest, length-drop {0} n (contents self.buf)) in
          record {
            count = n;
            buffer = m';
            state = s';
            result = rw (on, e, content_size_gt_lem 0 m' sh.valid short, ◌>>=◌);
            shortened = sh;
            sending = snt;
          }
