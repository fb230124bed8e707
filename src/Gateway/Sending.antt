-- ===== src/Gateway/Sending.antt =====
-- `EndPoint::handle_write` on a descriptor that takes bytes whenever there are some.
use vncproxy.Prelude.{
  Option, false, ◌∙◌, ◌≡◌, ◌<◌, ap, refl, true, some, [], ◌>>=◌, length, arith, int_limit,
}
use vncproxy.Kernel.{Kernel}
use vncproxy.Marshal.Valid.{IsMarshal, contents}
use vncproxy.Marshal.Sizes.{content_size_gt_lem}
use vncproxy.Marshal.FdWrites.{Sent}
use vncproxy.Marshal.Emptied.{IsWilling, write_to_fd-empties}
use vncproxy.Poller.{Poller, read_mode}
use vncproxy.Gateway.{EndPoint, pollable, handle_write}

module _ (k : Kernel) (poller : Poller) where
  open poller use {update_mode}

  when_enabled :
      {A : Type 0} (self : EndPoint) (x y : Option A)
      → self.enabled ≡ true
      → (elim self.enabled [ false ↦ x | true ↦ y ]) ≡ y
  when_enabled self x y on = ground (arith, on)

  -- On an enabled end point whose buffer is in order and has an int length, with a descriptor that
  -- takes at least a byte of each buffer that is not empty and a PollMgr that takes the change to
  -- reading only, one handle_write sends the whole buffer in order, leaves it empty, and asks for
  -- reading only.
  pub handle_write-empties :
      (self : EndPoint) (s : k.State) (p p' : poller.State)
      → self.enabled ≡ true
      → IsMarshal self.buf
      → length (contents self.buf) < int_limit
      → IsWilling k self.fd
      → update_mode (pollable self) read_mode p ≡ some p'
      → (after : EndPoint) × (s' : k.State) × (handle_write k poller self s p
          ≡ some (after, s', p'))
        × (contents after.buf ≡ [])
        × Sent k self.fd (contents self.buf) s s'
  unfolding handle_write
  handle_write-empties self s p p' on v lim willing u =
      let (m', s', run, v', empty, sent) = write_to_fd-empties k self.fd willing self.buf s v lim in
      let size = content_size_gt_lem 0 m' v' (omega (arith, ap length empty)) in
      (
        record self { buf = m' },
        s',
        when_enabled self _ _ on ∙ rw (run, ◌>>=◌, size, empty, u) refl,
        empty,
        sent,
      )
