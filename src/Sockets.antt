-- ===== src/Sockets.antt =====
-- `set_nonblocking` of utils.cc, and `connect_to` and `bind_on` of vncproxy.cc.
pub mod Descriptors
pub mod Refused
pub mod Taken
mod Tests
use vncproxy.Prelude.{
  ℕ, ◌+◌, ◌-◌, ◌/◌, ◌%◌, ◌==◌, ◌&&◌, Bool, true, false, Option, none, some, List, [], ◌∷◌,
  if◌then◌else◌,
}
use vncproxy.Auth.{same_bytes}
use vncproxy.System.{
  System, Act, ◌>>=◌, ◌>>◌, pure, verify, close, do_get_flags, do_set_flags, do_lookup, do_socket,
  do_connect, do_bind, do_listen,
}

-- O_NONBLOCK of Linux
abbrev pub nonblock : ℕ
nonblock = 2048

abbrev pub is_nonblock : ℕ → Bool
is_nonblock flags = flags / nonblock % 2 == 1

-- `ret | O_NONBLOCK` and `ret & ~O_NONBLOCK`
unfoldable pub with_nonblock : Bool → ℕ → ℕ
with_nonblock true flags = if is_nonblock flags then flags else flags + nonblock
with_nonblock false flags = if is_nonblock flags then flags - nonblock else flags

-- `fcntl(fd, F_SETFL, ...)`, where F_GETFL gave the flags
unfoldable pub change_flags : System → ℕ → Bool → Option ℕ → Act Bool
change_flags sys fd nonblocking none = pure false
change_flags sys fd nonblocking (some ret) = do_set_flags sys fd (with_nonblock nonblocking ret)

-- Whether the result is 0.
unfoldable pub set_nonblocking : System → ℕ → Bool → Act Bool
set_nonblocking sys fd nonblocking = do
  flags ← do_get_flags sys fd
  change_flags sys fd nonblocking flags

-- `verify(set_nonblocking(fd, nonblocking) == 0)`
unfoldable pub must_set : System → ℕ → Bool → Act (Unit {0})
must_set sys fd nonblocking = do ok ← set_nonblocking sys fd nonblocking; verify ok

-- `addr_str.find(":")`, `substr(0, idx)` and `substr(idx + 1)`
unfoldable pub split_colon : List ℕ → Option (List ℕ × List ℕ)
split_colon [] = none
split_colon (c ∷ cs) =
    let rest = split_colon cs in
    if c == 58 then some ([], cs) else elim rest [ none ↦ none | some p ↦ some (c ∷ p.0, p.1) ]

-- `break` with the socket that took, or `close` and on to the next address
unfoldable pub keep_or : Bool → ℕ → Act (Option ℕ) → Act (Option ℕ)
keep_or true fd next = pure (some fd)
keep_or false fd next = close fd >> next

module _ (sys : System) where
  -- A round of the loop of `connect_to`, after `socket`; `next` is what follows it.
  unfoldable pub try_connect : ℕ → Option ℕ → Act (Option ℕ) → Act (Option ℕ)
  try_connect addr none next = next
  try_connect addr (some fd) next = do ok ← do_connect sys fd addr; keep_or ok fd next

  -- The loop of `connect_to` over the addresses.
  unfoldable pub connect_first : List ℕ → Act (Option ℕ)
  connect_first [] = pure none
  connect_first (addr ∷ addrs) = do
    sock ← do_socket sys addr
    try_connect addr sock (connect_first addrs)

  unfoldable pub connect_any : Option (List ℕ) → Act (Option ℕ)
  connect_any none = pure none
  connect_any (some addrs) = connect_first addrs

  unfoldable pub connect_parts : Option (List ℕ × List ℕ) → Act (Option ℕ)
  connect_parts none = pure none
  connect_parts (some p) = do result ← do_lookup sys (some p.0) p.1; connect_any result

  -- `none` is -1.
  unfoldable pub connect_to : List ℕ → Act (Option ℕ)
  connect_to addr = connect_parts (split_colon addr)

  -- A round of the loop of `bind_on`, after `socket`
  unfoldable pub try_bind : ℕ → Option ℕ → Act (Option ℕ) → Act (Option ℕ)
  try_bind addr none next = next
  try_bind addr (some fd) next = do ok ← do_bind sys fd addr; keep_or ok fd next

  -- The loop of `bind_on` over the addresses: `server_sock` after it.
  unfoldable pub bind_first : List ℕ → Act (Option ℕ)
  bind_first [] = pure none
  bind_first (addr ∷ addrs) = do sock ← do_socket sys addr; try_bind addr sock (bind_first addrs)

  -- `(host == "0.0.0.0") ? NULL : host.c_str()`
  unfoldable pub passive_host : List ℕ → Option (List ℕ)
  passive_host host =
      if same_bytes host (48 ∷ 46 ∷ 48 ∷ 46 ∷ 48 ∷ 46 ∷ 48 ∷ []) then none else some host

  -- `verify(server_sock >= 0)`; the test `rp == NULL` before it is on the argument, which is not
  -- NULL.
  unfoldable pub serve : Option ℕ → Act (Option ℕ)
  serve none = verify false >> pure none
  serve (some fd) = do ok ← do_listen sys fd; verify ok; pure (some fd)

  unfoldable pub bind_any : Option (List ℕ) → Act (Option ℕ)
  bind_any none = pure none
  bind_any (some addrs) = do sock ← bind_first addrs; serve sock

  unfoldable pub bind_parts : Option (List ℕ × List ℕ) → Act (Option ℕ)
  bind_parts none = pure none
  bind_parts (some p) = do result ← do_lookup sys (passive_host p.0) p.1; bind_any result

  unfoldable pub bind_on : List ℕ → Act (Option ℕ)
  bind_on addr = bind_parts (split_colon addr)
