-- ===== src/Socket.antt =====
-- src/b6b_socket.c: addresses and peers (here), sockets as streams (Ops), how they are opened (Open),
-- the procedures (Choose, Procs), and the byte orders (Order). What the system does with a socket is a parameter.
pub mod Ops
pub mod Open
pub mod Procs
pub mod Order
pub mod Choose
pub mod Safe
pub mod Transfer
use b6b.Base.{
  ℕ, ◌+◌, ◌*◌, ◌/◌, ◌%◌, Bool, true, false, ◌||◌, Option, none, some, ◌⊎◌, inl, inr, List, [], ◌∷◌,
  ◌==◌, if◌then◌else◌, Bytes, codes,
}
use b6b.Base.Int.{ℤ, pos}
use b6b.Store.{Ptr}
use b6b.Store.Monad.{M, ◌>>=◌, ◌>>◌, pure, get, int_new, list_new, str_copy}
use b6b.Object.{list_add}
use b6b.Object.Args.{c_str}
use b6b.Strm.{Got, StrmOps, Strm}
use b6b.Strm.Procs.{strm_fmt}
use b6b.Device.{return_strerror}
use b6b.Device.Fd.{Descriptor, would_block, fd_peeksz, fd_recv, fd_send, fd_on_read}

-- struct sockaddr_storage by its family: AF_INET and AF_INET6 with the address and the port as it
-- stands in memory, AF_UNIX with the path up to its NUL, and any other.
pub data Address : Type 0 where
  inet inet6 : Bytes → ℕ → Address
  unix : Bytes → Address
  unspec : Address

-- What the code calls on a socket, on top of what it calls on any descriptor.
pub record Sockets (D : Type 0) : Type 0 where
  -- recvfrom, and the address that it leaves.
  pub recvfrom : D → ℕ → (ℕ ⊎ Bytes) × Address × D
  -- accept4 with SOCK_NONBLOCK and SOCK_CLOEXEC
  pub accept4 : D → (ℕ ⊎ D × Address) × D
  pub unlink : D → Bytes → D
  pub inet_ntop : Address → Option Bytes
  pub emfile : ℕ
  -- where malloc puts the struct of a descriptor
  pub address : D → ℕ

-- struct b6b_socket; `fd` and what the system keeps for it are the device.
pub record Socket (D : Type 0) : Type 0 where
  pub peer : Address
  pub addr : Address
  pub dev : D

-- bswap_16, which is ntohs on x86-64
unfoldable pub bswap16 : ℕ → ℕ
bswap16 n = n % 256 * 256 + n / 256

module _ {D : Type 0} where
  -- The device moves, and the socket with it.
  abbrev pub at_dev : {A : Type 0} → Socket D → A × D → M (A × Socket D)
  at_dev s (a, d) = pure (a, record s { dev = d })

-- The address's list item and its port.
abbrev pub add_port : Ptr → Ptr → ℕ → M (Option Ptr)
add_port l o port = do list_add l o; p ← int_new (pos (bswap16 port)); list_add l p; pure (some l)

module _ {D : Type 0} (k : Sockets D) where
  abbrev pub printed : Option Bytes → M (Option Ptr)
  printed none = pure none
  printed (some t) = do o ← str_copy t; pure (some o)

  -- b6b_socket_stringify_address
  abbrev pub stringify_address : Address → M (Option Ptr)
  stringify_address (inet a port) = printed (k.inet_ntop (inet a port))
  stringify_address (inet6 a port) = printed (k.inet_ntop (inet6 a port))
  stringify_address _ = pure none

  abbrev pub with_port : Address → Option Ptr → M (Option Ptr)
  with_port a none = pure none
  with_port (inet a port) (some o) = do l ← list_new; add_port l o port
  with_port (inet6 a port) (some o) = do l ← list_new; add_port l o port
  with_port _ (some o) = pure none

  -- b6b_socket_inet_peer
  unfoldable pub socket_inet_peer : Socket D → M (Option Ptr × Socket D)
  unfolding str_copy list_new list_add int_new bswap16
  socket_inet_peer s = do o ← stringify_address s.peer; l ← with_port s.peer o; pure (l, s)

-- b6b_socket_file_peer
abbrev pub file_peer : Address → M (Option Ptr)
file_peer (unix path) = do o ← str_copy path; pure (some o)
file_peer _ = do st ← get; pure (some st.null)

unfoldable pub socket_file_peer : {D : Type 0} → Socket D → M (Option Ptr × Socket D)
unfolding str_copy
socket_file_peer s = do o ← file_peer s.peer; pure (o, s)
