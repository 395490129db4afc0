-- ===== src/Socket/Choose.antt =====
-- src/b6b_socket.c: what the procedures that open sockets do, with their arguments known.
use b6b.Base.{
  ℕ, Bool, true, false, Option, none, some, ◌⊎◌, inl, inr, List, [], ◌∷◌, if◌then◌else◌, Bytes,
  codes, take,
}
use b6b.Base.Int.{ℤ, pos}
use b6b.Store.{Ptr, Res, err}
use b6b.Store.Monad.{M, ◌>>=◌, ◌>>◌, pure, list_new, return_obj}
use b6b.Object.{is_empty, list_add}
use b6b.Object.Args.{c_str}
use b6b.Strm.{StrmOps, Strm}
use b6b.Strm.Procs.{is_op}
use b6b.Device.{return_strerror}
use b6b.Device.Fd.{Descriptor}
use b6b.Socket.{unix, unspec, Sockets, Socket, stringify_address}
use b6b.Socket.Ops.{
  tcp_client_ops, udp_client_ops, un_stream_client_ops, un_dgram_client_ops, tcp_server_ops,
  udp_server_ops, un_stream_server_ops, un_dgram_server_ops, socket_new,
}
use b6b.Socket.Open.{
  sock_stream, sock_dgram, AddrInfo, Network, socket_resolve, socket_client_new, server_socket_new,
}

abbrev pub af_unix : ℕ
af_unix = 1

-- B6B_SERVER_DEF_BACKLOG
abbrev pub def_backlog : ℤ
def_backlog = pos 5

-- strncpy into `sun_path`, of 108 bytes, with a NUL in the last
abbrev pub un_info : ℕ → Bytes → AddrInfo
un_info socktype path = record {
  family = af_unix;
  socktype = socktype;
  protocol = 0;
  addr = unix (take 107 (c_str path));
}

module _ {D W : Type 0} (w : Network D W) (l : Descriptor D) (k : Sockets D) where
  -- `if (!o) return B6B_ERR; return b6b_return(interp, o);`, with the stream behind the object
  abbrev pub return_socket :
      Option (Ptr × Strm (Socket D)) × W → M (Res × Option (Strm (Socket D)) × W)
  return_socket (none, world) = pure (err, none, world)
  return_socket (some (o, s), world) = do res ← return_obj o; pure (res, some s, world)

  abbrev pub add_address : Ptr → M Bool → Option Ptr → M Bool
  add_address p rest none = pure false
  add_address p rest (some o) = do list_add p o; rest

  -- The loop of b6b_socket_proc_nslookup
  abbrev pub add_addresses : Ptr → List AddrInfo → M Bool
  add_addresses p [] = pure true
  add_addresses p (res ∷ rest) =
      stringify_address k res.addr >>= add_address p (add_addresses p rest)

  abbrev pub return_addresses : Ptr → Option (AddrInfo × List AddrInfo) × W → M (Res × W)
  return_addresses p (none, world) = pure (err, world)
  return_addresses p (some (res, rest), world) = do
    added ← add_addresses p (res ∷ rest)
    if added then (do r ← return_obj p; pure (r, world)) else pure (err, world)

  abbrev pub client_of :
      StrmOps (Socket D)
      → Bytes
      → Option (AddrInfo × List AddrInfo) × W
      → M (Res × Option (Strm (Socket D)) × W)
  client_of ops type (none, world) = pure (err, none, world)
  client_of ops type (some (res, rest), world) =
      socket_client_new w l k type ops world res >>= return_socket

  abbrev pub inet_client : W → Bytes → Bytes → Bytes → M (Res × Option (Strm (Socket D)) × W)
  inet_client world t h s =
      if is_empty h
      then pure (err, none, world)
      else if is_op t (codes "udp")
      then (socket_resolve w world h (some s) sock_dgram
          >>= client_of (udp_client_ops l k) (c_str t))
      else if is_op t (codes "tcp")
      then (socket_resolve w world h (some s) sock_stream
          >>= client_of (tcp_client_ops l k) (c_str t))
      else pure (err, none, world)

  abbrev pub un_client : W → Bytes → Bytes → M (Res × Option (Strm (Socket D)) × W)
  un_client world t p =
      if is_op t (codes "dgram")
      then (socket_client_new w l k (c_str t) (un_dgram_client_ops l k) world (un_info sock_dgram p)
          >>= return_socket)
      else if is_op t (codes "stream")
      then (socket_client_new w l k (c_str t) (un_stream_client_ops l k) world
            (un_info sock_stream p)
          >>= return_socket)
      else pure (err, none, world)

  abbrev pub inet_server_of :
      Bytes → ℤ → Option (AddrInfo × List AddrInfo) × W → M (Res × Option (Strm (Socket D)) × W)
  inet_server_of t backlog (none, world) = pure (err, none, world)
  inet_server_of t backlog (some (res, rest), world) =
      server_socket_new w l k (c_str t) (tcp_server_ops l k) (udp_server_ops l k) world res backlog
      >>= return_socket

  -- A backlog, where the call has one, is for a stream only.
  abbrev pub inet_server :
      W → Bytes → Bytes → Bytes → Option ℤ → M (Res × Option (Strm (Socket D)) × W)
  inet_server world t h s none =
      if is_op t (codes "udp")
      then (socket_resolve w world h (some s) sock_dgram >>= inet_server_of t def_backlog)
      else if is_op t (codes "tcp")
      then (socket_resolve w world h (some s) sock_stream >>= inet_server_of t def_backlog)
      else pure (err, none, world)
  inet_server world t h s (some backlog) =
      if is_op t (codes "tcp")
      then (socket_resolve w world h (some s) sock_stream >>= inet_server_of t backlog)
      else pure (err, none, world)

  abbrev pub un_server_new : W → Bytes → ℕ → Bytes → ℤ → M (Res × Option (Strm (Socket D)) × W)
  un_server_new world t socktype p backlog =
      server_socket_new w l k (c_str t) (un_stream_server_ops l k) (un_dgram_server_ops l k) world
        (un_info socktype p) backlog
      >>= return_socket

  abbrev pub un_server : W → Bytes → Bytes → Option ℤ → M (Res × Option (Strm (Socket D)) × W)
  un_server world t p none =
      if is_op t (codes "dgram")
      then un_server_new world t sock_dgram p (pos 0)
      else if is_op t (codes "stream")
      then un_server_new world t sock_stream p def_backlog
      else pure (err, none, world)
  un_server world t p (some backlog) =
      if is_op t (codes "stream")
      then un_server_new world t sock_stream p backlog
      else pure (err, none, world)

  abbrev pub paired :
      StrmOps (Socket D)
      → (ℕ ⊎ D × D) × W
      → M (Res × Option (Strm (Socket D) × Strm (Socket D)) × W)
  paired ops (inl e, world) = do res ← return_strerror (l.strerror e); pure (res, none, world)
  paired ops (inr (d0, d1), world) = do
    (a, s0) ← socket_new l k (k.address d0) d0 unspec unspec (codes "un.client") ops
    (b, s1) ← socket_new l k (k.address d1) d1 unspec unspec (codes "un.client") ops
    p ← list_new
    list_add p a
    list_add p b
    res ← return_obj p
    pure (res, some (s0, s1), world)

  abbrev pub un_pair : W → Bytes → M (Res × Option (Strm (Socket D) × Strm (Socket D)) × W)
  un_pair world t =
      if is_op t (codes "dgram")
      then paired (un_dgram_client_ops l k) (w.socketpair world sock_dgram)
      else if is_op t (codes "stream")
      then paired (un_stream_client_ops l k) (w.socketpair world sock_stream)
      else pure (err, none, world)
