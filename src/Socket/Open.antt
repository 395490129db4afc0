-- ===== src/Socket/Open.antt =====
-- src/b6b_socket.c: names and addresses, and how clients and servers are opened.
use b6b.Base.{
  ℕ, Bool, ◌||◌, Option, none, some, ◌⊎◌, inl, inr, List, [], ◌∷◌, ltb, ◌==◌, if◌then◌else◌, Bytes,
}
use b6b.Base.Int.{ℤ, pos, negsuc}
use b6b.Store.{Ptr}
use b6b.Store.Monad.{M, ◌>>=◌, pure, return_str}
use b6b.Object.{is_empty}
use b6b.Object.Args.{c_str}
use b6b.Strm.{StrmOps, Strm}
use b6b.Device.{return_strerror}
use b6b.Device.Fd.{Descriptor}
use b6b.Rand.{int_max}
use b6b.Socket.{Address, unspec, Sockets, Socket}
use b6b.Socket.Ops.{socket_new}

abbrev pub sock_stream : ℕ
sock_stream = 1

abbrev pub sock_dgram : ℕ
sock_dgram = 2

-- struct addrinfo, in what is read of it
pub record AddrInfo : Type 0 where
  pub family : ℕ
  pub socktype : ℕ
  pub protocol : ℕ
  pub addr : Address

-- What the code asks of the network and of the table of descriptors, which `W` is. A call that fails
-- gives the number that it leaves in errno.
pub record Network (D W : Type 0) : Type 0 where
  -- getaddrinfo, with AI_PASSIVE or without, the host, the service and the type of socket; where it
  -- fails, what gai_strerror says.
  pub getaddrinfo :
      W → Bool → Option Bytes → Option Bytes → ℕ → (Option Bytes ⊎ AddrInfo × List AddrInfo) × W
  -- socket, with SOCK_NONBLOCK and SOCK_CLOEXEC
  pub socket : W → ℕ → ℕ → ℕ → (ℕ ⊎ D) × W
  pub connect : W → D → Address → Option ℕ × W
  pub getsockname : W → D → ℕ ⊎ Address
  -- setsockopt, of SO_REUSEADDR
  pub set_reuse : W → D → Option ℕ × W
  pub bind : W → D → Address → Option ℕ × W
  pub listen : W → D → ℕ → Option ℕ × W
  -- socketpair(AF_UNIX, type, 0, fds)
  pub socketpair : W → ℕ → (ℕ ⊎ D × D) × W
  -- close, of a descriptor that no stream has
  pub close : W → D → W
  pub einprogress : ℕ

module _ {D W : Type 0} (w : Network D W) where
  abbrev pub resolved :
      (Option Bytes ⊎ AddrInfo × List AddrInfo) × W → M (Option (AddrInfo × List AddrInfo) × W)
  resolved (inl none, world) = pure (none, world)
  resolved (inl (some t), world) = do _ ← return_str t; pure (none, world)
  resolved (inr res, world) = pure (some res, world)

  -- The host, as getaddrinfo has it: a copy, or NULL if it is empty.
  abbrev pub host_of : Bytes → Option Bytes
  host_of [] = none
  host_of (b ∷ bs) = some (c_str (b ∷ bs))

  abbrev pub service_of : Option Bytes → Option Bytes
  service_of none = none
  service_of (some s) = some (c_str s)

  -- b6b_socket_resolve, with b6b_socket_do_getaddrinfo
  unfoldable pub socket_resolve :
      W → Bytes → Option Bytes → ℕ → M (Option (AddrInfo × List AddrInfo) × W)
  unfolding return_str
  socket_resolve world host service socktype =
      resolved (w.getaddrinfo world (is_empty host) (host_of host) (service_of service) socktype)

  module _ (l : Descriptor D) (k : Sockets D) where
    -- `b6b_return_strerror(interp, err); return NULL;`
    abbrev pub failed : W → ℕ → M (Option (Ptr × Strm (Socket D)) × W)
    failed world e = do _ ← return_strerror (l.strerror e); pure (none, world)

    -- The same, behind close(fd).
    abbrev pub refused : W → D → ℕ → M (Option (Ptr × Strm (Socket D)) × W)
    refused world d e = failed (w.close world d) e

    module _ (type : Bytes) (ops : StrmOps (Socket D)) where
      abbrev pub opened : W → D → Address → Address → M (Option (Ptr × Strm (Socket D)) × W)
      opened world d own peer = do
        o ← socket_new l k (k.address d) d own peer type ops
        pure (some o, world)

      abbrev pub named : W → D → Address → ℕ ⊎ Address → M (Option (Ptr × Strm (Socket D)) × W)
      named world d peer (inl e) = refused world d e
      named world d peer (inr own) = opened world d own peer

      abbrev pub connected : D → Address → Option ℕ × W → M (Option (Ptr × Strm (Socket D)) × W)
      connected d peer (none, world) = named world d peer (w.getsockname world d)
      connected d peer (some e, world) =
          if e == w.einprogress
          then named world d peer (w.getsockname world d)
          else refused world d e

      abbrev pub client_open : AddrInfo → (ℕ ⊎ D) × W → M (Option (Ptr × Strm (Socket D)) × W)
      client_open res (inl e, world) = failed world e
      client_open res (inr d, world) = connected d res.addr (w.connect world d res.addr)

      -- b6b_socket_client_new
      unfoldable pub socket_client_new : W → AddrInfo → M (Option (Ptr × Strm (Socket D)) × W)
      unfolding return_strerror socket_new
      socket_client_new world res =
          client_open res (w.socket world res.family res.socktype res.protocol)

      abbrev pub listening : D → Address → Option ℕ × W → M (Option (Ptr × Strm (Socket D)) × W)
      listening d own (none, world) = opened world d own unspec
      listening d own (some e, world) = refused world d e

      abbrev pub bound : AddrInfo → ℕ → D → Option ℕ × W → M (Option (Ptr × Strm (Socket D)) × W)
      bound res backlog d (some e, world) = refused world d e
      bound res backlog d (none, world) =
          if res.socktype == sock_stream
          then listening d res.addr (w.listen world d backlog)
          else opened world d res.addr unspec

      abbrev pub reusing : AddrInfo → ℕ → D → Option ℕ × W → M (Option (Ptr × Strm (Socket D)) × W)
      reusing res backlog d (some e, world) = refused world d e
      reusing res backlog d (none, world) = bound res backlog d (w.bind world d res.addr)

      abbrev pub server_open : AddrInfo → ℕ → (ℕ ⊎ D) × W → M (Option (Ptr × Strm (Socket D)) × W)
      server_open res backlog (inl e, world) = failed world e
      server_open res backlog (inr d, world) = reusing res backlog d (w.set_reuse world d)

    -- The backlog of a stream, as an int that listen takes.
    abbrev pub backlog_of : ℤ → Option ℕ
    backlog_of (negsuc n) = none
    backlog_of (pos n) = if n == 0 || ltb int_max n then none else some n

    abbrev pub stream_server :
        Bytes
        → StrmOps (Socket D)
        → W
        → AddrInfo
        → Option ℕ
        → M (Option (Ptr × Strm (Socket D)) × W)
    stream_server type ops world res none = pure (none, world)
    stream_server type ops world res (some n) =
        server_open type ops res n (w.socket world res.family res.socktype res.protocol)

    -- b6b_server_socket_new
    unfoldable pub server_socket_new :
        Bytes
        → StrmOps (Socket D)
        → StrmOps (Socket D)
        → W
        → AddrInfo
        → ℤ
        → M (Option (Ptr × Strm (Socket D)) × W)
    unfolding return_strerror socket_new
    server_socket_new type stream_ops dgram_ops world res backlog =
        if res.socktype == sock_dgram
        then server_open type dgram_ops res 0 (w.socket world res.family res.socktype res.protocol)
        else stream_server type stream_ops world res (backlog_of backlog)
