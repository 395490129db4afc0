-- ===== src/Socket/Ops.antt =====
-- src/b6b_socket.c: the operations of clients and servers, as streams call them.
use b6b.Base.{
  ℕ, false, ◌||◌, Option, none, some, ◌⊎◌, inl, inr, [], ◌==◌, if◌then◌else◌, Bytes, codes,
}
use b6b.Base.Int.{ℤ, pos}
use b6b.Store.{Ptr}
use b6b.Store.Monad.{M, ◌>>=◌, pure}
use b6b.Strm.{Got, StrmOps, Strm}
use b6b.Strm.Procs.{strm_fmt}
use b6b.Device.{return_strerror}
use b6b.Device.Fd.{Descriptor, would_block, fd_peeksz, fd_recv, fd_send, fd_on_read}
use b6b.Socket.{Address, unix, unspec, Sockets, Socket, at_dev, socket_inet_peer, socket_file_peer}

module _ {D : Type 0} (l : Descriptor D) (k : Sockets D) where
  -- b6b_socket_peeksz
  unfoldable pub socket_peeksz : Socket D → M (Option ℕ × Socket D)
  unfolding fd_peeksz
  socket_peeksz s = fd_peeksz ⦃l = l⦄ s.dev >>= at_dev s

  -- b6b_socket_read
  unfoldable pub socket_read : Socket D → ℕ → M (Option Got × Socket D)
  unfolding fd_recv
  socket_read s len = fd_recv ⦃l = l⦄ s.dev len >>= at_dev s

  -- `*again = 0`
  abbrev pub once : Option Got → Option Got
  once none = none
  once (some g) = some (record g { again = false })

  abbrev pub received : Socket D → (ℕ ⊎ Bytes) × Address × D → M (Option Got × Socket D)
  received s (r, peer, d) = do
    (g, d') ← fd_on_read ⦃l = l⦄ (r, d)
    pure (once g, record s { peer = peer; dev = d' })

  -- b6b_socket_readfrom
  unfoldable pub socket_readfrom : Socket D → ℕ → M (Option Got × Socket D)
  unfolding fd_on_read
  socket_readfrom s len = received s (k.recvfrom s.dev len)

  -- b6b_socket_write
  unfoldable pub socket_write : Socket D → Bytes → M (Option ℕ × Socket D)
  unfolding fd_send
  socket_write s buf = fd_send ⦃l = l⦄ s.dev buf >>= at_dev s

  -- b6b_socket_fd
  abbrev pub socket_fd : Socket D → ℤ
  socket_fd s = pos (l.number s.dev)

  -- b6b_socket_close
  abbrev pub socket_close : Socket D → Socket D
  socket_close s = record s { dev = l.close s.dev }

  abbrev pub path_of : Address → Bytes
  path_of (unix path) = path
  path_of _ = []

  -- b6b_socket_close_unlink
  abbrev pub socket_close_unlink : Socket D → Socket D
  socket_close_unlink s = record s { dev = k.unlink (l.close s.dev) (path_of s.addr) }

  -- b6b_tcp_client_ops, b6b_udp_client_ops, b6b_un_stream_client_ops and b6b_un_dgram_client_ops: by
  -- how they read, and what their peer is.
  abbrev pub client_ops :
      (Socket D → ℕ → M (Option Got × Socket D))
      → (Socket D → M (Option Ptr × Socket D))
      → StrmOps (Socket D)
  client_ops read peer = record {
    peeksz = some socket_peeksz;
    read = some read;
    write = some socket_write;
    peer = some peer;
    accept = none;
    fd = socket_fd;
    close = some socket_close;
  }

  unfoldable pub tcp_client_ops : StrmOps (Socket D)
  unfolding socket_peeksz socket_read socket_write socket_inet_peer
  tcp_client_ops = client_ops socket_read (socket_inet_peer k)

  unfoldable pub udp_client_ops : StrmOps (Socket D)
  unfolding socket_peeksz socket_readfrom socket_write socket_inet_peer
  udp_client_ops = client_ops socket_readfrom (socket_inet_peer k)

  unfoldable pub un_stream_client_ops : StrmOps (Socket D)
  unfolding socket_peeksz socket_read socket_write socket_file_peer
  un_stream_client_ops = client_ops socket_read socket_file_peer

  unfoldable pub un_dgram_client_ops : StrmOps (Socket D)
  unfolding socket_peeksz socket_readfrom socket_write socket_file_peer
  un_dgram_client_ops = client_ops socket_readfrom socket_file_peer

  -- b6b_socket_new; `addr` is where the struct was allocated. No address is longer than the struct
  -- has room for.
  unfoldable pub socket_new :
      ℕ → D → Address → Address → Bytes → StrmOps (Socket D) → M (Ptr × Strm (Socket D))
  unfolding strm_fmt
  socket_new addr d own peer type ops =
      strm_fmt ops (record { peer = peer; addr = own; dev = d }) addr type

  abbrev pub accepted_socket :
      StrmOps (Socket D)
      → Bytes
      → Socket D
      → (ℕ ⊎ D × Address) × D
      → M (Option (Option Ptr) × Socket D)
  accepted_socket ops type s (inl e, d) =
      if would_block l e || e == k.emfile
      then pure (some none, record s { dev = d })
      else (do _ ← return_strerror (l.strerror e); pure (none, record s { dev = d }))
  accepted_socket ops type s (inr (d', peer), d) = do
    (o, new) ← socket_new (k.address d') d' unspec peer type ops
    pure (some (some o), record s { dev = d })

  -- b6b_socket_stream_accept; of the new stream, its object is kept.
  unfoldable pub socket_stream_accept :
      StrmOps (Socket D) → Bytes → Socket D → M (Option (Option Ptr) × Socket D)
  unfolding return_strerror socket_new
  socket_stream_accept ops type s = accepted_socket ops type s (k.accept4 s.dev)

  -- b6b_tcp_server_ops and b6b_un_stream_server_ops, with b6b_socket_inet_accept and
  -- b6b_socket_un_accept
  unfoldable pub tcp_server_ops : StrmOps (Socket D)
  unfolding socket_stream_accept tcp_client_ops
  tcp_server_ops = record {
    peeksz = none;
    read = none;
    write = none;
    peer = none;
    accept = some (socket_stream_accept tcp_client_ops (codes "tcp"));
    fd = socket_fd;
    close = some socket_close;
  }

  unfoldable pub un_stream_server_ops : StrmOps (Socket D)
  unfolding socket_stream_accept un_stream_client_ops
  un_stream_server_ops = record {
    peeksz = none;
    read = none;
    write = none;
    peer = none;
    accept = some (socket_stream_accept un_stream_client_ops (codes "stream"));
    fd = socket_fd;
    close = some socket_close_unlink;
  }

  -- b6b_udp_server_ops and b6b_un_dgram_server_ops
  abbrev pub dgram_server_ops :
      (Socket D → M (Option Ptr × Socket D)) → (Socket D → Socket D) → StrmOps (Socket D)
  dgram_server_ops peer close = record {
    peeksz = some socket_peeksz;
    read = some socket_readfrom;
    write = none;
    peer = some peer;
    accept = none;
    fd = socket_fd;
    close = some close;
  }

  unfoldable pub udp_server_ops : StrmOps (Socket D)
  unfolding socket_peeksz socket_readfrom socket_inet_peer
  udp_server_ops = dgram_server_ops (socket_inet_peer k) socket_close

  unfoldable pub un_dgram_server_ops : StrmOps (Socket D)
  unfolding socket_peeksz socket_readfrom socket_file_peer
  un_dgram_server_ops = dgram_server_ops socket_file_peer socket_close_unlink
