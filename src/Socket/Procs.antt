-- ===== src/Socket/Procs.antt =====
-- src/b6b_socket.c: the procedures that open sockets, and `nslookup`.
use b6b.Base.{ℕ, true, false, Option, none, some, List, [], ◌∷◌, ltb, ◌==◌, if◌then◌else◌, codes}
use b6b.CLib.{CLib}
use b6b.Store.{Ptr, Res, err}
use b6b.Store.Monad.{M, ◌>>=◌, pure, crash, load, list_new, return_obj}
use b6b.Object.{list_add}
use b6b.Object.Args.{get_args}
use b6b.Strm.{Strm}
use b6b.Device.{return_strerror}
use b6b.Device.Fd.{Descriptor}
use b6b.Socket.{Sockets, Socket}
use b6b.Socket.Ops.{
  tcp_client_ops, udp_client_ops, un_stream_client_ops, un_dgram_client_ops, tcp_server_ops,
  udp_server_ops, un_stream_server_ops, un_dgram_server_ops, socket_new,
}
use b6b.Socket.Open.{sock_dgram, Network, socket_resolve, socket_client_new, server_socket_new}
use b6b.Socket.Choose.{return_addresses, inet_client, un_client, inet_server, un_server, un_pair}

module _ {D W : Type 0} (w : Network D W) (l : Descriptor D) (k : Sockets D) where
  module _ ⦃c : CLib⦄ where
    abbrev pub nslookup_args : W → List Ptr → M (Res × W)
    nslookup_args world (h ∷ []) = do
      x ← load h
      p ← list_new
      res ← socket_resolve w world x.s none sock_dgram
      return_addresses w l k p res
    nslookup_args world _ = crash

    abbrev pub inet_client_args : W → List Ptr → M (Res × Option (Strm (Socket D)) × W)
    inet_client_args world (t ∷ h ∷ s ∷ []) = do
      x ← load t
      y ← load h
      z ← load s
      inet_client w l k world x.s y.s z.s
    inet_client_args world _ = crash

    abbrev pub un_client_args : W → List Ptr → M (Res × Option (Strm (Socket D)) × W)
    un_client_args world (t ∷ p ∷ []) = do x ← load t; y ← load p; un_client w l k world x.s y.s
    un_client_args world _ = crash

    abbrev pub inet_server_args : W → List Ptr → M (Res × Option (Strm (Socket D)) × W)
    inet_server_args world (t ∷ h ∷ s ∷ []) = do
      x ← load t
      y ← load h
      z ← load s
      inet_server w l k world x.s y.s z.s none
    inet_server_args world (t ∷ h ∷ s ∷ b ∷ []) = do
      x ← load t
      y ← load h
      z ← load s
      u ← load b
      inet_server w l k world x.s y.s z.s (some u.i)
    inet_server_args world _ = crash

    abbrev pub un_server_args : W → List Ptr → M (Res × Option (Strm (Socket D)) × W)
    un_server_args world (t ∷ p ∷ []) = do
      x ← load t
      y ← load p
      un_server w l k world x.s y.s none
    un_server_args world (t ∷ p ∷ b ∷ []) = do
      x ← load t
      y ← load p
      u ← load b
      un_server w l k world x.s y.s (some u.i)
    un_server_args world _ = crash

    abbrev pub un_pair_args :
        W → List Ptr → M (Res × Option (Strm (Socket D) × Strm (Socket D)) × W)
    un_pair_args world (t ∷ []) = do x ← load t; un_pair w l k world x.s
    un_pair_args world _ = crash

    -- b6b_socket_proc_nslookup
    unfoldable pub socket_proc_nslookup : ℕ → W → Ptr → M (Res × W)
    unfolding get_args load list_new list_add return_obj socket_resolve
    socket_proc_nslookup n world args = do
      a ← get_args n args (codes "os") (false ∷ true ∷ [])
      if a.argc == 0 then pure (err, world) else nslookup_args world a.out

    -- b6b_socket_proc_inet_client
    unfoldable pub socket_proc_inet_client : ℕ → W → Ptr → M (Res × Option (Strm (Socket D)) × W)
    unfolding get_args load return_obj socket_resolve socket_client_new tcp_client_ops
        udp_client_ops
    socket_proc_inet_client n world args = do
      a ← get_args n args (codes "osss") (false ∷ true ∷ true ∷ true ∷ [])
      if a.argc == 0 then pure (err, none, world) else inet_client_args world a.out

    -- b6b_socket_proc_un_client
    unfoldable pub socket_proc_un_client : ℕ → W → Ptr → M (Res × Option (Strm (Socket D)) × W)
    unfolding get_args load return_obj socket_client_new un_stream_client_ops un_dgram_client_ops
    socket_proc_un_client n world args = do
      a ← get_args n args (codes "oss") (false ∷ true ∷ true ∷ [])
      if a.argc == 0 then pure (err, none, world) else un_client_args world a.out

    -- b6b_socket_proc_inet_server
    unfoldable pub socket_proc_inet_server : ℕ → W → Ptr → M (Res × Option (Strm (Socket D)) × W)
    unfolding get_args load return_obj socket_resolve server_socket_new tcp_server_ops
        udp_server_ops
    socket_proc_inet_server n world args = do
      a ← get_args n args (codes "osss|i") (false ∷ true ∷ true ∷ true ∷ true ∷ [])
      if ltb a.argc 4 then pure (err, none, world) else inet_server_args world a.out

    -- b6b_socket_proc_un_server
    unfoldable pub socket_proc_un_server : ℕ → W → Ptr → M (Res × Option (Strm (Socket D)) × W)
    unfolding get_args load return_obj server_socket_new un_stream_server_ops un_dgram_server_ops
    socket_proc_un_server n world args = do
      a ← get_args n args (codes "oss|i") (false ∷ true ∷ true ∷ true ∷ [])
      if ltb a.argc 3 then pure (err, none, world) else un_server_args world a.out

    -- b6b_socket_proc_un_pair
    unfoldable pub socket_proc_un_pair :
        ℕ → W → Ptr → M (Res × Option (Strm (Socket D) × Strm (Socket D)) × W)
    unfolding get_args load return_strerror socket_new list_new list_add return_obj
    socket_proc_un_pair n world args = do
      a ← get_args n args (codes "os") (false ∷ true ∷ [])
      if a.argc == 0 then pure (err, none, world) else un_pair_args world a.out
