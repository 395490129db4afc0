-- ===== src/Socket/Order.antt =====
-- src/b6b_socket.c: the byte orders of `htons`, `ntohs`, `htonl` and `ntohl`.
pub mod Swap
use b6b.Base.{
  ℕ, ◌+◌, ◌*◌, ◌/◌, ◌%◌, ◌^◌, ◌-◌, Bool, true, false, ◌&&◌, Option, none, some, ◌⊎◌, inl, inr, List,
  [], ◌∷◌, ltb, ◌==◌, if◌then◌else◌, Bytes, codes, take,
}
use b6b.Base.Int.{ℤ, pos, negsuc}
use b6b.CLib.{CLib}
use b6b.Store.{Ptr, Obj, Res, err}
use b6b.Store.Monad.{M, ◌>>=◌, ◌>>◌, pure, crash, load, list_new, return_obj, return_int}
use b6b.Object.{is_empty, list_add}
use b6b.Object.Args.{Args, c_str, get_args}
use b6b.Strm.{StrmOps, Strm}
use b6b.Strm.Procs.{is_op}
use b6b.Device.{return_strerror}
use b6b.Device.Fd.{Descriptor}
use b6b.Socket.{Address, unix, unspec, Sockets, Socket, bswap16, stringify_address}
use b6b.Socket.Ops.{
  tcp_client_ops, udp_client_ops, un_stream_client_ops, un_dgram_client_ops, tcp_server_ops,
  udp_server_ops, un_stream_server_ops, un_dgram_server_ops, socket_new,
}
use b6b.Socket.Open.{
  sock_stream, sock_dgram, AddrInfo, Network, socket_resolve, socket_client_new, server_socket_new,
}

unfoldable pub bswap32 : ℕ → ℕ
bswap32 n = n % 256 * 2 ^ 24 + n / 256 % 256 * 2 ^ 16 + n / 2 ^ 16 % 256 * 256 + n / 2 ^ 24

-- The checked number, in the other order of bytes.
abbrev pub swapped : ℕ → (ℕ → ℕ) → ℤ → M Res
swapped max swap (negsuc n) = pure err
swapped max swap (pos n) = if ltb max n then pure err else return_int (pos (swap n))

module _ ⦃c : CLib⦄ where
  abbrev pub swap_args : ℕ → (ℕ → ℕ) → Args → M Res
  swap_args max swap a = if a.argc == 0 then pure err else one_arg a.out
    where
      one_arg : List Ptr → M Res
      one_arg (p ∷ []) = do o ← load p; swapped max swap o.i
      one_arg _ = crash

  -- b6b_socket_proc_bswap16
  unfoldable pub socket_proc_bswap16 : ℕ → Ptr → M Res
  unfolding get_args load return_int bswap16
  socket_proc_bswap16 n args = do
    a ← get_args n args (codes "oi") (false ∷ true ∷ [])
    swap_args (2 ^ 16 - 1) bswap16 a

  -- b6b_socket_proc_bswap32
  unfoldable pub socket_proc_bswap32 : ℕ → Ptr → M Res
  unfolding get_args load return_int bswap32
  socket_proc_bswap32 n args = do
    a ← get_args n args (codes "oi") (false ∷ true ∷ [])
    swap_args (2 ^ 32 - 1) bswap32 a
