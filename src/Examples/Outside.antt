-- ===== src/Examples/Outside.antt =====
-- The theorem on opening sockets at concrete inputs.
use b6b.Base.{
  ◌&&◌, ℕ, ◌≡◌, refl, true, false, Bool, ◌||◌, inl, inr, none, some, [], length, codes, arith, ◌==◌,
  if◌then◌else◌,
}
use b6b.Base.Int.{pos}
use b6b.Device.Fd.{Descriptor}
use b6b.Socket.{unspec, Sockets}
use b6b.Socket.Ops.{un_stream_client_ops, un_dgram_server_ops}
use b6b.Socket.Open.{Network, socket_client_new, server_socket_new, sock_stream}
use b6b.Socket.Choose.{un_info}
use b6b.Socket.Safe
use b6b.Socket.Safe.{Lands, socket_new_safe}
use b6b.Interp.Boot.{empty}

-- A system with room for one socket, at number 3, which is `world`; a server cannot listen.
abbrev one_fd : Descriptor (Unit {0})
one_fd = record {
  fionread = λ d. none;
  read = λ d len. (inr [], d);
  recv = λ d len. (inr [], d);
  write = λ d buf. (inr (length buf), d);
  send = λ d buf. (inr (length buf), d);
  close = λ d. d;
  number = λ d. 3;
  eagain = 11;
  ewouldblock = 11;
  strerror = λ e. none;
  strtoull = λ s. none;
  eventfd = λ n. inl 24;
}

abbrev one_socket : Sockets (Unit {0})
one_socket = record {
  recvfrom = λ d len. (inr [], unspec, d);
  accept4 = λ d. (inl 24, d);
  unlink = λ d path. d;
  inet_ntop = λ a. none;
  emfile = 24;
  address = λ d. 4096;
}

abbrev room : Network (Unit {0}) Bool
room = record {
  getaddrinfo = λ world passive host service type. (inl none, world);
  socket = λ world f t p. if world then (inl 24, true) else (inr tt, true);
  connect = λ world d a. (none, world);
  getsockname = λ world d. inr unspec;
  set_reuse = λ world d. (none, world);
  bind = λ world d a. (none, world);
  listen = λ world d n. (some 98, world);
  socketpair = λ world type. (inl 24, world);
  close = λ world d. false;
  einprogress = 115;
}

abbrev has_number : Bool → ℕ → Bool
has_number world m = m == 3 && world

room-opens :
    (world world' : Bool)
    → room.socket world 0 0 0 ≡ (inr tt, world')
    → (has_number world 3 ≡ false)
      × ((m : ℕ) → has_number world' m ≡ (m == 3 || has_number world m))
room-opens true world' q = absurd (cc)
room-opens false false q = absurd (cc)
room-opens false true q = (refl, λ m. ground arith)

room-opens_none :
    (world world' : Bool) (e : ℕ)
    → room.socket world 0 0 0 ≡ (inl e, world')
    → (m : ℕ) → has_number world' m ≡ has_number world m
room-opens_none true true e q m = refl
room-opens_none true false e q m = absurd (cc)
room-opens_none false world' e q m = absurd (cc)

room-frees :
    (world : Bool) (m : ℕ) → has_number false m ≡ (if m == 3 then false else has_number world m)
room-frees true m = ground arith
room-frees false m = ground arith

room-IsTable : Safe.IsTable room one_fd has_number
room-IsTable = record {
  frees = λ world d m. room-frees world m;
  opens = λ world world' f t p d q. room-opens world world' q;
  opens_none = λ world world' f t p e q m. room-opens_none world world' e q m;
  connects = λ world d a m. refl;
  reuses = λ world d m. refl;
  binds = λ world d a m. refl;
  listens = λ world d n m. refl;
}

socket_new_safe_example :
    Lands room one_fd has_number false (
      socket_client_new room one_fd one_socket
        (codes "stream")
        (un_stream_client_ops one_fd one_socket)
        false
        (un_info sock_stream (codes "/run/x"))
        empty)
    × Lands room one_fd has_number false (
        server_socket_new room one_fd one_socket
          (codes "stream")
          (un_stream_client_ops one_fd one_socket)
          (un_dgram_server_ops one_fd one_socket)
          false
          (un_info sock_stream (codes "/run/x"))
          (pos 5)
          empty)
socket_new_safe_example =
    socket_new_safe room one_fd has_number room-IsTable one_socket (codes "stream")
      (un_stream_client_ops one_fd one_socket) (un_dgram_server_ops one_fd one_socket) false
      (un_info sock_stream (codes "/run/x")) (pos 5) empty
