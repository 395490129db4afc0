-- ===== src/Socket/Safe.antt =====
-- src/b6b_socket.c: the descriptors that are open behind b6b_socket_client_new and
-- b6b_server_socket_new.
use b6b.Base.{
  ◌∙◌, sym, ==_iff, ℕ, Bool, false, ◌||◌, Option, none, some, ◌⊎◌, inl, inr, ◌==◌, if◌then◌else◌,
  Bytes, ◌≡◌, refl, Bool-cases,
}
use b6b.Base.Int.{ℤ}
use b6b.Store.{Ptr, State}
use b6b.Store.Monad.{Outcome, M, done, ◌>>=◌, pure}
use b6b.Strm.{StrmOps, Strm}
use b6b.Device.{return_strerror}
use b6b.Device.Fd.{Descriptor}
use b6b.Socket.{Address, unspec, Sockets, Socket}
use b6b.Socket.Ops.{socket_new}
use b6b.Socket.Open.{
  AddrInfo, Network, failed, refused, opened, named, connected, client_open, socket_client_new,
  listening, bound, reusing, server_open, backlog_of, stream_server, server_socket_new, sock_dgram,
  sock_stream,
}

module _ {D W : Type 0} (w : Network D W) (l : Descriptor D) (is_open : W → ℕ → Bool) where
  -- The table of descriptors, as the system documents it: socket opens a number that was free, close
  -- frees its number, and the other calls leave the table.
  pub record IsTable : Type 0 where
    pub frees :
        (world : W) (d : D) (m : ℕ)
        → is_open (w.close world d) m ≡ (if m == l.number d then false else is_open world m)
    pub opens :
        (world world' : W) (f t p : ℕ) (d : D)
        → w.socket world f t p ≡ (inr d, world')
        → (is_open world (l.number d) ≡ false)
          × ((m : ℕ) → is_open world' m ≡ (m == l.number d || is_open world m))
    pub opens_none :
        (world world' : W) (f t p e : ℕ)
        → w.socket world f t p ≡ (inl e, world')
        → (m : ℕ) → is_open world' m ≡ is_open world m
    pub connects :
        (world : W) (d : D) (a : Address) (m : ℕ)
        → is_open (w.connect world d a).1 m ≡ is_open world m
    pub reuses : (world : W) (d : D) (m : ℕ) → is_open (w.set_reuse world d).1 m ≡ is_open world m
    pub binds :
        (world : W) (d : D) (a : Address) (m : ℕ) → is_open (w.bind world d a).1 m ≡ is_open world m
    pub listens : (world : W) (d : D) (n m : ℕ) → is_open (w.listen world d n).1 m ≡ is_open world m

  -- `world'` has the descriptors of `world`, and `d`, which `world` has not.
  unfoldable pub Adds : W → D → W → Type 0
  Adds world d world' =
      (is_open world (l.number d) ≡ false)
      × ((m : ℕ) → is_open world' m ≡ (m == l.number d || is_open world m))

  -- Without a stream the table is as before; with one it has the stream's descriptor more.
  unfoldable pub Fits : W → Option (Ptr × Strm (Socket D)) × W → Type 0
  unfolding Adds
  Fits world (none, world') = (m : ℕ) → is_open world' m ≡ is_open world m
  Fits world (some (o, s), world') = Adds world s.priv.dev world'

  -- A call returned, with a result that fits.
  abbrev pub Lands : W → Outcome (Option (Ptr × Strm (Socket D)) × W) → Type 0
  Lands world o =
      (r : Option (Ptr × Strm (Socket D)) × W) × (st' : State) × (o ≡ done r st') × Fits world r

  abbrev Accounts : W → M (Option (Ptr × Strm (Socket D)) × W) → Type 0
  Accounts world run = (st : State) → Lands world (run st)

  module _ (h : IsTable) (k : Sockets D) where
    return_strerror-Accounts :
        (world0 world : W) (t : Option Bytes)
        → ((m : ℕ) → is_open world m ≡ is_open world0 m)
        → Accounts world0 (do _ ← return_strerror t; pure (none, world))
    unfolding return_strerror Fits
    return_strerror-Accounts world0 world none same st = (_, _, refl, same)
    return_strerror-Accounts world0 world (some t) same st = (_, _, refl, same)

    failed-Accounts :
        (world0 world : W) (e : ℕ)
        → ((m : ℕ) → is_open world m ≡ is_open world0 m)
        → Accounts world0 (failed w l k world e)
    failed-Accounts world0 world e = return_strerror-Accounts world0 world (l.strerror e)

    closed-same :
        (world0 world : W) (d : D)
        → Adds world0 d world
        → (m : ℕ) → is_open (w.close world d) m ≡ is_open world0 m
    unfolding Adds
    closed-same world0 world d adds m = h.frees world d m ∙ elim (Bool-cases (m == l.number d)) [
      | inl y ↦ rw (y, (==_iff m (l.number d)).0 y) (sym adds.0)
      | inr n ↦ rw (n) (adds.1 m ∙ rw (n) refl)
    ]

    refused-Accounts :
        (world0 world : W) (d : D) (e : ℕ)
        → Adds world0 d world
        → Accounts world0 (refused w l k world d e)
    refused-Accounts world0 world d e adds =
        failed-Accounts world0 (w.close world d) e (closed-same world0 world d adds)

    -- What leaves the table leaves what was added.
    Adds-step :
        (world0 world world' : W) (d : D)
        → ((m : ℕ) → is_open world' m ≡ is_open world m)
        → Adds world0 d world
        → Adds world0 d world'
    unfolding Adds
    Adds-step world0 world world' d same adds = (adds.0, λ m. same m ∙ adds.1 m)

    module _ (type : Bytes) (ops : StrmOps (Socket D)) where
      opened-Accounts :
          (world0 world : W) (d : D) (own peer : Address)
          → Adds world0 d world
          → Accounts world0 (opened w l k type ops world d own peer)
      unfolding socket_new Fits
      opened-Accounts world0 world d own peer adds st = (_, _, refl, adds)

      named-Accounts :
          (world0 world : W) (d : D) (peer : Address) (own : ℕ ⊎ Address)
          → Adds world0 d world
          → Accounts world0 (named w l k type ops world d peer own)
      named-Accounts world0 world d peer (inl e) = refused-Accounts world0 world d e
      named-Accounts world0 world d peer (inr own) = opened-Accounts world0 world d own peer

      connected-Accounts :
          (world0 : W) (d : D) (peer : Address) (c : Option ℕ × W)
          → Adds world0 d c.1
          → Accounts world0 (connected w l k type ops d peer c)
      connected-Accounts world0 d peer (none, world) =
          named-Accounts world0 world d peer (w.getsockname world d)
      connected-Accounts world0 d peer (some e, world) = elim (Bool-cases (e == w.einprogress)) [
        | inl y ↦ rw (y) (named-Accounts world0 world d peer (w.getsockname world d))
        | inr n ↦ rw (n) (refused-Accounts world0 world d e)
      ]

      client_open-Accounts :
          (world0 : W) (res : AddrInfo) (s : (ℕ ⊎ D) × W)
          → s ≡ w.socket world0 res.family res.socktype res.protocol
          → Accounts world0 (client_open w l k type ops res s)
      unfolding Adds
      client_open-Accounts world0 res (inl e, world) q =
          failed-Accounts world0 world e (h.opens_none world0 world _ _ _ e (sym q))
      client_open-Accounts world0 res (inr d, world) q =
          connected-Accounts world0 d res.addr (w.connect world d res.addr) (
            Adds-step world0 world _ d (h.connects world d res.addr)
              (h.opens world0 world _ _ _ d (sym q)))

      listening-Accounts :
          (world0 : W) (d : D) (own : Address) (c : Option ℕ × W)
          → Adds world0 d c.1
          → Accounts world0 (listening w l k type ops d own c)
      listening-Accounts world0 d own (none, world) = opened-Accounts world0 world d own unspec
      listening-Accounts world0 d own (some e, world) = refused-Accounts world0 world d e

      bound-Accounts :
          (world0 : W) (res : AddrInfo) (n : ℕ) (d : D) (c : Option ℕ × W)
          → Adds world0 d c.1
          → Accounts world0 (bound w l k type ops res n d c)
      bound-Accounts world0 res n d (some e, world) adds = refused-Accounts world0 world d e adds
      bound-Accounts world0 res n d (none, world) adds =
          let next = w.listen world d n in
          elim (Bool-cases (res.socktype == sock_stream)) [
            | inl y ↦ rw (y) (
                listening-Accounts world0 d res.addr next
                  (Adds-step world0 world next.1 d (h.listens world d n) adds))
            | inr nd ↦ rw (nd) (opened-Accounts world0 world d res.addr unspec adds)
          ]

      reusing-Accounts :
          (world0 : W) (res : AddrInfo) (n : ℕ) (d : D) (c : Option ℕ × W)
          → Adds world0 d c.1
          → Accounts world0 (reusing w l k type ops res n d c)
      reusing-Accounts world0 res n d (some e, world) adds = refused-Accounts world0 world d e adds
      reusing-Accounts world0 res n d (none, world) adds =
          bound-Accounts world0 res n d (w.bind world d res.addr)
            (Adds-step world0 world _ d (h.binds world d res.addr) adds)

      server_open-Accounts :
          (world0 : W) (res : AddrInfo) (n : ℕ) (s : (ℕ ⊎ D) × W)
          → s ≡ w.socket world0 res.family res.socktype res.protocol
          → Accounts world0 (server_open w l k type ops res n s)
      unfolding Adds
      server_open-Accounts world0 res n (inl e, world) q =
          failed-Accounts world0 world e (h.opens_none world0 world _ _ _ e (sym q))
      server_open-Accounts world0 res n (inr d, world) q =
          reusing-Accounts world0 res n d (w.set_reuse world d)
            (Adds-step world0 world _ d (h.reuses world d) (h.opens world0 world _ _ _ d (sym q)))

      stream_server-Accounts :
          (world0 : W) (res : AddrInfo) (n : Option ℕ)
          → Accounts world0 (stream_server w l k type ops world0 res n)
      unfolding Fits
      stream_server-Accounts world0 res none = λ st. (_, _, refl, λ m. refl)
      stream_server-Accounts world0 res (some n) = server_open-Accounts world0 res n _ refl

    server_socket_new-Accounts :
        (type : Bytes) (ops dgram_ops : StrmOps (Socket D)) (world : W) (res : AddrInfo)
        (backlog : ℤ)
        → Accounts world (server_socket_new w l k type ops dgram_ops world res backlog)
    unfolding server_socket_new
    server_socket_new-Accounts type ops dgram_ops world res backlog =
        elim (Bool-cases (res.socktype == sock_dgram)) [
          | inl y ↦ rw (y) (server_open-Accounts type dgram_ops world res 0 _ refl)
          | inr n ↦ rw (n) (stream_server-Accounts type ops world res (backlog_of w l k backlog))
        ]

    -- Opening a client or a server returns, whatever the system answers. Where it gives no stream, the
    -- descriptors are those that were open before: an error past socket(2) closes what that opened.
    -- Where it gives one, exactly the descriptor of the stream is new, and its number was free.
    pub socket_new_safe :
        (type : Bytes) (ops dgram_ops : StrmOps (Socket D)) (world : W) (res : AddrInfo)
        (backlog : ℤ) (st : State)
        → Lands world (socket_client_new w l k type ops world res st)
          × Lands world (server_socket_new w l k type ops dgram_ops world res backlog st)
    unfolding socket_client_new
    socket_new_safe type ops dgram_ops world res backlog st = (
      client_open-Accounts type ops world res _ refl st,
      server_socket_new-Accounts type ops dgram_ops world res backlog st,
    )
