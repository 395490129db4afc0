-- ===== src/Socket/Transfer.antt =====
-- src/b6b_socket.c under src/b6b_strm.c: what a script reads from a connection, and what it sends.
use b6b.Base.{
  append-nil, ℕ, ◌≤◌, ◌<◌, ◌≡◌, refl, sym, ap, ◌∙◌, ◌⊎◌, inl, inr, true, false, Option, none, some,
  [], ◌++◌, arith, length, ◌==◌, Bytes, Bool-cases,
}
use b6b.Store.{State}
use b6b.Store.Monad.{done, ◌>>=◌, pure}
use b6b.Strm.{Strm}
use b6b.Strm.Contract.{View, IsSource, Delivers, IsPeek, Peeked}
use b6b.Strm.Read.{ReadsPart, strm_read_lem}
use b6b.Strm.Write.{Outlet, IsSink, Takes, WritesPart, strm_write_lem}
use b6b.Device.{return_strerror}
use b6b.Device.Fd.{Descriptor, would_block, fd_peeksz, fd_on_read, fd_recv, fd_on_write, fd_send}
use b6b.Socket.{Socket, Sockets, at_dev}
use b6b.Socket.Ops.{socket_peeksz, socket_read, socket_write, tcp_client_ops, un_stream_client_ops}

-- A connected stream socket, as the system documents it: `incoming` is what the peer sends and recv
-- has not given yet, `outgoing` what send has taken; recv gives it in order, and nothing, or that it
-- would block, only where nothing waits.
pub record IsConnection {D : Type 0} (l : Descriptor D) (incoming outgoing : D → Bytes)
    (IsQuiet IsFull IsReset : D → Type 0) : Type 0 where
  pub waits : (d : D) (n : ℕ) → l.fionread d ≡ some n → (n == 0) ≡ true → IsQuiet d
  pub waits_none : (d : D) → l.fionread d ≡ none → IsReset d
  pub recvs :
      (d d' : D) (n : ℕ) (bs : Bytes)
      → 0 < n
      → l.recv d n ≡ (inr bs, d')
      → (incoming d ≡ bs ++ incoming d') × (length bs ≤ n) × ((length bs == 0) ≡ true → IsQuiet d')
  pub recvs_none :
      (d d' : D) (n e : ℕ)
      → l.recv d n ≡ (inl e, d')
      → (would_block l e ≡ true → (incoming d ≡ incoming d') × IsQuiet d')
        × (would_block l e ≡ false → IsReset d')
  pub sends :
      (d d' : D) (n : ℕ) (buf : Bytes)
      → 0 < length buf
      → l.send d buf ≡ (inr n, d')
      → (t : Bytes) × (rest : Bytes) × (buf ≡ t ++ rest)
        × (n ≡ length t)
        × (outgoing d' ≡ outgoing d ++ t)
        × (0 < n)
  pub sends_none :
      (d d' : D) (e : ℕ) (buf : Bytes)
      → l.send d buf ≡ (inl e, d')
      → (would_block l e ≡ true → (outgoing d' ≡ outgoing d) × IsFull d')
        × (would_block l e ≡ false → IsReset d')

module _ {D : Type 0} (l : Descriptor D) (incoming outgoing : D → Bytes)
    (IsQuiet IsFull IsReset : D → Type 0) where
  abbrev pub connection_view : View (Socket D)
  connection_view = record {
    pending = λ s. incoming s.dev;
    IsIdle = λ s. IsQuiet s.dev;
    IsBroken = λ s. IsReset s.dev;
  }

  abbrev pub connection_outlet : Outlet (Socket D)
  connection_outlet = record {
    sent = λ s. outgoing s.dev;
    IsFull = λ s. IsFull s.dev;
    IsBroken = λ s. IsReset s.dev;
  }

module _ {D : Type 0} (l : Descriptor D) (incoming outgoing : D → Bytes)
    (IsQuiet IsFull IsReset : D → Type 0)
    (c : IsConnection l incoming outgoing IsQuiet IsFull IsReset) (k : Sockets D) where
  abbrev view : View (Socket D)
  view = connection_view l incoming outgoing IsQuiet IsFull IsReset

  abbrev outlet : Outlet (Socket D)
  outlet = connection_outlet l incoming outgoing IsQuiet IsFull IsReset

  -- An error that strerror names, or not.
  reset-Delivers :
      (t : Option Bytes) (s : Socket D) (d : D) (n : ℕ) (st : State)
      → IsReset d
      → Delivers view (λ s n. (do _ ← return_strerror t; pure (none, d)) >>= at_dev s) s n st
  unfolding return_strerror
  reset-Delivers none s d n st h = record {
    reply = none;
    dev = record s { dev = d };
    after = st;
    runs = refl;
    exact = h;
  }
  reset-Delivers (some t) s d n st h = record {
    reply = none;
    dev = record s { dev = d };
    after = _;
    runs = refl;
    exact = h;
  }

  recv-Delivers :
      (s : Socket D) (n : ℕ) (st : State) (r : (ℕ ⊎ Bytes) × D)
      → 0 < n
      → l.recv s.dev n ≡ r
      → Delivers view (λ s n. fd_on_read ⦃l = l⦄ r >>= at_dev s) s n st
  unfolding fd_on_read
  recv-Delivers s n st (inr bs, d) h q =
      let (split, fits, idle) = c.recvs s.dev d n bs h q in
      record {
        reply = some (record { bytes = bs; eof = false; again = true });
        dev = record s { dev = d };
        after = st;
        runs = refl;
        exact = (split, fits, λ e. absurd (cc), λ e. absurd (cc), λ e. absurd (cc), idle);
      }
  recv-Delivers s n st (inl e, d) h q = elim (Bool-cases (would_block l e)) [
    | inl w ↦
        let (same, quiet) = (c.recvs_none s.dev d n e q).0 w in
        rw (w) record {
          reply = some (record { bytes = []; eof = false; again = true });
          dev = record s { dev = d };
          after = st;
          runs = refl;
          exact =
              (same, omega arith, λ e. absurd (cc), λ e. absurd (cc), λ e. absurd (cc), λ z. quiet);
        }
    | inr w ↦ rw (w) (reset-Delivers (l.strerror e) s d n st ((c.recvs_none s.dev d n e q).1 w))
  ]

  socket_read-IsSource : IsSource view (socket_read l k)
  unfolding socket_read fd_recv
  socket_read-IsSource s n st h =
      let r = recv-Delivers s n st (l.recv s.dev n) h refl in
      record { reply = r.reply; dev = r.dev; after = r.after; runs = r.runs; exact = r.exact }

  peek-Peeked :
      (s : Socket D) (st : State) (r : Option ℕ)
      → l.fionread s.dev ≡ r
      → Peeked view (λ st. done (r, s) st) s st
  peek-Peeked s st none q = record {
    reply = none;
    dev = s;
    after = st;
    runs = refl;
    exact = c.waits_none s.dev q;
  }
  peek-Peeked s st (some n) q = record {
    reply = some n;
    dev = s;
    after = st;
    runs = refl;
    exact = (refl, c.waits s.dev n q);
  }

  socket_peeksz-IsPeek : IsPeek view (some (socket_peeksz l k))
  unfolding socket_peeksz fd_peeksz
  socket_peeksz-IsPeek s st = peek-Peeked s st (l.fionread s.dev) refl

  reset-Takes :
      (t : Option Bytes) (s : Socket D) (d : D) (buf : Bytes) (st : State)
      → IsReset d
      → Takes outlet (λ s buf. (do _ ← return_strerror t; pure (none, d)) >>= at_dev s) s buf st
  unfolding return_strerror
  reset-Takes none s d buf st h = record {
    reply = none;
    dev = record s { dev = d };
    after = st;
    runs = refl;
    exact = h;
  }
  reset-Takes (some t) s d buf st h = record {
    reply = none;
    dev = record s { dev = d };
    after = _;
    runs = refl;
    exact = h;
  }

  send-Takes :
      (s : Socket D) (buf : Bytes) (st : State) (r : (ℕ ⊎ ℕ) × D)
      → 0 < length buf
      → l.send s.dev buf ≡ r
      → Takes outlet (λ s buf. fd_on_write ⦃l = l⦄ r >>= at_dev s) s buf st
  unfolding fd_on_write
  send-Takes s buf st (inr n, d) h q =
      let (t, rest, split, len, out, some_sent) = c.sends s.dev d n buf h q in
      record {
        reply = some n;
        dev = record s { dev = d };
        after = st;
        runs = refl;
        exact = (t, rest, split, len, out, λ z. absurd (omega arith));
      }
  send-Takes s buf st (inl e, d) h q = elim (Bool-cases (would_block l e)) [
    | inl w ↦
        let (same, full) = (c.sends_none s.dev d e buf q).0 w in
        rw (w) record {
          reply = some 0;
          dev = record s { dev = d };
          after = st;
          runs = refl;
          exact = ([], buf, refl, refl, same ∙ sym (append-nil (outgoing s.dev)), λ z. full);
        }
    | inr w ↦ rw (w) (reset-Takes (l.strerror e) s d buf st ((c.sends_none s.dev d e buf q).1 w))
  ]

  socket_write-IsSink : IsSink outlet (socket_write l k)
  unfolding socket_write fd_send
  socket_write-IsSink s buf st h =
      let r = send-Takes s buf st (l.send s.dev buf) h refl in
      record { reply = r.reply; dev = r.dev; after = r.after; runs = r.runs; exact = r.exact }

  -- A stream over a connection, as inet.client and un.client make it for `tcp` and `stream`, while it is open:
  -- reading always ends, with an error if the connection was reset, or with the next bytes that the peer
  -- sent, in their order, at most `want`, and less only where none waits; writing always ends, with an
  -- error if the connection was reset, or with the number of bytes that were sent, the first ones of
  -- the text, and less than all only where the system takes no more.
  pub socket_strm_lem :
      (s : Strm (Socket D)) (want : ℕ) (buf : Bytes) (st : State)
      → (s.ops ≡ tcp_client_ops l k) ⊎ (s.ops ≡ un_stream_client_ops l k)
      → s.closed ≡ false
      → s.eof ≡ false
      → ReadsPart view s want st × WritesPart outlet s buf st
  unfolding tcp_client_ops un_stream_client_ops
  socket_strm_lem s want buf st e hc he = (
    strm_read_lem view s (socket_read l k) want st (reads e) hc he socket_read-IsSource (peeks e),
    strm_write_lem outlet s buf (socket_write l k) st (writes e) hc socket_write-IsSink,
  )
    where
      reads :
          (s.ops ≡ tcp_client_ops l k) ⊎ (s.ops ≡ un_stream_client_ops l k)
          → s.ops.read ≡ some (socket_read l k)
      reads (inl e) = ap (λ o. o.read) e
      reads (inr e) = ap (λ o. o.read) e

      writes :
          (s.ops ≡ tcp_client_ops l k) ⊎ (s.ops ≡ un_stream_client_ops l k)
          → s.ops.write ≡ some (socket_write l k)
      writes (inl e) = ap (λ o. o.write) e
      writes (inr e) = ap (λ o. o.write) e

      peeks :
          (s.ops ≡ tcp_client_ops l k) ⊎ (s.ops ≡ un_stream_client_ops l k)
          → IsPeek view s.ops.peeksz
      peeks (inl e) = rw (ap (λ o. o.peeksz) e) socket_peeksz-IsPeek
      peeks (inr e) = rw (ap (λ o. o.peeksz) e) socket_peeksz-IsPeek
