-- ===== src/Examples/Connection.antt =====
-- A connection at a concrete input.
use b6b.Base.{
  ℕ, zero, suc, ◌≤◌, ◌<◌, ◌≡◌, refl, sym, ap, true, inl, inr, none, some, [], ◌∷◌, ◌++◌, arith,
  length, ◌==◌, Bytes, take, drop, codes, append-nil,
}
use b6b.Strm.{Strm, strm_new}
use b6b.Strm.Read.{ReadsPart}
use b6b.Strm.Write.{WritesPart}
use b6b.Device.Fd.{Descriptor}
use b6b.Socket.{Socket, Sockets, unspec}
use b6b.Socket.Ops.{tcp_client_ops}
use b6b.Socket.Transfer.{IsConnection, connection_view, connection_outlet, socket_strm_lem}
use b6b.Interp.Boot.{empty}

record Ends : Type 0 where
  coming : Bytes
  gone : Bytes

abbrev ends : Descriptor Ends
ends = record {
  fionread = λ d. some (length d.coming);
  read = λ d len. (inr (take len d.coming), record d { coming = drop len d.coming });
  recv = λ d len. (inr (take len d.coming), record d { coming = drop len d.coming });
  write = λ d buf. (inr (length buf), record d { gone = d.gone ++ buf });
  send = λ d buf. (inr (length buf), record d { gone = d.gone ++ buf });
  close = λ d. d;
  number = λ d. 3;
  eagain = 11;
  ewouldblock = 11;
  strerror = λ e. none;
  strtoull = λ s. none;
  eventfd = λ n. inl 24;
}

abbrev others : Sockets Ends
others = record {
  recvfrom = λ d len. (inr [], unspec, d);
  accept4 = λ d. (inl 24, d);
  unlink = λ d path. d;
  inet_ntop = λ a. none;
  emfile = 24;
  address = λ d. 4096;
}

empty_length : (bs : Bytes) → (length bs == 0) ≡ true → bs ≡ []
empty_length [] h = refl
empty_length (b ∷ bs) h = absurd (ground arith)

taken : (n : ℕ) (bs : Bytes) → 0 < n → (length (take n bs) == 0) ≡ true → drop n bs ≡ []
taken (suc n) [] h z = refl
taken (suc n) (b ∷ bs) h z = absurd (ground arith)
taken zero bs h z = absurd (omega arith)

take-length_le : (n : ℕ) (bs : Bytes) → length (take n bs) ≤ n
take-length_le zero bs = omega arith
take-length_le (suc n) [] = omega arith
take-length_le (suc n) (b ∷ bs) = omega (arith, take-length_le n bs)

split_at : (n : ℕ) (bs : Bytes) → bs ≡ take n bs ++ drop n bs
split_at zero bs = refl
split_at (suc n) [] = refl
split_at (suc n) (b ∷ bs) = ap (◌∷◌ b) (split_at n bs)

ends-IsConnection :
    IsConnection ends (λ d. d.coming) (λ d. d.gone) (λ d. d.coming ≡ []) (λ d. ⊥) (λ d. ⊥)
ends-IsConnection = record {
  waits = λ d n q z. empty_length d.coming (let e : length d.coming ≡ n = cc in rw e z);
  waits_none = λ d q. absurd (cc);
  recvs = λ d d' n bs h q.
      let e : take n d.coming ≡ bs = cc in
      let e' : drop n d.coming ≡ d'.coming = ap (λ x. x.1.coming) q in
      rw (sym e, sym e')
        (split_at n d.coming, take-length_le n d.coming, λ z. taken n d.coming h z);
  recvs_none = λ d d' n e q. absurd (cc);
  sends = λ d d' n buf h q.
      let e : length buf ≡ n = cc in
      let e' : d.gone ++ buf ≡ d'.gone = ap (λ x. x.1.gone) q in
      (buf, [], sym (append-nil buf), sym e, sym e', rw (sym e) h);
  sends_none = λ d d' e buf q. absurd (cc);
}

abbrev connection : Strm (Socket Ends)
connection =
    strm_new (tcp_client_ops ends others)
      (record { peer = unspec; addr = unspec; dev = record { coming = codes "hello"; gone = [] } })

socket_strm_lem_example :
    ReadsPart
      (connection_view ends (λ d. d.coming) (λ d. d.gone) (λ d. d.coming ≡ []) (λ d. ⊥) (λ d. ⊥))
      connection
      3
      empty
    × WritesPart
        (connection_outlet ends
          (λ d. d.coming)
          (λ d. d.gone)
          (λ d. d.coming ≡ [])
          (λ d. ⊥)
          (λ d. ⊥))
        connection
        (codes "hi")
        empty
socket_strm_lem_example =
    socket_strm_lem ends (λ d. d.coming) (λ d. d.gone) (λ d. d.coming ≡ []) (λ d. ⊥) (λ d. ⊥)
      ends-IsConnection others connection 3 (codes "hi") empty (inl refl) refl refl
