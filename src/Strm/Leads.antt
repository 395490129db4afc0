-- ===== src/Strm/Leads.antt =====
-- src/b6b_strm.c: what a predicate on a stream has to allow for, so that the stream meets it behind
-- any operation that a script calls.
use b6b.Base.{
  ℕ, suc, ◌-◌, ◌≡◌, refl, Bool, true, false, ◌||◌, Option, none, some, List, [], ◌∷◌, ◌++◌, ltb,
  leb, ◌==◌, if◌then◌else◌, length, Bytes, codes,
}
use b6b.Base.Int.{ℤ, pos, negsuc}
use b6b.CLib.{CLib}
use b6b.Store.{Ptr, Res}
use b6b.Store.Monad.{M, ◌>>=◌, pure, crash, load, list_new, return_int, fail_with}
use b6b.Store.Gives.{Gives, pure-Gives, crash-Gives, bind-Gives, if-Gives}
use b6b.Object.{as_str, as_int}
use b6b.Object.Args.{get_args, c_str}
use b6b.Strm.{
  Got, Filled, Strm, strm_close, start_read, finish_read, read_loop, min, read_open, strm_read,
  finish_write, write_open, strm_write, strm_writeln, accept_loop, finish_accept, accept_open,
  strm_accept, finish_peer, peer_with, strm_peer, strm_fd,
}
use b6b.Strm.Procs.{
  ssize_max, is_op, bad_op, strm_read_all, strm_op, read_size, read_arg, write_arg, strm_op_arg,
  strm_args, strm_proc,
}

module _ {D : Type 0} (P : Strm D → Type 0) where
  -- Where the code ends with a result, the stream meets the predicate.
  abbrev pub Leads : M (Res × Strm D) → Type 0
  Leads m = Gives (λ x. P x.1) m

  pure-Leads : (res : Res) (s : Strm D) → P s → Leads (pure (res, s))
  pure-Leads res s h = pure-Gives (λ x. P x.1) (res, s) h

  crash-Leads : Leads crash
  crash-Leads = crash-Gives (λ x. P x.1)

  bind-Leads :
      {A : Type 0} (m : M A) (k : A → M (Res × Strm D)) → ((a : A) → Leads (k a)) → Leads (m >>= k)
  bind-Leads m k h = bind-Gives (λ x. P x.1) m k h

  if-Leads :
      (b : Bool) (m n : M (Res × Strm D))
      → (b ≡ true → Leads m)
      → (b ≡ false → Leads n)
      → Leads (if b then m else n)
  if-Leads b m n hm hn = if-Gives (λ x. P x.1) b m n hm hn

  -- What the operations do to a stream.
  pub record Allows (s : Strm D) : Type 0 where
    pub same : P s
    pub shut : P (strm_close s)
    pub moved : s.closed ≡ false → (d : D) → P (record s { priv = d })
    pub filled :
        s.closed ≡ false → s.eof ≡ false → (d : D) (e : Bool) → P (record s { priv = d; eof = e })
    pub asked :
        (f : D → M (Option Ptr × D)) → s.ops.peer ≡ some f → (d : D) → P (record s { priv = d })

  module _ (s : Strm D) (h : Allows s) where
    finish_read-Leads :
        (b : Option Filled × D) → s.closed ≡ false → s.eof ≡ false → Leads (finish_read s b)
    finish_read-Leads (none, d) hc he = pure-Leads _ _ (h.moved hc d)
    finish_read-Leads (some b, d) hc he =
        if-Leads (ltb (length b.out) b.len) _ _
          (λ _. bind-Leads _ _ λ r. pure-Leads r _ (h.filled hc he d b.eof)) λ _. crash-Leads

    start_read-Leads :
        (want : ℕ) (f : D → ℕ → M (Option Got × D)) (r : Option ℕ × D)
        → s.closed ≡ false
        → s.eof ≡ false
        → Leads (start_read s want f r)
    start_read-Leads want f (none, d) hc he = pure-Leads _ _ (h.moved hc d)
    start_read-Leads want f (some est, d) hc he =
        bind-Leads (read_loop (suc want) s.ops.peeksz f 1 [] want (min est want) d) (finish_read s)
          λ b. finish_read-Leads b hc he

    read_open-Leads :
        (want : ℕ) (f : Option (D → ℕ → M (Option Got × D)))
        → s.eof ≡ false
        → Leads (read_open s want f)
    read_open-Leads want none he = pure-Leads _ _ h.same
    read_open-Leads want (some f) he =
        if-Leads s.closed _ _ (λ _. pure-Leads _ _ h.same)
          λ hc. bind-Leads _ (start_read s want f) λ r. start_read-Leads want f r hc he

    strm_read-Leads : (want : ℕ) → Leads (strm_read s want)
    unfolding strm_read
    strm_read-Leads want =
        if-Leads s.eof _ _ (λ _. pure-Leads _ _ h.same) (read_open-Leads want s.ops.read)

    finish_write-Leads : (r : Option ℕ × D) → s.closed ≡ false → Leads (finish_write s r)
    finish_write-Leads (none, d) hc = pure-Leads _ _ (h.moved hc d)
    finish_write-Leads (some out, d) hc = bind-Leads _ _ λ r. pure-Leads r _ (h.moved hc d)

    write_open-Leads :
        (buf : Bytes) (f : Option (D → Bytes → M (Option ℕ × D))) → Leads (write_open s buf f)
    write_open-Leads buf none = pure-Leads _ _ h.same
    write_open-Leads buf (some f) =
        if-Leads s.closed _ _ (λ _. pure-Leads _ _ h.same)
          λ hc. bind-Leads _ (finish_write s) λ r. finish_write-Leads r hc

    strm_write-Leads : (buf : Bytes) → Leads (strm_write s buf)
    unfolding strm_write
    strm_write-Leads buf = write_open-Leads buf s.ops.write

    strm_writeln-Leads : (buf : Bytes) → Leads (strm_writeln s buf)
    unfolding strm_writeln
    strm_writeln-Leads buf = strm_write-Leads _

    finish_accept-Leads : (l : Ptr) (r : Bool × D) → s.closed ≡ false → Leads (finish_accept s l r)
    finish_accept-Leads l (false, d) hc = pure-Leads _ _ (h.moved hc d)
    finish_accept-Leads l (true, d) hc = bind-Leads _ _ λ r. pure-Leads r _ (h.moved hc d)

    accept_open-Leads :
        (k : ℕ) (f : Option (D → M (Option (Option Ptr) × D))) → Leads (accept_open k s f)
    accept_open-Leads k none = pure-Leads _ _ h.same
    accept_open-Leads k (some f) =
        if-Leads s.closed _ _ (λ _. pure-Leads _ _ h.same)
          λ hc. bind-Leads list_new _ λ l.
            bind-Leads (accept_loop k f l s.priv) (finish_accept s l)
              λ r. finish_accept-Leads l r hc

    strm_accept-Leads : (k : ℕ) → Leads (strm_accept k s)
    unfolding strm_accept
    strm_accept-Leads k = accept_open-Leads k s.ops.accept

    finish_peer-Leads :
        (r : Option Ptr × D) → ((d : D) → P (record s { priv = d })) → Leads (finish_peer s r)
    finish_peer-Leads (none, d) hp = pure-Leads _ _ (hp d)
    finish_peer-Leads (some o, d) hp = bind-Leads _ _ λ r. pure-Leads r _ (hp d)

    peer_with-Leads : (f : Option (D → M (Option Ptr × D))) → s.ops.peer ≡ f → Leads (peer_with s f)
    peer_with-Leads none e = pure-Leads _ _ h.same
    peer_with-Leads (some f) e = bind-Leads _ (finish_peer s) λ r. finish_peer-Leads r (h.asked f e)

    strm_peer-Leads : Leads (strm_peer s)
    unfolding strm_peer
    strm_peer-Leads = peer_with-Leads s.ops.peer refl

    strm_fd-Leads : Leads (strm_fd s)
    unfolding strm_fd
    strm_fd-Leads =
        if-Leads s.closed _ _ (λ _. pure-Leads _ _ h.same)
          λ hc. bind-Leads (return_int (s.ops.fd s.priv)) _ λ r. pure-Leads r _ h.same

    bad_op-Leads : (op : Bytes) → Leads (bad_op s op)
    unfolding bad_op
    bad_op-Leads op =
        bind-Leads (fail_with (codes "bad strm op: " ++ c_str op)) _ λ r. pure-Leads r _ h.same

    strm_read_all-Leads : Leads (strm_read_all s)
    unfolding strm_read_all
    strm_read_all-Leads = strm_read-Leads (ssize_max - 1)

    strm_op-Leads : (n : ℕ) (op : Bytes) → Leads (strm_op n s op)
    unfolding strm_op
    strm_op-Leads n op =
        if-Leads (is_op op (codes "read")) _ _ (λ _. strm_read_all-Leads)
          λ _.
            if-Leads (is_op op (codes "accept")) _ _ (λ _. strm_accept-Leads n)
              λ _.
                if-Leads (is_op op (codes "peer")) _ _ (λ _. strm_peer-Leads)
                  λ _.
                    if-Leads (is_op op (codes "fd")) _ _ (λ _. strm_fd-Leads)
                      λ _.
                        if-Leads (is_op op (codes "close")) _ _ (λ _. pure-Leads _ _ h.shut)
                          λ _. bad_op-Leads op

    read_size-Leads : (i : ℤ) → Leads (read_size s i)
    read_size-Leads (negsuc i) = pure-Leads _ _ h.same
    read_size-Leads (pos i) =
        if-Leads (leb ssize_max i || i == 0) _ _ (λ _. pure-Leads _ _ h.same) λ _. strm_read-Leads i

    read_arg-Leads : (arg : Ptr) (known : Bool) → Leads (read_arg s arg known)
    read_arg-Leads arg false = pure-Leads _ _ h.same
    read_arg-Leads arg true = bind-Leads (load arg) _ λ o. read_size-Leads o.i

    write_arg-Leads :
        (write : Bytes → M (Res × Strm D)) (arg : Ptr) (known : Bool)
        → ((buf : Bytes) → Leads (write buf))
        → Leads (write_arg write s arg known)
    write_arg-Leads write arg false hw = pure-Leads _ _ h.same
    write_arg-Leads write arg true hw = bind-Leads (load arg) _ λ o. hw o.s

    module _ ⦃c : CLib⦄ where
      strm_op_arg-Leads : (n : ℕ) (op : Bytes) (arg : Ptr) → Leads (strm_op_arg n s op arg)
      unfolding strm_op_arg
      strm_op_arg-Leads n op arg =
          if-Leads (is_op op (codes "read")) _ _
            (λ _. bind-Leads (as_int n arg) (read_arg s arg) (read_arg-Leads arg))
            λ _.
              if-Leads (is_op op (codes "write")) _ _
                (λ _.
                  bind-Leads (as_str n arg) (write_arg (strm_write s) s arg)
                    λ known. write_arg-Leads (strm_write s) arg known strm_write-Leads)
                λ _.
                  if-Leads (is_op op (codes "writeln")) _ _
                    (λ _.
                      bind-Leads (as_str n arg) (write_arg (strm_writeln s) s arg)
                        λ known. write_arg-Leads (strm_writeln s) arg known strm_writeln-Leads)
                    λ _. bad_op-Leads op

      strm_args-Leads : (n : ℕ) (ps : List Ptr) → Leads (strm_args n s ps)
      strm_args-Leads n [] = crash-Leads
      strm_args-Leads n (o ∷ []) = crash-Leads
      strm_args-Leads n (o ∷ op ∷ []) = bind-Leads (load op) _ λ x. strm_op-Leads n x.s
      strm_args-Leads n (o ∷ op ∷ arg ∷ []) =
          bind-Leads (load op) _ λ x. strm_op_arg-Leads n x.s arg
      strm_args-Leads n (o ∷ op ∷ arg ∷ p ∷ ps) = crash-Leads

      pub strm_proc-Leads : (n : ℕ) (args : Ptr) → Leads (strm_proc n s args)
      unfolding strm_proc
      strm_proc-Leads n args =
          bind-Leads (get_args n args (codes "os|o") (true ∷ true ∷ true ∷ [])) _ λ a.
            if-Leads (a.argc == 0) _ _ (λ _. pure-Leads _ _ h.same) λ _. strm_args-Leads n a.out
