-- ===== src/Strm/Write.antt =====
-- b6b_strm_write in src/b6b_strm.c over any device that takes a first part of what it is given.
use b6b.Base.{
  ℕ, zero, suc, ◌+◌, ◌<◌, ◌≡◌, refl, sym, ap, ◌∙◌, ◌⊎◌, inl, inr, true, false, Option, none, some,
  [], ◌∷◌, ◌++◌, append_assoc, append-nil, arith, ◌==◌, length, length-append, drop-append, Bytes,
}
use b6b.Base.Int.{pos}
use b6b.Store.{State, Res, ok, err, blank_obj}
use b6b.Store.Monad.{
  M, done, ◌>>=◌, done-bind, pure, return_int, return_obj, int_new, alloc, update_same,
}
use b6b.Strm.{Strm, wrote, write_loop, finish_write, strm_write}

-- The value that is returned is the number of `_`.
return_int-runs :
    (n : ℕ) (st : State)
    → (after : State) × (return_int (pos n) st ≡ done ok after)
      × (after.cell after.under ≡ some (record blank_obj { i = pos n; is_int = true }))
unfolding return_int return_obj int_new alloc
return_int-runs n st = (_, refl, update_same st.cell st.next _)

-- How a device looks from outside: what it has taken, whether it takes nothing for now, and whether
-- it may fail.
pub record Outlet (D : Type 0) : Type 1 where
  pub sent : D → Bytes
  pub IsFull : D → Type 0
  pub IsBroken : D → Type 0

module _ {D : Type 0} (v : Outlet D) where
  open v use {sent, IsFull, IsBroken}

  -- A first part `t` of the text is taken, and none only where the device is full.
  abbrev pub IsTaken : D → Bytes → D → Option ℕ → Type 0
  IsTaken d buf dev none = IsBroken dev
  IsTaken d buf dev (some n) =
      (t : Bytes) × (rest : Bytes) × (buf ≡ t ++ rest)
      × (n ≡ length t)
      × (sent dev ≡ sent d ++ t)
      × (n ≡ 0 → IsFull dev)

  -- One call of `write` ends.
  pub record Takes (f : D → Bytes → M (Option ℕ × D)) (d : D) (buf : Bytes) (st : State)
      : Type 0 where
    pub reply : Option ℕ
    pub dev : D
    pub after : State
    pub runs : f d buf st ≡ done (reply, dev) after
    pub exact : IsTaken d buf dev reply

  -- `write` is never called with no bytes.
  abbrev pub IsSink : (D → Bytes → M (Option ℕ × D)) → Type 0
  IsSink f = (d : D) (buf : Bytes) (st : State) → 0 < length buf → Takes f d buf st

  -- Behind the loop: less than the whole text is out only where the device is full.
  abbrev IsSent : ℕ → D → Bytes → D → Option ℕ → Type 0
  IsSent out d buf dev none = IsBroken dev
  IsSent out d buf dev (some n) =
      (t : Bytes) × (rest : Bytes) × (buf ≡ t ++ rest)
      × (n ≡ out + length t)
      × (sent dev ≡ sent d ++ t)
      × ((rest ≡ []) ⊎ IsFull dev)

  record Ends (m : M (Option ℕ × D)) (out : ℕ) (d : D) (buf : Bytes) (st : State) : Type 0 where
    reply : Option ℕ
    dev : D
    after : State
    runs : m st ≡ done (reply, dev) after
    exact : IsSent out d buf dev reply

  stop-Ends :
      (out : ℕ) (d dev : D) (buf : Bytes) (r : Option ℕ) (st : State)
      → IsSent out d buf dev r
      → Ends (pure (r, dev)) out d buf st
  stop-Ends out d dev buf r st h = record {
    reply = r;
    dev = dev;
    after = st;
    runs = refl;
    exact = h;
  }

  -- Behind a part `t` that was taken.
  later-Ends :
      (m : M (Option ℕ × D)) (out : ℕ) (d dev : D) (buf t rest : Bytes) (st : State)
      → buf ≡ t ++ rest
      → sent dev ≡ sent d ++ t
      → Ends m (out + length t) dev rest st
      → Ends m out d buf st
  later-Ends m out d dev buf t rest st hb hs e = record {
    reply = e.reply;
    dev = e.dev;
    after = e.after;
    runs = e.runs;
    exact = longer e.reply e.exact;
  }
    where
      longer : (r : Option ℕ) → IsSent (out + length t) dev rest e.dev r → IsSent out d buf e.dev r
      longer none h = h
      longer (some n) (u, rest', hr, hn, hs', hf) = (
        t ++ u,
        rest',
        hb ∙ ap (λ x. t ++ x) hr ∙ sym (append_assoc t u rest'),
        omega (arith, hn, length-append t u),
        hs' ∙ ap (λ x. x ++ u) hs ∙ append_assoc (sent d) t u,
        hf,
      )

  module _ (f : D → Bytes → M (Option ℕ × D)) (sink : IsSink f) where
    Rounds : (ℕ → Bytes → D → M (Option ℕ × D)) → ℕ → Type 0
    Rounds again k =
        (out : ℕ) (buf : Bytes) (d : D) (st : State)
        → length buf < k
        → Ends (again out buf d) out d buf st

    taken-Ends :
        (again : ℕ → Bytes → D → M (Option ℕ × D)) (k out : ℕ) (t rest : Bytes) (d dev : D)
        (st : State)
        → Rounds again k
        → sent dev ≡ sent d ++ t
        → (length t ≡ 0 → IsFull dev)
        → length (t ++ rest) < suc k
        → Ends (wrote again (t ++ rest) out (some (length t), dev)) out d (t ++ rest) st
    unfolding Rounds
    taken-Ends again k out [] rest d dev st h hs hf hk =
        stop-Ends out d dev rest (some out) st ([], rest, refl, omega arith, hs, inr (hf refl))
    taken-Ends again k out (x ∷ t) rest d dev st h hs hf hk =
        let nz : (length (x ∷ t) == 0) ≡ false = ground arith in
        later-Ends _ out d dev (x ∷ (t ++ rest)) (x ∷ t) rest st refl hs (
          rw (nz, drop-append t rest)
            (h (out + length (x ∷ t)) rest dev st (omega (arith, length-append t rest))))

    wrote-Ends :
        (again : ℕ → Bytes → D → M (Option ℕ × D)) (k out : ℕ) (buf : Bytes) (d dev : D)
        (r : Option ℕ) (st : State)
        → Rounds again k
        → IsTaken d buf dev r
        → length buf < suc k
        → Ends (wrote again buf out (r, dev)) out d buf st
    unfolding Rounds
    wrote-Ends again k out buf d dev none st h c hk = stop-Ends out d dev buf none st c
    wrote-Ends again k out buf d dev (some n) st h (t, rest, hb, hn, hs, hf) hk =
        rw (hb, hn) (taken-Ends again k out t rest d dev st h hs (λ z. hf (hn ∙ z)) (rw hb at hk))

    write_loop-Ends : (k : ℕ) → Rounds (write_loop k f) k
    unfolding write_loop Rounds
    write_loop-Ends zero out buf d st hk = absurd (omega arith)
    write_loop-Ends (suc k) out [] d st hk =
        stop-Ends out d d [] (some out) st
          ([], [], refl, omega arith, sym (append-nil (sent d)), inl refl)
    write_loop-Ends (suc k) out (b ∷ bs) d st hk =
        let s = sink d (b ∷ bs) st (omega arith) in
        let e =
          wrote-Ends (write_loop k f) k out (b ∷ bs) d s.dev s.reply s.after (write_loop-Ends k)
            s.exact hk in
        record {
          reply = e.reply;
          dev = e.dev;
          after = e.after;
          runs =
              done-bind (f d (b ∷ bs)) (wrote (write_loop k f) (b ∷ bs) out) st _ s.after s.runs
              ∙ e.runs;
          exact = e.exact;
        }

  -- How b6b_strm_write ends: with an error of the device, or with the number of bytes that are out.
  abbrev pub WritesPart : Strm D → Bytes → State → Type 0
  WritesPart s buf st =
      (res : Res) × (s' : Strm D) × (after : State) × (strm_write s buf st ≡ done (res, s') after)
      × ((res ≡ err) × IsBroken s'.priv
          ⊎ (res ≡ ok)
            × ((t : Bytes) × (rest : Bytes) × (after.cell after.under
                  ≡ some (record blank_obj { i = pos (length t); is_int = true }))
                × (buf ≡ t ++ rest)
                × (sent s'.priv ≡ sent s.priv ++ t)
                × ((rest ≡ []) ⊎ IsFull s'.priv)))

  strm_write-open :
      (s : Strm D) (buf : Bytes) (f : D → Bytes → M (Option ℕ × D))
      → s.ops.write ≡ some f
      → s.closed ≡ false
      → strm_write s buf ≡ (write_loop (suc (length buf)) f 0 buf s.priv >>= finish_write s)
  unfolding strm_write
  strm_write-open s buf f hw hc = rw (hw, hc) refl

  finished :
      (s : Strm D) (buf : Bytes) (st : State) (r : Option ℕ) (d : D) (mid : State)
      → strm_write s buf st ≡ finish_write s (r, d) mid
      → IsSent 0 s.priv buf d r
      → WritesPart s buf st
  finished s buf st none d mid h e = (err, record s { priv = d }, mid, h, inl (refl, e))
  finished s buf st (some n) d mid h (t, rest, hb, hn, hs, hf) =
      let (after, runs, number) = return_int-runs n mid in
      (
        ok,
        record s { priv = d },
        after,
        h ∙ ground (arith, runs),
        inr (
          refl,
          (
            t,
            rest,
            number
                ∙ ap (λ x. some (record blank_obj { i = pos x; is_int = true }))
                    (omega (arith, hn)),
            hb,
            hs,
            hf,
          ),
        ),
      )

  -- Where the device takes a first part of what it is given, b6b_strm_write ends on an open stream,
  -- with fuel that is enough: either the device failed, or `_` is the number of bytes that went out,
  -- which are the first ones in order, and less than all only where the device was full.
  pub strm_write_lem :
      (s : Strm D) (buf : Bytes) (f : D → Bytes → M (Option ℕ × D)) (st : State)
      → s.ops.write ≡ some f
      → s.closed ≡ false
      → IsSink f
      → WritesPart s buf st
  unfolding Rounds
  strm_write_lem s buf f st hw hc sink =
      let e = write_loop-Ends f sink (suc (length buf)) 0 buf s.priv st (omega arith) in
      finished s buf st e.reply e.dev e.after
        (ap (λ m. m st) (strm_write-open s buf f hw hc)
          ∙ done-bind (write_loop (suc (length buf)) f 0 buf s.priv) (finish_write s) st _ e.after
              e.runs)
        e.exact
