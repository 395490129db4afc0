-- ===== src/Strm/Read.antt =====
-- b6b_strm_read in src/b6b_strm.c over any device that keeps to the contract.
use b6b.Base.{
  ℕ, suc, ◌≤◌, ◌<◌, ◌≡◌, refl, sym, ap, ◌∙◌, ◌⊎◌, inl, inr, true, false, Option, none, some, [],
  ◌++◌, arith, length, Bytes,
}
use b6b.Store.{State, Res, ok, err, blank_obj}
use b6b.Store.Monad.{
  M, done, ◌>>=◌, done-bind, return_str, return_obj, str_copy, alloc, update_same,
}
use b6b.Strm.{Got, Filled, Strm, min, read_loop, strm_peeksz, strm_read, start_read, finish_read}
use b6b.Strm.Contract.{View, IsGuess, IsSource, Peeked, IsPeek, strm_peeksz-Peeked}
use b6b.Strm.Loop.{IsPart, Rounds, read_loop-Ends}

-- The text that is returned is that of `_`.
return_str-runs :
    (t : Bytes) (st : State)
    → (after : State) × (return_str t st ≡ done ok after)
      × (after.cell after.under ≡ some (record blank_obj { s = t; is_str = true }))
unfolding return_str return_obj str_copy alloc
return_str-runs t st = (_, refl, update_same st.cell st.next _)

module _ {D : Type 0} (v : View D) where
  open v use {pending, IsIdle, IsBroken}

  -- How b6b_strm_read ends: with an error of the device, or with a text that was pending.
  abbrev pub ReadsPart : Strm D → ℕ → State → Type 0
  ReadsPart s want st =
      (res : Res) × (s' : Strm D) × (after : State) × (strm_read s want st ≡ done (res, s') after)
      × ((res ≡ err) × IsBroken s'.priv × (s'.eof ≡ false)
          ⊎ (res ≡ ok)
            × ((t : Bytes) × (after.cell after.under
                  ≡ some (record blank_obj { s = t; is_str = true }))
                × (pending s.priv ≡ t ++ pending s'.priv)
                × (length t ≤ want)
                × (length t < want → IsIdle s'.priv)
                × (s'.eof ≡ true → pending s'.priv ≡ [])))

  module _ (s : Strm D) (f : D → ℕ → M (Option Got × D)) where
    strm_read-open :
        (want : ℕ)
        → s.ops.read ≡ some f
        → s.eof ≡ false
        → s.closed ≡ false
        → strm_read s want ≡ (strm_peeksz s.ops.peeksz s.priv >>= start_read s want f)
    unfolding strm_read
    strm_read-open want hr he hc = rw (he, hr, hc) refl

    finished :
        (want : ℕ) (st : State) (dev d : D) (b : Option Filled) (mid : State)
        → pending dev ≡ pending s.priv
        → strm_read s want st ≡ finish_read s (b, d) mid
        → s.eof ≡ false
        → IsPart v [] want dev d b
        → ReadsPart s want st
    finished want st dev d none mid hs h he p =
        (err, record s { priv = d }, mid, h, inl (refl, p, he))
    finished want st dev d (some b) mid hs h he (t, ho, hp, ht, hi, hz, hl) =
        let (after, runs, text) = return_str-runs b.out mid in
        (
          ok,
          record s { priv = d; eof = b.eof },
          after,
          h ∙ ground (arith, runs),
          inr (
            refl,
            (
              t,
              text ∙ ap (λ x. some (record blank_obj { s = x; is_str = true })) ho,
              sym hs ∙ hp,
              ht,
              hi,
              hz,
            ),
          ),
        )

    -- Where the device delivers what is pending in order, b6b_strm_read ends on an open stream, with
    -- fuel that is enough: either the device failed, or `_` is a text of at most `want` bytes that was
    -- next, shorter only where the device was idle, and nothing is lost or read twice; the end is noted
    -- only where nothing is pending.
    pub strm_read_lem :
        (want : ℕ) (st : State)
        → s.ops.read ≡ some f
        → s.closed ≡ false
        → s.eof ≡ false
        → IsSource v f
        → IsPeek v s.ops.peeksz
        → ReadsPart s want st
    unfolding strm_read Rounds
    strm_read_lem want st hr hc he source peeks = start p.reply p.dev p.after opened p.exact
      where
        p : Peeked v (strm_peeksz s.ops.peeksz s.priv) s.priv st
        p = strm_peeksz-Peeked v s.ops.peeksz peeks s.priv st

        opened : strm_read s want st ≡ start_read s want f (p.reply, p.dev) p.after
        opened =
            ap (λ m. m st) (strm_read-open want hr he hc)
            ∙ done-bind (strm_peeksz s.ops.peeksz s.priv) (start_read s want f) st _ p.after p.runs

        start :
            (r : Option ℕ) (dev : D) (mid : State)
            → strm_read s want st ≡ start_read s want f (r, dev) mid
            → IsGuess v s.priv dev r
            → ReadsPart s want st
        start none dev mid h g = (err, record s { priv = dev }, mid, h, inl (refl, g, he))
        start (some est) dev mid h (hs, hi) =
            let e =
              read_loop-Ends v s.ops.peeksz f source peeks (suc want) 1 [] want (min est want) dev
                mid (omega arith) (ground arith) (omega arith) (λ z l. hi (ground arith)) in
            finished want st dev e.dev e.reply e.after hs
              (h
                ∙ done-bind (read_loop (suc want) s.ops.peeksz f 1 [] want (min est want) dev)
                    (finish_read s) mid _ e.after e.runs)
              he e.exact
