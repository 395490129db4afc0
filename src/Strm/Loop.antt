-- ===== src/Strm/Loop.antt =====
-- The loop of b6b_strm_read in src/b6b_strm.c over any device that keeps to the contract.
use b6b.Base.{
  ℕ, zero, suc, ◌+◌, ◌-◌, ◌≤◌, ◌<◌, ◌≡◌, refl, sym, ap, ◌∙◌, inl, inr, Bool, true, false, not, ◌||◌,
  Option, none, some, [], ◌++◌, append_assoc, append-nil, arith, ltb, ◌==◌, if◌then◌else◌,
  Bool-cases, length, length-append, Bytes,
}
use b6b.Store.{State}
use b6b.Store.Monad.{M, done, ◌>>=◌, done-bind, pure}
use b6b.Strm.{Got, Filled, min, read_loop, read_got, read_next, strm_peeksz}
use b6b.Strm.Contract.{View, IsChunk, IsGuess, IsSource, IsPeek, strm_peeksz-Peeked}

module _ {D : Type 0} (v : View D) where
  open v use {pending, IsIdle, IsBroken}

  -- What is read is a first part of what was pending, put behind `out`, and the buffer holds it.
  abbrev pub IsPart : Bytes → ℕ → D → D → Option Filled → Type 0
  IsPart out want d dev none = IsBroken dev
  IsPart out want d dev (some b) =
      (t : Bytes) × (b.out ≡ out ++ t)
      × (pending d ≡ t ++ pending dev)
      × (length t ≤ want)
      × (length t < want → IsIdle dev)
      × (b.eof ≡ true → pending dev ≡ [])
      × (length b.out < b.len)

  -- The loop ends.
  pub record Ends (m : M (Option Filled × D)) (out : Bytes) (want : ℕ) (d : D) (st : State)
      : Type 0 where
    pub reply : Option Filled
    pub dev : D
    pub after : State
    pub runs : m st ≡ done (reply, dev) after
    pub exact : IsPart out want d dev reply

  Ends-bind :
      {A : Type 0} (m : M A) (k : A → M (Option Filled × D)) (a : A) (mid : State) (out : Bytes)
      (want : ℕ) (d : D) (st : State)
      → m st ≡ done a mid
      → Ends (k a) out want d mid
      → Ends (m >>= k) out want d st
  Ends-bind m k a mid out want d st h e = record {
    reply = e.reply;
    dev = e.dev;
    after = e.after;
    runs = done-bind m k st a mid h ∙ e.runs;
    exact = e.exact;
  }

  if-Ends :
      (b : Bool) (m n : M (Option Filled × D)) (out : Bytes) (want : ℕ) (d : D) (st : State)
      → (b ≡ true → Ends m out want d st)
      → (b ≡ false → Ends n out want d st)
      → Ends (if b then m else n) out want d st
  if-Ends true m n out want d st hm hn = hm refl
  if-Ends false m n out want d st hm hn = hn refl

  module _ (peek : Option (D → M (Option ℕ × D))) (f : D → ℕ → M (Option Got × D))
      (source : IsSource v f) (peeks : IsPeek v peek) where
    -- The rounds to come.
    unfoldable pub Rounds : (Bytes → ℕ → ℕ → D → M (Option Filled × D)) → ℕ → ℕ → Type 0
    Rounds again k len =
        (out : Bytes) (want est : ℕ) (d : D) (st : State)
        → want < k
        → est ≤ want
        → length out < len
        → (est ≡ 0 → 0 < want → IsIdle d)
        → Ends (again out want est d) out want d st

    stop-Ends :
        (out : Bytes) (want : ℕ) (b : Option Filled) (d dev : D) (st : State)
        → IsPart out want d dev b
        → Ends (pure (b, dev)) out want d st
    stop-Ends out want b d dev st h = record {
      reply = b;
      dev = dev;
      after = st;
      runs = refl;
      exact = h;
    }

    -- A round behind one that read `t`.
    later-Ends :
        (m : M (Option Filled × D)) (out t : Bytes) (want : ℕ) (d dev : D) (st : State)
        → pending d ≡ t ++ pending dev
        → length t ≤ want
        → Ends m (out ++ t) (want - length t) dev st
        → Ends m out want d st
    later-Ends m out t want d dev st hp ht e = record {
      reply = e.reply;
      dev = e.dev;
      after = e.after;
      runs = e.runs;
      exact = longer e.reply e.exact;
    }
      where
        longer :
            (b : Option Filled)
            → IsPart (out ++ t) (want - length t) dev e.dev b
            → IsPart out want d e.dev b
        longer none h = h
        longer (some b) (u, ho, hu, hl, hi, he, hb) = (
          t ++ u,
          ho ∙ append_assoc out t u,
          hp ∙ ap (λ x. t ++ x) hu ∙ sym (append_assoc t u (pending e.dev)),
          omega (arith, length-append t u),
          λ q. hi (omega (arith, length-append t u)),
          he,
          hb,
        )

    same-IsPart :
        (out : Bytes) (want len : ℕ) (eof : Bool) (d : D)
        → length out < len
        → (eof ≡ true → pending d ≡ [])
        → (0 < want → IsIdle d)
        → IsPart out want d d (some (record { out = out; eof = eof; len = len }))
    same-IsPart out want len eof d h he hi =
        ([], sym (append-nil out), refl, omega arith, hi, he, h)

    -- Behind a part `t` that was read, with more wanted: the second b6b_strm_peeksz.
    peek-Ends :
        (again : Bytes → ℕ → ℕ → D → M (Option Filled × D)) (k len : ℕ) (out t : Bytes) (want : ℕ)
        (eof : Bool) (d dev dev' : D) (r : Option ℕ) (st : State)
        → Rounds again k len
        → IsGuess v dev dev' r
        → pending d ≡ t ++ pending dev
        → length t ≤ want
        → want - length t < k
        → 0 < want - length t
        → length (out ++ t) < len
        → (eof ≡ true → pending dev ≡ [])
        → Ends
            (read_next
              (again (out ++ t))
              (want - length t)
              (record { out = out ++ t; eof = eof; len = len })
              (r, dev'))
            out
            want
            d
            st
    unfolding Rounds
    peek-Ends again k len out t want eof d dev dev' none st h hg hp ht hw hz hl he =
        stop-Ends _ _ _ _ _ _ hg
    peek-Ends again k len out t want eof d dev dev' (some est) st h (hs, hi) hp ht hw hz hl he =
        later-Ends _ out t want d dev' st (hp ∙ ap (λ x. t ++ x) (sym hs)) ht (
          if-Ends (est == 0) _ _ (out ++ t) (want - length t) dev' st
            (λ q. stop-Ends (out ++ t) (want - length t) (some _) dev' dev' st (
              same-IsPart (out ++ t) (want - length t) len eof dev' hl (λ e. hs ∙ he e)
                (λ _. hi q)))
            λ q.
              h (out ++ t) (want - length t) (min est (want - length t)) dev' st hw (ground arith)
                hl (λ e. absurd (ground arith)))

    got-Ends :
        (again : Bytes → ℕ → ℕ → D → M (Option Filled × D)) (k len : ℕ) (out : Bytes) (want est : ℕ)
        (d dev : D) (r : Option Got) (st : State)
        → Rounds again k len
        → IsChunk v d est dev r
        → want < suc k
        → est ≤ want
        → length out + est < len
        → Ends (read_got again peek want est len out (r, dev)) out want d st
    got-Ends again k len out want est d dev none st h c hw he hl = stop-Ends _ _ _ _ _ _ c
    got-Ends again k len out want est d dev (some g) st h (c, l, e, ei, ai, zi) hw he hl =
        if-Ends (ltb est (length g.bytes)) _ _ out want d st (λ over. absurd (ground arith))
          λ _.
            if-Ends g.eof _ _ out want d st (λ q. stop (λ _. ei q))
              λ _.
                if-Ends (length g.bytes == 0 || not g.again) _ _ out want d st
                  (λ q. stop (λ _. idle q))
                  λ more.
                    if-Ends (want - length g.bytes == 0) _ _ out want d st
                      (λ q. stop (λ less. absurd (ground arith)))
                      λ left.
                        let p = strm_peeksz-Peeked v peek peeks dev st in
                        Ends-bind (strm_peeksz peek dev) _ _ p.after out want d st p.runs (
                          peek-Ends again k len out g.bytes want g.eof d dev p.dev p.reply p.after h
                            p.exact c (omega arith) (ground arith) (ground arith)
                            (omega (arith, length-append out g.bytes)) e)
      where
        b : Filled
        b = record { out = out ++ g.bytes; eof = g.eof; len = len }

        stop : (length g.bytes < want → IsIdle dev) → Ends (pure (some b, dev)) out want d st
        stop hi =
            stop-Ends out want (some b) d dev st
              (g.bytes, refl, c, omega arith, hi, e, omega (arith, length-append out g.bytes))

        idle : (length g.bytes == 0 || not g.again) ≡ true → IsIdle dev
        idle q = elim (Bool-cases g.again) [ inl t ↦ zi (ground arith) | inr f ↦ ai f ]

    pub read_loop-Ends : (k len : ℕ) → Rounds (read_loop k peek f len) k len
    unfolding read_loop Rounds
    read_loop-Ends zero len out want est d st h he hl hi = absurd (omega arith)
    read_loop-Ends (suc k) len out want est d st h he hl hi =
        if-Ends (est == 0) _ _ out want d st
          (λ q. stop-Ends out want (some _) d d st (
            same-IsPart out want (len + est) false d (omega arith) (λ q. absurd cc)
              (hi (ground arith))))
          λ some_room.
            if-Ends (ltb (len + est) (length out + est)) _ _ out want d st
              (λ over. absurd (ground arith))
              λ _.
                let s = source d est st (ground arith) in
                Ends-bind (f d est) _ _ s.after out want d st s.runs (
                  got-Ends (read_loop k peek f (len + est)) k (len + est) out want est d s.dev
                    s.reply s.after (read_loop-Ends k (len + est)) s.exact h he (omega arith))
