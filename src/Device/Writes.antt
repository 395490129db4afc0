-- ===== src/Device/Writes.antt =====
-- b6b_stdio_write in src/b6b_stdio.c: the contract that b6b_strm_write relies on, and with it what a
-- script writes to a file.
use b6b.Base.{
  length-drop, ℕ, zero, suc, ◌+◌, ◌≤◌, ◌<◌, ◌≡◌, refl, sym, ap, ◌∙◌, ◌⊎◌, inl, inr, Bool, true,
  false, Option, none, List, some, [], ◌∷◌, ◌++◌, append_assoc, append-nil, arith, ltb, ◌==◌,
  if◌then◌else◌, length, take, drop, take-append-drop, Bytes,
}
use b6b.Base.Int.{pos}
use b6b.Store.{State, Res, ok, err, blank_obj}
use b6b.Store.Monad.{M, done, done-bind, pure, str_copy, return_obj}
use b6b.Strm.{Strm, strm_write}
use b6b.Strm.Write.{Outlet, IsSink, IsTaken, WritesPart, strm_write_lem}
use b6b.Device.{CFile, return_strerror}
use b6b.Device.Stdio.{StdioStrm, fail, fwrite_loop, stdio_write}

take-all {ℓ} : {A : Type ℓ} (n : ℕ) (xs : List A) → length xs ≤ n → take n xs ≡ xs
take-all zero [] h = refl
take-all zero (x ∷ xs) h = absurd (omega arith)
take-all (suc n) [] h = refl
take-all (suc n) (x ∷ xs) h = ap (◌∷◌ x) (take-all n xs (omega arith))

-- A FILE that is written to, as the C library documents it: a first part of the bytes is taken, and
-- less than all only with the error indicator set. `Failed` holds where an error was seen.
pub record IsWritable {F : Type 0} (l : CFile F) (written : F → Bytes) (Failed : F → Type 0)
    : Type 0 where
  pub takes :
      (fp : F) (buf : Bytes)
      → ((l.fwrite fp buf).0 ≤ length buf)
        × (written (l.fwrite fp buf).1 ≡ written fp ++ take (l.fwrite fp buf).0 buf)
        × ((l.fwrite fp buf).0 < length buf → l.ferror (l.fwrite fp buf).1 ≡ true)
  pub clears : (fp : F) → l.ferror fp ≡ true → Failed (l.clearerr fp)

return_strerror-ends :
    (t : Option Bytes) (st : State) → (after : State) × (return_strerror t st ≡ done err after)
unfolding return_strerror str_copy return_obj
return_strerror-ends none st = (st, refl)
return_strerror-ends (some t) st = (_, refl)

module _ {F : Type 0} ⦃l : CFile F⦄ (written : F → Bytes) (Failed : F → Type 0)
    (writable : IsWritable l written Failed) where
  -- What b6b_stdio_write does where it starts with `total`: all is written, or an error was seen.
  abbrev IsAll : ℕ → Bytes → StdioStrm F → StdioStrm F → Option ℕ → Type 0
  IsAll total buf s dev none = Failed dev.fp
  IsAll total buf s dev (some n) = (n ≡ total + length buf) × (written dev.fp ≡ written s.fp ++ buf)

  record Ends (m : M (Option ℕ × StdioStrm F)) (total : ℕ) (buf : Bytes) (s : StdioStrm F)
      (st : State) : Type 0 where
    reply : Option ℕ
    dev : StdioStrm F
    after : State
    runs : m st ≡ done (reply, dev) after
    exact : IsAll total buf s dev reply

  fail-Ends :
      (e total : ℕ) (buf : Bytes) (s dev : StdioStrm F) (st : State)
      → Failed dev.fp
      → Ends (fail e dev) total buf s st
  unfolding fail
  fail-Ends e total buf s dev st h =
      let (after, runs) = return_strerror-ends (l.strerror e) st in
      record {
        reply = none;
        dev = dev;
        after = after;
        runs = done-bind (return_strerror (l.strerror e)) (λ _. pure (none, dev)) st err after runs;
        exact = h;
      }

  if-Ends :
      (b : Bool) (m n : M (Option ℕ × StdioStrm F)) (total : ℕ) (buf : Bytes) (s : StdioStrm F)
      (st : State)
      → (b ≡ true → Ends m total buf s st)
      → (b ≡ false → Ends n total buf s st)
      → Ends (if b then m else n) total buf s st
  if-Ends true m n total buf s st hm hn = hm refl
  if-Ends false m n total buf s st hm hn = hn refl

  -- Behind a round that wrote the first `ret` bytes.
  longer :
      (total ret : ℕ) (buf : Bytes) (s dev : StdioStrm F) (fp : F) (r : Option ℕ)
      → written fp ≡ written s.fp ++ take ret buf
      → ret ≤ length buf
      → IsAll (total + ret) (drop ret buf) (record s { fp = fp }) dev r
      → IsAll total buf s dev r
  longer total ret buf s dev fp none hw hr h = h
  longer total ret buf s dev fp (some n) hw hr (hn, h) = (
    omega (arith, hn, length-drop ret buf),
    h
        ∙ ap (λ x. x ++ drop ret buf) hw
        ∙ append_assoc (written s.fp) (take ret buf) (drop ret buf)
        ∙ ap (λ x. written s.fp ++ x) (take-append-drop ret buf),
  )

  fwrite_loop-Ends :
      (k total : ℕ) (buf : Bytes) (s : StdioStrm F) (st : State)
      → length buf < k
      → Ends (fwrite_loop k total buf s) total buf s st
  unfolding fwrite_loop
  fwrite_loop-Ends zero total buf s st hk = absurd (omega arith)
  fwrite_loop-Ends (suc k) total buf s st hk =
      let ret = (l.fwrite s.fp buf).0 in
      let fp = (l.fwrite s.fp buf).1 in
      let (small, grown, short) = writable.takes s.fp buf in
      let full : (total n : ℕ)
          → length buf ≤ ret
          → n ≡ total + length buf
          → Ends (pure (some n, record s { fp = fp })) total buf s st =
        λ total n h q. record {
          reply = some n;
          dev = record s { fp = fp };
          after = st;
          runs = refl;
          exact = (q, grown ∙ ap (λ x. written s.fp ++ x) (take-all ret buf h));
        } in
      if-Ends (ret == 0) _ _ total buf s st
        (λ z.
          if-Ends (l.ferror fp) _ _ total buf s st
            (λ q. fail-Ends (l.errno fp) total buf s _ st (writable.clears fp q))
            λ q. full total total (ground arith) (ground arith))
        λ nz.
          if-Ends (ltb ret (length buf)) _ _ total buf s st
            (λ less.
              let e =
                fwrite_loop-Ends k (total + ret) (drop ret buf) (record s { fp = fp }) st
                  (ground (arith, length-drop ret buf)) in
              record {
                reply = e.reply;
                dev = e.dev;
                after = e.after;
                runs = e.runs;
                exact = longer total ret buf s e.dev fp e.reply grown small e.exact;
              })
            λ all. full total (total + ret) (ground arith) (ground arith)

  abbrev pub file_outlet : Outlet (StdioStrm F)
  file_outlet = record { sent = λ s. written s.fp; IsFull = λ s. ⊥; IsBroken = λ s. Failed s.fp }

  pub stdio_write-IsSink : IsSink file_outlet stdio_write
  unfolding stdio_write
  stdio_write-IsSink s buf st h =
      let e = fwrite_loop-Ends (suc (length buf)) 0 buf s st (omega arith) in
      record {
        reply = e.reply;
        dev = e.dev;
        after = e.after;
        runs = e.runs;
        exact = taken e.reply e.dev e.exact;
      }
    where
      taken :
          (r : Option ℕ) (dev : StdioStrm F) → IsAll 0 buf s dev r → IsTaken file_outlet s buf dev r
      taken none dev q = q
      taken (some n) dev (hn, hw) =
          (buf, [], sym (append-nil buf), omega (arith, hn), hw, λ z. absurd (omega (arith, hn)))

  -- All is written, or an error was seen.
  abbrev pub WritesFile : Strm (StdioStrm F) → Bytes → State → Type 0
  WritesFile s buf st =
      (res : Res) × (s' : Strm (StdioStrm F)) × (after : State) × (strm_write s buf st
        ≡ done (res, s') after)
      × ((res ≡ err) × Failed s'.priv.fp
          ⊎ (res ≡ ok)
            × (after.cell after.under
                ≡ some (record blank_obj { i = pos (length buf); is_int = true }))
            × (written s'.priv.fp ≡ written s.priv.fp ++ buf))

  -- Writing to an open stream over a FILE ends: either the whole text stands behind what was written
  -- before, and `_` is its length, or the C library told of an error, and it ends with an error.
  pub file_write_lem :
      (s : Strm (StdioStrm F)) (buf : Bytes) (st : State)
      → s.ops.write ≡ some stdio_write
      → s.closed ≡ false
      → WritesFile s buf st
  file_write_lem s buf st hw hc =
      go (strm_write_lem file_outlet s buf stdio_write st hw hc stdio_write-IsSink)
    where
      go : WritesPart file_outlet s buf st → WritesFile s buf st
      go (res, s', after, runs, inl h) = (res, s', after, runs, inl h)
      go (res, s', after, runs, inr (good, (t, rest, number, hb, hs, inr full))) = absurd full
      go (res, s', after, runs, inr (good, (t, rest, number, hb, hs, inl none_left))) =
          let same : buf ≡ t = hb ∙ ap (λ x. t ++ x) none_left ∙ append-nil t in
          (
            res,
            s',
            after,
            runs,
            inr (
              good,
              number
                  ∙ ap (λ x. some (record blank_obj { i = pos (length x); is_int = true }))
                      (sym same),
              hs ∙ ap (λ x. written s.priv.fp ++ x) (sym same),
            ),
          )
