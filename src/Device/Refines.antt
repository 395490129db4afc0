-- ===== src/Device/Refines.antt =====
-- b6b_stdio_peeksz and b6b_stdio_read in src/b6b_stdio.c, over a regular file: the contract that
-- b6b_strm_read relies on, and with it what a script reads.
use b6b.Base.{
  ℕ, zero, suc, ◌+◌, ◌≤◌, ◌<◌, ◌≡◌, refl, sym, ap, ◌∙◌, inl, inr, Bool, true, false, ◌&&◌, Option,
  none, some, List, [], ◌∷◌, ◌++◌, arith, ltb, if◌then◌else◌, length, take, drop, take-append-drop,
  Bytes,
}
use native.Mathlib.Nat.{zero-add, suc-add}
use b6b.Store.{State, ok, blank_obj}
use b6b.Store.Monad.{M, done}
use b6b.Strm.{Strm, strm_read}
use b6b.Strm.Contract.{View, IsGuess, Peeked, IsSource, IsPeek}
use b6b.Strm.Read.{ReadsPart, strm_read_lem}
use b6b.Strm.Procs.{ssize_max}
use b6b.Device.{CFile}
use b6b.Device.Stdio.{StdioStrm, stdio_peeksz, stdio_read, peek_size}

drop_nil {ℓ} : {A : Type ℓ} (n : ℕ) → drop {A = A} n [] ≡ []
drop_nil zero = refl
drop_nil (suc n) = refl

drop-drop {ℓ} : {A : Type ℓ} (a b : ℕ) (xs : List A) → drop (a + b) xs ≡ drop b (drop a xs)
drop-drop zero b xs = simp zero-add refl
drop-drop (suc a) b [] = simp suc-add (sym (drop_nil b))
drop-drop (suc a) b (x ∷ xs) = simp suc-add (drop-drop a b xs)

-- Behind the part that was taken, and where it is shorter than asked for, which is all that was left.
drop-length-take {ℓ} :
    {A : Type ℓ} (n : ℕ) (xs : List A)
    → (drop (length (take n xs)) xs ≡ drop n xs)
      × (length (take n xs) ≤ n)
      × (length (take n xs) < n → drop n xs ≡ [])
drop-length-take zero xs = (refl, omega arith, λ h. absurd (omega arith))
drop-length-take (suc n) [] = (refl, omega arith, λ h. refl)
drop-length-take (suc n) (x ∷ xs) =
    let (d, l, s) = drop-length-take n xs in (d, omega arith, λ h. s (omega arith))

not_over : (n : ℕ) → n ≤ ssize_max → ltb ssize_max n ≡ false
not_over n h = ground arith

take-prefix {ℓ} :
    {A : Type ℓ} (n : ℕ) (t rest : List A)
    → length t ≤ n
    → (length t < n → rest ≡ [])
    → (t ≡ take n (t ++ rest)) × (rest ≡ drop n (t ++ rest))
take-prefix zero [] rest h hr = (refl, refl)
take-prefix zero (x ∷ t) rest h hr = absurd (omega arith)
take-prefix (suc n) [] rest h hr = rw (hr (omega arith)) (refl, refl)
take-prefix (suc n) (x ∷ t) rest h hr =
    let (a, b) = take-prefix n t rest (omega arith) (λ q. hr (omega arith)) in (ap (◌∷◌ x) a, b)

and_false : (b : Bool) → (b && false) ≡ false
and_false true = refl
and_false false = refl

drop-all {ℓ} : {A : Type ℓ} (n : ℕ) (xs : List A) → length xs ≤ n → drop n xs ≡ []
drop-all zero [] h = refl
drop-all zero (x ∷ xs) h = absurd (omega arith)
drop-all (suc n) [] h = refl
drop-all (suc n) (x ∷ xs) h = drop-all n xs (omega arith)

-- A regular file, as the C library documents it: bytes and a position, which seeking sets and
-- reading moves, and no error.
pub record IsRegular {F : Type 0} (l : CFile F) (contents : F → Bytes) (at : F → ℕ) : Type 0 where
  pub tells : (fp : F) → (l.ftello fp ≡ some (at fp)) × (at fp ≤ ssize_max)
  pub seeks_end :
      (fp : F)
      → ((l.seek_end fp).0 ≡ none)
        × (contents (l.seek_end fp).1 ≡ contents fp)
        × (at (l.seek_end fp).1 ≡ length (contents fp))
  pub seeks_set :
      (fp : F) (n : ℕ)
      → n ≤ length (contents fp)
      → ((l.seek_set fp n).0 ≡ none)
        × (contents (l.seek_set fp n).1 ≡ contents fp)
        × (at (l.seek_set fp n).1 ≡ n)
  pub reads :
      (fp : F) (n : ℕ)
      → ((l.fread fp n).0 ≡ take n (drop (at fp) (contents fp)))
        × (contents (l.fread fp n).1 ≡ contents fp)
        × (at (l.fread fp n).1 ≡ at fp + length (l.fread fp n).0)
        × (l.ferror (l.fread fp n).1 ≡ false)
        × (l.feof (l.fread fp n).1 ≡ ltb (length (l.fread fp n).0) n)

module _ {F : Type 0} ⦃l : CFile F⦄ (contents : F → Bytes) (at : F → ℕ)
    (regular : IsRegular l contents at) where
  -- What is left of the file.
  abbrev pub unread : StdioStrm F → Bytes
  unread s = drop (at s.fp) (contents s.fp)

  -- A regular file is idle only at its end, and does not fail.
  abbrev pub file_view : View (StdioStrm F)
  file_view = record { pending = unread; IsIdle = λ s. unread s ≡ []; IsBroken = λ s. ⊥ }

  -- The FILE that b6b_stdio_peeksz leaves is where it was.
  same-IsGuess :
      (s : StdioStrm F) (fp : F) (here n : ℕ)
      → contents fp ≡ contents s.fp
      → drop (at fp) (contents s.fp) ≡ unread s
      → IsGuess file_view s (record s { fp = fp }) (some (peek_size here n))
  same-IsGuess s fp here n hc ha = (ap (drop (at fp)) hc ∙ ha, λ z. absurd (ground arith))

  if-Peeked :
      (b : Bool) (m n : M (Option ℕ × StdioStrm F)) (s : StdioStrm F) (st : State)
      → (b ≡ true → Peeked file_view m s st)
      → (b ≡ false → Peeked file_view n s st)
      → Peeked file_view (if b then m else n) s st
  if-Peeked true m n s st hm hn = hm refl
  if-Peeked false m n s st hm hn = hn refl

  module _ (s : StdioStrm F) (st : State) where
    -- The FILE behind the first fseeko.
    abbrev end_fp : F
    end_fp = (l.seek_end s.fp).1

    stdio_peeksz-Peeked : Peeked file_view (stdio_peeksz s) s st
    unfolding stdio_peeksz
    stdio_peeksz-Peeked =
        let (t, small) = regular.tells s.fp in
        let (te, small_e) = regular.tells end_fp in
        let (se, ce, at_e) = regular.seeks_end s.fp in
        rw (t, not_over (at s.fp) small, se, te, not_over (at end_fp) small_e)
          (if-Peeked (ltb (at s.fp) (at end_fp)) _ _ s st
            (λ before.
              let (ss, cs, at_s) =
                regular.seeks_set end_fp (at s.fp) (ground (arith, at_e, ap length ce)) in
              rw ss record {
                reply = some (peek_size (at s.fp) (at end_fp));
                dev = record s { fp = (l.seek_set end_fp (at s.fp)).1 };
                after = st;
                runs = refl;
                exact =
                    same-IsGuess s _ (at s.fp) (at end_fp) (cs ∙ ce)
                      (ap (λ n. drop n (contents s.fp)) at_s);
              })
            (λ past. record {
              reply = some (peek_size (at s.fp) (at end_fp));
              dev = record s { fp = end_fp };
              after = st;
              runs = refl;
              exact = same-IsGuess s end_fp (at s.fp) (at end_fp) ce (
                  drop-all (at end_fp) (contents s.fp) (omega (arith, at_e))
                  ∙ sym (drop-all (at s.fp) (contents s.fp) (ground (arith, at_e))));
            }))

  pub stdio_peeksz-IsPeek : IsPeek file_view (some stdio_peeksz)
  stdio_peeksz-IsPeek = stdio_peeksz-Peeked

  pub stdio_read-IsSource : IsSource file_view stdio_read
  unfolding stdio_read
  stdio_read-IsSource s n st h =
      let (hb, hc, ha, hr, he) = regular.reads s.fp n in
      let bs = (l.fread s.fp n).0 in
      let fp = (l.fread s.fp n).1 in
      let (hd, hl, hs) = drop-length-take n (unread s) in
      let behind : drop (at fp) (contents fp) ≡ drop n (unread s) =
        rw (hc, ha, drop-drop (at s.fp) (length bs) (contents s.fp), hb) hd in
      let short : ltb (length bs) n ≡ true → drop (at fp) (contents fp) ≡ [] =
        λ q. behind ∙ hs (ground (arith, ap length hb)) in
      record {
        reply = some (record { bytes = bs; eof = ltb (length bs) n && l.feof fp; again = true });
        dev = record s { fp = fp };
        after = st;
        runs = rw (hr, and_false (ltb (length bs) n)) refl;
        exact = (
          rw (behind, hb) (sym (take-append-drop n (unread s))),
          omega (arith, ap length hb, hl),
          λ e. short (ground (arith, e)),
          λ e. short (ground (arith, e)),
          λ e. absurd cc,
          λ z. short (ground (arith, z)),
        );
      }

  -- b6b_strm_read takes the next `want` bytes, or what is left.
  abbrev pub ReadsFile : Strm (StdioStrm F) → ℕ → State → Type 0
  ReadsFile s want st =
      (s' : Strm (StdioStrm F)) × (after : State) × (strm_read s want st ≡ done (ok, s') after)
      × (after.cell after.under
          ≡ some (record blank_obj { s = take want (unread s.priv); is_str = true }))
      × (unread s'.priv ≡ drop want (unread s.priv))

  -- Reading from an open stream over a regular file always succeeds: `_` is the next `want` bytes of
  -- the file, or what is left of it, and the file is left behind them.
  pub file_read_lem :
      (s : Strm (StdioStrm F)) (want : ℕ) (st : State)
      → s.ops.read ≡ some stdio_read
      → s.ops.peeksz ≡ some stdio_peeksz
      → s.closed ≡ false
      → s.eof ≡ false
      → ReadsFile s want st
  file_read_lem s want st hr hp hc he = go (
      strm_read_lem file_view s stdio_read want st hr hc he stdio_read-IsSource
        (rw hp stdio_peeksz-IsPeek))
    where
      go : ReadsPart file_view s want st → ReadsFile s want st
      go (res, s', after, runs, inl (_, broken, _)) = absurd broken
      go (res, s', after, runs, inr (good, (t, text, split, small, idle, _))) =
          let (front, back) = take-prefix want t (unread s'.priv) small idle in
          (
            s',
            after,
            rw good at runs,
            text
                ∙ ap (λ x. some (record blank_obj { s = x; is_str = true }))
                    (front ∙ ap (take want) (sym split)),
            back ∙ ap (drop want) (sym split),
          )
