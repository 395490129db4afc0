-- ===== src/Ffi/Encode.antt =====
-- src/b6b_ffi.c: the bytes between b6b_ffi_encode and b6b_ffi_decode.
use b6b.Base.{
  ℕ, ◌+◌, ◌^◌, ◌<◌, ◌≡◌, refl, sym, ap, ◌∙◌, inl, inr, true, false, ◌&&◌, Option, none, some, ◌++◌,
  arith, ltb, leb, if◌then◌else◌, Bool-cases, length, length-append, take, take-append, Bytes,
}
use b6b.Base.Int.{ℤ, pos_part, neg_part}
use b6b.Base.Words.{bytes_of, word_of, length-bytes_of, word_of-bytes_of}
use b6b.CLib.{CLib}
use b6b.Store.{Ptr, Obj, State}
use b6b.Store.Monad.{done, ◌>>=◌, load, done-bind, load-cell, pure}
use b6b.Object.{as_int, as_float}
use b6b.Control.Math.{to_bits}
use b6b.Ffi.{
  FfiType, sint, uint, slong, ulong, pointer, schar, uchar, sshort, ushort, float, double,
  type_size, lowest, highest, Num, int, flt, Floats, encode_int, decode_word, decode, encode,
}
use b6b.Ffi.Words.{decode_word-encode}

take-length : (n : ℕ) (bs rest : Bytes) → length bs ≡ n → take n (bs ++ rest) ≡ bs
take-length n bs rest h = rw (sym h) (take-append bs rest)

module _ ⦃f : Floats⦄ where
  decode-append :
      (t : FfiType) (val rest : Bytes)
      → length val ≡ type_size t
      → decode t (val ++ rest) ≡ some (decode_word t (word_of val))
  unfolding decode
  decode-append t val rest h =
      let enough : ltb (length (val ++ rest)) (type_size t) ≡ false =
        ground (arith, length-append val rest) in
      rw (enough, take-length (type_size t) val rest h) refl

  -- What a type's value is read back as, where the object has the representation that the type asks
  -- for: an integer is itself, and a float is rounded to what the type holds.
  unfoldable pub Shows : FfiType → Obj → Num → Type 0
  Shows float o x =
      (o.is_float ≡ true) × (f.narrow o.f < 2 ^ 32) × (x ≡ flt (f.widen (f.narrow o.f)))
  Shows double o x = (o.is_float ≡ true) × (o.f < 2 ^ 64) × (x ≡ flt o.f)
  Shows t o x = (o.is_int ≡ true) × (x ≡ int o.i)

  -- What b6b_ffi_encode makes of such an object.
  unfoldable pub Encoded : FfiType → Option Bytes → Num → Type 0
  Encoded t none x = Unit
  Encoded t (some val) x =
      (length val ≡ type_size t) × ((rest : Bytes) → decode t (val ++ rest) ≡ some x)

  encode_int-Encoded :
      (t : FfiType) (i : ℤ) → 0 < lowest t + highest t → Encoded t (encode_int t i) (int i)
  unfolding encode_int Encoded
  encode_int-Encoded t i k =
      elim (Bool-cases (leb (neg_part i) (lowest t) && leb (pos_part i) (highest t))) [
        | inl q ↦ rw q (
          length-bytes_of (type_size t) (to_bits i),
          λ rest.
              decode-append t _ rest (length-bytes_of (type_size t) (to_bits i))
              ∙ ap some (decode_word-encode t i (ground arith) (ground arith) k),
        )
        | inr q ↦ rw q tt
      ]

  word-Encoded :
      (t : FfiType) (w : ℕ) (x : Num)
      → w < 256 ^ type_size t
      → decode_word t w ≡ x
      → Encoded t (some (bytes_of (type_size t) w)) x
  unfolding Encoded
  word-Encoded t w x h e = (
    length-bytes_of (type_size t) w,
    λ rest.
        decode-append t _ rest (length-bytes_of (type_size t) w)
        ∙ ap some (ap (decode_word t) (word_of-bytes_of (type_size t) w h) ∙ e),
  )

  module _ ⦃c : CLib⦄ where
    as_int-known :
        (n : ℕ) (v : Ptr) (o : Obj) (st : State)
        → st.cell v ≡ some o
        → o.is_int ≡ true
        → as_int n v st ≡ done true st
    unfolding as_int
    as_int-known n v o st h e = done-bind (load v) _ st o st (load-cell v o st h) ∙ rw e refl

    as_float-known :
        (n : ℕ) (v : Ptr) (o : Obj) (st : State)
        → st.cell v ≡ some o
        → o.is_float ≡ true
        → as_float n v st ≡ done true st
    unfolding as_float
    as_float-known n v o st h e = done-bind (load v) _ st o st (load-cell v o st h) ∙ rw e refl

    abbrev pub Encodes : ℕ → FfiType → Ptr → State → Num → Type 0
    Encodes n t v st x = (r : Option Bytes) × (encode n t v st ≡ done r st) × Encoded t r x

    module _ (n : ℕ) (v : Ptr) (o : Obj) (st : State) (h : st.cell v ≡ some o) where
      -- What is behind the conversion.
      int-Encodes :
          (t : FfiType) (x : Num)
          → 0 < lowest t + highest t
          → o.is_int ≡ true
          → x ≡ int o.i
          → encode n t v st
            ≡ (as_int n v >>= λ known.
                  load v >>= λ y. pure (if known then encode_int t y.i else none))
                st
          → Encodes n t v st x
      int-Encodes t x k e q code = (
        encode_int t o.i,
        code
            ∙ done-bind (as_int n v) _ st true st (as_int-known n v o st h e)
            ∙ done-bind (load v) _ st o st (load-cell v o st h),
        rw q (encode_int-Encoded t o.i k),
      )

      pub encode-Encodes : (t : FfiType) (x : Num) → Shows t o x → Encodes n t v st x
      unfolding encode Shows decode_word
      encode-Encodes float x (e, small, q) = (
        some (bytes_of 4 (f.narrow o.f)),
        done-bind (as_float n v) _ st true st (as_float-known n v o st h e)
            ∙ done-bind (load v) _ st o st (load-cell v o st h),
        rw q (word-Encoded float (f.narrow o.f) _ small refl),
      )
      encode-Encodes double x (e, small, q) = (
        some (bytes_of 8 o.f),
        done-bind (as_float n v) _ st true st (as_float-known n v o st h e)
            ∙ done-bind (load v) _ st o st (load-cell v o st h),
        rw q (word-Encoded double o.f _ small refl),
      )
      encode-Encodes sint x (e, q) = int-Encodes sint x (omega arith) e q refl
      encode-Encodes uint x (e, q) = int-Encodes uint x (omega arith) e q refl
      encode-Encodes slong x (e, q) = int-Encodes slong x (omega arith) e q refl
      encode-Encodes ulong x (e, q) = int-Encodes ulong x (omega arith) e q refl
      encode-Encodes pointer x (e, q) = int-Encodes pointer x (omega arith) e q refl
      encode-Encodes schar x (e, q) = int-Encodes schar x (omega arith) e q refl
      encode-Encodes uchar x (e, q) = int-Encodes uchar x (omega arith) e q refl
      encode-Encodes sshort x (e, q) = int-Encodes sshort x (omega arith) e q refl
      encode-Encodes ushort x (e, q) = int-Encodes ushort x (omega arith) e q refl
