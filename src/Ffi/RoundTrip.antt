-- ===== src/Ffi/RoundTrip.antt =====
-- src/b6b_ffi.c: the bytes between `ffi.pack` and `ffi.unpack`.
use b6b.Base.{
  ℕ, zero, suc, ◌+◌, ◌≤◌, ◌<◌, ◌≡◌, refl, sym, ap, ◌∙◌, inl, inr, Bool, false, Option, none, some,
  List, [], ◌∷◌, ◌++◌, append_assoc, append-nil, arith, ltb, leb, Bool-cases, length, length-append,
  drop, drop-append, Bytes,
}
use mathlib.Core.Option.{some-injective}
use mathlib.Core.Path.{subst}
use b6b.CLib.{CLib}
use b6b.Store.{Ptr, Obj, State}
use b6b.Store.Monad.{M, done, ◌>>=◌, done-bind}
use b6b.Object.{is_empty}
use b6b.Ffi.{
  FfiType, sint, uint, slong, ulong, pointer, schar, uchar, sshort, ushort, float, double,
  type_size, ffi_type, Num, Floats, decode, encode,
}
use b6b.Ffi.Struct.{
  max_struct_size, zeros, gap, append_value, next_field, unpack_fields, pack_next, pack_value,
  pack_type, pack_loop,
}
use b6b.Ffi.Encode.{Shows, Encoded, encode-Encodes}

pub length-zeros : (n : ℕ) → length (zeros n) ≡ n
length-zeros zero = refl
length-zeros (suc n) = ap suc (length-zeros n)

nonempty : (bs : Bytes) → 0 < length bs → is_empty bs ≡ false
nonempty [] h = absurd (omega arith)
nonempty (b ∷ bs) h = refl

type_size_pos : (t : FfiType) → 0 < type_size t
type_size_pos sint = omega arith
type_size_pos uint = omega arith
type_size_pos slong = omega arith
type_size_pos ulong = omega arith
type_size_pos pointer = omega arith
type_size_pos schar = omega arith
type_size_pos uchar = omega arith
type_size_pos sshort = omega arith
type_size_pos ushort = omega arith
type_size_pos float = omega arith
type_size_pos double = omega arith

-- Behind `n` bytes.
drop-length : (n : ℕ) (bs rest : Bytes) → length bs ≡ n → drop n (bs ++ rest) ≡ rest
drop-length n bs rest h = rw (sym h) (drop-append bs rest)

module _ ⦃f : Floats⦄ where
  module _ ⦃c : CLib⦄ where
    -- The letters stand for types, and the objects for what is read back; more objects do not count.
    unfoldable pub Values : (Ptr → Option Obj) → Bytes → List Ptr → List Num → Type 0
    Values m [] vs [] = Unit
    Values m (ch ∷ fmt) (v ∷ vs) (x ∷ xs) =
        ((t : FfiType) × (o : Obj) × (ffi_type ch ≡ some t) × (m v ≡ some o) × Shows t o x)
        × Values m fmt vs xs
    Values _ _ _ _ = ⊥

    -- A round that goes on wrote its value.
    went_on :
        (again : Bytes → M (Option Bytes)) (packed : Bool) (t : FfiType) (buf final : Bytes)
        (r : Option Bytes) (st st' : State)
        → pack_value again packed t buf r st ≡ done (some final) st'
        → (val : Bytes) × (buf' : Bytes) × (r ≡ some val)
          × (append_value packed t buf val ≡ some buf')
          × (again buf' st ≡ done (some final) st')
    went_on again packed t buf final none st st' e = absurd cc
    went_on again packed t buf final (some val) st st' e = go (append_value packed t buf val) refl e
      where
        go :
            (a : Option Bytes)
            → append_value packed t buf val ≡ a
            → pack_next again a st ≡ done (some final) st'
            → (val' : Bytes) × (buf' : Bytes) × (some val ≡ some val')
              × (append_value packed t buf val' ≡ some buf')
              × (again buf' st ≡ done (some final) st')
        go none q e = absurd cc
        go (some buf') q e = (val, buf', refl, q, e)

    appended :
        (packed : Bool) (t : FfiType) (buf val buf' : Bytes)
        → append_value packed t buf val ≡ some buf'
        → length val ≡ type_size t
        → (buf' ≡ buf ++ (zeros (gap packed t (length buf)) ++ val))
          × (length buf' ≡ length buf + gap packed t (length buf) + type_size t)
          × (length buf' ≤ max_struct_size)
    unfolding append_value
    appended packed t buf val buf' e h =
        let start = length buf + gap packed t (length buf) in
        elim (Bool-cases (ltb max_struct_size start)) [
          | inl q ↦ absurd (ground (arith, e, q))
          | inr q ↦ elim (Bool-cases (ltb max_struct_size (start + type_size t))) [
            | inl p ↦ absurd (ground (arith, e, q, p))
            | inr p ↦
                let eq : buf' ≡ buf ++ (zeros (gap packed t (length buf)) ++ val) =
                  sym (some-injective _ _ (rw (q, p) at e)) in
                let len : length buf' ≡ start + type_size t =
                  ap length eq
                  ∙ omega (
                    arith,
                    length-append buf (zeros (gap packed t (length buf)) ++ val),
                    length-append (zeros (gap packed t (length buf))) val,
                    length-zeros (gap packed t (length buf)),
                  ) in
                (eq, len, ground (arith, len, p))
          ]
        ]

    -- What `ffi.pack` writes behind `buf` is read back from there.
    Unpacks : Bool → Bytes → List Num → Bytes → Bytes → Type 0
    Unpacks packed fmt xs buf final =
        (tail : Bytes) × (final ≡ buf ++ tail)
        × (unpack_fields packed fmt (length buf) tail ≡ some xs)
        × (length final ≤ max_struct_size)

    next_field-some :
        (again : ℕ → Bytes → Option (List Num)) (t : FfiType) (pad off : ℕ) (rest : Bytes) (x : Num)
        (xs : List Num)
        → pad < length rest
        → decode t (drop pad rest) ≡ some x
        → again (off + pad + type_size t) (drop (type_size t) (drop pad rest)) ≡ some xs
        → next_field again t pad off rest ≡ some (x ∷ xs)
    next_field-some again t pad off rest x xs h hd ha =
        let room : leb (length rest) pad ≡ false = ground arith in rw (room, hd, ha) refl

    field-Unpacks :
        (packed : Bool) (ch : ℕ) (fmt : Bytes) (t : FfiType) (x : Num) (xs : List Num)
        (buf val buf' final : Bytes)
        → ffi_type ch ≡ some t
        → append_value packed t buf val ≡ some buf'
        → length val ≡ type_size t
        → ((rest : Bytes) → decode t (val ++ rest) ≡ some x)
        → Unpacks packed fmt xs buf' final
        → Unpacks packed (ch ∷ fmt) (x ∷ xs) buf final
    unfolding Unpacks unpack_fields
    field-Unpacks packed ch fmt t x xs buf val buf' final ht ha hl hd (tail, split, reads, fits) =
        let (eq, len, _) = appended packed t buf val buf' ha hl in
        let pad = gap packed t (length buf) in
        let rest = val ++ tail in
        let longer : pad < length (zeros pad ++ rest) = omega (
          arith,
          length-append (zeros pad) rest,
          length-append val tail,
          length-zeros pad,
          hl,
          type_size_pos t,
        ) in
        let some_left = nonempty (zeros pad ++ rest) (omega (arith, longer)) in
        let behind : drop pad (zeros pad ++ rest) ≡ rest =
          drop-length pad (zeros pad) rest (length-zeros pad) in
        (
          zeros pad ++ rest,
          split
              ∙ ap (λ b. b ++ tail) eq
              ∙ append_assoc buf (zeros pad ++ val) tail
              ∙ ap (λ b. buf ++ b) (append_assoc (zeros pad) val tail),
          rw (some_left, ht)
              (next_field-some (unpack_fields packed fmt) t pad (length buf) (zeros pad ++ rest) x
                xs longer (ap (decode t) behind ∙ hd tail)
                (ap (unpack_fields packed fmt (length buf + pad + type_size t))
                    (ap (drop (type_size t)) behind ∙ drop-length (type_size t) val tail hl)
                  ∙ ap (λ k. unpack_fields packed fmt k tail) (sym len)
                  ∙ reads)),
          fits,
        )

    pack_loop-cons :
        (n : ℕ) (packed : Bool) (ch : ℕ) (fmt : Bytes) (v : Ptr) (vs : List Ptr) (buf : Bytes)
        (t : FfiType) (st : State)
        → ffi_type ch ≡ some t
        → pack_loop n packed (ch ∷ fmt) (v ∷ vs) buf st
          ≡ (encode n t v >>= pack_value (pack_loop n packed fmt vs) packed t buf) st
    unfolding pack_loop
    pack_loop-cons n packed ch fmt v vs buf t st ht =
        ap (λ k. pack_type n (pack_loop n packed fmt vs) packed buf v k st) ht

    pack_loop-Unpacks :
        (n : ℕ) (packed : Bool) (fmt : Bytes) (vs : List Ptr) (xs : List Num) (buf final : Bytes)
        (st st' : State)
        → Values st.cell fmt vs xs
        → length buf ≤ max_struct_size
        → pack_loop n packed fmt vs buf st ≡ done (some final) st'
        → Unpacks packed fmt xs buf final
    unfolding pack_loop Values Unpacks Encoded unpack_fields
    pack_loop-Unpacks n packed [] vs [] buf final st st' h fits e =
        let same : final ≡ buf = cc in ([], same ∙ sym (append-nil buf), refl, rw same fits)
    pack_loop-Unpacks n packed [] vs (x ∷ xs) buf final st st' h fits e = absurd h
    pack_loop-Unpacks n packed (ch ∷ fmt) [] xs buf final st st' h fits e = absurd cc
    pack_loop-Unpacks n packed (ch ∷ fmt) (v ∷ vs) [] buf final st st' h fits e = absurd h
    pack_loop-Unpacks n packed (ch ∷ fmt) (v ∷ vs) (x ∷ xs) buf final st st'
          ((t, o, ht, ho, shows), more) fits e =
        let (r, runs, enc) = encode-Encodes n v o st ho t x shows in
        let (val, buf', q, a, e') =
          went_on (pack_loop n packed fmt vs) packed t buf final r st st' (
            sym (done-bind (encode n t v) _ st r st runs)
            ∙ sym (pack_loop-cons n packed ch fmt v vs buf t st ht)
            ∙ e) in
        let (len, reads) = subst (λ a. Encoded t a x) q enc in
        let (_, _, fits') = appended packed t buf val buf' a len in
        field-Unpacks packed ch fmt t x xs buf val buf' final ht a len reads
          (pack_loop-Unpacks n packed fmt vs xs buf' final st st' more fits' e')

    -- Where the objects have the representations that the letters ask for, what `ffi.pack` writes fits
    -- into its buffer, and `ffi.unpack` by the same letters, padded or not, reads all the values back.
    pub unpack-pack :
        (n : ℕ) (packed : Bool) (fmt : Bytes) (vs : List Ptr) (xs : List Num) (final : Bytes)
        (st st' : State)
        → Values st.cell fmt vs xs
        → pack_loop n packed fmt vs [] st ≡ done (some final) st'
        → (unpack_fields packed fmt 0 final ≡ some xs) × (length final ≤ max_struct_size)
    unfolding Unpacks
    unpack-pack n packed fmt vs xs final st st' h e =
        let (tail, split, reads, fits) =
          pack_loop-Unpacks n packed fmt vs xs [] final st st' h (omega arith) e in
        (ap (unpack_fields packed fmt 0) split ∙ reads, fits)
