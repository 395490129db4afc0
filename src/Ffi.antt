-- ===== src/Ffi.antt =====
-- src/b6b_ffi.c: the values of C types in memory (here), `ffi.pack` and `ffi.unpack` (Struct), and what
-- calls libffi and the dynamic linker (Calls). The C types are those of x86-64, where libffi's
-- ffi_type_slong and ffi_type_sint64 are one.
pub mod Struct
pub mod Words
pub mod Calls
pub mod Encode
pub mod RoundTrip
use b6b.Base.{
  ℕ, zero, suc, ◌+◌, ◌-◌, ◌*◌, ◌%◌, ◌^◌, Bool, true, false, ◌&&◌, Option, none, some, List, [], ◌∷◌,
  ◌++◌, ltb, leb, ◌==◌, if◌then◌else◌, length, take, drop, Bytes, codes,
}
use b6b.Base.Int.{ℤ, pos, negsuc, pos_part, neg_part}
use b6b.Base.Words.{bytes_of, word_of}
use b6b.CLib.{CLib}
use b6b.Store.{Ptr, Obj, Res, err, blank_obj}
use b6b.Store.Monad.{
  M, ◌>>=◌, ◌>>◌, pure, crash, load, int_new, float_new, list_new, str_copy, return_obj,
}
use b6b.Object.{is_empty, list_add, as_int, as_float}
use b6b.Object.Args.{get_args}
use b6b.Control.Math.{to_bits, of_bits}

-- The ffi_type that a struct of b6b_ffi_types points to.
pub data FfiType : Type 0 where
  sint uint slong ulong pointer schar uchar sshort ushort float double : FfiType

-- `type->size`, and `type->alignment`, which is the same.
abbrev pub type_size : FfiType → ℕ
type_size sint = 4
type_size uint = 4
type_size slong = 8
type_size ulong = 8
type_size pointer = 8
type_size schar = 1
type_size uchar = 1
type_size sshort = 2
type_size ushort = 2
type_size float = 4
type_size double = 8

-- b6b_ffi_types
abbrev pub ffi_types : List (ℕ × FfiType)
ffi_types =
    (b'i', sint)
    ∷ (b'I', uint)
    ∷ (b'l', slong)
    ∷ (b'L', ulong)
    ∷ (b'p', pointer)
    ∷ (b'b', schar)
    ∷ (b'B', uchar)
    ∷ (b'h', sshort)
    ∷ (b'H', ushort)
    ∷ (b'q', slong)
    ∷ (b'Q', ulong)
    ∷ (b'f', float)
    ∷ (b'd', double)
    ∷ []

-- The loop of b6b_ffi_type.
unfoldable pub find_type : List (ℕ × FfiType) → ℕ → Option FfiType
find_type [] name = none
find_type ((ch, t) ∷ ts) name = let rest = find_type ts name in if ch == name then some t else rest

-- b6b_ffi_type
unfoldable pub ffi_type : ℕ → Option FfiType
unfolding find_type
ffi_type = find_type ffi_types

-- The conversions between double and float, on their patterns.
pub record Floats : Type 0 where
  pub narrow : ℕ → ℕ
  pub widen : ℕ → ℕ

-- What the checks of b6b_ffi_encode let pass: from -`lowest` to `highest`. For a long, a pointer and
-- the upper end of an unsigned long, every `long long` passes.
abbrev pub lowest : FfiType → ℕ
lowest sint = 2 ^ 31
lowest slong = 2 ^ 63
lowest pointer = 2 ^ 63
lowest schar = 2 ^ 7
lowest sshort = 2 ^ 15
lowest _ = 0

abbrev pub highest : FfiType → ℕ
highest sint = 2 ^ 31 - 1
highest uint = 2 ^ 32 - 1
highest slong = 2 ^ 63 - 1
highest ulong = 2 ^ 63 - 1
highest pointer = 2 ^ 63 - 1
highest schar = 2 ^ 7 - 1
highest uchar = 2 ^ 8 - 1
highest sshort = 2 ^ 15 - 1
highest ushort = 2 ^ 16 - 1
highest _ = 0

-- The bytes of `val` behind the assignment, as many as the type has.
unfoldable pub encode_int : FfiType → ℤ → Option Bytes
unfolding bytes_of
encode_int t i =
    if leb (neg_part i) (lowest t) && leb (pos_part i) (highest t)
    then some (bytes_of (type_size t) (to_bits i))
    else none

-- What b6b_ffi_decode makes an object of.
pub data Num : Type 0 where
  int : ℤ → Num
  flt : ℕ → Num

-- A word of `n` bits with a sign.
abbrev pub signed : ℕ → ℕ → ℤ
signed n w = if ltb w (2 ^ (n - 1)) then pos w else negsuc (2 ^ n - 1 - w)

module _ ⦃f : Floats⦄ where
  -- b6b_ffi_decode, where the bytes are there; (b6b_int) of an unsigned long or a pointer has a sign.
  unfoldable pub decode_word : FfiType → ℕ → Num
  decode_word sint w = int (signed 32 w)
  decode_word uint w = int (pos w)
  decode_word slong w = int (of_bits w)
  decode_word ulong w = int (of_bits w)
  decode_word pointer w = int (of_bits w)
  decode_word schar w = int (signed 8 w)
  decode_word uchar w = int (pos w)
  decode_word sshort w = int (signed 16 w)
  decode_word ushort w = int (pos w)
  decode_word float w = flt (f.widen w)
  decode_word double w = flt w

  -- b6b_ffi_decode
  unfoldable pub decode : FfiType → Bytes → Option Num
  unfolding decode_word word_of
  decode t bs =
      if ltb (length bs) (type_size t)
      then none
      else some (decode_word t (word_of (take (type_size t) bs)))

  module _ ⦃c : CLib⦄ where
    -- b6b_ffi_encode
    unfoldable pub encode : ℕ → FfiType → Ptr → M (Option Bytes)
    unfolding as_int as_float load encode_int
    encode n float v = do
      known ← as_float n v
      o ← load v
      pure (if known then some (bytes_of 4 (f.narrow o.f)) else none)
    encode n double v = do
      known ← as_float n v
      o ← load v
      pure (if known then some (bytes_of 8 o.f) else none)
    encode n t v = do
      known ← as_int n v
      o ← load v
      pure (if known then encode_int t o.i else none)
