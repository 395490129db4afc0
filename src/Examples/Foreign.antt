-- ===== src/Examples/Foreign.antt =====
-- The theorems on foreign values, on numbers by chance and on compression at concrete inputs.
use b6b.Base.{
  ℕ, zero, suc, ◌+◌, ◌*◌, ◌≡◌, ◌≤◌, refl, true, false, Bool, none, some, List, [], ◌∷◌, length,
  take, codes, arith, ◌==◌, if◌then◌else◌, leb, get_elem?,
}
use b6b.Base.Int.{pos, negsuc}
use b6b.Tests.{toy}
use b6b.Store.{State}
use b6b.Store.Monad.{done, fault, timeout, ◌>>=◌, int_new, load}
use b6b.Object.{as_int}
use b6b.Ffi.{Floats, int, sint, schar, ffi_type, encode, encode_int}
use b6b.Ffi.Struct.{pack_loop, unpack_fields, zeros, append_value}
use b6b.Ffi.RoundTrip.{Values, unpack-pack, length-zeros}
use b6b.Rand.{choose_item}
use b6b.Rand.Range.{chosen_index, choose_item_lem}
use b6b.Zlib.{mz_ok, mz_stream_end, Miniz, mz_stream}
use b6b.Zlib.Inflate.{do_inflate}
use b6b.Zlib.Inflate.Room.{inflate_overflow}
use b6b.Interp.Boot.{empty}

-- Patterns as they are.
instance abbrev same_floats : Floats
same_floats = record { narrow = λ x. x; widen = λ x. x }

-- Behind two integers.
abbrev two_numbers : State
two_numbers = elim ((int_new (negsuc 4) >>= λ p. int_new (pos 300)) empty) [
  | done q st ↦ st
  | fault ↦ empty
  | timeout ↦ empty
]

packed_test :
    pack_loop 3 false (codes "bi") (empty.next ∷ (empty.next + 1) ∷ []) [] two_numbers
    ≡ done (some (0xfb ∷ 0 ∷ 0 ∷ 0 ∷ 0x2c ∷ 1 ∷ 0 ∷ 0 ∷ [])) two_numbers
unfolding pack_loop encode append_value as_int load ffi_type encode_int int_new
    b6b.Base.Words.bytes_of
packed_test = refl

two_numbers-Values :
    Values two_numbers.cell
      (codes "bi")
      (empty.next ∷ (empty.next + 1) ∷ [])
      (int (negsuc 4) ∷ int (pos 300) ∷ [])
unfolding Values ffi_type int_new b6b.Ffi.Encode.Shows
two_numbers-Values =
    ((schar, _, refl, refl, (refl, refl)), ((sint, _, refl, refl, (refl, refl)), tt))

unpack-pack_example :
    (unpack_fields false (codes "bi") 0 (0xfb ∷ 0 ∷ 0 ∷ 0 ∷ 0x2c ∷ 1 ∷ 0 ∷ 0 ∷ [])
      ≡ some (int (negsuc 4) ∷ int (pos 300) ∷ []))
    × (8 ≤ 4096)
unpack-pack_example =
    unpack-pack 3 false (codes "bi") (empty.next ∷ (empty.next + 1) ∷ [])
      (int (negsuc 4) ∷ int (pos 300) ∷ []) (0xfb ∷ 0 ∷ 0 ∷ 0 ∷ 0x2c ∷ 1 ∷ 0 ∷ 0 ∷ []) two_numbers
      two_numbers two_numbers-Values packed_test

choose_item_lem_example :
    (q : ℕ) × (choose_item 10 (20 ∷ 30 ∷ []) 5 ≡ some q)
    × (get_elem? (10 ∷ 20 ∷ 30 ∷ []) (chosen_index 3 5) ≡ some q)
    × (suc (chosen_index 3 5) ≤ 3)
choose_item_lem_example = choose_item_lem 10 (20 ∷ 30 ∷ []) 5

-- A compressor that puts out what it is given, where there is room; as a decompressor it puts out
-- nothing at first, and then fills what it is told of. It counts the calls.
abbrev copier : Miniz ℕ
copier = record {
  deflate_init = λ level bits. some 0;
  deflate_bound = λ z n. n;
  deflate = λ z finish input room. record {
    status = if finish then mz_stream_end else mz_ok;
    used = length input;
    output = if leb (length input) room then input else [];
    z = suc z;
  };
  inflate_init = λ bits. some 0;
  inflate = λ z finish input room. record {
    status = mz_ok;
    used = 0;
    output = if z == 0 then [] else zeros room;
    z = suc z;
  };
  crc32 = λ s. 0;
  default_level = pos 6;
  is_best = λ i. false;
  is_fastest = λ i. false;
  zlib_bits = pos 15;
  raw_bits = negsuc 14;
}

inflate_overflow_example : do_inflate copier 2 4 (mz_stream 0 (0 ∷ []) 1 4) empty ≡ fault
inflate_overflow_example =
    inflate_overflow copier 0 4 (mz_stream 0 (0 ∷ []) 1 4) empty refl (omega arith) (omega arith)
      (omega arith) (length-zeros _)
