-- ===== src/Ffi/Words.antt =====
-- The integers that b6b_ffi_encode writes, as b6b_ffi_decode reads them.
use b6b.Base.{ℕ, zero, suc, ◌+◌, ◌-◌, ◌*◌, ◌/◌, ◌%◌, ◌^◌, ◌≤◌, ◌<◌, ◌≡◌, refl, sym, arith}
use native.Mathlib.Nat.{pow-suc, mul_assoc}
use b6b.Base.Int.{ℤ, pos, negsuc, pos_part, neg_part}
use b6b.Base.Words.{bytes_of, word_of, word_of-bytes_of}
use b6b.Control.Math.{to_bits}
use b6b.Ffi.{
  FfiType, sint, uint, slong, ulong, pointer, schar, uchar, sshort, ushort, float, double,
  type_size, lowest, highest, int, Floats, decode_word,
}

higher : (k q : ℕ) → q * 256 ^ suc k ≡ q * 256 ^ k * 256
higher k q = rw (pow-suc 256 k) (sym (mul_assoc q (256 ^ k) 256))

-- What stands above the `k` bytes does not count.
bytes_of-add : (k m q : ℕ) → bytes_of k (m + q * 256 ^ k) ≡ bytes_of k m
unfolding bytes_of
bytes_of-add zero m q = refl
bytes_of-add (suc k) m q =
    let low : (m + q * 256 ^ suc k) % 256 ≡ m % 256 = omega (arith, higher k q) in
    let high : (m + q * 256 ^ suc k) / 256 ≡ m / 256 + q * 256 ^ k = omega (arith, higher k q) in
    rw (low, high, bytes_of-add k (m / 256) q) refl

word_neg :
    (k q n : ℕ)
    → n < 256 ^ k
    → 2 ^ 64 ≡ 256 ^ k + q * 256 ^ k
    → word_of (bytes_of k (to_bits (negsuc n))) ≡ 256 ^ k - 1 - n
word_neg k q n h e =
    let split : 2 ^ 64 - 1 - n ≡ 256 ^ k - 1 - n + q * 256 ^ k = omega (arith, e) in
    rw (split, bytes_of-add k (256 ^ k - 1 - n) q)
      (word_of-bytes_of k (256 ^ k - 1 - n) (omega arith))

module _ ⦃f : Floats⦄ where
  -- An integer within the bounds of its type is read back.
  pub decode_word-encode :
      (t : FfiType) (i : ℤ)
      → neg_part i ≤ lowest t
      → pos_part i ≤ highest t
      → (0 < lowest t + highest t)
      → decode_word t (word_of (bytes_of (type_size t) (to_bits i))) ≡ int i
  unfolding decode_word
  decode_word-encode sint (pos n) lo hi k = rw (word_of-bytes_of 4 n (omega arith)) (ground arith)
  decode_word-encode sint (negsuc n) lo hi k =
      rw (word_neg 4 (2 ^ 32 - 1) n (omega arith) refl) (ground arith)
  decode_word-encode uint (pos n) lo hi k = rw (word_of-bytes_of 4 n (omega arith)) refl
  decode_word-encode uint (negsuc n) lo hi k = absurd (omega arith)
  decode_word-encode slong (pos n) lo hi k = rw (word_of-bytes_of 8 n (omega arith)) (ground arith)
  decode_word-encode slong (negsuc n) lo hi k =
      rw (word_of-bytes_of 8 (2 ^ 64 - 1 - n) (omega arith)) (ground arith)
  decode_word-encode ulong (pos n) lo hi k = rw (word_of-bytes_of 8 n (omega arith)) (ground arith)
  decode_word-encode ulong (negsuc n) lo hi k = absurd (omega arith)
  decode_word-encode pointer (pos n) lo hi k =
      rw (word_of-bytes_of 8 n (omega arith)) (ground arith)
  decode_word-encode pointer (negsuc n) lo hi k =
      rw (word_of-bytes_of 8 (2 ^ 64 - 1 - n) (omega arith)) (ground arith)
  decode_word-encode schar (pos n) lo hi k = rw (word_of-bytes_of 1 n (omega arith)) (ground arith)
  decode_word-encode schar (negsuc n) lo hi k =
      rw (word_neg 1 (2 ^ 56 - 1) n (omega arith) refl) (ground arith)
  decode_word-encode uchar (pos n) lo hi k = rw (word_of-bytes_of 1 n (omega arith)) refl
  decode_word-encode uchar (negsuc n) lo hi k = absurd (omega arith)
  decode_word-encode sshort (pos n) lo hi k = rw (word_of-bytes_of 2 n (omega arith)) (ground arith)
  decode_word-encode sshort (negsuc n) lo hi k =
      rw (word_neg 2 (2 ^ 48 - 1) n (omega arith) refl) (ground arith)
  decode_word-encode ushort (pos n) lo hi k = rw (word_of-bytes_of 2 n (omega arith)) refl
  decode_word-encode ushort (negsuc n) lo hi k = absurd (omega arith)
  decode_word-encode float i lo hi k = absurd (omega arith)
  decode_word-encode double i lo hi k = absurd (omega arith)
