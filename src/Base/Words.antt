-- ===== src/Base/Words.antt =====
-- Machine words in memory, whose first byte is the lowest.
use Prim.Native.Nat.{ℕ, zero, suc, ◌+◌, ◌*◌, ◌/◌, ◌%◌, ◌^◌, ◌<◌}
use mathlib.Core.Path.{◌≡◌, refl, ap}
use mathlib.Core.List.{[], ◌∷◌}
use native.Mathlib.Omega.{arith}
use b6b.Base.Lists.{length, Bytes}

-- The `k` bytes of a number, and the number in its bytes.
unfoldable pub bytes_of : ℕ → ℕ → Bytes
bytes_of zero n = []
bytes_of (suc k) n = n % 256 ∷ bytes_of k (n / 256)

unfoldable pub word_of : Bytes → ℕ
word_of [] = 0
word_of (b ∷ bs) = b + word_of bs * 256

pub length-bytes_of : (k n : ℕ) → length (bytes_of k n) ≡ k
unfolding bytes_of
length-bytes_of zero n = refl
length-bytes_of (suc k) n = ap suc (length-bytes_of k (n / 256))

small : (k n : ℕ) → n < 256 ^ suc k → n / 256 < 256 ^ k
small k n h = omega arith

pub word_of-bytes_of : (k n : ℕ) → n < 256 ^ k → word_of (bytes_of k n) ≡ n
unfolding bytes_of word_of
word_of-bytes_of zero n h = omega arith
word_of-bytes_of (suc k) n h =
    let e = word_of-bytes_of k (n / 256) (small k n h) in omega (arith, e)
