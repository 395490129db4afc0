-- ===== src/Hash.antt =====
-- include/b6b/hash.h and src/b6b_hash.c: the 32-bit hash of a text.
use Prim.Native.Nat.{bit_xor}
use b6b.Base.{ℕ, ◌+◌, ◌*◌, ◌/◌, ◌%◌, ◌^◌, ◌<◌, ◌≡◌, refl, ap, [], ◌∷◌, ◌++◌, arith, Bytes}

-- `uint32_t`: sums and left shifts drop the high bits.
abbrev u32_mod : ℕ
u32_mod = 2 ^ 32

abbrev add32 : ℕ → ℕ → ℕ
add32 a b = (a + b) % u32_mod

abbrev shl32 : ℕ → ℕ → ℕ
shl32 a k = (a * 2 ^ k) % u32_mod

abbrev shr32 : ℕ → ℕ → ℕ
shr32 a k = a / 2 ^ k

pub hash_init : ℕ
hash_init = 0

-- The body of the loop of b6b_hash_update.
pub hash_byte : ℕ → ℕ → ℕ
hash_byte h b = let h' = add32 h (add32 b (shl32 h 10)) in bit_xor h' (shr32 h' 6)

pub hash_update : ℕ → Bytes → ℕ
hash_update h [] = h
hash_update h (b ∷ bs) = hash_update (hash_byte h b) bs

pub hash_finish : ℕ → ℕ
hash_finish h =
    let h₁ = add32 h (shl32 h 3) in let h₂ = bit_xor h₁ (shr32 h₁ 11) in add32 h₂ (shl32 h₂ 15)

-- b6b_hash
unfoldable pub hash : Bytes → ℕ
unfolding hash_init hash_byte hash_update hash_finish
hash s = hash_finish (hash_update hash_init s)

-- Hashing a text in two pieces, one update after the other, gives the hash of the whole; and
-- the result of the last step is a 32-bit number.
pub hash-append :
    (s t : Bytes)
    → (hash_finish (hash_update (hash_update hash_init s) t) ≡ hash (s ++ t))
      × (hash (s ++ t) < 2 ^ 32)
unfolding hash
hash-append s t = (ap hash_finish (go hash_init s), omega arith)
  where
    go : (h : ℕ) (s : Bytes) → hash_update (hash_update h s) t ≡ hash_update h (s ++ t)
    go h [] = refl
    go h (b ∷ bs) = go (hash_byte h b) bs
