-- ===== src/Socket/Order/Swap.antt =====
-- src/b6b_socket.c: the byte orders, applied twice.
use b6b.Base.{ℕ, ◌^◌, ◌<◌, ◌≡◌, arith}
use b6b.Socket.{bswap16}
use b6b.Socket.Order.{bswap32}

-- For a number of 16 bits and one of 32, which `htons` and `htonl` check: the other order of bytes is one
-- of as many bits, and its other order is the number again.
pub bswap_lem :
    (m n : ℕ)
    → m < 2 ^ 16
    → n < 2 ^ 32
    → (bswap16 m < 2 ^ 16)
      × (bswap16 (bswap16 m) ≡ m)
      × (bswap32 n < 2 ^ 32)
      × (bswap32 (bswap32 n) ≡ n)
unfolding bswap16 bswap32
bswap_lem m n hm hn = (omega arith, omega arith, omega arith, omega arith)
