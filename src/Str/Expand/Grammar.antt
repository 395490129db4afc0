-- ===== src/Str/Expand/Grammar.antt =====
-- The grammar of the escapes that b6b_str_proc_expand (src/b6b_str.c) reads.
use b6b.Base.{ℕ, ◌+◌, ◌*◌, ◌≤◌, ◌<◌, ◌≡◌, ap, ◌≢◌, [], ◌∷◌, arith, length, Bytes}

-- `HexDigit c v`: the character `c` is the hexadecimal digit of the value `v`.
pub data HexDigit (c v : ℕ) : Type 0 where
  decimal : v < 10 → c ≡ b'0' + v → HexDigit c v
  lower : (k : ℕ) → k < 6 → c ≡ b'a' + k → v ≡ 10 + k → HexDigit c v
  upper : (k : ℕ) → k < 6 → c ≡ b'A' + k → v ≡ 10 + k → HexDigit c v

-- `Letter e b`: behind a backslash, `e` stands for the byte `b` of the ASCII table.
pub data Letter (e b : ℕ) : Type 0 where
  nul : e ≡ b'0' → b ≡ 0 → Letter e b
  backslash : e ≡ b'\\' → b ≡ 92 → Letter e b
  newline : e ≡ b'n' → b ≡ 10 → Letter e b
  tab : e ≡ b't' → b ≡ 9 → Letter e b
  carriage_return : e ≡ b'r' → b ≡ 13 → Letter e b

-- The text `s` begins with `n` bytes that stand for the byte `b`, and `s'` is behind them.
pub data Reads (s : Bytes) (b n : ℕ) (s' : Bytes) : Type 0 where
  plain : (c : ℕ) → s ≡ c ∷ s' → c ≢ b'\\' → b ≡ c → n ≡ 1 → Reads s b n s'
  simple : (e : ℕ) → s ≡ b'\\' ∷ e ∷ s' → Letter e b → n ≡ 2 → Reads s b n s'
  hex :
      (h l hi lo : ℕ)
      → s ≡ b'\\' ∷ b'x' ∷ h ∷ l ∷ s'
      → HexDigit h hi
      → HexDigit l lo
      → b ≡ hi * 16 + lo
      → n ≡ 4
      → Reads s b n s'

-- `Expands s t`: the text `t` is what the bytes and escapes in `s` stand for.
pub data Expands : Bytes → Bytes → Type 0 where
  nil : Expands [] []
  next : {s s' t : Bytes} {b : ℕ} (n : ℕ) → Reads s b n s' → Expands s' t → Expands s (b ∷ t)

pub length-Reads : {s s' : Bytes} {b n : ℕ} → Reads s b n s' → (length s ≡ n + length s') × (1 ≤ n)
length-Reads (plain c e _ _ k) = omega (arith, ap length e)
length-Reads (simple d e _ k) = omega (arith, ap length e)
length-Reads (hex _ _ _ _ e _ _ _ k) = omega (arith, ap length e)
