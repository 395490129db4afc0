-- ===== src/CLib.antt =====
-- What the code takes from the C library's floating point, its locale and, for `source`, its files.
-- A double is its 64-bit pattern, a number; the operations on it are a parameter of everything that
-- uses them.
use b6b.Base.{ℕ, Bool, Option, Bytes}
use b6b.Base.Int.{ℤ}

pub record CLib : Type 0 where
  -- strtod: the value, and how many bytes were read.
  pub strtod : Bytes → ℕ × ℕ
  -- "%.12f"
  pub format_double : ℕ → Bytes
  -- (double)i
  pub of_int : ℤ → ℕ
  -- (long long)floor(f), or `none` where that raises FE_INVALID.
  pub floor_int : ℕ → Option ℤ
  -- f != 0
  pub nonzero : ℕ → Bool
  pub add : ℕ → ℕ → ℕ
  pub sub : ℕ → ℕ → ℕ
  pub mul : ℕ → ℕ → ℕ
  pub div : ℕ → ℕ → ℕ
  -- remainder(m, n), or `none` where errno is set or FE_INVALID is raised.
  pub remainder : ℕ → ℕ → Option ℕ
  pub lt : ℕ → ℕ → Bool
  pub le : ℕ → ℕ → Bool
  -- The pattern of 0.0
  pub zero_double : ℕ
  -- open, fstat and read: the bytes of a file, or `none` where one of them fails.
  pub read_file : Bytes → Option Bytes
  -- mbrtowc(NULL, s, len, &ps): how many bytes make up the next character, or `none` where it
  -- returns 0 or an error.
  pub char_len : Bytes → Option ℕ
