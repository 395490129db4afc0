-- ===== src/Str/Expand.antt =====
-- src/b6b_str.c, the loop of b6b_str_proc_expand. Correct holds what it computes.
pub mod Grammar
pub mod Correct
use b6b.Base.{
  ℕ, zero, suc, ◌+◌, ◌-◌, ◌*◌, ◌/◌, ◌%◌, ◌^◌, ◌≤◌, ◌<◌, ◌≡◌, refl, sym, ap, ◌∙◌, ◌≢◌, ◌↔◌, ◌⊎◌, inl,
  inr, Bool, true, false, not, ◌&&◌, ◌||◌, Option, none, some, List, [], ◌∷◌, ◌++◌, map,
  append_assoc, append-nil, arith, ltb, leb, ◌==◌, if◌then◌else◌, ==_iff, Bool-cases, Option-cases,
  length, get_elem?, take, drop, length-append, All, Bytes, codes, bytes_eq, bytes_eq_iff,
  bytes_eq_refl,
}

-- The ways that the loop ends: a text, an error message, a read or write out of bounds, no fuel.
pub data Expanded : Type 0 where
  expanded : Bytes → Expanded
  bad_escape bad_hex_escape bad_hex_digit : Expanded
  overrun out_of_fuel : Expanded

-- A hexadecimal digit's value
unfoldable pub hex_digit : ℕ → Option ℕ
hex_digit c =
    if leb b'0' c && leb c b'9'
    then some (c - b'0')
    else if leb b'a' c && leb c b'f'
    then some (c - b'a' + 10)
    else if leb b'A' c && leb c b'F'
    then some (c - b'A' + 10)
    else none

-- The escapes of one letter, `none` for the default case.
unfoldable pub simple_escape : ℕ → Option ℕ
simple_escape c =
    if c == b'0'
    then some 0
    else if c == b'\\'
    then some b'\\'
    else if c == b'n'
    then some b'\n'
    else if c == b't'
    then some b'\t'
    else if c == b'r'
    then some b'\r'
    else none

-- A round of the loop: it ends with an outcome, or stores one byte and goes on `taken` bytes later.
pub data Step : Type 0 where
  stop : Expanded → Step
  put : ℕ → ℕ → Bytes → Step

-- s[i + 2] and s[i + 3], behind `\x`. The high digit is shifted into place and the low one ored in,
-- which is their sum.
unfoldable pub hex_step : Bytes → Step
unfolding hex_digit
hex_step (h ∷ l ∷ rest) = elim (hex_digit h) [
  | none ↦ stop bad_hex_digit
  | some hi ↦ elim (hex_digit l) [ none ↦ stop bad_hex_digit | some lo ↦ put (hi * 16 + lo) 4 rest ]
]
hex_step (h ∷ []) = stop overrun
hex_step [] = stop overrun

-- The switch on s[i + 1]. At the end of the text that is the final NUL, which has no escape.
unfoldable pub escape_step : ℕ → ℕ → Bytes → Step
unfolding hex_step simple_escape
escape_step last i [] = stop bad_escape
escape_step last i (e ∷ rest) =
    if e == b'x'
    then (if ltb last (i + 3) then stop bad_hex_escape else hex_step rest)
    else elim (simple_escape e) [ none ↦ stop bad_escape | some b ↦ put b 2 rest ]

-- One round, at s[i] = c: `j` is the length of what was stored.
unfoldable pub expand_step : ℕ → ℕ → ℕ → ℕ → Bytes → Step
unfolding escape_step
expand_step last i j c rest =
    if not (c == b'\\')
    then put c 1 rest
    else if j == last
    then stop bad_escape
    else escape_step last i rest

abbrev pub continue_with : (ℕ → Bytes → Bytes → Expanded) → ℕ → Bytes → Step → Expanded
continue_with again i out (stop e) = e
continue_with again i out (put b taken rest) = again (i + taken) rest (out ++ b ∷ [])

-- The loop: `rest` is the text from s[i] on, and `out` what was stored in `s2`.
unfoldable pub expand_loop : ℕ → ℕ → ℕ → Bytes → Bytes → Expanded
expand_loop zero last i rest out = out_of_fuel
expand_loop (suc f) last i [] out = expanded out
expand_loop (suc f) last i (c ∷ rest) out =
    continue_with (expand_loop f last) i out (expand_step last i (length out) c rest)

-- `last` is slen - 1, which wraps around for an empty text.
unfoldable pub expand : Bytes → Expanded
unfolding expand_loop expand_step
expand s = expand_loop (suc (length s)) ((length s + 2 ^ 64 - 1) % 2 ^ 64) 0 s []
