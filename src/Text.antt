-- ===== src/Text.antt =====
-- src/b6b_str.c and include/b6b/str.h: the white space that separates the items of a list text.
-- Parse holds the parser of list texts, Print the printer, Fuel and RoundTrip their properties.
pub mod Print
pub mod Parse
pub mod RoundTrip
pub mod Fuel
use b6b.Base.{
  ℕ, zero, suc, ◌+◌, ◌-◌, ◌*◌, ◌/◌, ◌%◌, ◌^◌, ◌≤◌, ◌<◌, ◌≡◌, refl, sym, ap, ◌∙◌, ◌≢◌, ◌↔◌, ◌⊎◌, inl,
  inr, Bool, true, false, not, ◌&&◌, ◌||◌, Option, none, some, List, [], ◌∷◌, ◌++◌, map,
  append_assoc, append-nil, arith, ltb, leb, ◌==◌, if◌then◌else◌, ==_iff, Bool-cases, Option-cases,
  length, get_elem?, take, drop, length-append, All, Bytes, codes, bytes_eq, bytes_eq_iff,
  bytes_eq_refl,
}

-- b6b_isspace
unfoldable pub is_space : ℕ → Bool
is_space c = c == b' ' || c == b'\t' || c == b'\n' || c == b'\r'

-- b6b_spaced: does any byte of the text count as white space?
unfoldable pub spaced : Bytes → Bool
spaced [] = false
spaced (c ∷ cs) = is_space c || spaced cs
