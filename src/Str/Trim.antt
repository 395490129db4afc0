-- ===== src/Str/Trim.antt =====
-- src/b6b_str.c, the loops of b6b_str_proc_rtrim and b6b_str_proc_ltrim.
pub mod Correct
use b6b.Base.{
  ℕ, zero, suc, ◌+◌, ◌-◌, ◌*◌, ◌/◌, ◌%◌, ◌^◌, ◌≤◌, ◌<◌, ◌≡◌, refl, sym, ap, ◌∙◌, ◌≢◌, ◌↔◌, ◌⊎◌, inl,
  inr, Bool, true, false, not, ◌&&◌, ◌||◌, Option, none, some, List, [], ◌∷◌, ◌++◌, map,
  append_assoc, append-nil, arith, ltb, leb, ◌==◌, if◌then◌else◌, ==_iff, Bool-cases, Option-cases,
  length, get_elem?, take, drop, length-append, All, Bytes, codes, bytes_eq, bytes_eq_iff,
  bytes_eq_refl,
}
use b6b.Text.{is_space}

-- The loop of rtrim: `i` bytes are left and `j` is `i - 1`. It also runs when `i` is 0, and then
-- reads the byte before the text: `none`.
unfoldable pub rtrim_loop : Bytes → ℕ → Option ℕ
rtrim_loop s zero = none
rtrim_loop s (suc j) = elim (get_elem? s j) [
  | none ↦ none
  | some b ↦ if is_space b then rtrim_loop s j else some (suc j)
]

-- How many bytes rtrim keeps.
unfoldable pub rtrim_len : Bytes → Option ℕ
unfolding rtrim_loop is_space
rtrim_len s = if length s == 0 then some 0 else rtrim_loop s (length s)

-- How many bytes ltrim drops.
unfoldable pub ltrim_len : Bytes → ℕ
unfolding is_space
ltrim_len [] = 0
ltrim_len (b ∷ bs) = if is_space b then suc (ltrim_len bs) else 0
