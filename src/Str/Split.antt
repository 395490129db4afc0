-- ===== src/Str/Split.antt =====
-- src/b6b_str.c, the loops of b6b_str_proc_join and b6b_str_proc_split.
pub mod Joined
pub mod Correct
use b6b.Base.{
  ℕ, zero, suc, ◌+◌, ◌-◌, ◌*◌, ◌/◌, ◌%◌, ◌^◌, ◌≤◌, ◌<◌, ◌≡◌, refl, sym, ap, ◌∙◌, ◌≢◌, ◌↔◌, ◌⊎◌, inl,
  inr, Bool, true, false, not, ◌&&◌, ◌||◌, Option, none, some, List, [], ◌∷◌, ◌++◌, map,
  append_assoc, append-nil, arith, ltb, leb, ◌==◌, if◌then◌else◌, ==_iff, Bool-cases, Option-cases,
  length, get_elem?, take, drop, length-append, All, Bytes, codes, bytes_eq, bytes_eq_iff,
  bytes_eq_refl,
}

abbrev pub but_differs : Option Bool → Option Bool
but_differs none = none
but_differs (some same) = some false

-- memcmp(p, d, n) == 0, where `buf` is what is left of the text's block, its final NUL included.
-- `none`: the comparison, which is of n bytes wherever the first two differ, is past the block.
unfoldable pub same_bytes : Bytes → Bytes → Option Bool
same_bytes buf [] = some true
same_bytes [] (x ∷ d) = none
same_bytes (y ∷ buf) (x ∷ d) =
    let rest = same_bytes buf d in if y == x then rest else but_differs rest

-- The pieces; or the text's block was left; or no fuel was left.
pub data Pieces : Type 0 where
  pieces : List Bytes → Pieces
  overrun : Pieces
  out_of_fuel : Pieces

-- A delimiter matched at `p`: what stands behind it. `none`: it matched the final NUL as well, so
-- `p` skipped the end.
unfoldable pub behind : Bytes → Bytes → Option Bytes
behind rest [] = some rest
behind [] (x ∷ d) = none
behind (y ∷ rest) (x ∷ d) = behind rest d

-- The comparison at `p`: no match, a match with what stands behind it, or out of the block.
pub data Cut : Type 0 where
  no_cut past_end : Cut
  cut : Bytes → Cut

abbrev pub cut_at : Option Bytes → Cut
cut_at none = past_end
cut_at (some rest) = cut rest

abbrev pub cut_if : Bytes → Bytes → Option Bool → Cut
cut_if d rest none = past_end
cut_if d rest (some false) = no_cut
cut_if d rest (some true) = cut_at (behind rest d)

unfoldable pub cut_here : Bytes → Bytes → Cut
unfolding same_bytes behind
cut_here d rest = cut_if d rest (same_bytes (rest ++ 0 ∷ []) d)

abbrev pub continue_with :
    (Bytes → Bytes → List Bytes → Pieces) → ℕ → Bytes → Bytes → List Bytes → Cut → Pieces
continue_with again c rest seg out past_end = overrun
continue_with again c rest seg out no_cut = again rest (seg ++ c ∷ []) out
continue_with again c rest seg out (cut rest') = again rest' [] (out ++ seg ∷ [])

-- The loop where the delimiter `d` is not empty: `rest` is the text from `p` on, and `seg` what
-- stands between `prev` and `p`.
unfoldable pub split_loop : ℕ → Bytes → Bytes → Bytes → List Bytes → Pieces
split_loop zero d rest seg out = out_of_fuel
split_loop (suc f) d [] seg out = pieces (out ++ seg ∷ [])
split_loop (suc f) d (c ∷ rest) seg out =
    continue_with (split_loop f d) c rest seg out (cut_here d (c ∷ rest))

-- An empty delimiter: each round copies one byte.
unfoldable pub split_bytes : Bytes → List Bytes → List Bytes
split_bytes [] out = out
split_bytes (c ∷ rest) out = split_bytes rest (out ++ (c ∷ []) ∷ [])

-- A round of the loop takes at least one byte, so the text's length and one more are enough.
unfoldable pub split : Bytes → Bytes → Pieces
unfolding split_loop split_bytes cut_here
split s [] = pieces (split_bytes s [])
split s (x ∷ d) = split_loop (suc (length s)) (x ∷ d) s [] []

-- The loop of join behind the first item.
unfoldable pub join_onto : Bytes → Bytes → List Bytes → Bytes
join_onto d acc [] = acc
join_onto d acc (item ∷ items) = join_onto d (acc ++ (d ++ item)) items

unfoldable pub join : Bytes → List Bytes → Bytes
unfolding join_onto
join d [] = []
join d (item ∷ items) = join_onto d item items
