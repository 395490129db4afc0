-- ===== src/Text/Parse.antt =====
-- src/b6b_list.c, b6b_do_as_list: the items of a list text. The pointer `s + i` is the text from
-- there on, so the walk has an end where the code compares with `len`.
use b6b.Base.{
  ℕ, zero, suc, ◌+◌, ◌-◌, ◌%◌, ◌^◌, ◌&&◌, Option, none, some, List, [], ◌∷◌, ◌++◌, ◌==◌,
  if◌then◌else◌, length, Bytes,
}
use b6b.Text.{is_space}

-- `size_t` is 64 bits wide: `++n` and `--n` wrap around.
abbrev pub size_mod : ℕ
size_mod = 2 ^ 64

unfoldable pub size_inc : ℕ → ℕ
size_inc n = (n + 1) % size_mod

unfoldable pub size_dec : ℕ → ℕ
size_dec n = (n + size_mod - 1) % size_mod

-- A token and the text behind it.
abbrev pub Split : Type 0
Split = Option (Bytes × Bytes)

abbrev pub push : ℕ → Split → Split
push c none = none
push c (some (t, rest)) = some (c ∷ t, rest)

-- case '{': up to the brace that closes `nbrac` open ones, which is stripped.
unfoldable pub scan_braces : ℕ → Bytes → Split
scan_braces nbrac [] = none
scan_braces nbrac (c ∷ cs) =
    let nbrac' =
      if c == b'{' then size_inc nbrac else if c == b'}' then size_dec nbrac else nbrac in
    let rest = scan_braces nbrac' cs in
    if c == b'}' && nbrac' == 0 then some ([], cs) else push c rest

-- case '[': up to a bracket that balances the brackets where no brace is open. It is kept.
unfoldable pub scan_brackets : ℕ → ℕ → Bytes → Split
scan_brackets nbrak nbrac [] = none
scan_brackets nbrak nbrac (c ∷ cs) =
    let nbrac' =
      if c == b'{' then size_inc nbrac else if c == b'}' then size_dec nbrac else nbrac in
    let nbrak' =
      if c == b'[' then size_inc nbrak else if c == b']' then size_dec nbrak else nbrak in
    let rest = scan_brackets nbrak' nbrac' cs in
    if c == b']' && nbrak' == 0 && nbrac' == 0 then some (c ∷ [], cs) else push c rest

-- default: up to the next white space, which is skipped, or to the end.
unfoldable pub scan_word : Bytes → Bytes × Bytes
scan_word [] = ([], [])
scan_word (c ∷ cs) =
    let rest = scan_word cs in if is_space c then ([], cs) else (c ∷ rest.0, rest.1)

-- One round of the outer loop.
pub data Round : Type 0 where
  finished unbalanced : Round
  blank : Bytes → Round
  token : Bytes → Bytes → Round

abbrev pub as_round : Split → Round
as_round none = unbalanced
as_round (some (t, rest)) = token t rest

unfoldable pub next_token : Bytes → Round
unfolding scan_braces scan_brackets scan_word size_inc size_dec is_space
next_token [] = finished
next_token (c ∷ cs) =
    if c == b'{'
    then as_round (scan_braces 1 cs)
    else if c == b'['
    then as_round (push c (scan_brackets 1 0 cs))
    else if is_space c
    then blank cs
    else token (c ∷ (scan_word cs).0) (scan_word cs).1

-- `return 1` with the items, or `return 0`, with the items that were added before and that
-- `b6b_destroy_l` frees on the way out.
pub data Parsed : Type 0 where
  items : List Bytes → Parsed
  bad : List Bytes → Parsed
  out_of_fuel : Parsed

-- What the outer loop does with a round, given the rest of the loop.
abbrev pub continue_with : (Bytes → List Bytes → Parsed) → List Bytes → Round → Parsed
continue_with again added finished = items added
continue_with again added unbalanced = bad added
continue_with again added (blank rest) = again rest added
continue_with again added (token t rest) = again rest (added ++ t ∷ [])

unfoldable pub tokens : ℕ → Bytes → List Bytes → Parsed
tokens zero s added = out_of_fuel
tokens (suc f) s added = continue_with (tokens f) added (next_token s)

-- Each round but the last takes a byte, so the text's length and one more are rounds enough.
unfoldable pub parse_list : Bytes → Parsed
unfolding tokens next_token
parse_list s = tokens (suc (length s)) s []
