-- ===== src/Text/Fuel.antt =====
-- Enough rounds for b6b_do_as_list: every round but the last takes at least one byte.
use b6b.Base.{
  ℕ, zero, suc, ◌≤◌, ◌<◌, ◌≡◌, refl, ◌≢◌, none, some, List, [], ◌∷◌, ◌++◌, arith, ◌==◌,
  if◌then◌else◌, length, Bytes,
}
use b6b.Text.Parse.{
  Split, push, scan_braces, scan_brackets, scan_word, Round, finished, unbalanced, blank, token,
  as_round, next_token, Parsed, out_of_fuel, continue_with, tokens, parse_list, size_inc, size_dec,
}

-- The length of what a scan leaves.
abbrev left : Split → ℕ
left none = 0
left (some (t, rest)) = length rest

left-push : (c : ℕ) (s : Split) → left (push c s) ≡ left s
left-push c none = refl
left-push c (some (t, rest)) = refl

left-scan_braces : (d : ℕ) (s : Bytes) → left (scan_braces d s) ≤ length s
unfolding scan_braces
left-scan_braces d [] = omega arith
left-scan_braces d (c ∷ cs) =
    let d' = if c == b'{' then size_inc d else if c == b'}' then size_dec d else d in
    ground (arith, left-push c (scan_braces d' cs), left-scan_braces d' cs)

left-scan_brackets : (k d : ℕ) (s : Bytes) → left (scan_brackets k d s) ≤ length s
unfolding scan_brackets
left-scan_brackets k d [] = omega arith
left-scan_brackets k d (c ∷ cs) =
    let d' = if c == b'{' then size_inc d else if c == b'}' then size_dec d else d in
    let k' = if c == b'[' then size_inc k else if c == b']' then size_dec k else k in
    ground (arith, left-push c (scan_brackets k' d' cs), left-scan_brackets k' d' cs)

length-scan_word : (s : Bytes) → length (scan_word s).1 ≤ length s
unfolding scan_word
length-scan_word [] = omega arith
length-scan_word (c ∷ cs) = ground (arith, length-scan_word cs)

-- The length of what a round leaves.
abbrev left_after : Round → ℕ
left_after finished = 0
left_after unbalanced = 0
left_after (blank rest) = length rest
left_after (token t rest) = length rest

left_after-as_round : (s : Split) → left_after (as_round s) ≡ left s
left_after-as_round none = refl
left_after-as_round (some (t, rest)) = refl

module _ (c : ℕ) (cs : Bytes) where
  bracket_token : Split
  bracket_token = push c (scan_brackets 1 0 cs)

  left-bracket_token : left bracket_token ≤ length cs
  unfolding bracket_token
  left-bracket_token = omega (arith, left-push c (scan_brackets 1 0 cs), left-scan_brackets 1 0 cs)

left_after-next_token : (c : ℕ) (cs : Bytes) → left_after (next_token (c ∷ cs)) ≤ length cs
unfolding next_token bracket_token
left_after-next_token c cs = ground (
  arith,
  left_after-as_round (scan_braces 1 cs),
  left-scan_braces 1 cs,
  left_after-as_round (bracket_token c cs),
  left-bracket_token c cs,
  length-scan_word cs,
)

continue_with_total :
    (f : ℕ) (again : Bytes → List Bytes → Parsed)
    → ((s : Bytes) (added : List Bytes) → length s < f → again s added ≢ out_of_fuel)
    → (added : List Bytes) (r : Round) → left_after r < f
    → continue_with again added r ≢ out_of_fuel
continue_with_total f again ih added finished k = cc
continue_with_total f again ih added unbalanced k = cc
continue_with_total f again ih added (blank rest) k = ih rest added k
continue_with_total f again ih added (token t rest) k = ih rest (added ++ t ∷ []) k

pub tokens_total :
    (f : ℕ) (s : Bytes) (added : List Bytes) → length s < f → tokens f s added ≢ out_of_fuel
unfolding tokens
tokens_total zero s added h = absurd (omega arith)
tokens_total (suc f) [] added h = unfold next_token in cc
tokens_total (suc f) (c ∷ cs) added h =
    continue_with_total f (tokens f) (tokens_total f) added (next_token (c ∷ cs))
      (omega (arith, left_after-next_token c cs))

-- Parsing a list text always ends, with its items or with a refusal.
pub parse_list_total : (s : Bytes) → parse_list s ≢ out_of_fuel
unfolding parse_list
parse_list_total s = tokens_total (suc (length s)) s [] (omega arith)
