-- ===== src/Text/RoundTrip.antt =====
-- b6b_as_str on a list and b6b_do_as_list: which items are read back from the text that is printed.
use b6b.Base.{
  ℕ, zero, suc, ◌+◌, ◌-◌, ◌<◌, ◌≡◌, refl, ap, ◌∙◌, ◌⊎◌, inl, inr, Bool, true, false, not, ◌&&◌,
  some, List, [], ◌∷◌, ◌++◌, append_assoc, append-nil, arith, ◌==◌, if◌then◌else◌, Bool-cases,
  length, drop, length-append, All, Bytes,
}
use b6b.Text.{is_space, spaced}
use b6b.Text.Print.{quote, add_item, add_items, or_braces, print_list}
use b6b.Text.Parse.{
  scan_braces, scan_word, token, next_token, items, tokens, parse_list, size_inc, size_dec,
  size_mod,
}

-- Braces nest within the text, with `d` open where it begins.
unfoldable pub nests : ℕ → Bytes → Bool
nests d [] = d == 0
nests d (c ∷ cs) =
    not (c == b'}' && d == 0)
    && nests (if c == b'{' then d + 1 else if c == b'}' then d - 1 else d) cs

-- The items that survive: the empty one; one with white space, whose braces nest; and one
-- without, that does not begin as a wrapped token does.
unfoldable pub reads_back : Bytes → Bool
unfolding nests spaced is_space
reads_back [] = true
reads_back (c ∷ cs) =
    if spaced (c ∷ cs) then nests 0 (c ∷ cs) else not (c == b'{') && not (c == b'[')

-- A text that fits in memory, with its wrapping.
abbrev pub Fits : Bytes → Type 0
Fits s = length s + 2 < size_mod

scan_braces-nests :
    (x : Bytes) (d : ℕ) (rest : Bytes)
    → nests d x ≡ true
    → d + length x + 2 < size_mod
    → scan_braces (d + 1) (x ++ b'}' ∷ rest) ≡ some (x, rest)
unfolding nests scan_braces size_inc size_dec
scan_braces-nests [] d rest h k = ground arith
scan_braces-nests (c ∷ cs) d rest h k = ground (
  arith,
  scan_braces-nests cs (d + 1) rest,
  scan_braces-nests cs (d - 1) rest,
  scan_braces-nests cs d rest,
)

-- A bare item ends at the end of the text or at a space, which is skipped.
scan_word_bare : (x : Bytes) → spaced x ≡ false → scan_word x ≡ (x, [])
unfolding spaced scan_word
scan_word_bare [] h = refl
scan_word_bare (c ∷ cs) h = ground (arith, scan_word_bare cs)

scan_word_before_space :
    (x rest : Bytes) → spaced x ≡ false → scan_word (x ++ b' ' ∷ rest) ≡ (x, rest)
unfolding spaced scan_word
scan_word_before_space [] rest h = unfold is_space in refl
scan_word_before_space (c ∷ cs) rest h = ground (arith, scan_word_before_space cs rest)

-- The text behind the first item.
abbrev tail_text : List Bytes → Bytes
tail_text [] = []
tail_text (x ∷ xs) = b' ' ∷ (quote x ++ tail_text xs)

add_items-tail_text :
    (xs : List Bytes) (s : Bytes) → add_items (some s) xs ≡ some (s ++ tail_text xs)
unfolding add_items add_item
add_items-tail_text [] s = rw append-nil
add_items-tail_text (x ∷ xs) s = add_items-tail_text xs (s ++ b' ' ∷ quote x) ∙ rw append_assoc

print_list-cons : (x : Bytes) (xs : List Bytes) → print_list (x ∷ xs) ≡ quote x ++ tail_text xs
unfolding print_list add_items add_item or_braces
print_list-cons x xs = rw (add_items-tail_text xs (quote x), or_braces)

-- Wrapped items leave the space that follows them, bare ones do not.
abbrev TakesItem : Bytes → List Bytes → Type 0
TakesItem x xs =
    (next_token (quote x ++ tail_text xs) ≡ token x (tail_text xs))
    ⊎ (next_token (quote x ++ tail_text xs) ≡ token x (drop 1 (tail_text xs)))

takes_item_bare :
    (c : ℕ) (cs : Bytes) (xs : List Bytes)
    → reads_back (c ∷ cs) ≡ true
    → spaced (c ∷ cs) ≡ false
    → next_token (quote (c ∷ cs) ++ tail_text xs) ≡ token (c ∷ cs) (drop 1 (tail_text xs))
unfolding reads_back next_token quote
takes_item_bare c cs [] h b = ground (arith, scan_word_bare cs, append-nil cs)
takes_item_bare c cs (y ∷ ys) h b =
    ground (arith, scan_word_before_space cs (quote y ++ tail_text ys))

takes_item_wrapped :
    (x rest : Bytes)
    → nests 0 x ≡ true
    → Fits x
    → next_token (b'{' ∷ (x ++ b'}' ∷ []) ++ rest) ≡ token x rest
unfolding next_token
takes_item_wrapped x rest h k =
    ground (arith, append_assoc x (b'}' ∷ []) rest, scan_braces-nests x 0 rest h (omega arith))

takes_item : (x : Bytes) (xs : List Bytes) → reads_back x ≡ true → Fits x → TakesItem x xs
unfolding quote reads_back
takes_item [] xs h k = inl (takes_item_wrapped [] (tail_text xs) refl k)
takes_item (c ∷ cs) xs h k = elim (Bool-cases (spaced (c ∷ cs))) [
  | inl e ↦ inl (ground (arith, takes_item_wrapped (c ∷ cs) (tail_text xs)))
  | inr e ↦ inr (takes_item_bare c cs xs h e)
]

length-quote : (x : Bytes) → 0 < length (quote x)
unfolding quote
length-quote [] = omega arith
length-quote (c ∷ cs) = ground arith

-- Every item is read back, and fits in memory.
abbrev pub ReadBack : List Bytes → Type 0
ReadBack = All (λ x. (reads_back x ≡ true) × Fits x)

-- The loop takes all of `xs` from the text `s`.
abbrev ReadsAll : ℕ → Bytes → List Bytes → List Bytes → Type 0
ReadsAll f s added xs = tokens f s added ≡ items (added ++ xs)

-- The space before an item takes a round of its own.
tokens_space : (f : ℕ) (s : Bytes) (xs : List Bytes) → tokens (suc f) (b' ' ∷ s) xs ≡ tokens f s xs
unfolding tokens next_token
tokens_space f s xs = refl

tokens_nil : (f : ℕ) (xs : List Bytes) → tokens (suc f) [] xs ≡ items xs
unfolding tokens next_token
tokens_nil f xs = refl

tokens_token :
    (f : ℕ) (s t rest : Bytes) (xs : List Bytes)
    → next_token s ≡ token t rest
    → tokens (suc f) s xs ≡ tokens f rest (xs ++ t ∷ [])
unfolding tokens
tokens_token f s t rest xs e = rw e

parse_list-tokens : (s : Bytes) → parse_list s ≡ tokens (suc (length s)) s []
unfolding parse_list
parse_list-tokens s = refl

module _ (x y : Bytes) (ys added : List Bytes) where
  length_text :
      length (quote x ++ tail_text (y ∷ ys))
      ≡ length (quote x) + 1 + length (quote y ++ tail_text ys)
  length_text = omega (arith, length-append (quote x) (tail_text (y ∷ ys)))

  regroup : items ((added ++ x ∷ []) ++ y ∷ ys) ≡ items (added ++ x ∷ y ∷ ys)
  regroup = ap items (append_assoc added (x ∷ []) (y ∷ ys))

-- From an item on, every item is read.
reads_items :
    (xs : List Bytes) (x : Bytes) (added : List Bytes) (f : ℕ)
    → ReadBack (x ∷ xs)
    → length (quote x ++ tail_text xs) < f
    → ReadsAll f (quote x ++ tail_text xs) added (x ∷ xs)
reads_items xs x added zero k h = absurd (omega arith)
reads_items [] x added (suc zero) k h =
    absurd (omega (arith, length-append (quote x) [], length-quote x))
reads_items [] x added (suc (suc f)) k h = elim (takes_item x [] k.0.0 k.0.1) [
  | inl e ↦ tokens_token (suc f) _ x [] added e ∙ tokens_nil f _
  | inr e ↦ tokens_token (suc f) _ x [] added e ∙ tokens_nil f _
]
reads_items (y ∷ ys) x added (suc zero) k h =
    absurd (omega (arith, length_text x y ys added, length-quote x))
reads_items (y ∷ ys) x added (suc (suc f)) k h =
    let added' = added ++ x ∷ [] in
    let short : length (quote y ++ tail_text ys) < f =
      omega (arith, length_text x y ys added, length-quote x) in
    elim (takes_item x (y ∷ ys) k.0.0 k.0.1) [
      | inl e ↦
          tokens_token (suc f) _ x _ added e
          ∙ tokens_space f _ added'
          ∙ reads_items ys y added' f k.1 short
          ∙ regroup x y ys added
      | inr e ↦
          tokens_token (suc f) _ x _ added e
          ∙ reads_items ys y added' (suc f) k.1 (omega arith)
          ∙ regroup x y ys added
    ]

-- The text that a non-empty list is printed as is parsed to the items of the list, in order,
-- if every item is empty, or has white space and nested braces, or has no white space and
-- begins with neither `{` nor `[`, and fits in memory with its wrapping.
pub parse_list-print_list :
    (x : Bytes) (xs : List Bytes)
    → ReadBack (x ∷ xs)
    → parse_list (print_list (x ∷ xs)) ≡ items (x ∷ xs)
parse_list-print_list x xs k =
    let s = quote x ++ tail_text xs in
    rw (print_list-cons x xs)
      (parse_list-tokens s ∙ reads_items xs x [] (suc (length s)) k (omega arith))
