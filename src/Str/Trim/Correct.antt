-- ===== src/Str/Trim/Correct.antt =====
-- What the loops of rtrim and ltrim find.
use b6b.Base.{
  ℕ, zero, suc, ◌+◌, ◌≤◌, ◌≡◌, refl, sym, ap, ◌∙◌, ◌≢◌, true, false, none, some, [], ◌∷◌, ◌++◌,
  append_assoc, arith, length, get_elem?, length-append, get_elem?-append_right, get_elem?-lt,
  All-get_elem?, All, Bytes,
}
use native.Mathlib.Numerals.{add-one}
use b6b.Text.{is_space}
use b6b.Str.Trim.{rtrim_loop, rtrim_len, ltrim_len}

-- Only white space
abbrev pub Blank : Bytes → Type 0
Blank = All (λ b. is_space b ≡ true)

module _ (s : Bytes) (j b : ℕ) (e : get_elem? s j ≡ some b) where
  rtrim_loop_space : is_space b ≡ true → rtrim_loop s (suc j) ≡ rtrim_loop s j
  unfolding rtrim_loop
  rtrim_loop_space h = ground arith

  rtrim_loop_stop : is_space b ≡ false → rtrim_loop s (suc j) ≡ some (suc j)
  unfolding rtrim_loop
  rtrim_loop_stop h = ground arith

rtrim_loop-Blank :
    (t w : Bytes) (k : ℕ)
    → Blank w
    → k ≤ length w
    → rtrim_loop (t ++ w) (length t + k) ≡ rtrim_loop (t ++ w) (length t)
rtrim_loop-Blank t w zero h l = ap (rtrim_loop (t ++ w)) (omega arith)
rtrim_loop-Blank t w (suc k) h l =
    let (b, e) = get_elem?-lt w k (omega arith) in
    ap (rtrim_loop (t ++ w)) (let q : length t + suc k ≡ suc (length t + k) = omega arith in q)
    ∙ rtrim_loop_space (t ++ w) (length t + k) b (get_elem?-append_right t w k ∙ e)
        (All-get_elem? _ w k h e)
    ∙ rtrim_loop-Blank t w k h (omega arith)

rtrim_len-loop : (s : Bytes) → s ≢ [] → rtrim_len s ≡ rtrim_loop s (length s)
unfolding rtrim_len
rtrim_len-loop [] h = absurd (h refl)
rtrim_len-loop (c ∷ s) h = ground arith

rtrim_len-loop-Blank :
    (t w : Bytes) → Blank w → (t ++ w) ≢ [] → rtrim_len (t ++ w) ≡ rtrim_loop (t ++ w) (length t)
rtrim_len-loop-Blank t w h ne =
    rtrim_len-loop (t ++ w) ne
    ∙ ap (rtrim_loop (t ++ w)) (length-append t w)
    ∙ rtrim_loop-Blank t w (length w) h (omega arith)

snoc_cons : (t w : Bytes) (b : ℕ) → t ++ b ∷ w ≡ (t ++ b ∷ []) ++ w
snoc_cons t w b = rw append_assoc

snoc-ne-nil : (t w : Bytes) (b : ℕ) → (t ++ b ∷ w) ≢ []
snoc-ne-nil [] w b = cc
snoc-ne-nil (c ∷ t) w b = cc

rtrim_len_stop :
    (t w : Bytes) (b : ℕ)
    → is_space b ≡ false
    → Blank w
    → rtrim_len (t ++ b ∷ w) ≡ some (length t + 1)
rtrim_len_stop t w b h k =
    let s = t ++ b ∷ w in
    ap rtrim_len (snoc_cons t w b)
    ∙ rtrim_len-loop-Blank (t ++ b ∷ []) w k (λ e. snoc-ne-nil t w b (snoc_cons t w b ∙ e))
    ∙ ap (rtrim_loop ((t ++ b ∷ []) ++ w)) (length-append t (b ∷ []) ∙ add-one (length t))
    ∙ ap (λ z. rtrim_loop z (suc (length t))) (sym (snoc_cons t w b))
    ∙ rtrim_loop_stop s (length t) b at_b h
    ∙ ap some (omega arith)
  where
    at_b : get_elem? (t ++ b ∷ w) (length t) ≡ some b
    at_b = ap (get_elem? (t ++ b ∷ w)) (omega arith) ∙ get_elem?-append_right t (b ∷ w) 0

-- rtrim keeps a text up to its last byte that is no white space; of a text of white space only
-- it reads the byte before the text.
pub rtrim_len_lem :
    (w : Bytes)
    → Blank w
    → ((t : Bytes) (b : ℕ) → is_space b ≡ false → rtrim_len (t ++ b ∷ w) ≡ some (length t + 1))
      × (w ≢ [] → rtrim_len w ≡ none)
rtrim_len_lem w h =
    (λ t b k. rtrim_len_stop t w b k h, λ ne. rtrim_len-loop-Blank [] w h ne ∙ at_start)
  where
    at_start : rtrim_loop w 0 ≡ none
    at_start = unfold rtrim_loop in refl

-- ltrim drops the white space before the first other byte, and all of a text of white space.
pub ltrim_len_lem :
    (w : Bytes)
    → Blank w
    → ((t : Bytes) (b : ℕ) → is_space b ≡ false → ltrim_len (w ++ b ∷ t) ≡ length w)
      × (ltrim_len w ≡ length w)
unfolding ltrim_len
ltrim_len_lem [] h = (λ t b k. ground arith, refl)
ltrim_len_lem (c ∷ w) h =
    let ih = ltrim_len_lem w h.1 in (λ t b k. ground (arith, ih.0 t b k), ground (arith, ih.1))
