-- ===== src/Str/Expand/Correct.antt =====
-- b6b_str_proc_expand against a grammar of escapes.
use b6b.Base.{
  ℕ, zero, suc, ◌+◌, ◌-◌, ◌*◌, ◌%◌, ◌&&◌, leb, ◌^◌, ◌≤◌, ◌<◌, ◌≡◌, refl, sym, ap, ◌∙◌, ◌↔◌, ◌⊎◌,
  inl, inr, false, Option, none, some, [], ◌∷◌, ◌++◌, append_assoc, append-nil, arith, ◌==◌, ==_iff,
  Bool-cases, Option-cases, length, length-append, Bytes,
}
use mathlib.Core.Path.{subst}
use b6b.Str.Expand.{
  Expanded, expanded, bad_escape, bad_hex_escape, bad_hex_digit, hex_digit, simple_escape, Step,
  stop, put, hex_step, escape_step, expand_step, expand_loop, expand,
}
use b6b.Str.Expand.Grammar.{
  HexDigit, decimal, lower, upper, Letter, nul, backslash, newline, tab, carriage_return, Reads,
  plain, simple, hex, Expands, nil, next, length-Reads,
}

-- The loop's invariant: where it is, and how much it has stored.
record At (last i : ℕ) (rest out : Bytes) : Type 0 where
  ends : i + length rest ≡ last + 1
  stored : length out ≤ i

length_snoc : (out : Bytes) (b : ℕ) → length (out ++ b ∷ []) ≡ length out + 1
length_snoc out b = omega (arith, length-append out (b ∷ []))

At-next :
    {last i n b : ℕ} {s s' out : Bytes}
    → Reads s b n s'
    → At last i s out
    → At last (i + n) s' (out ++ b ∷ [])
At-next {b = b} {out = out} r a = record {
  ends = omega (arith, a.ends, length-Reads r);
  stored = omega (arith, length_snoc out b, a.stored, length-Reads r);
}

hex_digit_complete : (c v : ℕ) → HexDigit c v → hex_digit c ≡ some v
unfolding hex_digit
hex_digit_complete c v (decimal l e) = ground (arith, l, e)
hex_digit_complete c v (lower k l e q) = ground (arith, l, e, q)
hex_digit_complete c v (upper k l e q) = ground (arith, l, e, q)

hex_digit_sound : (c v : ℕ) → hex_digit c ≡ some v → HexDigit c v
unfolding hex_digit
hex_digit_sound c v h = elim (Bool-cases (leb b'0' c && leb c b'9')) [
  | inl d ↦ decimal (ground (arith, h, d)) (ground (arith, h, d))
  | inr d ↦ elim (Bool-cases (leb b'a' c && leb c b'f')) [
    | inl a ↦ lower (c - b'a') (ground (arith, a)) (ground (arith, a)) (ground (arith, h, d, a))
    | inr a ↦ elim (Bool-cases (leb b'A' c && leb c b'F')) [
      | inl u ↦
          upper (c - b'A') (ground (arith, u)) (ground (arith, u)) (ground (arith, h, d, a, u))
      | inr u ↦ absurd (ground (arith, h, d, a, u))
    ]
  ]
]

simple_escape_complete : (e b : ℕ) → Letter e b → simple_escape e ≡ some b
unfolding simple_escape
simple_escape_complete e b (nul p q) = ground (arith, p, q)
simple_escape_complete e b (backslash p q) = ground (arith, p, q)
simple_escape_complete e b (newline p q) = ground (arith, p, q)
simple_escape_complete e b (tab p q) = ground (arith, p, q)
simple_escape_complete e b (carriage_return p q) = ground (arith, p, q)

simple_escape_sound : (e b : ℕ) → simple_escape e ≡ some b → Letter e b
unfolding simple_escape
simple_escape_sound e b h = elim (Bool-cases (e == b'0')) [
  | inl y ↦ nul (ground (arith, y)) (ground (arith, h, y))
  | inr z ↦ elim (Bool-cases (e == b'\\')) [
    | inl y ↦ backslash (ground (arith, y)) (ground (arith, h, y, z))
    | inr s ↦ elim (Bool-cases (e == b'n')) [
      | inl y ↦ newline (ground (arith, y)) (ground (arith, h, y, z, s))
      | inr n ↦ elim (Bool-cases (e == b't')) [
        | inl y ↦ tab (ground (arith, y)) (ground (arith, h, y, z, s, n))
        | inr t ↦ carriage_return (ground (arith, h, z, s, n, t)) (ground (arith, h, z, s, n, t))
      ]
    ]
  ]
]

simple_escape-ne-x : (e b : ℕ) → simple_escape e ≡ some b → (e == b'x') ≡ false
unfolding simple_escape
simple_escape-ne-x e b h = ground arith

-- The test `j == last` stops no escape that has a letter.
expand_step_complete :
    (last i c b n : ℕ) (rest s' out : Bytes)
    → At last i (c ∷ rest) out
    → Reads (c ∷ rest) b n s'
    → expand_step last i (length out) c rest ≡ put b n s'
unfolding expand_step
expand_step_complete last i c b n rest s' out a (plain d e p q k) = ground arith
expand_step_complete last i c b n [] s' out a (simple d e p k) = cc
expand_step_complete last i c b n (x ∷ rest) s' out a (simple d e p k) =
    let q = simple_escape_complete d b p in
    ground (arith, a.ends, a.stored, q, simple_escape-ne-x d b q)
expand_step_complete last i c b n (x ∷ h' ∷ l' ∷ rest) s' out a (hex h l hi lo e p q r k) =
    ground (arith, a.ends, a.stored, hex_digit_complete h hi p, hex_digit_complete l lo q)
expand_step_complete last i c b n (x ∷ h' ∷ []) s' out a (hex h l hi lo e p q r k) = cc
expand_step_complete last i c b n (x ∷ []) s' out a (hex h l hi lo e p q r k) = cc
expand_step_complete last i c b n [] s' out a (hex h l hi lo e p q r k) = cc

hex_step_sound :
    (b n : ℕ) (rest s' : Bytes) → hex_step rest ≡ put b n s' → Reads (b'\\' ∷ b'x' ∷ rest) b n s'
unfolding hex_step
hex_step_sound b n [] s' e = cc
hex_step_sound b n (h ∷ []) s' e = cc
hex_step_sound b n (h ∷ l ∷ rest) s' e = digits (hex_digit h) (hex_digit l) refl refl e
  where
    digits :
        (x y : Option ℕ)
        → hex_digit h ≡ x
        → hex_digit l ≡ y
        → elim x [
          | none ↦ stop bad_hex_digit
          | some hi ↦ elim y [ none ↦ stop bad_hex_digit | some lo ↦ put (hi * 16 + lo) 4 rest ]
        ]
          ≡ put b n s'
        → Reads (b'\\' ∷ b'x' ∷ h ∷ l ∷ rest) b n s'
    digits none y p q k = cc
    digits (some hi) none p q k = cc
    digits (some hi) (some lo) p q k =
        hex h l hi lo (ground arith) (hex_digit_sound h hi p) (hex_digit_sound l lo q)
          (ground arith) (ground arith)

escape_step_sound :
    (last i b n : ℕ) (rest s' : Bytes)
    → escape_step last i rest ≡ put b n s'
    → Reads (b'\\' ∷ rest) b n s'
unfolding escape_step
escape_step_sound last i b n [] s' h = cc
escape_step_sound last i b n (e ∷ rest) s' h = elim (Bool-cases (e == b'x')) [
  | inl x ↦
      subst (λ z. Reads (b'\\' ∷ z ∷ rest) b n s') (sym ((==_iff e b'x').0 x))
        (hex_step_sound b n rest s' (ground arith))
  | inr x ↦ elim (Option-cases (simple_escape e)) [
    | inl no_escape ↦ absurd (ground arith)
    | inr (v, p) ↦ simple e (ground arith) (simple_escape_sound e b (ground arith)) (ground arith)
  ]
]

expand_step_sound :
    (last i j c b n : ℕ) (rest s' : Bytes)
    → expand_step last i j c rest ≡ put b n s'
    → Reads (c ∷ rest) b n s'
unfolding expand_step
expand_step_sound last i j c b n rest s' h = elim (Bool-cases (c == b'\\')) [
  | inl e ↦
      subst (λ z. Reads (z ∷ rest) b n s') (sym ((==_iff c b'\\').0 e))
        (escape_step_sound last i b n rest s' (ground arith))
  | inr e ↦ plain c (ground arith) (ground arith) (ground arith) (ground arith)
]

expand_loop_complete :
    (f last i : ℕ) {s t : Bytes} (out : Bytes)
    → Expands s t
    → At last i s out
    → length s < f
    → expand_loop f last i s out ≡ expanded (out ++ t)
unfolding expand_loop
expand_loop_complete zero last i out ex a h = absurd (omega arith)
expand_loop_complete (suc f) last i out nil a h = rw append-nil
expand_loop_complete (suc f) last i {s = []} out (next n r ex) a h =
    absurd (omega (arith, length-Reads r))
expand_loop_complete (suc f) last i {s = c ∷ rest} out (next {s' = s'} {t} {b} n r ex) a h =
    rw (expand_step_complete last i c b n rest s' out a r) (
      expand_loop_complete f last (i + n) (out ++ b ∷ []) ex (At-next r a)
        (omega (arith, length-Reads r))
      ∙ ap expanded (append_assoc out (b ∷ []) t))

Step-cases :
    (s : Step)
    → ((e : Expanded) × (s ≡ stop e)) ⊎ ((b : ℕ) × (n : ℕ) × (rest : Bytes) × (s ≡ put b n rest))
Step-cases (stop e) = inl (e, refl)
Step-cases (put b n rest) = inr (b, n, rest, refl)

-- The loop's ends that stand for an error message of the code.
abbrev pub IsError : Expanded → Type 0
IsError e = (e ≡ bad_escape) ⊎ ((e ≡ bad_hex_escape) ⊎ (e ≡ bad_hex_digit))

-- A step that ends the loop ends it with an error message: nothing is read behind the text.
expand_step-IsError :
    (last i c : ℕ) (rest out : Bytes) (e : Expanded)
    → At last i (c ∷ rest) out
    → expand_step last i (length out) c rest ≡ stop e
    → IsError e
unfolding expand_step
expand_step-IsError last i c [] out e a h = ground (arith, a.ends)
expand_step-IsError last i c (x ∷ []) out e a h = ground (arith, a.ends)
expand_step-IsError last i c (x ∷ y ∷ []) out e a h = ground (arith, a.ends)
expand_step-IsError last i c (x ∷ y ∷ z ∷ rest) out e a h = ground (arith, a.ends)

-- The loop ends with the text that the escapes stand for, or with an error message.
abbrev Ends : Bytes → Bytes → Expanded → Type 0
Ends s out r = ((t : Bytes) × (r ≡ expanded (out ++ t)) × Expands s t) ⊎ IsError r

expand_loop-Ends :
    (f last i : ℕ) (s out : Bytes)
    → At last i s out
    → length s < f
    → Ends s out (expand_loop f last i s out)
unfolding expand_loop
expand_loop-Ends zero last i s out a h = absurd (omega arith)
expand_loop-Ends (suc f) last i [] out a h = inl ([], rw append-nil, nil)
expand_loop-Ends (suc f) last i (c ∷ rest) out a h =
    elim (Step-cases (expand_step last i (length out) c rest)) [
      | inl (e, p) ↦ rw p (inr (expand_step-IsError last i c rest out e a p))
      | inr (b, n, s', p) ↦
          let r = expand_step_sound last i (length out) c b n rest s' p in
          rw p (
            extend b n s' r (
              expand_loop-Ends f last (i + n) s' (out ++ b ∷ []) (At-next r a)
                (omega (arith, length-Reads r))))
    ]
  where
    extend :
        (b n : ℕ) (s' : Bytes) {e : Expanded}
        → Reads (c ∷ rest) b n s'
        → Ends s' (out ++ b ∷ []) e
        → Ends (c ∷ rest) out e
    extend b n s' r (inl (t, q, x)) =
        inl (b ∷ t, q ∙ ap expanded (append_assoc out (b ∷ []) t), next n r x)
    extend b n s' r (inr e) = inr e

-- `last` as the code computes it.
abbrev last_of : Bytes → ℕ
last_of s = (length s + 2 ^ 64 - 1) % 2 ^ 64

At-start : (c : ℕ) (s : Bytes) → length s < 2 ^ 64 - 1 → At (last_of (c ∷ s)) 0 (c ∷ s) []
At-start c s h = record { ends = omega arith; stored = omega arith }

expand-Ends : (s : Bytes) → length s < 2 ^ 64 → Ends s [] (expand s)
unfolding expand
expand-Ends [] h = inl ([], refl, nil)
expand-Ends (c ∷ s) h =
    expand_loop-Ends (suc (length (c ∷ s))) (last_of (c ∷ s)) 0 (c ∷ s) []
      (At-start c s (omega arith)) (omega arith)

expand_complete : {s t : Bytes} → length s < 2 ^ 64 → Expands s t → expand s ≡ expanded t
unfolding expand
expand_complete h nil = refl
expand_complete {s = []} h (next n r x) = absurd (omega (arith, length-Reads r))
expand_complete {s = c ∷ s} h (next n r x) =
    expand_loop_complete (suc (length (c ∷ s))) (last_of (c ∷ s)) 0 [] (next n r x)
      (At-start c s (omega arith)) (omega arith)

-- For a text shorter than 2 ^ 64 bytes, str.expand gives the text `t` exactly when `t` is what the
-- bytes and escapes of `s` stand for;
-- and where there is no such text it ends with one of its three error messages.
pub expand_iff :
    (s : Bytes)
    → length s < 2 ^ 64
    → ((t : Bytes) → (expand s ≡ expanded t) ↔ Expands s t)
      × (((t : Bytes) × Expands s t) ⊎ IsError (expand s))
expand_iff s h = (λ t. (sound t (expand-Ends s h), expand_complete h), total (expand-Ends s h))
  where
    sound : (t : Bytes) → Ends s [] (expand s) → expand s ≡ expanded t → Expands s t
    sound t (inl (u, p, x)) q = subst (Expands s) (ground arith) x
    sound t (inr e) q = ground arith

    total : Ends s [] (expand s) → ((t : Bytes) × Expands s t) ⊎ IsError (expand s)
    total (inl (u, p, x)) = inl (u, x)
    total (inr e) = inr e
