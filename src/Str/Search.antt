-- ===== src/Str/Search.antt =====
-- src/b6b_str.c, b6b_str_proc_in: the search for a text within a text.
use b6b.Base.{
  ℕ, zero, suc, ◌+◌, ◌-◌, ◌≤◌, ◌<◌, ◌≡◌, sym, ap, ◌∙◌, ◌↔◌, inl, inr, Bool, true, false, [], ◌∷◌,
  ◌++◌, append-nil, arith, if◌then◌else◌, Bool-cases, length, take, drop, length-append,
  take-append, take-append-drop, Bytes, bytes_eq, bytes_eq_iff, bytes_eq_refl,
}

-- The loop: `k` is the number of rounds left, and `rest` the text from s[i] on.
unfoldable pub found_in : ℕ → Bytes → Bytes → Bool
found_in zero sub rest = false
found_in (suc k) sub rest =
    let later = found_in k sub (drop 1 rest) in
    if bytes_eq (take (length sub) rest) sub then true else later

-- `sub` stands somewhere in `s`.
abbrev pub Occurs : Bytes → Bytes → Type 0
Occurs sub s = (u : Bytes) × (v : Bytes) × (s ≡ u ++ (sub ++ v))

found_in_sound : (k : ℕ) (sub rest : Bytes) → found_in k sub rest ≡ true → Occurs sub rest
unfolding found_in
found_in_sound zero sub rest h = cc
found_in_sound (suc k) sub rest h = elim (Bool-cases (bytes_eq (take (length sub) rest) sub)) [
  | inl e ↦ ([], drop (length sub) rest, here e)
  | inr e ↦ there rest (found_in_sound k sub (drop 1 rest) (ground arith))
]
  where
    here : bytes_eq (take (length sub) rest) sub ≡ true → rest ≡ sub ++ drop (length sub) rest
    here e =
        sym (take-append-drop (length sub) rest)
        ∙ ap (λ z. z ++ drop (length sub) rest) ((bytes_eq_iff _ sub).0 e)

    there : (r : Bytes) → Occurs sub (drop 1 r) → Occurs sub r
    there [] o = o
    there (c ∷ r) (u, v, e) = (c ∷ u, v, ap (◌∷◌ c) e)

found_in_complete :
    (k : ℕ) (sub u v : Bytes) → length u < k → found_in k sub (u ++ (sub ++ v)) ≡ true
unfolding found_in
found_in_complete zero sub u v h = absurd (omega arith)
found_in_complete (suc k) sub [] v h = rw (take-append sub v) (rw (bytes_eq_refl sub))
found_in_complete (suc k) sub (c ∷ u) v h =
    ground (arith, found_in_complete k sub u v (omega arith))

pub found_in_iff :
    (sub s : Bytes)
    → length sub < length s
    → (found_in (length s - length sub + 1) sub s ≡ true) ↔ Occurs sub s
found_in_iff sub s l = (found_in_sound _ sub s, back)
  where
    back : Occurs sub s → found_in (length s - length sub + 1) sub s ≡ true
    back (u, v, e) = rw e (
        found_in_complete _ sub u v
          (omega (arith, length-append u (sub ++ v), length-append sub v)))

pub length-Occurs : (sub s : Bytes) → Occurs sub s → length sub ≤ length s
length-Occurs sub s (u, v, e) =
    omega (arith, ap length e, length-append u (sub ++ v), length-append sub v)

pub Occurs-same : (sub s : Bytes) → length s ≡ length sub → Occurs sub s → sub ≡ s
Occurs-same sub s l ([], [], e) = sym (e ∙ append-nil sub)
Occurs-same sub s l ([], c ∷ v, e) = absurd (omega (arith, ap length e, length-append sub (c ∷ v)))
Occurs-same sub s l (c ∷ u, v, e) =
    absurd (omega (arith, ap length e, length-append u (sub ++ v), length-append sub v))
