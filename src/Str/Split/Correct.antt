-- ===== src/Str/Split/Correct.antt =====
-- What str.split computes.
use b6b.Base.{
  ℕ, zero, suc, ◌+◌, ◌<◌, ◌≡◌, refl, ap, ◌∙◌, ◌⊎◌, inl, inr, Bool, true, false, Option, none, some,
  List, [], ◌∷◌, ◌++◌, append_assoc, append-nil, arith, ◌==◌, Bool-cases, length, All, Bytes, map,
  length-append,
}
use b6b.Str.Split.{
  but_differs, overrun, same_bytes, Pieces, pieces, behind, split_loop, split_bytes, Cut, no_cut,
  past_end, cut, cut_if, cut_here, continue_with, split, join,
}
use b6b.Str.Split.Joined.{join-split, split_bytes-cons}

-- No byte is NUL.
abbrev pub NoNul : Bytes → Type 0
NoNul = All (λ b. (b == 0) ≡ false)

-- `d` stands at the front.
abbrev pub Starts : Bytes → Bytes → Type 0
Starts d s = (r : Bytes) × (s ≡ d ++ r)

-- `Cuts d s p ps`: from the left, wherever `d` stands in `s` it ends a piece, and is no part of one;
-- `p` is the first piece, and `ps` are the others.
pub data Cuts (d : Bytes) : Bytes → Bytes → List Bytes → Type 0 where
  end : Cuts d [] [] []
  here :
      {s p : Bytes} {ps : List Bytes} (r : Bytes)
      → s ≡ d ++ r
      → Cuts d r p ps
      → Cuts d s [] (p ∷ ps)
  byte :
      {s p : Bytes} {ps : List Bytes} (c : ℕ)
      → ¬ (Starts d (c ∷ s))
      → Cuts d s p ps
      → Cuts d (c ∷ s) (c ∷ p) ps

-- What comparing comes to: no match, a match, or bytes past the final NUL.
data Compared (rest d : Bytes) : Option Bool → Type 0 where
  differs : ¬ (Starts d rest) → Compared rest d (some false)
  matches : (r : Bytes) → behind rest d ≡ some r → rest ≡ d ++ r → Compared rest d (some true)
  leaves : length rest + 1 < length d → Compared rest d none

differs-next :
    (y x : ℕ) (rest d : Bytes) (m : Option Bool)
    → (y == x) ≡ false
    → Compared rest d m
    → Compared (y ∷ rest) (x ∷ d) (but_differs m)
differs-next y x rest d _ q (differs n) = differs (λ (r, e). ground (arith, e, q))
differs-next y x rest d _ q (matches r b e) = differs (λ (r', e'). ground (arith, e', q))
differs-next y x rest d _ q (leaves l) = leaves (omega (arith, l))

same-next :
    (y x : ℕ) (rest d : Bytes) (m : Option Bool)
    → (y == x) ≡ true
    → Compared rest d m
    → Compared (y ∷ rest) (x ∷ d) m
unfolding behind
same-next y x rest d _ q (differs n) = differs (λ (r, e). n (r, ground (arith, e)))
same-next y x rest d _ q (matches r b e) = matches r b (ground (arith, e, q))
same-next y x rest d _ q (leaves l) = leaves (omega (arith, l))

nul-Compared :
    (x : ℕ) (d : Bytes) → (x == 0) ≡ false → Compared [] (x ∷ d) (same_bytes (0 ∷ []) (x ∷ d))
unfolding same_bytes
nul-Compared x [] h = let q : (0 == x) ≡ false = ground (arith, h) in rw q (differs (λ (r, e). cc))
nul-Compared x (y ∷ d) h =
    let q : (0 == x) ≡ false = ground (arith, h) in rw q (leaves (omega arith))

same_bytes-Compared : (rest d : Bytes) → NoNul d → Compared rest d (same_bytes (rest ++ 0 ∷ []) d)
unfolding same_bytes behind
same_bytes-Compared rest [] h = matches rest refl refl
same_bytes-Compared [] (x ∷ d) h = nul-Compared x d h.0
same_bytes-Compared (y ∷ rest) (x ∷ d) h =
    let rec = same_bytes-Compared rest d h.1 in
    elim (Bool-cases (y == x)) [
      | inl q ↦ rw q (same-next y x rest d _ q rec)
      | inr q ↦ rw q (differs-next y x rest d _ q rec)
    ]

-- What a round of the loop does.
data Decided (d rest : Bytes) : Cut → Type 0 where
  stays : ¬ (Starts d rest) → Decided d rest no_cut
  cuts : (r : Bytes) → rest ≡ d ++ r → Decided d rest (cut r)
  leaves : length rest + 1 < length d → Decided d rest past_end

cut_if-Decided :
    (d rest : Bytes) (m : Option Bool) → Compared rest d m → Decided d rest (cut_if d rest m)
cut_if-Decided d rest _ (differs n) = stays n
cut_if-Decided d rest _ (matches r b e) = rw b (cuts r e)
cut_if-Decided d rest _ (leaves l) = leaves l

cut_here-Decided : (d rest : Bytes) → NoNul d → Decided d rest (cut_here d rest)
unfolding cut_here
cut_here-Decided d rest h =
    cut_if-Decided d rest (same_bytes (rest ++ 0 ∷ []) d) (same_bytes-Compared rest d h)

-- The pieces that are there, and those of the rest; or a comparison past the block's end.
abbrev Outcome : Bytes → Bytes → Bytes → List Bytes → Pieces → Type 0
Outcome d rest seg out m =
    ((p : Bytes) × (ps : List Bytes) × (m ≡ pieces (out ++ (seg ++ p) ∷ ps)) × Cuts d rest p ps)
    ⊎ ((m ≡ overrun) × (2 < length d))

decided-Outcome :
    (again : Bytes → Bytes → List Bytes → Pieces) (f c x : ℕ) (d rest seg : Bytes)
    (out : List Bytes) (m : Cut)
    → Decided (x ∷ d) (c ∷ rest) m
    → length rest < f
    → ((r s : Bytes) (o : List Bytes) → length r < f → Outcome (x ∷ d) r s o (again r s o))
    → Outcome (x ∷ d) (c ∷ rest) seg out (continue_with again c rest seg out m)
decided-Outcome again f c x d rest seg out _ (stays n) l ih = elim (ih rest (seg ++ c ∷ []) out l) [
  | inl (p, ps, e, k) ↦ inl (c ∷ p, ps, e ∙ simp append_assoc refl, byte c n k)
  | inr o ↦ inr o
]
decided-Outcome again f c x d rest seg out _ (cuts r e) l ih =
    let small : length r < f = omega (arith, l, ap length e, length-append d r) in
    elim (ih r [] (out ++ seg ∷ []) small) [
      | inl (p, ps, q, k) ↦ inl ([], p ∷ ps, q ∙ simp (append_assoc, append-nil) refl, here r e k)
      | inr o ↦ inr o
    ]
decided-Outcome again f c x d rest seg out _ (leaves l') l ih = inr (refl, omega (arith, l'))

split_loop-Outcome :
    (f x : ℕ) (d rest seg : Bytes) (out : List Bytes)
    → NoNul (x ∷ d)
    → length rest < f
    → Outcome (x ∷ d) rest seg out (split_loop f (x ∷ d) rest seg out)
unfolding split_loop
split_loop-Outcome zero x d rest seg out h l = absurd (omega arith)
split_loop-Outcome (suc f) x d [] seg out h l = inl ([], [], simp append-nil refl, end)
split_loop-Outcome (suc f) x d (c ∷ rest) seg out h l =
    decided-Outcome (split_loop f (x ∷ d)) f c x d rest seg out (cut_here (x ∷ d) (c ∷ rest))
      (cut_here-Decided (x ∷ d) (c ∷ rest) h) (omega (arith, l))
      (λ r s o k. split_loop-Outcome f x d r s o h k)

-- What the pieces are: an empty delimiter gives each byte as one.
abbrev pub IsSplit : Bytes → Bytes → List Bytes → Type 0
IsSplit [] s ps = ps ≡ map (λ b. b ∷ []) s
IsSplit (x ∷ d) s [] = ⊥
IsSplit (x ∷ d) s (p ∷ ps) = Cuts (x ∷ d) s p ps

split_bytes-map : (s : Bytes) → split_bytes s [] ≡ map (λ b. b ∷ []) s
unfolding split_bytes
split_bytes-map [] = refl
split_bytes-map (c ∷ s) = split_bytes-cons c s ∙ ap (◌∷◌ (c ∷ [])) (split_bytes-map s)

-- str.split by a delimiter with no NUL byte ends. It gives the pieces of the text, which are cut from
-- the left wherever the delimiter stands, or, for an empty delimiter, after each byte, and which
-- joined by the delimiter are the text again; or memcmp leaves the text's block, which happens for a
-- delimiter of more than two bytes only.
pub split_total :
    (s d : Bytes)
    → NoNul d
    → ((ps : List Bytes) × (split s d ≡ pieces ps) × IsSplit d s ps × (join d ps ≡ s))
      ⊎ ((split s d ≡ overrun) × (2 < length d))
unfolding split
split_total s [] h =
    inl (split_bytes s [], refl, split_bytes-map s, join-split s [] (split_bytes s []) refl)
split_total s (x ∷ d) h = elim (split_loop-Outcome (suc (length s)) x d s [] [] h (omega arith)) [
  | inl (p, ps, e, k) ↦ inl (p ∷ ps, e, k, join-split s (x ∷ d) (p ∷ ps) e)
  | inr o ↦ inr o
]
