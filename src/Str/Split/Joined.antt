-- ===== src/Str/Split/Joined.antt =====
-- What str.split and str.join compute of each other's results.
use b6b.Base.{
  ℕ, zero, suc, ◌≡◌, refl, sym, ap, ◌∙◌, Bool, true, false, Option, none, some, List, [], ◌∷◌, ◌++◌,
  append_assoc, append-nil, arith, ◌==◌, length, Bytes, if◌then◌else◌,
}
use b6b.Str.Split.{
  but_differs, same_bytes, Pieces, pieces, behind, split_loop, split_bytes, Cut, no_cut, past_end,
  cut, cut_at, cut_if, cut_here, continue_with, split, join_onto, join,
}

join_onto-append :
    (d acc : Bytes) (xs ys : List Bytes)
    → join_onto d acc (xs ++ ys) ≡ join_onto d (join_onto d acc xs) ys
unfolding join_onto
join_onto-append d acc [] ys = refl
join_onto-append d acc (x ∷ xs) ys = join_onto-append d (acc ++ (d ++ x)) xs ys

-- The pieces stored so far, and what they contribute to the joined text: each is followed by
-- the delimiter.
abbrev closed : Bytes → List Bytes → Bytes
closed d [] = []
closed d (x ∷ xs) = x ++ (d ++ closed d xs)

closed-snoc :
    (d : Bytes) (out : List Bytes) (seg : Bytes)
    → closed d (out ++ seg ∷ []) ≡ closed d out ++ (seg ++ d)
closed-snoc d [] seg = simp append-nil
closed-snoc d (x ∷ out) seg = simp (closed-snoc d out seg, append_assoc)

join_onto-closed :
    (d acc : Bytes) (out : List Bytes) (seg : Bytes)
    → join_onto d acc (out ++ seg ∷ []) ≡ acc ++ (d ++ (closed d out ++ seg))
unfolding join_onto
join_onto-closed d acc [] seg = refl
join_onto-closed d acc (x ∷ out) seg =
    simp (join_onto-closed d (acc ++ (d ++ x)) out seg, append_assoc)

join-closed :
    (d : Bytes) (out : List Bytes) (seg : Bytes) → join d (out ++ seg ∷ []) ≡ closed d out ++ seg
unfolding join
join-closed d [] seg = refl
join-closed d (x ∷ out) seg = simp (join_onto-closed d x out seg, append_assoc)

same_bytes-both :
    (y x : ℕ) (r : Option Bool)
    → (if y == x then r else but_differs r) ≡ some true
    → (y ≡ x) × (r ≡ some true)
same_bytes-both y x none h = ground (arith, h)
same_bytes-both y x (some b) h = ground (arith, h)

-- A delimiter that matched stands at the front.
pub behind-append :
    (rest d rest' buf : Bytes)
    → same_bytes (rest ++ buf) d ≡ some true
    → behind rest d ≡ some rest'
    → rest ≡ d ++ rest'
unfolding same_bytes behind
behind-append rest [] rest' buf h e = ground arith
behind-append [] (x ∷ d) rest' buf h e = cc
behind-append (y ∷ rest) (x ∷ d) rest' buf h e =
    let (same, more) = same_bytes-both y x (same_bytes (rest ++ buf) d) h in
    ground (arith, same, behind-append rest d rest' buf more e)

pub cut_here-append : (d rest rest' : Bytes) → cut_here d rest ≡ cut rest' → rest ≡ d ++ rest'
unfolding cut_here
cut_here-append d rest rest' h = go (same_bytes (rest ++ 0 ∷ []) d) (behind rest d) refl refl h
  where
    go :
        (m : Option Bool) (b : Option Bytes)
        → same_bytes (rest ++ 0 ∷ []) d ≡ m
        → behind rest d ≡ b
        → cut_if d rest m ≡ cut rest'
        → rest ≡ d ++ rest'
    go none b p q k = cc
    go (some false) b p q k = cc
    go (some true) none p q k = cc (ap cut_at q)
    go (some true) (some r) p q k = behind-append rest d rest' (0 ∷ []) p (ground (arith))

-- Whatever the rest of the loop does, it keeps the text that the pieces are joined to.
abbrev Keeps : Bytes → (Bytes → Bytes → List Bytes → Pieces) → Type 0
Keeps d again =
    (rest seg : Bytes) (out ps : List Bytes)
    → again rest seg out ≡ pieces ps
    → join d ps ≡ closed d out ++ (seg ++ rest)

continue_with-Keeps :
    (d : Bytes) (again : Bytes → Bytes → List Bytes → Pieces)
    → Keeps d again
    → (c : ℕ) (rest seg : Bytes) (out ps : List Bytes) (m : Cut) → cut_here d (c ∷ rest) ≡ m
    → continue_with again c rest seg out m ≡ pieces ps
    → join d ps ≡ closed d out ++ (seg ++ c ∷ rest)
continue_with-Keeps d again ih c rest seg out ps past_end e h = cc
continue_with-Keeps d again ih c rest seg out ps no_cut e h =
    ih rest (seg ++ c ∷ []) out ps h ∙ simp append_assoc
continue_with-Keeps d again ih c rest seg out ps (cut rest') e h =
    ih rest' [] (out ++ seg ∷ []) ps h
    ∙ simp (closed-snoc, append_assoc)
        (ap (λ z. closed d out ++ (seg ++ z)) (sym (cut_here-append d (c ∷ rest) rest' e)))

join-split_loop : (f : ℕ) (d : Bytes) → Keeps d (split_loop f d)
unfolding split_loop
join-split_loop zero d rest seg out ps h = cc
join-split_loop (suc f) d [] seg out ps h =
    let e : out ++ seg ∷ [] ≡ ps = cc in
    ap (join d) (sym e) ∙ join-closed d out seg ∙ simp append-nil
join-split_loop (suc f) d (c ∷ rest) seg out ps h =
    continue_with-Keeps d (split_loop f d) (join-split_loop f d) c rest seg out ps _ refl h

join_onto-split_bytes :
    (s acc : Bytes) (out : List Bytes)
    → join_onto [] acc (split_bytes s out) ≡ join_onto [] acc out ++ s
unfolding split_bytes
join_onto-split_bytes [] acc out = rw append-nil
join_onto-split_bytes (c ∷ s) acc out =
    join_onto-split_bytes s acc (out ++ (c ∷ []) ∷ [])
    ∙ rw (join_onto-append [] acc out ((c ∷ []) ∷ [])) (unfold join_onto in simp append_assoc)

join_onto-nil : (acc : Bytes) → join_onto [] acc [] ≡ acc
unfolding join_onto
join_onto-nil acc = refl

split_bytes-append : (s : Bytes) (out : List Bytes) → split_bytes s out ≡ out ++ split_bytes s []
unfolding split_bytes
split_bytes-append [] out = rw append-nil
split_bytes-append (c ∷ s) out =
    split_bytes-append s (out ++ (c ∷ []) ∷ [])
    ∙ append_assoc out ((c ∷ []) ∷ []) _
    ∙ ap (◌++◌ out) (sym (split_bytes-append s ((c ∷ []) ∷ [])))

pub split_bytes-cons : (c : ℕ) (s : Bytes) → split_bytes (c ∷ s) [] ≡ (c ∷ []) ∷ split_bytes s []
split_bytes-cons c s = unfold split_bytes in split_bytes-append s ((c ∷ []) ∷ [])

join-split_bytes : (s : Bytes) → join [] (split_bytes s []) ≡ s
unfolding join
join-split_bytes [] = unfold split_bytes in refl
join-split_bytes (c ∷ s) =
    ap (join []) (split_bytes-cons c s)
    ∙ join_onto-split_bytes s (c ∷ []) []
    ∙ ap (λ z. z ++ s) (join_onto-nil (c ∷ []))

-- Joining the pieces of a text by the delimiter that it was split by gives the text again,
-- also for the empty delimiter.
pub join-split : (s d : Bytes) (ps : List Bytes) → split s d ≡ pieces ps → join d ps ≡ s
unfolding split
join-split s [] ps h =
    let e : split_bytes s [] ≡ ps = cc in ap (join []) (sym e) ∙ join-split_bytes s
join-split s (x ∷ d) ps h = join-split_loop (suc (length s)) (x ∷ d) s [] [] ps h
