-- ===== src/Rand/Range.antt =====
-- src/b6b_rand.c: what `choice` and `randint` can give.
use b6b.Base.{
  ℕ, zero, suc, ◌+◌, ◌-◌, ◌%◌, ◌^◌, true, ◌≤◌, ◌<◌, ◌≡◌, refl, ap, ◌∙◌, inl, inr, false, Bool-cases,
  some, List, [], ◌∷◌, arith, leb, ◌==◌, if◌then◌else◌, length, get_elem?, get_elem?-lt,
}
use b6b.Base.Int.{ℤ, pos, negsuc, pos_part, neg_part, ltb_ℤ}
use b6b.Store.{Ptr}
use b6b.Rand.{reached, behind, forward, choose_item}

forward-suc :
    (k i : ℕ) (li x : Ptr) (rest : List Ptr)
    → forward (suc k) i li (x ∷ rest) ≡ forward k (i + 1) x rest
unfolding forward
forward-suc k i li x rest =
    let more : (suc k == 0) ≡ false = ground arith in
    let less : suc k - 1 ≡ k = omega arith in rw (more, less) refl

-- The loop stops at the item that is `left` further, or behind the list.
forward-index :
    (left i : ℕ) (li : Ptr) (rest : List Ptr)
    → (left ≤ length rest
        → (q : Ptr) × (forward left i li rest ≡ reached q) × (get_elem? (li ∷ rest) left ≡ some q))
      × (length rest < left → forward left i li rest ≡ behind (i + length rest))
unfolding forward
forward-index zero i li [] = ((λ h. (li, refl, refl)), λ h. absurd (omega arith))
forward-index (suc k) i li [] = ((λ h. absurd (omega arith)), λ h. ground arith)
forward-index zero i li (x ∷ rest) = ((λ h. (li, refl, refl)), λ h. absurd (omega arith))
forward-index (suc k) i li (x ∷ rest) =
    let (inside, past) = forward-index k (i + 1) x rest in
    (
      λ h. rw (forward-suc k i li x rest) (inside (omega arith)),
      λ h. forward-suc k i li x rest ∙ past (omega arith) ∙ ap behind (omega arith),
    )

-- Which item a number selects: the first `length` numbers are taken as positions from 1 on, 0 as 1, and
-- any other by its remainder.
abbrev pub chosen_index : ℕ → ℕ → ℕ
chosen_index len c = if leb c len then c - 1 else c % len

-- `choice` from a list that is not empty always gives an item of the list, whatever the number.
pub choose_item_lem :
    (li : Ptr) (rest : List Ptr) (c : ℕ)
    → (q : Ptr) × (choose_item li rest c ≡ some q)
      × (get_elem? (li ∷ rest) (chosen_index (length (li ∷ rest)) c) ≡ some q)
      × (chosen_index (length (li ∷ rest)) c < length (li ∷ rest))
unfolding choose_item
choose_item_lem li rest c = elim (Bool-cases (leb c (suc (length rest)))) [
  | inl near ↦
      let (q, e, g) = (forward-index (c - 1) 1 li rest).0 (ground arith) in
      (q, rw e refl, rw near g, rw near (ground arith))
  | inr far ↦
      let small : c % suc (length rest) < suc (length rest) = grind arith in
      let (q, g) = get_elem?-lt (li ∷ rest) (c % suc (length rest)) small in
      let e = (forward-index (c - 1) 1 li rest).1 (ground arith) in
      let n : 1 + length rest ≡ suc (length rest) = omega arith in
      (q, rw (e, n) g, rw far g, rw far small)
]

-- The two are C ints, the first is below the second, and they are not INT_MIN and INT_MAX.
abbrev pub IsRange : ℤ → ℤ → Type 0
IsRange start end =
    (ltb_ℤ start (negsuc (2 ^ 31 - 1)) ≡ false)
    × (ltb_ℤ start end ≡ true)
    × (ltb_ℤ (pos (2 ^ 31 - 1)) end ≡ false)
    × (pos_part end + neg_part start < pos_part start + neg_part end + (2 ^ 32 - 1))
