-- ===== src/Dict/Ops/Walk.antt =====
-- Where the walks over the keys of a dictionary (src/b6b_dict.c) stop.
use b6b.Base.{
  ℕ, suc, ◌+◌, ◌≡◌, refl, ap, ◌∙◌, Bool, true, false, Bool-cases, ◌⊎◌, inl, inr, Option, none, some,
  List, [], ◌∷◌, ◌++◌, arith, if◌then◌else◌, get_elem?,
}
use b6b.CLib.{CLib}
use b6b.Store.{Ptr, Obj, State}
use b6b.Store.Monad.{done, load-cell}
use b6b.Object.{obj_eq}
use b6b.Object.Cells.{obj_hash-cell}
use b6b.Dict.Ops.{Found, missing, found, set, find_key, find_key_to_set}
use b6b.Dict.Ops.Model.{Keyed, same, lookup, with_pair}

-- Where a walk over the keys stops.
unfoldable pub position : (Ptr → Option Obj) → Obj → List Ptr → ℕ → Found
unfolding obj_eq
position m y (k ∷ v ∷ rest) i =
    let later = position m y rest (i + 2) in if same (m k) y then found i else later
position m y _ i = missing

module _ ⦃c : CLib⦄ where
  pub find_key-position :
      (n : ℕ) (k : Ptr) (y : Obj) (xs : List Ptr) (i : ℕ) (st : State)
      → st.cell k ≡ some y
      → Keyed st.cell xs
      → find_key n k xs i st ≡ done (position st.cell y xs i) st
  unfolding find_key position
  find_key-position n k y [] i st h keyed = refl
  find_key-position n k y (k' ∷ []) i st h keyed = elim keyed [ ]
  find_key-position n k y (k' ∷ v' ∷ rest) i st h ((x, e, hashed), more) = ground (
    arith,
    obj_hash-cell n k' x st e hashed,
    load-cell k' x st e,
    load-cell k y st h,
    find_key-position n k y rest (i + 2) st h more,
    Bool-cases (obj_eq x y),
  )

  pub find_key_to_set-position :
      (n : ℕ) (k : Ptr) (y : Obj) (xs : List Ptr) (i : ℕ) (st : State)
      → st.cell k ≡ some y
      → Keyed st.cell xs
      → find_key_to_set n k xs i st ≡ done (position st.cell y xs i) st
  unfolding find_key_to_set position
  find_key_to_set-position n k y [] i st h keyed = refl
  find_key_to_set-position n k y (k' ∷ []) i st h keyed = elim keyed [ ]
  find_key_to_set-position n k y (k' ∷ v' ∷ rest) i st h ((x, e, hashed), more) = ground (
    arith,
    obj_hash-cell n k' x st e hashed,
    load-cell k' x st e,
    load-cell k y st h,
    find_key_to_set-position n k y rest (i + 2) st h more,
    Bool-cases (obj_eq x y),
  )

abbrev pub Missing : (Ptr → Option Obj) → Obj → Ptr → Ptr → List Ptr → ℕ → Type 0
Missing m y k v xs i =
    (position m y xs i ≡ missing)
    × (lookup m y xs ≡ none)
    × (with_pair m y k v xs ≡ xs ++ k ∷ v ∷ [])

abbrev pub At : (Ptr → Option Obj) → Obj → Ptr → Ptr → List Ptr → ℕ → Type 0
At m y k v xs i =
    (j : ℕ) × (w : Ptr) × (position m y xs i ≡ found (i + j))
    × (lookup m y xs ≡ some w)
    × (get_elem? xs (suc j) ≡ some w)
    × (set xs (suc j) v ≡ with_pair m y k v xs)

-- The walk stops nowhere and no value is found, or it stops in front of the value.
pub position-cases :
    (m : Ptr → Option Obj) (y : Obj) (k v : Ptr) (xs : List Ptr) (i : ℕ)
    → Keyed m xs
    → Missing m y k v xs i ⊎ At m y k v xs i
unfolding position lookup with_pair
position-cases m y k v [] i keyed = inl (refl, refl, refl)
position-cases m y k v (k' ∷ []) i keyed = elim keyed [ ]
position-cases m y k v (k' ∷ v' ∷ rest) i keyed =
    go (same (m k') y) refl (position-cases m y k v rest (i + 2) keyed.1)
  where
    go :
        (b : Bool)
        → same (m k') y ≡ b
        → Missing m y k v rest (i + 2) ⊎ At m y k v rest (i + 2)
        → Missing m y k v (k' ∷ v' ∷ rest) i ⊎ At m y k v (k' ∷ v' ∷ rest) i
    go true e later = inr (0, v', rw e (ap found (omega arith)), rw e refl, refl, rw e refl)
    go false e (inl (p, l, w)) = inl (rw e p, rw e l, rw e (ap (λ zs. k' ∷ v' ∷ zs) w))
    go false e (inr (j, w, p, l, g, s)) = inr (
      suc (suc j),
      w,
      rw e (p ∙ ap found (omega arith)),
      rw e l,
      g,
      rw e (ap (λ zs. k' ∷ v' ∷ zs) s),
    )
