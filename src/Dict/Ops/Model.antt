-- ===== src/Dict/Ops/Model.antt =====
-- A dictionary as the pairs that its list holds: what src/b6b_dict.c promises of the list.
use b6b.Base.{
  ℕ, ◌≡◌, refl, ap, ◌∙◌, ◌≢◌, inl, inr, ◌↔◌, Bool, true, false, Option, none, some, List, [], ◌∷◌,
  arith, if◌then◌else◌, length, bytes_eq_iff, Bool-cases,
}
use mathlib.Core.Option.{some-injective}
use b6b.Store.{Ptr, Obj}
use b6b.Object.{obj_eq}

-- Keys and values take turns, and each key is an object whose hash is known.
abbrev pub Keyed : (Ptr → Option Obj) → List Ptr → Type 0
Keyed m [] = Unit
Keyed m (k ∷ []) = ⊥
Keyed m (k ∷ v ∷ rest) = ((x : Obj) × (m k ≡ some x) × (x.is_hashed ≡ true)) × Keyed m rest

abbrev pub same : Option Obj → Obj → Bool
same none y = false
same (some x) y = obj_eq x y

-- The value of the first key that is equal to `y`.
unfoldable pub lookup : (Ptr → Option Obj) → Obj → List Ptr → Option Ptr
unfolding obj_eq
lookup m y (k ∷ v ∷ rest) = let later = lookup m y rest in if same (m k) y then some v else later
lookup m y _ = none

-- The pairs with the key's value replaced, or with the key and the value at the end.
unfoldable pub with_pair : (Ptr → Option Obj) → Obj → Ptr → Ptr → List Ptr → List Ptr
unfolding obj_eq
with_pair m y k v (k' ∷ v' ∷ rest) =
    let later = with_pair m y k v rest in if same (m k') y then k' ∷ v ∷ rest else k' ∷ v' ∷ later
with_pair m y k v _ = k ∷ v ∷ []

-- Two hashed objects are equal to the code if their hashes and their texts are.
pub obj_eq_iff : (a b : Obj) → (obj_eq a b ≡ true) ↔ ((a.hash ≡ b.hash) × (a.s ≡ b.s))
unfolding obj_eq
obj_eq_iff a b = ground (arith, bytes_eq_iff a.s b.s, ap {A = List ℕ} length)

-- What a key finds does not depend on objects that are not keys of the dictionary.
abbrev pub NoKey : Ptr → List Ptr → Type 0
NoKey d [] = Unit
NoKey d (k ∷ []) = Unit
NoKey d (k ∷ v ∷ rest) = (k ≢ d) × NoKey d rest

pub lookup-other :
    (m m' : Ptr → Option Obj) (y : Obj) (d : Ptr) (xs : List Ptr)
    → ((q : Ptr) → q ≢ d → m' q ≡ m q)
    → NoKey d xs
    → lookup m' y xs ≡ lookup m y xs
unfolding lookup
lookup-other m m' y d [] h n = refl
lookup-other m m' y d (k ∷ []) h n = refl
lookup-other m m' y d (k ∷ v ∷ rest) h n = rw (h k n.0, lookup-other m m' y d rest h n.1) refl

same_self : (o : Option Obj) (y : Obj) → o ≡ some y → same o y ≡ true
same_self none y h = ground arith
same_self (some x) y h =
    (obj_eq_iff x y).1
      (ap (λ o. Obj.hash o) (some-injective x y h), ap (λ o. Obj.s o) (some-injective x y h))

-- A key that is equal to `y` is equal to no key that `y` differs from.
same-other : (o : Option Obj) (y z : Obj) → same o y ≡ true → obj_eq y z ≡ false → same o z ≡ false
same-other none y z h n = refl
same-other (some x) y z h n =
    ground (arith, obj_eq_iff x y, obj_eq_iff y z, obj_eq_iff x z, Bool-cases (obj_eq x z))

-- Keys that are equal to each other are equal to the same keys.
same-same : (o : Option Obj) (y z : Obj) → obj_eq y z ≡ true → same o z ≡ same o y
same-same none y z n = refl
same-same (some x) y z n = ground (
  arith,
  obj_eq_iff x y,
  obj_eq_iff y z,
  obj_eq_iff x z,
  Bool-cases (obj_eq x y),
  Bool-cases (obj_eq x z),
)

obj_eq_refl : (y : Obj) → obj_eq y y ≡ true
obj_eq_refl y = (obj_eq_iff y y).1 (refl, refl)

-- The pair that was set is found by any equal key,
lookup-with_pair_same :
    (m : Ptr → Option Obj) (y z : Obj) (k v : Ptr) (xs : List Ptr)
    → m k ≡ some y
    → obj_eq y z ≡ true
    → lookup m z (with_pair m y k v xs) ≡ some v
unfolding lookup with_pair
lookup-with_pair_same m y z k v [] h n = rw (same-same (m k) y z n, same_self (m k) y h) refl
lookup-with_pair_same m y z k v (k' ∷ []) h n = rw (same-same (m k) y z n, same_self (m k) y h) refl
lookup-with_pair_same m y z k v (k' ∷ v' ∷ rest) h n = ground (
  arith,
  lookup-with_pair_same m y z k v rest h n,
  same-same (m k') y z n,
  Bool-cases (same (m k') y),
)

-- and any other key finds what it found before.
lookup-with_pair_other :
    (m : Ptr → Option Obj) (y z : Obj) (k v : Ptr) (xs : List Ptr)
    → m k ≡ some y
    → obj_eq y z ≡ false
    → lookup m z (with_pair m y k v xs) ≡ lookup m z xs
unfolding lookup with_pair
lookup-with_pair_other m y z k v [] h n = rw (same-other (m k) y z (same_self (m k) y h) n) refl
lookup-with_pair_other m y z k v (k' ∷ []) h n =
    rw (same-other (m k) y z (same_self (m k) y h) n) refl
lookup-with_pair_other m y z k v (k' ∷ v' ∷ rest) h n = ground (
  arith,
  lookup-with_pair_other m y z k v rest h n,
  same-other (m k') y z,
  Bool-cases (same (m k') y),
)

-- A key finds the value that was set with an equal key, and else what it found before.
pub lookup-with_pair :
    (m : Ptr → Option Obj) (y z : Obj) (k v : Ptr) (xs : List Ptr)
    → m k ≡ some y
    → lookup m z (with_pair m y k v xs) ≡ (if obj_eq y z then some v else lookup m z xs)
lookup-with_pair m y z k v xs h = elim (Bool-cases (obj_eq y z)) [
  | inl e ↦ lookup-with_pair_same m y z k v xs h e ∙ rw e refl
  | inr e ↦ lookup-with_pair_other m y z k v xs h e ∙ rw e refl
]

pub Keyed-with_pair :
    (m : Ptr → Option Obj) (y : Obj) (k v : Ptr) (xs : List Ptr)
    → m k ≡ some y
    → y.is_hashed ≡ true
    → Keyed m xs
    → Keyed m (with_pair m y k v xs)
unfolding with_pair
Keyed-with_pair m y k v [] h hashed keyed = ((y, h, hashed), tt)
Keyed-with_pair m y k v (k' ∷ []) h hashed keyed = elim keyed [ ]
Keyed-with_pair m y k v (k' ∷ v' ∷ rest) h hashed keyed =
    go (same (m k') y) (Keyed-with_pair m y k v rest h hashed keyed.1)
  where
    go :
        (b : Bool)
        → Keyed m (with_pair m y k v rest)
        → Keyed m (if b then k' ∷ v ∷ rest else k' ∷ v' ∷ with_pair m y k v rest)
    go true more = keyed
    go false more = (keyed.0, more)

pub NoKey-with_pair :
    (m : Ptr → Option Obj) (y : Obj) (d k v : Ptr) (xs : List Ptr)
    → k ≢ d
    → NoKey d xs
    → NoKey d (with_pair m y k v xs)
unfolding with_pair
NoKey-with_pair m y d k v [] n apart = (n, tt)
NoKey-with_pair m y d k v (k' ∷ []) n apart = (n, tt)
NoKey-with_pair m y d k v (k' ∷ v' ∷ rest) n apart =
    go (same (m k') y) (NoKey-with_pair m y d k v rest n apart.1)
  where
    go :
        (b : Bool)
        → NoKey d (with_pair m y k v rest)
        → NoKey d (if b then k' ∷ v ∷ rest else k' ∷ v' ∷ with_pair m y k v rest)
    go true more = apart
    go false more = (apart.0, more)

pub Keyed-other :
    (m m' : Ptr → Option Obj) (d : Ptr) (xs : List Ptr)
    → ((q : Ptr) → q ≢ d → m' q ≡ m q)
    → NoKey d xs
    → Keyed m xs
    → Keyed m' xs
Keyed-other m m' d [] h apart keyed = tt
Keyed-other m m' d (k ∷ []) h apart keyed = keyed
Keyed-other m m' d (k ∷ v ∷ rest) h (n, apart) ((x, e, hashed), keyed) =
    ((x, h k n ∙ e, hashed), Keyed-other m m' d rest h apart keyed)
