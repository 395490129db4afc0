-- ===== src/Dict/Ops.antt =====
-- src/b6b_dict.c: the operations of a dictionary.
pub mod Model
pub mod Walk
pub mod Refines
pub mod Unset
pub mod Laws
pub mod Keeps
use b6b.Base.{
  ℕ, zero, suc, ◌+◌, Bool, true, false, not, Option, none, some, List, [], ◌∷◌, if◌then◌else◌,
  get_elem?,
}
use b6b.CLib.{CLib}
use b6b.Store.{Ptr}
use b6b.Store.Monad.{M, ◌>>=◌, ◌>>◌, pure, crash, load, store}
use b6b.Object.{list_flush, list_add, obj_hash, obj_eq}
use b6b.Lists.Ops.{list_pop}

-- What a walk over the keys finds: `return 0`, no such key, or the key's position.
pub data Found : Type 0 where
  broken missing : Found
  found : ℕ → Found

abbrev pub set {ℓ} : {A : Type ℓ} → List A → ℕ → A → List A
set [] i v = []
set (x ∷ xs) zero v = v ∷ xs
set (x ∷ xs) (suc i) v = x ∷ set xs i v

-- b6b_dict_set, where the key was found at `i`: its value is replaced.
abbrev pub replace_value : Ptr → ℕ → Ptr → M Bool
replace_value d i v = do
  o ← load d
  store d (record o { l = set o.l (i + 1) v })
  list_flush d
  pure true

-- Where it was not found, both are added at the end.
abbrev pub add_pair : Ptr → Ptr → Ptr → M Bool
add_pair d k v = do list_add d k; list_add d v; pure true

abbrev pub finish_set : Ptr → Ptr → Ptr → Found → M Bool
finish_set d k v broken = pure false
finish_set d k v missing = add_pair d k v
finish_set d k v (found i) = replace_value d i v

-- `*v`, NULL for a missing key; `none` is `return 0`.
abbrev pub finish_get : List Ptr → Found → M (Option (Option Ptr))
finish_get xs broken = pure none
finish_get xs missing = pure (some none)
finish_get xs (found i) = elim (get_elem? xs (i + 1)) [
  | none ↦ crash
  | some v ↦ pure (some (some v))
]

-- The value's node moves up where the key's is taken out.
abbrev pub finish_unset : Ptr → Found → M Bool
finish_unset d broken = pure false
finish_unset d missing = pure true
finish_unset d (found i) = do _ ← list_pop d i; _ ← list_pop d i; pure true

module _ ⦃c : CLib⦄ where
  -- The walk of b6b_dict_get and b6b_dict_unset from the node at position `i` on.
  unfoldable pub find_key : ℕ → Ptr → List Ptr → ℕ → M Found
  unfolding obj_hash load obj_eq
  find_key n k [] i = pure missing
  find_key n k (kli ∷ []) i = pure broken
  find_key n k (kli ∷ vli ∷ rest) i = do
    known ← obj_hash n kli
    x ← load kli
    y ← load k
    let later = find_key n k rest (i + 2)
    if not known then pure broken else if obj_eq x y then pure (found i) else later

  -- The walk of b6b_dict_set hashes a key before it looks for the value.
  unfoldable pub find_key_to_set : ℕ → Ptr → List Ptr → ℕ → M Found
  unfolding obj_hash load obj_eq
  find_key_to_set n k [] i = pure missing
  find_key_to_set n k (kli ∷ []) i = do _ ← obj_hash n kli; pure broken
  find_key_to_set n k (kli ∷ vli ∷ rest) i = do
    known ← obj_hash n kli
    x ← load kli
    y ← load k
    let later = find_key_to_set n k rest (i + 2)
    if not known then pure broken else if obj_eq x y then pure (found i) else later

  unfoldable pub dict_set : ℕ → Ptr → Ptr → Ptr → M Bool
  unfolding obj_hash load store list_add list_flush find_key_to_set
  dict_set n d k v = do
    known ← obj_hash n k
    o ← load d
    if known then (find_key_to_set n k o.l 0 >>= finish_set d k v) else pure false

  unfoldable pub dict_get : ℕ → Ptr → Ptr → M (Option (Option Ptr))
  unfolding obj_hash load find_key
  dict_get n d k = do
    known ← obj_hash n k
    o ← load d
    if known then (find_key n k o.l 0 >>= finish_get o.l) else pure none

  unfoldable pub dict_unset : ℕ → Ptr → Ptr → M Bool
  unfolding obj_hash load find_key list_pop
  dict_unset n d k = do
    known ← obj_hash n k
    o ← load d
    if known then (find_key n k o.l 0 >>= finish_unset d) else pure false
