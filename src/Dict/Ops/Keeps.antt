-- ===== src/Dict/Ops/Keeps.antt =====
-- The operations of a dictionary leave the call stack alone.
use b6b.Base.{ℕ, ◌+◌, Option, none, some, List, [], ◌∷◌, get_elem?, not, if◌then◌else◌}
use b6b.CLib.{CLib}
use b6b.Store.{Ptr}
use b6b.Store.Monad.{M, ◌>>=◌, pure, crash, load}
use b6b.Store.Keeps.{Keeps, keeping, crash-Keeps, pure-Keeps, bind-Keeps, if-Keeps, load-Keeps}
use b6b.Object.{obj_hash, obj_eq}
use b6b.Object.Keeps.{list_add-Keeps, list_flush-Keeps, obj_hash-Keeps}
use b6b.Dict.Ops.{
  Found, broken, missing, found, replace_value, add_pair, finish_set, finish_get, find_key,
  find_key_to_set, dict_set, dict_get,
}

replace_value-Keeps : (d i v : Ptr) → Keeps (replace_value d i v)
replace_value-Keeps d i v = search (keeping, list_flush-Keeps) depth 8

add_pair-Keeps : (d k v : Ptr) → Keeps (add_pair d k v)
add_pair-Keeps d k v = search (keeping, list_add-Keeps) depth 8

finish_set-Keeps : (d k v : Ptr) (r : Found) → Keeps (finish_set d k v r)
finish_set-Keeps d k v broken = pure-Keeps _
finish_set-Keeps d k v missing = add_pair-Keeps d k v
finish_set-Keeps d k v (found i) = replace_value-Keeps d i v

value-Keeps :
    (v : Option Ptr)
    → Keeps
        (elim v as (λ x. M (Option (Option Ptr))) [ none ↦ crash | some w ↦ pure (some (some w)) ])
value-Keeps none = crash-Keeps
value-Keeps (some w) = pure-Keeps _

finish_get-Keeps : (xs : List Ptr) (r : Found) → Keeps (finish_get xs r)
finish_get-Keeps xs broken = pure-Keeps _
finish_get-Keeps xs missing = pure-Keeps _
finish_get-Keeps xs (found i) = value-Keeps (get_elem? xs (i + 1))

module _ ⦃c : CLib⦄ where
  -- A step of a walk, where `later` is the walk from the next key on.
  walk-Keeps :
      (n k kli i : ℕ) (later : M Found)
      → Keeps later
      → Keeps (do
        known ← obj_hash n kli
        x ← load kli
        y ← load k
        if not known then pure broken else if obj_eq x y then pure (found i) else later)
  walk-Keeps n k kli i later h = bind-Keeps (obj_hash n kli) _ (obj_hash-Keeps n kli) (λ known.
      bind-Keeps (load kli) _ (load-Keeps kli) (λ x. bind-Keeps (load k) _ (load-Keeps k) (λ y.
        if-Keeps (not known) _ _ (pure-Keeps broken)
          (if-Keeps (obj_eq x y) _ _ (pure-Keeps (found i)) h))))

  pub find_key-Keeps : (n k : ℕ) (xs : List Ptr) (i : ℕ) → Keeps (find_key n k xs i)
  unfolding find_key
  find_key-Keeps n k [] i = pure-Keeps _
  find_key-Keeps n k (kli ∷ []) i = pure-Keeps _
  find_key-Keeps n k (kli ∷ vli ∷ rest) i =
      walk-Keeps n k kli i (find_key n k rest (i + 2)) (find_key-Keeps n k rest (i + 2))

  find_key_to_set-Keeps : (n k : ℕ) (xs : List Ptr) (i : ℕ) → Keeps (find_key_to_set n k xs i)
  unfolding find_key_to_set
  find_key_to_set-Keeps n k [] i = pure-Keeps _
  find_key_to_set-Keeps n k (kli ∷ []) i = search (keeping, obj_hash-Keeps)
  find_key_to_set-Keeps n k (kli ∷ vli ∷ rest) i =
      walk-Keeps n k kli i (find_key_to_set n k rest (i + 2))
        (find_key_to_set-Keeps n k rest (i + 2))

  pub dict_set-Keeps : (n d k v : ℕ) → Keeps (dict_set n d k v)
  unfolding dict_set
  dict_set-Keeps n d k v =
      search (keeping, obj_hash-Keeps, find_key_to_set-Keeps, finish_set-Keeps) depth 9

  pub dict_get-Keeps : (n d k : ℕ) → Keeps (dict_get n d k)
  unfolding dict_get
  dict_get-Keeps n d k = search (keeping, obj_hash-Keeps, find_key-Keeps, finish_get-Keeps) depth 9
