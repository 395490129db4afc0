-- ===== src/Dict/Ops/Unset.antt =====
-- b6b_dict_unset (src/b6b_dict.c) takes the first equal key and its value out of the list.
use b6b.Base.{
  ℕ, suc, ◌+◌, ◌≡◌, refl, ap, ◌∙◌, Bool, true, false, ◌⊎◌, inl, inr, Option, none, some, List, [],
  ◌∷◌, arith, if◌then◌else◌, get_elem?,
}
use b6b.CLib.{CLib}
use b6b.Store.{Ptr, Obj, State}
use b6b.Store.Monad.{load, store, done-bind, load-cell, update_same}
use b6b.Object.{obj_eq, flushed, list_flush, obj_hash}
use b6b.Object.Cells.{Ends, put-put, put, list_flush-cell, obj_hash-cell}
use b6b.Lists.Ops.{remove, remove_at, list_pop}
use b6b.Dict.Ops.{missing, found, finish_unset, find_key, dict_unset}
use b6b.Dict.Ops.Model.{Keyed, same, lookup}
use b6b.Dict.Ops.Walk.{position, find_key-position}

-- The pairs without the first one whose key is equal to `y`.
unfoldable pub without_pair : (Ptr → Option Obj) → Obj → List Ptr → List Ptr
unfolding obj_eq
without_pair m y (k ∷ v ∷ rest) =
    let later = without_pair m y rest in if same (m k) y then rest else k ∷ v ∷ later
without_pair m y xs = xs

abbrev Missing : (Ptr → Option Obj) → Obj → List Ptr → ℕ → Type 0
Missing m y xs i = (position m y xs i ≡ missing) × (lookup m y xs ≡ none)

abbrev At : (Ptr → Option Obj) → Obj → List Ptr → ℕ → Type 0
At m y xs i =
    (j : ℕ) × (k : Ptr) × (v : Ptr) × (position m y xs i ≡ found (i + j))
    × (lookup m y xs ≡ some v)
    × (get_elem? xs j ≡ some k)
    × (get_elem? (remove xs j) j ≡ some v)
    × (remove (remove xs j) j ≡ without_pair m y xs)

position-cases :
    (m : Ptr → Option Obj) (y : Obj) (xs : List Ptr) (i : ℕ)
    → Keyed m xs
    → Missing m y xs i ⊎ At m y xs i
unfolding position lookup without_pair
position-cases m y [] i keyed = inl (refl, refl)
position-cases m y (k' ∷ []) i keyed = elim keyed [ ]
position-cases m y (k' ∷ v' ∷ rest) i keyed =
    go (same (m k') y) refl (position-cases m y rest (i + 2) keyed.1)
  where
    go :
        (b : Bool)
        → same (m k') y ≡ b
        → Missing m y rest (i + 2) ⊎ At m y rest (i + 2)
        → Missing m y (k' ∷ v' ∷ rest) i ⊎ At m y (k' ∷ v' ∷ rest) i
    go true e later =
        inr (0, k', v', rw e (ap found (omega arith)), rw e refl, refl, refl, rw e refl)
    go false e (inl (p, l)) = inl (rw e p, rw e l)
    go false e (inr (j, k, v, p, l, g, h, s)) = inr (
      suc (suc j),
      k,
      v,
      rw e (p ∙ ap found (omega arith)),
      rw e l,
      g,
      h,
      rw e (ap (λ zs. k' ∷ v' ∷ zs) s),
    )

list_pop-cell :
    (d j q : Ptr) (o : Obj) (st : State)
    → st.cell d ≡ some o
    → get_elem? o.l j ≡ some q
    → Ends (list_pop d j st) q st d (flushed (record o { l = remove o.l j }))
unfolding list_pop store
list_pop-cell d j q o st e g =
    let o' = record o { l = remove o.l j } in
    put-put (list_pop d j st) q d o' (flushed o') st (
      done-bind (load d) _ st o st (load-cell d o st e)
      ∙ rw g (
          done-bind (remove_at d j) _ st tt (put st d o')
            (done-bind (load d) _ st o st (load-cell d o st e))
          ∙ done-bind (list_flush d) _ (put st d o') tt _
              (list_flush-cell d o' (put st d o') (update_same st.cell d _))))

-- What becomes of the list object: a key that is missing leaves it alone.
abbrev pub unset_obj : Obj → List Ptr → Option Ptr → Obj
unset_obj o xs none = o
unset_obj o xs (some v) = flushed (record o { l = xs })

finish_unset-cell :
    (d j k v : Ptr) (o : Obj) (st : State)
    → st.cell d ≡ some o
    → get_elem? o.l j ≡ some k
    → get_elem? (remove o.l j) j ≡ some v
    → Ends
        (finish_unset d (found j) st)
        true
        st
        d
        (flushed (record o { l = remove (remove o.l j) j }))
finish_unset-cell d j k v o st e g h =
    let (mid, runs, cell, others) = list_pop-cell d j k o st e g in
    let (st', runs', cell', others') = list_pop-cell d j v _ mid cell h in
    (
      st',
      done-bind (list_pop d j) _ st k mid runs ∙ done-bind (list_pop d j) _ mid v st' runs',
      cell',
      λ q ne. others' q ne ∙ others q ne,
    )

module _ ⦃c : CLib⦄ where
  dict_unset-position :
      (n : ℕ) (d k : Ptr) (y o : Obj) (st : State)
      → st.cell k ≡ some y
      → y.is_hashed ≡ true
      → st.cell d ≡ some o
      → Keyed st.cell o.l
      → dict_unset n d k st ≡ finish_unset d (position st.cell y o.l 0) st
  unfolding dict_unset
  dict_unset-position n d k y o st h hashed e keyed =
      done-bind (obj_hash n k) _ st true st (obj_hash-cell n k y st h hashed)
      ∙ done-bind (load d) _ st o st (load-cell d o st e)
      ∙ done-bind (find_key n k o.l 0) (finish_unset d) st _ st
          (find_key-position n k y o.l 0 st h keyed)

  -- In a dictionary whose keys are hashed, unsetting a hashed key ends with success: the first equal
  -- key and its value are taken out of the list, which drops its other representations, or nothing
  -- changes where there is none; no other object changes.
  pub dict_unset_lem :
      (n : ℕ) (d k : Ptr) (y o : Obj) (st : State)
      → st.cell k ≡ some y
      → y.is_hashed ≡ true
      → st.cell d ≡ some o
      → Keyed st.cell o.l
      → Ends
          (dict_unset n d k st)
          true
          st
          d
          (unset_obj o (without_pair st.cell y o.l) (lookup st.cell y o.l))
  dict_unset_lem n d k y o st h hashed e keyed = go (position-cases st.cell y o.l 0 keyed)
    where
      go :
          Missing st.cell y o.l 0 ⊎ At st.cell y o.l 0
          → Ends
              (dict_unset n d k st)
              true
              st
              d
              (unset_obj o (without_pair st.cell y o.l) (lookup st.cell y o.l))
      go (inl (p, l)) = (
        st,
        dict_unset-position n d k y o st h hashed e keyed ∙ ap (λ at. finish_unset d at st) p,
        rw l e,
        λ q ne. refl,
      )
      go (inr (j, u, v, p, l, g, g', s)) =
          let (st', runs, cell, others) = finish_unset-cell d j u v o st e g g' in
          (
            st',
            dict_unset-position n d k y o st h hashed e keyed
                ∙ ap (λ at. finish_unset d at st) (p ∙ ap found (omega arith))
                ∙ runs,
            rw l (cell ∙ ap (λ xs. some (flushed (record o { l = xs }))) s),
            others,
          )
