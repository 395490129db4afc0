-- ===== src/Dict/Ops/Refines.antt =====
-- b6b_dict_set and b6b_dict_get (src/b6b_dict.c) do to the list what the model does to the pairs.
use b6b.Base.{
  ℕ, suc, ◌+◌, ◌≡◌, ap, ◌∙◌, true, ◌⊎◌, inl, inr, some, [], ◌∷◌, ◌++◌, append_assoc, arith,
}
use b6b.CLib.{CLib}
use b6b.Store.{Ptr, Obj, State}
use b6b.Store.Monad.{done, load, done-bind, load-cell, store, update_same}
use b6b.Object.{flushed, list_add, list_flush}
use b6b.Object.Cells.{Ends, put-put, list_add-cell, list_flush-cell, put, obj_hash-cell}
use b6b.Dict.Ops.{replace_value, add_pair, set, dict_set, dict_get}
use b6b.Dict.Ops.Model.{Keyed, lookup, with_pair}
use b6b.Dict.Ops.Walk.{find_key-position, find_key_to_set-position, Missing, At, position-cases}

index_at : (j : ℕ) → 0 + j + 1 ≡ suc j
index_at j = omega arith

module _ ⦃c : CLib⦄ where
  -- In a dictionary whose keys are hashed, a hashed key gets the value of the first equal key, or
  -- NULL where there is none; nothing changes.
  pub dict_get_lem :
      (n : ℕ) (d k : Ptr) (y o : Obj) (st : State)
      → st.cell k ≡ some y
      → y.is_hashed ≡ true
      → st.cell d ≡ some o
      → Keyed st.cell o.l
      → dict_get n d k st ≡ done (some (lookup st.cell y o.l)) st
  unfolding dict_get
  dict_get_lem n d k y o st h hashed e keyed = go (position-cases st.cell y k 0 o.l 0 keyed)
    where
      go :
          Missing st.cell y k 0 o.l 0 ⊎ At st.cell y k 0 o.l 0
          → dict_get n d k st ≡ done (some (lookup st.cell y o.l)) st
      go (inl (p, l, w)) = ground (
        arith,
        obj_hash-cell n k y st h hashed,
        load-cell d o st e,
        find_key-position n k y o.l 0 st h keyed,
        p,
        l,
      )
      go (inr (j, w, p, l, g, s)) = ground (
        arith,
        obj_hash-cell n k y st h hashed,
        load-cell d o st e,
        find_key-position n k y o.l 0 st h keyed,
        p,
        l,
        g,
        index_at j,
      )

replace_value-cell :
    (d i v : Ptr) (o : Obj) (st : State)
    → st.cell d ≡ some o
    → Ends (replace_value d i v st) true st d (flushed (record o { l = set o.l (i + 1) v }))
unfolding store
replace_value-cell d i v o st e =
    let o' = record o { l = set o.l (i + 1) v } in
    put-put (replace_value d i v st) true d o' (flushed o') st (
      done-bind (load d) _ st o st (load-cell d o st e)
      ∙ done-bind (list_flush d) _ _ tt _
          (list_flush-cell d o' (put st d o') (update_same st.cell d _)))

add_pair-cell :
    (d k v : Ptr) (o : Obj) (st : State)
    → st.cell d ≡ some o
    → Ends (add_pair d k v st) true st d (flushed (record o { l = o.l ++ k ∷ v ∷ [] }))
add_pair-cell d k v o st e =
    let (mid, runs, cell, others) = list_add-cell d k o st e in
    let (st', runs', cell', others') = list_add-cell d v _ mid cell in
    (
      st',
      done-bind (list_add d k) _ st tt mid runs ∙ done-bind (list_add d v) _ mid tt st' runs',
      cell' ∙ ap (λ xs. some (flushed (record o { l = xs }))) (append_assoc o.l (k ∷ []) (v ∷ [])),
      λ q n. others' q n ∙ others q n,
    )

module _ ⦃c : CLib⦄ where
  -- In a dictionary whose keys are hashed, setting a hashed key ends with the pair in the list: the
  -- value of the first equal key is replaced, or both are added at the end; what the list was as a
  -- text is no longer valid, and no other object changes.
  pub dict_set_lem :
      (n : ℕ) (d k v : Ptr) (y o : Obj) (st : State)
      → st.cell k ≡ some y
      → y.is_hashed ≡ true
      → st.cell d ≡ some o
      → Keyed st.cell o.l
      → Ends
          (dict_set n d k v st)
          true
          st
          d
          (flushed (record o { l = with_pair st.cell y k v o.l }))
  unfolding dict_set
  dict_set_lem n d k v y o st h hashed e keyed = go (position-cases st.cell y k v o.l 0 keyed)
    where
      go :
          Missing st.cell y k v o.l 0 ⊎ At st.cell y k v o.l 0
          → Ends
              (dict_set n d k v st)
              true
              st
              d
              (flushed (record o { l = with_pair st.cell y k v o.l }))
      go (inl (p, l, w)) =
          let (st', runs, cell, others) = add_pair-cell d k v o st e in
          (
            st',
            ground (
              arith,
              obj_hash-cell n k y st h hashed,
              load-cell d o st e,
              find_key_to_set-position n k y o.l 0 st h keyed,
              p,
              runs,
            ),
            rw w cell,
            others,
          )
      go (inr (j, u, p, l, g, s)) =
          let (st', runs, cell, others) = replace_value-cell d (0 + j) v o st e in
          (
            st',
            ground (
              arith,
              obj_hash-cell n k y st h hashed,
              load-cell d o st e,
              find_key_to_set-position n k y o.l 0 st h keyed,
              p,
              runs,
            ),
            cell
                ∙ ap (λ xs. some (flushed (record o { l = xs })))
                    (ap (λ i. set o.l i v) (index_at j) ∙ s),
            others,
          )
