-- ===== src/Dict/Ops/Laws.antt =====
-- b6b_dict_get after b6b_dict_set (src/b6b_dict.c): a dictionary is a map of texts.
use b6b.Base.{ℕ, ◌≡◌, ◌∙◌, ◌≢◌, ap, true, Option, some, if◌then◌else◌}
use b6b.CLib.{CLib}
use b6b.Store.{Ptr, Obj, State}
use b6b.Store.Monad.{done}
use b6b.Object.{obj_eq, flushed}
use b6b.Dict.Ops.{dict_set, dict_get}
use b6b.Dict.Ops.Model.{
  Keyed, NoKey, lookup, with_pair, lookup-other, lookup-with_pair, Keyed-with_pair, NoKey-with_pair,
  Keyed-other,
}
use b6b.Dict.Ops.Refines.{dict_get_lem, dict_set_lem}

module _ ⦃c : CLib⦄ where
  -- Setting a hashed key in a dictionary of hashed keys, whose own list object is none of these
  -- keys, succeeds; after it, any other hashed key gets the new value if it is equal to the key
  -- that was set, and what it got before if it is not.
  pub dict_get-dict_set :
      (n : ℕ) (d k v q : Ptr) (y z o : Obj) (st : State)
      → st.cell k ≡ some y
      → y.is_hashed ≡ true
      → st.cell q ≡ some z
      → z.is_hashed ≡ true
      → st.cell d ≡ some o
      → k ≢ d
      → q ≢ d
      → Keyed st.cell o.l
      → NoKey d o.l
      → (st' : State) × (was : Option Ptr) × (dict_set n d k v st ≡ done true st')
        × (dict_get n d q st ≡ done (some was) st)
        × (dict_get n d q st' ≡ done (some (if obj_eq y z then some v else was)) st')
  dict_get-dict_set n d k v q y z o st h hashed hq hashed_q e k≢d q≢d keyed apart =
      let xs = with_pair st.cell y k v o.l in
      let (st', runs, cell, others) = dict_set_lem n d k v y o st h hashed e keyed in
      let apart' = NoKey-with_pair st.cell y d k v o.l k≢d apart in
      let keyed' =
        Keyed-other st.cell st'.cell d xs others apart'
          (Keyed-with_pair st.cell y k v o.l h hashed keyed) in
      (
        st',
        lookup st.cell z o.l,
        runs,
        dict_get_lem n d q z o st hq hashed_q e keyed,
        dict_get_lem n d q z (flushed (record o { l = xs })) st' (others q q≢d ∙ hq) hashed_q cell
              keyed'
            ∙ ap (λ w. done (some w) st')
                (lookup-other st.cell st'.cell z d xs others apart'
                  ∙ lookup-with_pair st.cell y z k v o.l h),
      )
