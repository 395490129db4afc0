-- ===== src/Object/Cells.antt =====
-- What the operations on a list object do to the store, where the object is there.
use b6b.Base.{ℕ, ◌≡◌, ◌≢◌, ◌∙◌, true, some, [], ◌∷◌, ◌++◌}
use b6b.CLib.{CLib}
use b6b.Store.{Ptr, Obj, State}
use b6b.Store.Monad.{
  Outcome, update_same, update_other, done, load, store, update, done-bind, load-cell,
}
use b6b.Object.{flushed, list_do_add, list_flush, list_add, obj_hash}

-- The state where the object at `p` is replaced.
abbrev pub put : State → Ptr → Obj → State
put st p o = record st { cell = update st.cell p (some o) }

pub list_do_add-cell :
    (p q : Ptr) (o : Obj) (st : State)
    → st.cell p ≡ some o
    → list_do_add p q st ≡ done tt (put st p (record o { l = o.l ++ q ∷ [] }))
unfolding list_do_add store
list_do_add-cell p q o st h = done-bind (load p) _ st o st (load-cell p o st h)

pub list_flush-cell :
    (p : Ptr) (o : Obj) (st : State)
    → st.cell p ≡ some o
    → list_flush p st ≡ done tt (put st p (flushed o))
unfolding list_flush store
list_flush-cell p o st h = done-bind (load p) _ st o st (load-cell p o st h)

-- A hashed object is hashed no more.
pub obj_hash-cell :
    ⦃c : CLib⦄ (n : ℕ) (p : Ptr) (o : Obj) (st : State)
    → st.cell p ≡ some o
    → o.is_hashed ≡ true
    → obj_hash n p st ≡ done true st
unfolding obj_hash
obj_hash-cell n p o st h e =
    done-bind (load p) _ st o st (load-cell p o st h) ∙ rw e (λ i. done true st)

-- What becomes of a store where only the object at `p` is another.
abbrev pub Ends : {A : Type 0} → Outcome A → A → State → Ptr → Obj → Type 0
Ends out a st p o =
    (st' : State) × (out ≡ done a st')
    × (st'.cell p ≡ some o)
    × ((q : Ptr) → q ≢ p → st'.cell q ≡ st.cell q)

pub put-put :
    {A : Type 0} (out : Outcome A) (a : A) (p : Ptr) (o o' : Obj) (st : State)
    → out ≡ done a (put (put st p o) p o')
    → Ends out a st p o'
put-put out a p o o' st h =
    let m = (put st p o).cell in
    (
      put (put st p o) p o',
      h,
      update_same m p (some o'),
      λ q n. update_other m p q (some o') n ∙ update_other st.cell p q (some o) n,
    )

pub list_add-cell :
    (p q : Ptr) (o : Obj) (st : State)
    → st.cell p ≡ some o
    → Ends (list_add p q st) tt st p (flushed (record o { l = o.l ++ q ∷ [] }))
unfolding list_add
list_add-cell p q o st h =
    let o' = record o { l = o.l ++ q ∷ [] } in
    put-put (list_add p q st) tt p o' (flushed o') st (
      done-bind (list_do_add p q) _ st tt _ (list_do_add-cell p q o st h)
      ∙ list_flush-cell p o' (put st p o') (update_same st.cell p _))
