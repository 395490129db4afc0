-- ===== src/Lists/Ops/Extend.antt =====
-- What list.extend (src/b6b_list.c) comes to, for two lists and for a list and itself.
use b6b.Base.{
  ℕ, zero, suc, ◌+◌, ◌<◌, ◌≡◌, refl, ◌∙◌, ◌≢◌, none, some, List, [], ◌∷◌, ◌++◌, append_assoc,
  append-nil, ap, arith, length, length-append, get_elem?, get_elem?-lt, drop,
}
use native.Mathlib.Numerals.{unary_clauses}
use b6b.Store.{Ptr, Obj, State}
use b6b.Store.Monad.{timeout, load, done-bind, load-cell, update_same, update_other, timeout-bind}
use b6b.Object.{flushed, list_do_add}
use b6b.Object.Cells.{Ends, put, list_do_add-cell, list_flush-cell}
use b6b.Lists.Ops.{extend_loop, list_extend}

-- A round that finds an item adds it, and goes on.
extend_loop-item :
    (f : ℕ) (l l2 k q : Ptr) (o o2 : Obj) (st : State)
    → st.cell l ≡ some o
    → st.cell l2 ≡ some o2
    → get_elem? o2.l k ≡ some q
    → extend_loop (suc f) l l2 k st
      ≡ extend_loop f l l2 (k + 1) (put st l (record o { l = o.l ++ q ∷ [] }))
unfolding extend_loop
extend_loop-item f l l2 k q o o2 st e e2 h =
    done-bind (load l2) _ st o2 st (load-cell l2 o2 st e2)
    ∙ rw h (done-bind (list_do_add l q) _ st tt _ (list_do_add-cell l q o st e))

extend_loop_self :
    (f : ℕ) (l k : Ptr) (o : Obj) (st : State)
    → st.cell l ≡ some o
    → k < length o.l
    → extend_loop f l l k st ≡ timeout
unfolding extend_loop
extend_loop_self zero l k o st e lt = refl
extend_loop_self (suc f) l k o st e lt =
    let (q, h) = get_elem?-lt o.l k lt in
    extend_loop-item f l l k q o o st e e h
    ∙ extend_loop_self f l (k + 1) (record o { l = o.l ++ q ∷ [] }) _ (update_same st.cell l _)
        (rw (length-append o.l (q ∷ [])) (omega arith))

nonempty : (xs : List Ptr) → xs ≢ [] → 0 < length xs
nonempty [] n = ground arith
nonempty (x ∷ xs) n = omega arith

-- A list that has an item, extended by itself, never ends: each round adds the item that a later
-- one will read.
pub list_extend_self :
    (f : ℕ) (l : Ptr) (o : Obj) (st : State)
    → st.cell l ≡ some o
    → o.l ≢ []
    → list_extend f l l st ≡ timeout
unfolding list_extend
list_extend_self f l o st e n =
    timeout-bind (extend_loop f l l 0) _ st (extend_loop_self f l 0 o st e (nonempty o.l n))

get_elem?-drop-none : (xs : List Ptr) (k : ℕ) → drop k xs ≡ [] → get_elem? xs k ≡ none
get_elem?-drop-none [] k h = refl
get_elem?-drop-none (x ∷ xs) zero h = ground arith
get_elem?-drop-none (x ∷ xs) (suc k) h = get_elem?-drop-none xs k h

get_elem?-drop-some :
    (xs ys : List Ptr) (k y : ℕ)
    → drop k xs ≡ y ∷ ys
    → (get_elem? xs k ≡ some y) × (drop (k + 1) xs ≡ ys)
get_elem?-drop-some [] ys zero y h = ground arith
get_elem?-drop-some [] ys (suc k) y h = ground arith
get_elem?-drop-some (x ∷ xs) ys zero y h = ground arith
get_elem?-drop-some (x ∷ xs) ys (suc k) y h =
    let at_tail = get_elem?-drop-some xs ys k y h in
    simp unary_clauses (simp unary_clauses at at_tail)

extend_loop-rest :
    (rest : List Ptr) (f l l2 k : Ptr) (o o2 : Obj) (st : State)
    → l2 ≢ l
    → st.cell l ≡ some o
    → st.cell l2 ≡ some o2
    → drop k o2.l ≡ rest
    → length rest < f
    → Ends (extend_loop f l l2 k st) tt st l (record o { l = o.l ++ rest })
unfolding extend_loop
extend_loop-rest rest zero l l2 k o o2 st n e e2 h lt = elim lt [ ]
extend_loop-rest [] (suc f) l l2 k o o2 st n e e2 h lt = (
  st,
  done-bind (load l2) _ st o2 st (load-cell l2 o2 st e2) ∙ rw (get_elem?-drop-none o2.l k h) refl,
  rw (append-nil o.l) e,
  λ q m. refl,
)
extend_loop-rest (q ∷ rest) (suc f) l l2 k o o2 st n e e2 h lt =
    let (item, next) = get_elem?-drop-some o2.l rest k q h in
    let (st', runs, cell, others) =
      extend_loop-rest rest f l l2 (k + 1) (record o { l = o.l ++ q ∷ [] }) o2
        (put st l (record o { l = o.l ++ q ∷ [] })) n (update_same st.cell l _)
        (update_other st.cell l l2 _ n ∙ e2) next (omega arith) in
    (
      st',
      extend_loop-item f l l2 k q o o2 st e e2 item ∙ runs,
      cell ∙ ap (λ xs. some (record o { l = xs })) (append_assoc o.l (q ∷ []) rest),
      λ p m. others p m ∙ update_other st.cell l p _ m,
    )

-- A list extended by another one ends with the items of both, the other's at the end; what it was
-- as a text or a number is no longer valid, and no other object changes. Fuel of one more than the
-- other's items is enough.
pub list_extend_lem :
    (l l2 : Ptr) (o o2 : Obj) (st : State)
    → l2 ≢ l
    → st.cell l ≡ some o
    → st.cell l2 ≡ some o2
    → Ends (list_extend (length o2.l + 1) l l2 st) tt st l (flushed (record o { l = o.l ++ o2.l }))
unfolding list_extend
list_extend_lem l l2 o o2 st n e e2 =
    let (st', runs, cell, others) =
      extend_loop-rest o2.l (length o2.l + 1) l l2 0 o o2 st n e e2 refl (omega arith) in
    (
      put st' l (flushed (record o { l = o.l ++ o2.l })),
      done-bind (extend_loop (length o2.l + 1) l l2 0) _ st tt st' runs
          ∙ list_flush-cell l _ st' cell,
      update_same st'.cell l _,
      λ p m. update_other st'.cell l p _ m ∙ others p m,
    )
