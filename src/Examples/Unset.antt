-- ===== src/Examples/Unset.antt =====
-- A key that is taken out of a dictionary, at a concrete input.
use b6b.Base.{◌==◌, if◌then◌else◌, refl, true, none, some, [], ◌∷◌, Bytes, codes}
use b6b.Tests.{toy}
use b6b.Store.{Obj, State, blank_obj}
use b6b.Object.{flushed, obj_eq}
use b6b.Object.Cells.{Ends}
use b6b.Dict.Ops.{dict_unset}
use b6b.Dict.Ops.Model.{lookup}
use b6b.Dict.Ops.Unset.{without_pair, dict_unset_lem}
use b6b.Interp.Boot.{empty}

abbrev key : Bytes → Obj
key t = record blank_obj { s = t; is_str = true; is_hashed = true }

-- The dictionary's text is known too.
abbrev pairs : Obj
pairs = record blank_obj {
  l = 3 ∷ 4 ∷ 5 ∷ 6 ∷ [];
  is_list = true;
  s = codes "a b c d";
  is_str = true;
}

abbrev store : State
store = record empty {
  cell = λ q.
      if q == 0
      then some pairs
      else if q == 3
      then some (key (codes "a"))
      else if q == 5
      then some (key (codes "c"))
      else none;
  next = 7;
}

dict_unset_lem_example :
    Ends (dict_unset 3 0 5 store) true store 0 (flushed (record pairs { l = 3 ∷ 4 ∷ [] }))
unfolding without_pair lookup obj_eq
dict_unset_lem_example =
    dict_unset_lem 3 0 5 (key (codes "c")) pairs store refl refl refl
      ((key (codes "a"), refl, refl), ((key (codes "c"), refl, refl), tt))
