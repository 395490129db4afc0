-- ===== src/Examples/Texts.antt =====
-- Looking for a text in another one, at a concrete input.
use b6b.Base.{◌≡◌, ◌≢◌, ◌↔◌, refl, Bool, true, none, some, [], ◌==◌, if◌then◌else◌, Bytes, codes}
use b6b.Hash.{hash}
use b6b.Store.{Obj, State, ok, err, blank_obj}
use b6b.Store.Monad.{done}
use b6b.Tests.{toy}
use b6b.Interp.Boot.{empty}
use b6b.Str.Search.{Occurs}
use b6b.Str.Procs.{in_texts}
use b6b.Str.Procs.Found.{in_texts-Occurs}

abbrev text_obj : Bytes → Obj
text_obj t = record blank_obj { s = t; is_str = true }

-- Two objects with the text "bc", of which the second is hashed.
abbrev texts : State
texts = record empty {
  cell = λ p.
      if p == 0
      then some (text_obj (codes "bc"))
      else if p == 1
      then some (record (text_obj (codes "bc")) { hash = hash (codes "bc"); is_hashed = true })
      else none;
  next = 2;
  one = 5;
  zero_obj = 6;
}

in_texts-Occurs_example :
    (codes "bc" ≡ [] → in_texts 1 0 1 texts ≡ done err texts)
    × (codes "bc" ≢ []
        → (found : Bool) × (st' : State) × (in_texts 1 0 1 texts ≡ done ok st')
          × (st'.under ≡ (if found then 5 else 6))
          × ((found ≡ true) ↔ Occurs (codes "bc") (codes "bc")))
in_texts-Occurs_example =
    in_texts-Occurs 0 0 1 (codes "bc") (codes "bc") texts
      (record {
        obj = text_obj (codes "bc");
        is_there = refl;
        has_text = (refl, refl);
        hashes = λ e. absurd (cc);
      })
      (record {
        obj = record (text_obj (codes "bc")) { hash = hash (codes "bc"); is_hashed = true };
        is_there = refl;
        has_text = (refl, refl);
        hashes = λ e. refl;
      })
