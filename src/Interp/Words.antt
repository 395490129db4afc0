-- ===== src/Interp/Words.antt =====
-- The words of a statement (the loop of b6b_stmt_call in src/b6b_interp.c, and the call behind it)
-- leave the call stack alone, if the expressions and the procedure do.
use b6b.Base.{ℕ, Bool, true, false, not, Option, none, some, List, [], ◌∷◌}
use b6b.CLib.{CLib}
use b6b.Store.{Ptr, Frame, Res, ok, err, yield, break, cont, ret, exit, Proc}
use b6b.Store.Monad.{M, ◌>>=◌, ◌>>◌, pure, get, load, return_obj}
use b6b.Store.Keeps.{
  Keeps, keeping, pure-Keeps, crash-Keeps, bind-Keeps, if-Keeps, get-Keeps, load-Keeps,
  return_obj-Keeps,
}
use b6b.Object.{as_str, list_add}
use b6b.Object.Keeps.{list_add-Keeps, as_str-Keeps}
use b6b.Interp.Eval.{eval_words, call_first, call_words, words_of}

module _ ⦃c : CLib⦄ where
  call_first-Keeps :
      (run : Proc → Ptr → M Res) (args : Ptr) (ps : List Ptr)
      → ((p : Proc) (q : Ptr) → Keeps (run p q))
      → Keeps (call_first run args ps)
  call_first-Keeps run args [] h = crash-Keeps
  call_first-Keeps run args (p ∷ ps) h = search (keeping, h)

  call_words-Keeps :
      (run : Proc → Ptr → M Res) (args : Ptr) (jump : Option Res)
      → ((p : Proc) (q : Ptr) → Keeps (run p q))
      → Keeps (call_words run args jump)
  call_words-Keeps run args (some res) h = pure-Keeps res
  call_words-Keeps run args none h =
      bind-Keeps get (λ st. return_obj st.null >>= λ r. load args >>= λ o. call_first run args o.l)
        get-Keeps
        (λ st.
          bind-Keeps (return_obj st.null) (λ r. load args >>= λ o. call_first run args o.l)
            (return_obj-Keeps st.null)
            (λ r.
              bind-Keeps (load args) (λ o. call_first run args o.l) (load-Keeps args)
                (λ o. call_first-Keeps run args o.l h)))

  -- Behind the evaluation of a word.
  word-Keeps :
      (args : Ptr) (rest : M (Option Res)) (res : Res)
      → Keeps rest
      → Keeps (elim res as (λ x. M (Option Res)) [
        | ok ↦ get >>= λ st. list_add args st.under >> rest
        | other ↦ pure (some other)
      ])
  word-Keeps args rest ok h =
      bind-Keeps get (λ st. list_add args st.under >> rest) get-Keeps
        (λ st.
          bind-Keeps (list_add args st.under) (λ u. rest) (list_add-Keeps args st.under) (λ u. h))
  word-Keeps args rest err h = pure-Keeps _
  word-Keeps args rest yield h = pure-Keeps _
  word-Keeps args rest break h = pure-Keeps _
  word-Keeps args rest cont h = pure-Keeps _
  word-Keeps args rest ret h = pure-Keeps _
  word-Keeps args rest exit h = pure-Keeps _

  eval_words-Keeps :
      (eval : Ptr → M Res) (n args : ℕ) (ps : List Ptr) (res : Res)
      → ((p : Ptr) → Keeps (eval p))
      → Keeps (eval_words eval n args ps res)
  unfolding eval_words
  eval_words-Keeps eval n args [] res h = pure-Keeps _
  eval_words-Keeps eval n args (p ∷ ps) res h =
      bind-Keeps (as_str n p) _ (as_str-Keeps n p) (λ known.
        if-Keeps (not known) _ _ (pure-Keeps (some res)) (
          bind-Keeps (eval p) _ (h p) (λ r.
            word-Keeps args (eval_words eval n args ps ok) r
              (eval_words-Keeps eval n args ps ok h))))

  pub words_of-Keeps :
      (run : Proc → Ptr → M Res) (eval : Ptr → M Res) (n stmt : ℕ) (f : Frame) (known : Bool)
      → ((p : Proc) (q : Ptr) → Keeps (run p q))
      → ((p : Ptr) → Keeps (eval p))
      → Keeps (words_of run eval n stmt f known)
  words_of-Keeps run eval n stmt f false hr he = pure-Keeps err
  words_of-Keeps run eval n stmt f true hr he = bind-Keeps (load stmt) _ (load-Keeps stmt) (λ o.
      bind-Keeps (eval_words eval n f.args o.l err) _ (eval_words-Keeps eval n f.args o.l err he)
        (λ jump. call_words-Keeps run f.args jump hr))
