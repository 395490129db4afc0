-- ===== src/Control/Exc/Correct.antt =====
-- What a try (src/b6b_exc.c) comes to, for each way in which its blocks may end.
use b6b.Base.{◌+◌, ◌≡◌, ◌∙◌, ◌≢◌, Bool, true, false, List, [], ◌∷◌, length, arith}
use b6b.Store.{Ptr, State, Res, ok, err, ret, exit}
use b6b.Store.Monad.{M, done, done-bind}
use b6b.Control.Exc.{handle, run_finally, try_blocks}

-- The results that a finally block cannot change.
abbrev over : Res → Res → Res
over ret fres = ret
over exit fres = exit
over res fres = fres

-- The result of an except block, where errors are raised in spite of it.
abbrev kept : Bool → Res → Res
kept false eres = eres
kept true exit = exit
kept true eres = err

-- The finally block's result counts only if the except block was a success.
abbrev unless_failed : Res → Res → Res
unless_failed ok fres = fres
unless_failed eres fres = eres

-- The try block alone: an error is silenced, unless errors are raised.
abbrev alone : Bool → Res → Res
alone false err = ok
alone raise res = res

pub data Tries (call : Ptr → M Res) (t : Ptr) : List Ptr → State → Res → State → Type 0 where
  bare :
      {st st' : State} {res : Res}
      → call t st ≡ done res st'
      → Tries call t [] st (alone st'.opt_raise res) st'
  passed :
      {e : Ptr} {st st' : State} {res : Res}
      → call t st ≡ done res st'
      → res ≢ err
      → Tries call t (e ∷ []) st res st'
  caught :
      {e : Ptr} {st mid st' : State} {eres : Res}
      → call t st ≡ done err mid
      → call e mid ≡ done eres st'
      → Tries call t (e ∷ []) st (kept mid.opt_raise eres) st'
  passed_finally :
      {e f : Ptr} {st mid st' : State} {res fres : Res}
      → call t st ≡ done res mid
      → res ≢ err
      → call f mid ≡ done fres st'
      → Tries call t (e ∷ f ∷ []) st (over res fres) (record st' { under = mid.under })
  caught_finally :
      {e f : Ptr} {st mid late st' : State} {eres fres : Res}
      → call t st ≡ done err mid
      → call e mid ≡ done eres late
      → call f late ≡ done fres st'
      → Tries call t
          (e ∷ f ∷ [])
          st
          (unless_failed (kept mid.opt_raise eres) fres)
          (record st' { under = late.under })

-- Where the blocks of a try end in one of the ways that `Tries` lists, the try ends with the result
-- and the state that `Tries` gives: an error of a try block alone is silenced unless errors are
-- raised; an except block runs on an error only, and its result is the try's; a finally block runs
-- in each case, puts `_` back, and changes neither a return nor an exit nor a failure of the
-- except block.
pub Tries-try_blocks :
    (call : Ptr → M Res) (t : Ptr) (blocks : List Ptr) (st st' : State) (res : Res)
    → Tries call t blocks st res st'
    → try_blocks call (length blocks + 2) t blocks st ≡ done res st'
unfolding try_blocks handle run_finally
Tries-try_blocks call t _ st _ _ (bare {st' = st'} {res = res} h) =
    done-bind (call t) _ st res st' h ∙ ground arith
Tries-try_blocks call t _ st _ _ (passed {st' = st'} {res = res} h n) =
    done-bind (call t) _ st res st' h ∙ ground arith
Tries-try_blocks call t _ st _ _ (caught {e = e} {mid = mid} {st' = st'} {eres = eres} h k) =
    done-bind (call t) _ st err mid h ∙ ground arith
Tries-try_blocks call t _ st _ _
      (passed_finally {f = f} {mid = mid} {st' = st'} {res = res} {fres = fres} h n k) =
    done-bind (call t) _ st res mid h ∙ ground arith
Tries-try_blocks call t _ st _ _ (caught_finally {mid = mid} h k m) =
    done-bind (call t) _ st err mid h ∙ ground arith
