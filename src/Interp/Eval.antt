-- ===== src/Interp/Eval.antt =====
-- src/b6b_interp.c: b6b_eval, b6b_stmt_call and b6b_call, as built without B6B_HAVE_THREADS and
-- with tracing off. The three call one another, so each takes the others as arguments: `run` is
-- what a procedure does, by its object and its arguments.
--
-- A walk over a list goes over the items that the list has when the walk begins.
use b6b.Base.{
  ℕ, ◌-◌, Bool, true, false, not, ◌||◌, Option, none, some, List, [], ◌∷◌, ◌==◌, if◌then◌else◌,
  length, take, Bytes, codes,
}
use b6b.CLib.{CLib}
use b6b.Store.{Ptr, Frame, Res, ok, err, yield, Proc}
use b6b.Store.Monad.{M, ◌>>=◌, ◌>>◌, pure, crash, get, load, str_copy, return_obj, fail_with}
use b6b.Object.{is_empty, list_add, as_str, as_list, list_from}
use b6b.Interp.Frame.{frame_push, frame_pop, set_local, get_obj}

abbrev pub last_byte : Bytes → ℕ
last_byte [] = 0
last_byte (b ∷ []) = b
last_byte (b ∷ c ∷ bs) = last_byte (c ∷ bs)

abbrev pub return_or_err : Option Ptr → M Res
return_or_err none = pure err
return_or_err (some p) = return_obj p

-- The call of the statement between the brackets.
abbrev pub call_parsed : (Ptr → M Res) → Option Ptr → M Res
call_parsed stmt_call none = pure err
call_parsed stmt_call (some stmt) = stmt_call stmt

module _ ⦃c : CLib⦄ where
  -- b6b_eval; `stmt_call` is b6b_stmt_call.
  abbrev pub eval_text : (Ptr → M Res) → ℕ → Ptr → Bytes → M Res
  eval_text stmt_call n exp [] = return_obj exp
  eval_text stmt_call n exp (b ∷ bs) =
      if b == b'$'
      then (do name ← str_copy bs; o ← get_obj n name; return_or_err o)
      else if b == b'['
      then (if is_empty bs || not (last_byte (b ∷ bs) == b']')
          then fail_with (codes "uneven []")
          else (do stmt ← list_from (take (length bs - 1) bs); call_parsed stmt_call stmt))
      else return_obj exp

  unfoldable pub eval_with : (Ptr → M Res) → ℕ → Ptr → M Res
  unfolding load return_obj str_copy get_obj fail_with list_from
  eval_with stmt_call n exp = do o ← load exp; eval_text stmt_call n exp o.s

  -- The loop of b6b_stmt_call over the words: `res` is the result so far, `none` the jump to pop.
  unfoldable pub eval_words : (Ptr → M Res) → ℕ → Ptr → List Ptr → Res → M (Option Res)
  unfolding as_str list_add
  eval_words eval n args [] res = pure none
  eval_words eval n args (li ∷ lis) res = do
    known ← as_str n li
    let rest = eval_words eval n args lis ok
    if not known then pure (some res) else (do
      res' ← eval li
      elim res' [ ok ↦ do st ← get; list_add args st.under; rest | other ↦ pure (some other) ])

  abbrev pub call_first : (Proc → Ptr → M Res) → Ptr → List Ptr → M Res
  call_first run args [] = crash
  call_first run args (p ∷ ps) = do o ← load p; run o.proc args

  -- Behind the loop: `_` is reset, and the first word's procedure is called.
  abbrev pub call_words : (Proc → Ptr → M Res) → Ptr → Option Res → M Res
  call_words run args (some res) = pure res
  call_words run args none = do
    st ← get
    _ ← return_obj st.null
    o ← load args
    call_first run args o.l

  abbrev pub words_of : (Proc → Ptr → M Res) → (Ptr → M Res) → ℕ → Ptr → Frame → Bool → M Res
  words_of run eval n stmt f false = pure err
  words_of run eval n stmt f true = do
    o ← load stmt
    jump ← eval_words eval n f.args o.l err
    call_words run f.args jump

  -- b6b_on_res
  unfoldable pub on_res : ℕ → Res → M Res
  unfolding set_local
  on_res n yield = pure ok
  on_res n res = do
    st ← get
    stored ← set_local n st.underscore st.under
    pure (if stored then res else err)

  abbrev pub in_frame : (Proc → Ptr → M Res) → (Ptr → M Res) → ℕ → Ptr → Option Frame → M Res
  in_frame run eval n stmt none = pure err
  in_frame run eval n stmt (some f) = do
    known ← as_list n stmt
    res ← words_of run eval n stmt f known
    frame_pop
    pure res

  -- b6b_stmt_call
  unfoldable pub stmt_call_with : (Proc → Ptr → M Res) → (Ptr → M Res) → ℕ → Ptr → M Res
  unfolding frame_push frame_pop as_list load eval_words return_obj on_res
  stmt_call_with run eval n stmt = do f ← frame_push; res ← in_frame run eval n stmt f; on_res n res

  -- The comment and blank statements that b6b_call skips.
  abbrev pub skipped : Bytes → Bool
  skipped [] = true
  skipped (b ∷ bs) = b == b'#'

  -- The loop of b6b_call.
  unfoldable pub call_stmts : (Ptr → M Res) → ℕ → List Ptr → M Res
  unfolding as_str load
  call_stmts stmt_call n [] = pure ok
  call_stmts stmt_call n (li ∷ lis) = do
    known ← as_str n li
    o ← load li
    let rest = call_stmts stmt_call n lis
    if not known
        then pure err
        else if skipped o.s
        then rest
        else (do res ← stmt_call li; elim res [ ok ↦ rest | other ↦ pure other ])

  -- b6b_call
  unfoldable pub call_with : (Ptr → M Res) → ℕ → Ptr → M Res
  unfolding as_list load call_stmts
  call_with stmt_call n stmts = do
    known ← as_list n stmts
    o ← load stmts
    if known then call_stmts stmt_call n o.l else pure err
