-- ===== src/Interp/Balance.antt =====
-- Every statement leaves the call stack as it found it (b6b_stmt_call and b6b_call in
-- src/b6b_interp.c, with src/b6b_frame.c), if the procedures that it calls do.
use b6b.Base.{
  ℕ, ◌+◌, ◌-◌, ◌<◌, ◌≤◌, ◌≡◌, refl, ◌∙◌, ap, Bool, true, false, ◌⊎◌, inl, inr, leb, not, Option,
  none, some, List, [], ◌∷◌, codes, if◌then◌else◌, arith,
}
use b6b.CLib.{CLib}
use b6b.Store.{Ptr, Frame, State, Res, ok, err, yield, break, cont, ret, exit, Proc}
use b6b.Store.Monad.{M, done, ◌>>=◌, pure, load, return_str, bind-done}
use b6b.Store.Keeps.{
  SameStack, Keeps, keeping, pure-Keeps, bind-Keeps, if-Keeps, load-Keeps, return_str-Keeps,
}
use b6b.Object.{as_str, as_list}
use b6b.Object.Keeps.{as_str-Keeps, as_list-Keeps}
use b6b.Interp.Frame.{max_nesting, frame_new, frame_push, frame_pop, push}
use b6b.Interp.Eval.{words_of, in_frame, stmt_call_with, skipped, call_stmts, call_with}
use b6b.Interp.Keeps.{on_res-Keeps}
use b6b.Interp.Words.{words_of-Keeps}

frame_new-Keeps : Keeps frame_new
unfolding frame_new
frame_new-Keeps = search keeping

-- What pushing a frame comes to: none on a stack that is full, or one more.
abbrev Pushed : State → Option Frame → State → Type 0
Pushed st r st' =
    ((r ≡ none) × (max_nesting ≤ st.depth) × SameStack st st')
    ⊎ ((f : Frame) × (r ≡ some f)
        × (st.depth < max_nesting)
        × (st'.frames ≡ f ∷ st.frames)
        × (st'.depth ≡ st.depth + 1))

push-Pushed :
    (st mid st' : State) (f : Frame) (r : Option Frame)
    → st.depth < max_nesting
    → SameStack st mid
    → push f mid ≡ done r st'
    → Pushed st r st'
push-Pushed st mid st' f r lt (e, d) h = inr (f, ground arith, lt, ground arith, ground arith)

frame_push-Pushed :
    (st : State) (r : Option Frame) (st' : State) → frame_push st ≡ done r st' → Pushed st r st'
unfolding frame_push
frame_push-Pushed st r st' h = go (leb max_nesting st.depth) refl h
  where
    overflow : M (Option Frame)
    overflow = return_str (codes "call stack overflow") >>= λ r. pure none

    go :
        (b : Bool)
        → leb max_nesting st.depth ≡ b
        → (if b then overflow else (frame_new >>= push)) st ≡ done r st'
        → Pushed st r st'
    go true e h =
        let (a, mid, k, h') =
          bind-done (return_str (codes "call stack overflow")) (λ a. pure none) st r st' h in
        let (f, d) = (return_str-Keeps (codes "call stack overflow")).keeps st a mid k in
        inl (ground arith, ground arith, (ground arith, ground arith))
    go false e h =
        let (f, mid, k, h') = bind-done frame_new push st r st' h in
        push-Pushed st mid st' f r (ground arith) (frame_new-Keeps.keeps st f mid k) h'

frame_pop_lem :
    (st : State) (f : Frame) (fs : List Frame) (a : Unit {0}) (st' : State)
    → st.frames ≡ f ∷ fs
    → frame_pop st ≡ done a st'
    → (st'.frames ≡ fs) × (st'.depth ≡ st.depth - 1)
unfolding frame_pop
frame_pop_lem st f fs a st' e h = ground arith

unless_ok-Keeps :
    (rest : M Res) (res : Res)
    → Keeps rest
    → Keeps (elim res as (λ x. M Res) [ ok ↦ rest | other ↦ pure other ])
unless_ok-Keeps rest ok h = h
unless_ok-Keeps rest err h = pure-Keeps err
unless_ok-Keeps rest yield h = pure-Keeps yield
unless_ok-Keeps rest break h = pure-Keeps break
unless_ok-Keeps rest cont h = pure-Keeps cont
unless_ok-Keeps rest ret h = pure-Keeps ret
unless_ok-Keeps rest exit h = pure-Keeps exit

module _ ⦃c : CLib⦄ where
  -- With a frame pushed, the statement's words and its call end with the frame popped.
  in_frame-pops :
      (run : Proc → Ptr → M Res) (eval : Ptr → M Res) (n stmt : ℕ) (f : Frame) (fs : List Frame)
      (st : State) (res : Res) (st' : State)
      → ((p : Proc) (q : Ptr) → Keeps (run p q))
      → ((p : Ptr) → Keeps (eval p))
      → st.frames ≡ f ∷ fs
      → in_frame run eval n stmt (some f) st ≡ done res st'
      → (st'.frames ≡ fs) × (st'.depth ≡ st.depth - 1)
  in_frame-pops run eval n stmt f fs st res st' hr he e h =
      let (known, m1, e1, h1) = bind-done (as_list n stmt) _ st res st' h in
      let (r, m2, e2, h2) = bind-done (words_of run eval n stmt f known) _ m1 res st' h1 in
      let (u, m3, e3, h3) = bind-done frame_pop _ m2 res st' h2 in
      let (f1, d1) = (as_list-Keeps n stmt).keeps st known m1 e1 in
      let (f2, d2) = (words_of-Keeps run eval n stmt f known hr he).keeps m1 r m2 e2 in
      let (f3, d3) = frame_pop_lem m2 f fs u m3 (f2 ∙ f1 ∙ e) e3 in
      let (f4, d4) = (pure-Keeps r).keeps m3 res st' h3 in
      (f4 ∙ f3, d4 ∙ d3 ∙ ap (λ d. d - 1) (d2 ∙ d1))

  in_frame-SameStack :
      (run : Proc → Ptr → M Res) (eval : Ptr → M Res) (n stmt : ℕ) (r : Option Frame)
      (st mid : State) (res : Res) (st' : State)
      → ((p : Proc) (q : Ptr) → Keeps (run p q))
      → ((p : Ptr) → Keeps (eval p))
      → Pushed st r mid
      → in_frame run eval n stmt r mid ≡ done res st'
      → SameStack st st'
  in_frame-SameStack run eval n stmt none st mid res st' hr he (inl (no_frame, full, (f, d))) h =
      let (f', d') = (pure-Keeps err).keeps mid res st' h in (f' ∙ f, d' ∙ d)
  in_frame-SameStack run eval n stmt none st mid res st' hr he (inr (f, e, lt, ef, ed)) h =
      ground arith
  in_frame-SameStack run eval n stmt (some f) st mid res st' hr he (inl (e, full, same)) h =
      ground arith
  in_frame-SameStack run eval n stmt (some f) st mid res st' hr he (inr (f', e, lt, ef, ed)) h =
      let at_top : mid.frames ≡ f ∷ st.frames = ground arith in
      let (pf, pd) = in_frame-pops run eval n stmt f st.frames mid res st' hr he at_top h in
      (pf, ground arith)

  -- If the procedures and the expressions leave the call stack as they found it where they end with
  -- a result, then so does a statement, whatever its words and its result are, also where the
  -- stack is full.
  pub stmt_call_with-Keeps :
      (run : Proc → Ptr → M Res) (eval : Ptr → M Res) (n stmt : ℕ)
      → ((p : Proc) (q : Ptr) → Keeps (run p q))
      → ((p : Ptr) → Keeps (eval p))
      → Keeps (stmt_call_with run eval n stmt)
  unfolding stmt_call_with
  stmt_call_with-Keeps run eval n stmt hr he = record { keeps = both }
    where
      both :
          (st : State) (a : Res) (st' : State)
          → stmt_call_with run eval n stmt st ≡ done a st'
          → SameStack st st'
      both st a st' h =
          let (r, m1, e1, h1) = bind-done frame_push _ st a st' h in
          let (res, m2, e2, h2) = bind-done (in_frame run eval n stmt r) _ m1 a st' h1 in
          let (f, d) =
            in_frame-SameStack run eval n stmt r st m1 res m2 hr he (frame_push-Pushed st r m1 e1)
              e2 in
          let (f', d') = (on_res-Keeps n res).keeps m2 a st' h2 in (f' ∙ f, d' ∙ d)

  call_stmts-Keeps :
      (stmt_call : Ptr → M Res) (n : ℕ) (ps : List Ptr)
      → ((p : Ptr) → Keeps (stmt_call p))
      → Keeps (call_stmts stmt_call n ps)
  unfolding call_stmts
  call_stmts-Keeps stmt_call n [] h = pure-Keeps ok
  call_stmts-Keeps stmt_call n (p ∷ ps) h =
      let rest = call_stmts-Keeps stmt_call n ps h in
      bind-Keeps (as_str n p) _ (as_str-Keeps n p) (λ known.
        bind-Keeps (load p) _ (load-Keeps p) (λ o. if-Keeps (not known) _ _ (pure-Keeps err) (
          if-Keeps (skipped o.s) _ _ rest (
            bind-Keeps (stmt_call p) _ (h p)
              (λ res. unless_ok-Keeps (call_stmts stmt_call n ps) res rest)))))

  -- A list of statements leaves the call stack alone if each statement does.
  pub call_with-Keeps :
      (stmt_call : Ptr → M Res) (n stmts : ℕ)
      → ((p : Ptr) → Keeps (stmt_call p))
      → Keeps (call_with stmt_call n stmts)
  unfolding call_with
  call_with-Keeps stmt_call n stmts h =
      bind-Keeps (as_list n stmts) _ (as_list-Keeps n stmts) (λ known.
        bind-Keeps (load stmts) _ (load-Keeps stmts)
          (λ o. if-Keeps known _ _ (call_stmts-Keeps stmt_call n o.l h) (pure-Keeps err)))
