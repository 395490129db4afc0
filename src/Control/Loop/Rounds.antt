-- ===== src/Control/Loop/Rounds.antt =====
-- The loop of `loop` (src/b6b_loop.c), against a relation that has no fuel.
use b6b.Base.{ℕ, zero, suc, ◌≡◌, ◌≢◌, ◌↔◌, ◌∙◌, arith}
use b6b.Store.{Ptr, State, Res, ok, err, yield, break, cont, ret, exit}
use b6b.Store.Monad.{M, done, pure, done-bind, bind-done}
use b6b.Control.Loop.{loop_rounds}

-- The rounds of a loop over a body that runs as `body` does: from a state to a result and a state.
pub data Rounds (body : M Res) : State → Res → State → Type 0 where
  -- break ends the loop, as a success.
  broken :
      {st st' : State} {res : Res} → body st ≡ done break st' → res ≡ ok → Rounds body st res st'
  -- Any other result but success ends it, as its result.
  ended :
      {st st' : State} {res : Res}
      → res ≢ ok
      → res ≢ break
      → body st ≡ done res st'
      → Rounds body st res st'
  -- A success is followed by the rounds from there on.
  again :
      {st st' st'' : State} {res : Res}
      → body st ≡ done ok st'
      → Rounds body st' res st''
      → Rounds body st res st''

Rounds-runs :
    (call : Ptr → M Res) (b : Ptr) {st st' : State} {res : Res}
    → Rounds (call b) st res st'
    → (n : ℕ) × (loop_rounds n call b st ≡ done res st')
unfolding loop_rounds
Rounds-runs call b {st = st} (broken {st' = st'} h e) =
    (1, done-bind (call b) _ st break st' h ∙ ground arith)
Rounds-runs call b {st = st} {st' = st'} (ended {res = res} n m h) = (1, go res n m h)
  where
    go :
        (res : Res)
        → res ≢ ok
        → res ≢ break
        → call b st ≡ done res st'
        → loop_rounds 1 call b st ≡ done res st'
    go ok n m h = ground arith
    go break n m h = ground arith
    go err n m h = done-bind (call b) _ st err st' h
    go yield n m h = done-bind (call b) _ st yield st' h
    go cont n m h = done-bind (call b) _ st cont st' h
    go ret n m h = done-bind (call b) _ st ret st' h
    go exit n m h = done-bind (call b) _ st exit st' h
Rounds-runs call b {st = st} (again {st' = mid} h more) =
    let (n, runs) = Rounds-runs call b more in (suc n, done-bind (call b) _ st ok mid h ∙ runs)

runs-Rounds :
    (call : Ptr → M Res) (b : Ptr) (n : ℕ) (st st' : State) (res : Res)
    → loop_rounds n call b st ≡ done res st'
    → Rounds (call b) st res st'
unfolding loop_rounds
runs-Rounds call b zero st st' res h = ground arith
runs-Rounds call b (suc n) st st' res h =
    let (r, mid, e, h') = bind-done (call b) _ st res st' h in go (runs-Rounds call b n) r mid e h'
  where
    go :
        ((st st' : State) (res : Res)
          → loop_rounds n call b st ≡ done res st'
          → Rounds (call b) st res st')
        → (r : Res) (mid : State) → call b st ≡ done r mid
        → elim r as (λ x. M Res) [
          | break ↦ pure ok
          | ok ↦ loop_rounds n call b
          | other ↦ pure other
        ]
            mid
          ≡ done res st'
        → Rounds (call b) st res st'
    go rec ok mid e h = again e (rec mid st' res h)
    go rec break mid e h = broken (ground arith) (ground arith)
    go rec err mid e h = ended (ground arith) (ground arith) (e ∙ h)
    go rec yield mid e h = ended (ground arith) (ground arith) (e ∙ h)
    go rec cont mid e h = ended (ground arith) (ground arith) (e ∙ h)
    go rec ret mid e h = ended (ground arith) (ground arith) (e ∙ h)
    go rec exit mid e h = ended (ground arith) (ground arith) (e ∙ h)

-- With some fuel the loop ends with a result in a state, if and only if the rounds of the body
-- lead there: successes, and at last a break, which counts as a success, or any other result,
-- which is the loop's. So a `continue` ends a loop, too.
pub loop_rounds_iff :
    (call : Ptr → M Res) (b : Ptr) (st st' : State) (res : Res)
    → ((n : ℕ) × (loop_rounds n call b st ≡ done res st')) ↔ Rounds (call b) st res st'
loop_rounds_iff call b st st' res =
    (λ runs. runs-Rounds call b runs.0 st st' res runs.1, Rounds-runs call b)
