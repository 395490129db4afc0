-- ===== src/Interp/Boot.antt =====
-- src/b6b_interp.c, b6b_interp_new and b6b_interp_new_ext_obj: the state that a script starts in.
use b6b.Base.{ℕ, Bool, true, false, none, List, [], ◌∷◌, if◌then◌else◌, codes}
use b6b.Base.Int.{pos}
use b6b.CLib.{CLib}
use b6b.Store.{Ptr, Frame, State, builtin}
use b6b.Store.Monad.{M, done, ◌>>=◌, ◌>>◌, pure, load, store, str_copy, int_new}
use b6b.Interp.Frame.{frame_new, frame_set_args, set_global}
use b6b.Interp.Tables.{Entry}

-- An interpreter of which nothing is set, and a frame that is nowhere.
abbrev nowhere : Frame
nowhere = record { locals = 0; args = 0 }

abbrev pub empty : State
empty = record {
  cell = λ p. none;
  next = 0;
  under = 0;
  frames = [];
  depth = 0;
  global = nowhere;
  null = 0;
  zero_obj = 0;
  one = 0;
  dot = 0;
  at = 0;
  underscore = 0;
  opt_raise = false;
}

abbrev pub modify : (State → State) → M (Unit {0})
modify f st = done tt (f st)

module _ ⦃c : CLib⦄ where
  -- b6b_interp_new_ext_obj: the object, under its name, in the global frame.
  unfoldable pub new_ext_obj : ℕ → Entry → M Bool
  unfolding str_copy load store set_global
  new_ext_obj n e = do
    k ← str_copy e.name
    v ← str_copy e.val
    o ← load v
    store v (record o { proc = builtin e.proc })
    set_global n k v

  unfoldable pub new_ext_objs : ℕ → List Entry → M Bool
  unfolding new_ext_obj
  new_ext_objs n [] = pure true
  new_ext_objs n (e ∷ es) = do
    stored ← new_ext_obj n e
    let rest = new_ext_objs n es
    if stored then rest else pure false

  -- The objects that the interpreter keeps.
  unfoldable pub new_consts : Bool → M (Unit {0})
  unfolding str_copy int_new
  new_consts raise = do
    null ← str_copy []
    zero_obj ← int_new (pos 0)
    one ← int_new (pos 1)
    dot ← str_copy (codes ".")
    at ← str_copy (codes "@")
    underscore ← str_copy (codes "_")
    modify (λ st. record st {
      null = null;
      zero_obj = zero_obj;
      one = one;
      dot = dot;
      at = at;
      underscore = underscore;
      opt_raise = raise;
    })

  -- b6b_thread_self: the main thread, with a frame of its own on the global one.
  unfoldable pub thread_self : Frame → M (Unit {0})
  unfolding frame_new
  thread_self global = do
    f ← frame_new
    modify (λ st. record st { frames = f ∷ global ∷ []; depth = 1; under = st.null })

  -- b6b_interp_new; `entries` are the objects of the tables that the build brings in.
  unfoldable pub interp_new : ℕ → List Entry → Ptr → Bool → M Bool
  unfolding new_consts frame_new frame_set_args thread_self new_ext_objs
  interp_new n entries args raise = do
    new_consts raise
    global ← frame_new
    modify (λ st. record st { global = global })
    known ← frame_set_args n global args
    if known then (do thread_self global; new_ext_objs n entries) else pure false
