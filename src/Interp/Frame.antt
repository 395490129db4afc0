-- ===== src/Interp/Frame.antt =====
-- src/b6b_frame.c, and the variables of include/b6b/interp.h and src/b6b_interp.c.
use b6b.Base.{
  ℕ, ◌+◌, ◌-◌, Bool, true, false, Option, none, some, List, [], ◌∷◌, ◌++◌, leb, if◌then◌else◌,
  codes,
}
use b6b.Base.Int.{pos}
use b6b.CLib.{CLib}
use b6b.Store.{Ptr, Frame}
use b6b.Store.Monad.{M, done, fault, ◌>>=◌, pure, get, load, int_new, list_new, return_str}
use b6b.Object.{as_str, as_list}
use b6b.Object.Args.{c_str}
use b6b.Dict.Ops.{dict_set, dict_get}

-- B6B_MAX_NESTING
abbrev pub max_nesting : ℕ
max_nesting = 64

-- b6b_frame_new; `prev` is the list of frames that the new one is put on.
unfoldable pub frame_new : M Frame
unfolding list_new
frame_new = do locals ← list_new; args ← list_new; pure (record { locals = locals; args = args })

abbrev pub push : Frame → M (Option Frame)
push f st = done (some f) (record st { frames = f ∷ st.frames; depth = st.depth + 1 })

-- b6b_frame_push
unfoldable pub frame_push : M (Option Frame)
unfolding frame_new return_str
frame_push = do
  st ← get
  if leb max_nesting st.depth
      then (do _ ← return_str (codes "call stack overflow"); pure none)
      else (frame_new >>= push)

-- b6b_frame_pop. There is always a frame to pop where it is called.
unfoldable pub frame_pop : M (Unit {0})
frame_pop st = elim st.frames [
  | [] ↦ fault
  | f ∷ fs ↦ done tt (record st { frames = fs; depth = st.depth - 1 })
]

-- interp->fg->curr
unfoldable pub current : M Frame
current st = elim st.frames [ [] ↦ fault | f ∷ fs ↦ done f st ]

module _ ⦃c : CLib⦄ where
  -- b6b_local
  unfoldable pub set_local : ℕ → Ptr → Ptr → M Bool
  unfolding current dict_set
  set_local n k v = do f ← current; dict_set n f.locals k v

  -- b6b_global
  unfoldable pub set_global : ℕ → Ptr → Ptr → M Bool
  unfolding dict_set
  set_global n k v = do st ← get; dict_set n st.global.locals k v

  -- The loop of b6b_frame_set_args: each argument under its number.
  unfoldable pub set_numbered : ℕ → Ptr → List Ptr → ℕ → M Bool
  unfolding int_new dict_set
  set_numbered n locals [] i = pure true
  set_numbered n locals (li ∷ lis) i = do
    io ← int_new (pos i)
    stored ← dict_set n locals io li
    let rest = set_numbered n locals lis (i + 1)
    if stored then rest else pure false

  -- b6b_frame_set_args
  unfoldable pub frame_set_args : ℕ → Frame → Ptr → M Bool
  unfolding as_list dict_set set_numbered load
  frame_set_args n f args = do
    known ← as_list n args
    st ← get
    stored ← if known then dict_set n f.locals st.at args else pure false
    o ← load args
    if stored then set_numbered n f.locals o.l 0 else pure false

  -- The loop of b6b_get over the frames; `some none` is the end of the chain.
  abbrev pub look_in : M (Option (Option Ptr)) → Option (Option Ptr) → M (Option (Option Ptr))
  look_in behind none = pure none
  look_in behind (some (some v)) = pure (some (some v))
  look_in behind (some none) = behind

  unfoldable pub look_up : ℕ → Ptr → List Frame → M (Option (Option Ptr))
  unfolding dict_get
  look_up n name [] = pure (some none)
  look_up n name (f ∷ fs) = do v ← dict_get n f.locals name; look_in (look_up n name fs) v

  abbrev pub finish_lookup : Ptr → Option (Option Ptr) → M (Option Ptr)
  finish_lookup name none = pure none
  finish_lookup name (some (some v)) = pure (some v)
  finish_lookup name (some none) = do
    o ← load name
    _ ← return_str (codes "no such obj: " ++ c_str o.s)
    pure none

  -- b6b_get
  unfoldable pub get_obj : ℕ → Ptr → M (Option Ptr)
  unfolding as_str look_up load return_str
  get_obj n name = do
    known ← as_str n name
    st ← get
    if known then (look_up n name st.frames >>= finish_lookup name) else pure none
