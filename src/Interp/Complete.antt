-- ===== src/Interp/Complete.antt =====
-- src/b6b.c, get_chld and complete: what is offered for the variable that a line ends with. No
-- text is longer than SIZE_MAX - 2.
use b6b.Base.{
  ℕ, zero, suc, Bool, true, false, ◌&&◌, ◌||◌, Option, none, some, List, [], ◌∷◌, ◌++◌, ◌==◌,
  if◌then◌else◌, Bytes, codes, length,
}
use b6b.CLib.{CLib}
use b6b.Store.{Ptr, State}
use b6b.Store.Monad.{M, ◌>>=◌, ◌>>◌, pure, crash, get, load, str_copy}
use b6b.Object.{as_str, as_list, list_add}
use b6b.Object.Args.{c_str}
use b6b.Lists.Ops.{list_pop_last}
use b6b.Dict.Ops.{dict_get}

-- strncmp(s, t, n) == 0, of texts with a NUL behind them
abbrev pub strn_eq : ℕ → Bytes → Bytes → Bool
strn_eq zero s t = true
strn_eq (suc n) [] [] = true
strn_eq (suc n) [] (y ∷ t) = y == 0
strn_eq (suc n) (x ∷ s) [] = x == 0
strn_eq (suc n) (x ∷ s) (y ∷ t) = let rest = strn_eq n s t in x == y && (x == 0 || rest)

-- tok->s[0] != '$'
abbrev pub is_variable : Bytes → Bool
is_variable [] = false
is_variable (b ∷ bs) = b == b'$'

-- &tok->s[1], where tok->s[0] is there
abbrev pub behind_dollar : Bytes → Bytes
behind_dollar [] = []
behind_dollar (b ∷ bs) = bs

abbrev pub last_item : List Ptr → Option Ptr
last_item [] = none
last_item (p ∷ []) = some p
last_item (p ∷ q ∷ ps) = last_item (q ∷ ps)

-- `priv` of the object that the global `chld` is
abbrev pub as_chld : (Ptr → State) → Option (Option Ptr) → Option State
as_chld priv none = none
as_chld priv (some none) = none
as_chld priv (some (some v)) = some (priv v)

module _ ⦃c : CLib⦄ where
  -- get_chld, where `chld` is what it kept before
  abbrev pub get_chld : ℕ → (Ptr → State) → Option State → M (Option State)
  get_chld n priv (some chld) = pure (some chld)
  get_chld n priv none = do
    s ← str_copy (codes "chld")
    st ← get
    v ← dict_get n st.global.locals s
    pure (as_chld priv v)

  -- The line `o` with `name` for its last word, after the others; `none` leaves the loop.
  abbrev pub offer : ℕ → Ptr → Bytes → M (Option Bytes)
  offer n o name = do
    _ ← list_pop_last o
    ctok ← str_copy (codes "$" ++ c_str name)
    list_add o ctok
    shown ← as_str n o
    x ← load o
    pure (if shown then some (c_str x.s) else none)

  abbrev pub offered : M (List Bytes) → Option Bytes → M (List Bytes)
  offered rest none = pure []
  offered rest (some s) = do ss ← rest; pure (s ∷ ss)

  -- The loop over the keys of a dictionary: what linenoiseAddCompletion gets.
  unfoldable pub complete_keys : ℕ → Ptr → Bytes → List Ptr → M (List Bytes)
  unfolding as_str load list_pop_last str_copy list_add
  complete_keys n o prefix [] = pure []
  complete_keys n o prefix (k ∷ []) = do
    known ← as_str n k
    x ← load k
    if known && strn_eq (length prefix) x.s prefix
        then (offer n o x.s >>= offered (pure []))
        else pure []
  complete_keys n o prefix (k ∷ v ∷ rest) = do
    known ← as_str n k
    x ← load k
    let others = complete_keys n o prefix rest
    if known && strn_eq (length prefix) x.s prefix
        then (offer n o x.s >>= offered others)
        else others

  -- The loop over `ds`
  unfoldable pub complete_dicts : ℕ → Ptr → Bytes → List Ptr → M (List Bytes)
  unfolding as_list load complete_keys
  complete_dicts n o prefix [] = pure []
  complete_dicts n o prefix (d ∷ ds) = do
    known ← as_list n d
    x ← load d
    let others = complete_dicts n o prefix ds
    if known
        then (do here ← complete_keys n o prefix x.l; rest ← others; pure (here ++ rest))
        else pure []

  abbrev pub complete_in : ℕ → Ptr → Bytes → Option State → M (List Bytes)
  complete_in n o prefix none = pure []
  complete_in n o prefix (some chld) = elim chld.frames [
    | [] ↦ crash
    | f ∷ fs ↦ complete_dicts n o prefix (f.locals ∷ chld.global.locals ∷ [])
  ]

  abbrev pub complete_last : ℕ → (Ptr → State) → Option State → Ptr → Option Ptr → M (List Bytes)
  complete_last n priv chld o none = pure []
  complete_last n priv chld o (some tok) = do
    known ← as_str n tok
    x ← load tok
    if known && is_variable x.s
        then (get_chld n priv chld >>= complete_in n o (behind_dollar x.s))
        else pure []

  -- complete
  unfoldable pub complete : ℕ → (Ptr → State) → Option State → Bytes → M (List Bytes)
  unfolding str_copy as_list load complete_dicts dict_get
  complete n priv chld [] = pure []
  complete n priv chld s = do
    o ← str_copy s
    known ← as_list n o
    x ← load o
    if known then complete_last n priv chld o (last_item x.l) else pure []
