-- ===== src/Interp/Main.antt =====
-- src/b6b.c: the program around an interpreter, and b6b_interp_new_argv in src/b6b_interp.c.
use b6b.Base.{
  ℕ, ◌-◌, ◌^◌, Bool, true, false, ◌&&◌, Option, none, some, List, [], ◌∷◌, ◌++◌, leb, ◌==◌,
  if◌then◌else◌, Bytes, codes, ◌≡◌, refl, inl, inr, Bool-cases,
}
use b6b.Base.Int.{ℤ, pos, pos_part, neg_part}
use b6b.CLib.{CLib}
use b6b.Store.{Ptr, State, Res, ok, exit}
use b6b.Store.Monad.{M, done, ◌>>=◌, ◌>>◌, pure, get, load, str_copy, list_new}
use b6b.Store.Gives.{Gives, pure-Gives, bind-Gives, if-Gives}
use b6b.Object.{list_add, as_int, obj_isnull}
use b6b.Interp.Tables.{Entry}
use b6b.Interp.Boot.{interp_new}
use b6b.Interp.Dispatch.{call}
use b6b.Interp.Eval.{last_byte}
use b6b.Control.Source.{call_copy, source}

-- enum b6b_interp_opts, as main sets them
pub record Opts : Type 0 where
  pub cmd : Bool
  pub raise : Bool
  pub nbf : Bool
  pub trace : Bool

abbrev pub no_opts : Opts
no_opts = record { cmd = false; raise = false; nbf = false; trace = false }

abbrev pub with_opt : ℕ → Opts → Option Opts
with_opt ch o =
    if ch == b'c'
    then some (record o { cmd = true })
    else if ch == b'e'
    then some (record o { raise = true })
    else if ch == b'u'
    then some (record o { nbf = true })
    else if ch == b'x'
    then some (record o { trace = true })
    else none

-- The loop over getopt, whose results up to -1 are given; `none` is `return EXIT_FAILURE`.
unfoldable pub read_opts : List ℕ → Opts → Option Opts
read_opts [] o = some o
read_opts (ch ∷ chs) o = elim (with_opt ch o) [ none ↦ none | some o' ↦ read_opts chs o' ]

-- hint: the bracket that closes the last byte, shown in bold.
unfoldable pub hint : Bytes → Option Bytes
hint s =
    if last_byte s == b'{'
    then some (codes "}")
    else if last_byte s == b'['
    then some (codes "]")
    else none

-- B6B_SHELL
abbrev pub shell : Bytes
shell =
    codes "{$global chld [$b6b $@]}\n"
    ++ codes "{$loop {"
    ++ codes "{$local stmt [$linenoise.read {>>> }]}\n"
    ++ codes "{$if [$str.len $stmt] {"
    ++ codes "{$try {"
    ++ codes "{$stdout writeln [$repr [$chld call [$list.new $stmt]]]}"
    ++ codes "} {"
    ++ codes "{$local err $_}\n"
    ++ codes "{$stdout write {Error: }}\n"
    ++ codes "{$stdout writeln [$repr $err]}"
    ++ codes "} {"
    ++ codes "{$try {"
    ++ codes "{$linenoise.add $stmt}"
    ++ codes "}}"
    ++ codes "}}"
    ++ codes "}}"
    ++ codes "}}"

abbrev int_max : ℕ
int_max = 2 ^ 31 - 1

abbrev int_min_size : ℕ
int_min_size = 2 ^ 31

-- (i >= INT_MIN) && (i <= INT_MAX)
abbrev pub is_int_status : ℤ → Bool
is_int_status i = leb (neg_part i) int_min_size && leb (pos_part i) int_max

-- EXIT_SUCCESS and EXIT_FAILURE
abbrev pub success : ℤ
success = pos 0

abbrev pub failure : ℤ
failure = pos 1

module _ ⦃c : CLib⦄ where
  -- The loop of b6b_interp_new_argv.
  unfoldable pub add_argv : Ptr → List Bytes → M (Unit {0})
  unfolding str_copy list_add
  add_argv args [] = pure tt
  add_argv args (a ∷ as_) = do p ← str_copy a; list_add args p; add_argv args as_

  -- b6b_interp_new_argv
  unfoldable pub interp_new_argv : ℕ → List Entry → List Bytes → Bool → M Bool
  unfolding list_new add_argv interp_new
  interp_new_argv n entries argv raise = do
    args ← list_new
    add_argv args argv
    interp_new n entries args raise

  abbrev pub status_of : Ptr → Bool → M ℤ
  status_of p false = pure failure
  status_of p true = do o ← load p; pure (if is_int_status o.i then o.i else failure)

  -- The switch at the end of main.
  unfoldable pub exit_status : ℕ → Res → M ℤ
  unfolding obj_isnull as_int load
  exit_status n ok = pure success
  exit_status n exit = do
    st ← get
    o ← load st.under
    if obj_isnull o then pure success else as_int n st.under >>= status_of st.under
  exit_status n res = pure failure

  abbrev pub run_command : ℕ → Opts → Bytes → M Res
  run_command n o arg = if o.cmd then call_copy (call n) arg else source (call n) arg

  -- main behind `done`, with argv and where optind is; the interpreter is not destroyed.
  unfoldable pub run_main : ℕ → List Entry → Opts → List Bytes → List Bytes → M ℤ
  unfolding interp_new_argv call call_copy source exit_status
  run_main n entries o argv [] = do
    ready ← interp_new_argv n entries argv o.raise
    if ready then call_copy (call n) shell >>= exit_status n else pure failure
  run_main n entries o argv (arg ∷ rest) = do
    ready ← interp_new_argv n entries (arg ∷ rest) o.raise
    if ready then run_command n o arg >>= exit_status n else pure failure

  IsStatus : ℤ → Type 0
  IsStatus i = is_int_status i ≡ true

  int_or_failure : (i : ℤ) → IsStatus (if is_int_status i then i else failure)
  unfolding IsStatus
  int_or_failure i = elim (Bool-cases (is_int_status i)) [
    | inl y ↦ simp y refl
    | inr n ↦ simp n refl
  ]

  status_of-Gives : (p : Ptr) (known : Bool) → Gives IsStatus (status_of p known)
  unfolding IsStatus
  status_of-Gives p false = pure-Gives IsStatus failure refl
  status_of-Gives p true =
      bind-Gives IsStatus (load p) _ λ o. pure-Gives IsStatus _ (int_or_failure o.i)

  exit_status-Gives : (n : ℕ) (res : Res) → Gives IsStatus (exit_status n res)
  unfolding exit_status IsStatus
  exit_status-Gives n ok = pure-Gives IsStatus success refl
  exit_status-Gives n exit = bind-Gives IsStatus get _ λ st.
      bind-Gives IsStatus (load st.under) _ λ o.
        if-Gives IsStatus (obj_isnull o) _ _ (λ _. pure-Gives IsStatus success refl)
          (λ _.
            bind-Gives IsStatus (as_int n st.under) (status_of st.under) (status_of-Gives st.under))
  exit_status-Gives n res = pure-Gives IsStatus failure refl

  -- Whatever a script leaves in `_`, the status that main returns is a C int.
  pub exit_status-range :
      (n : ℕ) (res : Res) (st : State) (i : ℤ) (st' : State)
      → exit_status n res st ≡ done i st'
      → is_int_status i ≡ true
  unfolding IsStatus
  exit_status-range n res st i st' = (exit_status-Gives n res).gives st i st'
