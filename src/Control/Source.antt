-- ===== src/Control/Source.antt =====
-- src/b6b_interp.c, b6b_source, and the procedure of src/b6b_core.c that calls it: a script in a file.
pub mod Shebang
pub mod Keeps
use b6b.Base.{
  ℕ, ◌+◌, ◌-◌, Bool, true, false, not, ◌||◌, Option, none, some, List, [], ◌∷◌, ltb, ◌==◌,
  if◌then◌else◌, length, take, drop, Bytes, codes,
}
use b6b.CLib.{CLib}
use b6b.Store.{Ptr, Res, err}
use b6b.Store.Monad.{M, ◌>>=◌, ◌>>◌, pure, load, str_copy}
use b6b.Object.{is_empty}
use b6b.Object.Args.{c_str, get_args, with_one}
use b6b.Str.Procs.{ptrs_one}

-- strchr(s, '\n') - s
unfoldable pub find_newline : Bytes → Option ℕ
find_newline [] = none
find_newline (b ∷ bs) =
    let rest = find_newline bs in
    if b == b'\n'
    then some 0
    else if b == 0
    then none
    else elim rest [ none ↦ none | some k ↦ some (k + 1) ]

-- b6b_str_copy(pos, size - off), where `off` is past the newline that `pos` is at.
abbrev pub behind_line : Bytes → Option ℕ → Option Bytes
behind_line s none = none
behind_line s (some k) =
    let off = if k == 0 then k else k + 1 in some (take (length s - off) (drop k s))

-- The script in the contents of a file.
unfoldable pub source_text : Bytes → Option Bytes
unfolding find_newline
source_text [] = none
source_text (a ∷ []) = some (a ∷ [])
source_text (a ∷ b ∷ s) =
    if not (a == b'#') || not (b == b'!')
    then some (a ∷ b ∷ s)
    else behind_line (a ∷ b ∷ s) (find_newline (a ∷ b ∷ s))

abbrev pub call_text : (Ptr → M Res) → Option Bytes → M Res
call_text call none = pure err
call_text call (some s) = do stmts ← str_copy s; call stmts

abbrev pub call_file : (Ptr → M Res) → Option Bytes → M Res
call_file call none = pure err
call_file call (some s) = call_text call (source_text s)

module _ ⦃c : CLib⦄ where
  -- b6b_source; `call` is b6b_call.
  unfoldable pub source : (Ptr → M Res) → Bytes → M Res
  unfolding str_copy source_text
  source call path = call_file call (c.read_file (c_str path))

  unfoldable pub core_proc_source : (Ptr → M Res) → ℕ → Ptr → M Res
  unfolding get_args load source
  core_proc_source call n args = do
    a ← get_args n args (codes "os") ptrs_one
    with_one a (λ path. do o ← load path; if is_empty o.s then pure err else source call o.s)

-- b6b_call_copy
unfoldable pub call_copy : (Ptr → M Res) → Bytes → M Res
unfolding str_copy
call_copy call s = do o ← str_copy s; call o
