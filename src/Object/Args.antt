-- ===== src/Object/Args.antt =====
-- src/b6b_list.c, b6b_list_vparse, and src/b6b_proc.c, b6b_proc_get_args: a call's arguments are
-- checked against a format, and converted on the way.
pub mod Keeps
use b6b.Base.{
  ℕ, ◌+◌, Bool, true, false, List, [], ◌∷◌, ◌++◌, ◌==◌, if◌then◌else◌, drop, Bytes, codes,
}
use b6b.CLib.{CLib}
use b6b.Store.{Ptr, Res, err}
use b6b.Store.Monad.{M, ◌>>=◌, ◌>>◌, pure, crash, load, return_str}
use b6b.Object.{as_str, as_int, as_float, as_list}

-- What the caller gets: the count, 0 for a refusal, and what the pointers given were set to. `*`
-- sets a pointer to the list's item, which stands for the items from there on.
pub record Args : Type 0 where
  pub argc : ℕ
  pub out : List Ptr

abbrev pub no_args : List Ptr → Args
no_args out = record { argc = 0; out = out }

-- What "%s" prints of a text.
abbrev pub c_str : Bytes → Bytes
c_str [] = []
c_str (b ∷ bs) = let rest = c_str bs in if b == 0 then [] else b ∷ rest

module _ ⦃c : CLib⦄ where
  -- The inner switch, but for `*`.
  unfoldable pub convert : ℕ → ℕ → Ptr → M Bool
  convert n ch p =
      if ch == b'o'
      then pure true
      else if ch == b's'
      then as_str n p
      else if ch == b'l'
      then as_list n p
      else if ch == b'i'
      then as_int n p
      else if ch == b'f'
      then as_float n p
      else pure false

  -- The loop's body behind the format's end and `|`; `again` is the next round.
  abbrev pub vparse_item :
      (List Ptr → List Bool → ℕ → List Ptr → M Args)
      → ℕ
      → ℕ
      → Bool
      → List Ptr
      → List Bool
      → ℕ
      → List Ptr
      → M Args
  vparse_item again n ch opt [] ptrs argc out =
      pure (record { argc = if opt then argc else 0; out = out })
  vparse_item again n ch opt (li ∷ lis) [] argc out = crash
  vparse_item again n ch opt (li ∷ lis) (false ∷ ptrs) argc out = again lis ptrs (argc + 1) out
  vparse_item again n ch opt (li ∷ lis) (true ∷ ptrs) argc out =
      if ch == b'*' then pure (record { argc = argc + 1; out = out ++ li ∷ lis }) else (do
        known ← convert n ch li
        if known then again lis ptrs (argc + 1) (out ++ li ∷ []) else pure (no_args out))

  -- b6b_list_vparse: the format left, whether `|` was seen, the items left, which of the pointers
  -- left are not NULL, the count, and the pointers set.
  unfoldable pub vparse : ℕ → Bytes → Bool → List Ptr → List Bool → ℕ → List Ptr → M Args
  unfolding convert
  vparse n [] opt [] ptrs argc out = pure (record { argc = argc; out = out })
  vparse n [] opt (li ∷ lis) ptrs argc out = pure (no_args out)
  vparse n (ch ∷ fmt) opt lis ptrs argc out =
      let skip = vparse n fmt true lis ptrs argc out in
      let next = vparse_item (vparse n fmt opt) n ch opt lis ptrs argc out in
      if ch == b'|' then skip else next

  -- The format behind its first letter, spaced out, as the error message shows it.
  abbrev spell : Bytes → Bytes
  spell [] = []
  spell (ch ∷ []) = ch ∷ []
  spell (ch ∷ next ∷ rest) = ch ∷ b' ' ∷ spell (next ∷ rest)

  pub bad_call : Bytes → Bytes → Bytes → Bytes
  bad_call call name fmt =
      codes "bad call: '"
      ++ (c_str call
          ++ (codes "', expect '" ++ (c_str name ++ (b' ' ∷ (spell (drop 1 fmt) ++ b'\'' ∷ [])))))

  -- `!argc`: the call and the format go into the error message.
  unfoldable pub explain : ℕ → Ptr → Bytes → List Ptr → M (Unit {0})
  unfolding load as_str return_str
  explain n l fmt [] = crash
  explain n l fmt (li ∷ lis) = do
    known_name ← as_str n li
    known_call ← if known_name then as_str n l else pure false
    name ← load li
    call ← load l
    if known_call then (do _ ← return_str (bad_call call.s name.s fmt); pure tt) else pure tt

  -- b6b_proc_get_args
  unfoldable pub get_args : ℕ → Ptr → Bytes → List Bool → M Args
  unfolding load vparse explain bad_call
  get_args n l fmt ptrs = do
    o ← load l
    a ← vparse n fmt false o.l ptrs 0 []
    if a.argc == 0 then (do o' ← load l; explain n l fmt o'.l; pure a) else pure a

-- The objects that one, two or three pointers were set to.
abbrev pub take_one : List Ptr → (Ptr → M Res) → M Res
take_one (x ∷ []) k = k x
take_one _ k = crash

abbrev pub take_two : List Ptr → (Ptr → Ptr → M Res) → M Res
take_two (x ∷ y ∷ []) k = k x y
take_two _ k = crash

abbrev pub take_three : List Ptr → (Ptr → Ptr → Ptr → M Res) → M Res
take_three (x ∷ y ∷ z ∷ []) k = k x y z
take_three _ k = crash

-- `if (!b6b_proc_get_args(...)) return B6B_ERR;`, and what follows with the objects.
abbrev pub with_one : Args → (Ptr → M Res) → M Res
with_one a k = if a.argc == 0 then pure err else take_one a.out k

abbrev pub with_two : Args → (Ptr → Ptr → M Res) → M Res
with_two a k = if a.argc == 0 then pure err else take_two a.out k

abbrev pub with_three : Args → (Ptr → Ptr → Ptr → M Res) → M Res
with_three a k = if a.argc == 0 then pure err else take_three a.out k
