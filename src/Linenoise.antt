-- ===== src/Linenoise.antt =====
-- src/b6b_linenoise.c. The library linenoise is a parameter, with its history as the state `H`.
use b6b.Base.{
  ℕ, Bool, false, true, Option, none, some, List, [], ◌∷◌, ◌==◌, if◌then◌else◌, Bytes, codes,
}
use b6b.CLib.{CLib}
use b6b.Store.{Ptr, Res, ok, err}
use b6b.Store.Monad.{M, ◌>>=◌, pure, crash, load, str_copy, return_obj}
use b6b.Object.Args.{Args, c_str, get_args}

pub record Editor (H : Type 0) : Type 0 where
  -- linenoise: the line, or `none` for NULL.
  pub linenoise : H → Bytes → Option Bytes × H
  -- linenoiseHistoryAdd, and whether what it returns is not 0
  pub add : H → Bytes → Bool × H
  -- linenoiseHistorySave and linenoiseHistoryLoad, and whether they return 0
  pub save : H → Bytes → Bool × H
  pub load_file : H → Bytes → Bool × H
  pub set_max_len : H → ℕ → H

-- B6B_LINENOISE_HISTORY_SIZE
abbrev pub history_size : ℕ
history_size = 64

module _ {H : Type 0} (l : Editor H) where
  abbrev pub return_line : Option Bytes × H → M (Res × H)
  return_line (none, h) = pure (err, h)
  return_line (some s, h) = do o ← str_copy s; res ← return_obj o; pure (res, h)

  abbrev pub ok_if : Bool × H → M (Res × H)
  ok_if (b, h) = pure (if b then ok else err, h)

  module _ ⦃c : CLib⦄ where
    -- `if (!b6b_proc_get_args(interp, args, "os", NULL, &s)) return B6B_ERR;`, and a step on the text.
    abbrev pub with_text : ℕ → H → Ptr → (Bytes → M (Res × H)) → M (Res × H)
    with_text n h args step = get_args n args (codes "os") (false ∷ true ∷ []) >>= on_args
      where
        on_text : List Ptr → M (Res × H)
        on_text (p ∷ []) = do o ← load p; step (c_str o.s)
        on_text _ = crash

        on_args : Args → M (Res × H)
        on_args a = if a.argc == 0 then pure (err, h) else on_text a.out

    -- b6b_linenoise_proc_read
    unfoldable pub linenoise_proc_read : ℕ → H → Ptr → M (Res × H)
    unfolding get_args load str_copy return_obj
    linenoise_proc_read n h args = with_text n h args (λ p. return_line (l.linenoise h p))

    -- b6b_linenoise_proc_add
    unfoldable pub linenoise_proc_add : ℕ → H → Ptr → M (Res × H)
    unfolding get_args load
    linenoise_proc_add n h args = with_text n h args (λ s. ok_if (l.add h s))

    -- b6b_linenoise_proc_save
    unfoldable pub linenoise_proc_save : ℕ → H → Ptr → M (Res × H)
    unfolding get_args load
    linenoise_proc_save n h args = with_text n h args (λ s. ok_if (l.save h s))

    -- b6b_linenoise_proc_load
    unfoldable pub linenoise_proc_load : ℕ → H → Ptr → M (Res × H)
    unfolding get_args load
    linenoise_proc_load n h args = with_text n h args (λ s. ok_if (l.load_file h s))

  -- b6b_linenoise_init
  abbrev pub linenoise_init : H → H
  linenoise_init h = l.set_max_len h history_size
