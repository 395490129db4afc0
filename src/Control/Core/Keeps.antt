-- ===== src/Control/Core/Keeps.antt =====
-- The procedures of src/b6b_core.c and src/b6b_proc.c leave the call stack alone, if the scripts that
-- they call do.
use b6b.Base.{
  ℕ, zero, suc, ◌+◌, Bool, true, false, Option, none, some, List, [], ◌∷◌, if◌then◌else◌, Bytes,
}
use b6b.Base.Int.{pos}
use b6b.CLib.{CLib}
use b6b.Store.{Ptr, Res, err, Frame}
use b6b.Store.Monad.{M, ◌>>=◌, pure, get, int_new}
use b6b.Store.Keeps.{
  Keeps, keeping, pure-Keeps, crash-Keeps, bind-Keeps, if-Keeps, get-Keeps, int_new-Keeps,
  return_str-Keeps, return_obj-Keeps,
}
use b6b.Object.Keeps.{as_str-Keeps, as_list-Keeps}
use b6b.Object.Args.Keeps.{get_args-Keeps, take_one-Keeps, one-Keeps, two-Keeps}
use b6b.Dict.Ops.{dict_set}
use b6b.Dict.Ops.Keeps.{dict_set-Keeps}
use b6b.Interp.Frame.{set_global, set_numbered, frame_set_args, get_obj}
use b6b.Interp.Keeps.{current-Keeps, set_local-Keeps, get_obj-Keeps}
use b6b.Control.Core.{
  end_with, caller, exporter, return_if, return_repr, export_to, export_value, export_args,
  make_proc, proc_args, core_proc_echo, core_proc_return, core_proc_throw, core_proc_exit,
  core_proc_local, core_proc_global, core_proc_export, core_proc_eval, core_proc_repr,
  core_proc_call, proc_proc, proc_proc_proc,
}

end_with-Keeps : (res : Res) (n : ℕ) (out : List Ptr) → Keeps (end_with res n out)
end_with-Keeps res zero out = pure-Keeps _
end_with-Keeps res (suc zero) out = pure-Keeps _
end_with-Keeps res (suc (suc n)) out = search (keeping, take_one-Keeps)

caller-Keeps : (fs : List Frame) → Keeps (caller fs)
caller-Keeps [] = crash-Keeps
caller-Keeps (f ∷ []) = pure-Keeps _
caller-Keeps (f ∷ g ∷ fs) = pure-Keeps _

exporter-Keeps : (fs : List Frame) → Keeps (exporter fs)
exporter-Keeps [] = crash-Keeps
exporter-Keeps (f ∷ []) = crash-Keeps
exporter-Keeps (f ∷ g ∷ []) = pure-Keeps _
exporter-Keeps (f ∷ g ∷ h ∷ fs) = pure-Keeps _

return_if-Keeps : (v : Ptr) (b : Bool) → Keeps (return_if v b)
return_if-Keeps v true = return_obj-Keeps v
return_if-Keeps v false = pure-Keeps err

return_repr-Keeps : (p : Ptr) (s : Option Bytes) → Keeps (return_repr p s)
return_repr-Keeps p none = return_obj-Keeps p
return_repr-Keeps p (some s) = return_str-Keeps s

module _ ⦃c : CLib⦄ where
  set_global-Keeps : (n k v : ℕ) → Keeps (set_global n k v)
  unfolding set_global
  set_global-Keeps n k v =
      bind-Keeps get (λ st. dict_set n st.global.locals k v) get-Keeps
        (λ st. dict_set-Keeps n _ k v)

  pub core_proc_echo-Keeps : (n args : ℕ) → Keeps (core_proc_echo n args)
  unfolding core_proc_echo
  core_proc_echo-Keeps n args = search (one-Keeps, keeping) depth 9

  pub core_proc_return-Keeps : (n args : ℕ) → Keeps (core_proc_return n args)
  unfolding core_proc_return
  core_proc_return-Keeps n args = search (keeping, get_args-Keeps, end_with-Keeps) depth 9

  pub core_proc_throw-Keeps : (n args : ℕ) → Keeps (core_proc_throw n args)
  unfolding core_proc_throw
  core_proc_throw-Keeps n args = search (keeping, get_args-Keeps, take_one-Keeps) depth 9

  pub core_proc_exit-Keeps : (n args : ℕ) → Keeps (core_proc_exit n args)
  unfolding core_proc_exit
  core_proc_exit-Keeps n args = search (keeping, get_args-Keeps, end_with-Keeps) depth 9

  pub core_proc_local-Keeps : (n args : ℕ) → Keeps (core_proc_local n args)
  unfolding core_proc_local
  core_proc_local-Keeps n args =
      search (two-Keeps, keeping, caller-Keeps, dict_set-Keeps, return_if-Keeps) depth 9

  pub core_proc_global-Keeps : (n args : ℕ) → Keeps (core_proc_global n args)
  unfolding core_proc_global
  core_proc_global-Keeps n args =
      search (two-Keeps, keeping, set_global-Keeps, return_if-Keeps) depth 9

  export_to-Keeps : (n k v : ℕ) (f : Option Frame) → Keeps (export_to n k v f)
  export_to-Keeps n k v none = pure-Keeps err
  export_to-Keeps n k v (some f) = search (keeping, dict_set-Keeps, return_if-Keeps)

  export_value-Keeps : (n k : ℕ) (v : Option Ptr) → Keeps (export_value n k v)
  export_value-Keeps n k none = pure-Keeps err
  export_value-Keeps n k (some v) = search (keeping, exporter-Keeps, export_to-Keeps)

  export_args-Keeps : (n : ℕ) (out : List Ptr) → Keeps (export_args n out)
  export_args-Keeps n [] = crash-Keeps
  export_args-Keeps n (k ∷ []) =
      bind-Keeps (get_obj n k) _ (get_obj-Keeps n k) (λ v. export_value-Keeps n k v)
  export_args-Keeps n (k ∷ v ∷ []) = export_value-Keeps n k (some v)
  export_args-Keeps n (k ∷ v ∷ w ∷ ws) = crash-Keeps

  pub core_proc_export-Keeps : (n args : ℕ) → Keeps (core_proc_export n args)
  unfolding core_proc_export
  core_proc_export-Keeps n args = search (keeping, get_args-Keeps, export_args-Keeps) depth 9

  pub core_proc_eval-Keeps :
      (eval : Ptr → M Res) (n args : ℕ)
      → ((p : Ptr) → Keeps (eval p))
      → Keeps (core_proc_eval eval n args)
  unfolding core_proc_eval
  core_proc_eval-Keeps eval n args h = search (one-Keeps, keeping, as_str-Keeps, h) depth 9

  pub core_proc_repr-Keeps : (n args : ℕ) → Keeps (core_proc_repr n args)
  unfolding core_proc_repr
  core_proc_repr-Keeps n args = search (one-Keeps, keeping, return_repr-Keeps) depth 9

  pub core_proc_call-Keeps :
      (call : Ptr → M Res) (n args : ℕ)
      → ((p : Ptr) → Keeps (call p))
      → Keeps (core_proc_call call n args)
  unfolding core_proc_call
  core_proc_call-Keeps call n args h = search (one-Keeps, keeping, h) depth 9

  set_numbered-Keeps : (n locals : ℕ) (ps : List Ptr) (i : ℕ) → Keeps (set_numbered n locals ps i)
  unfolding set_numbered
  set_numbered-Keeps n locals [] i = pure-Keeps true
  set_numbered-Keeps n locals (p ∷ ps) i =
      bind-Keeps (int_new (pos i))
        (λ io. dict_set n locals io p >>= λ stored.
          if stored then set_numbered n locals ps (i + 1) else pure false)
        (int_new-Keeps (pos i))
        (λ io. bind-Keeps (dict_set n locals io p) _ (dict_set-Keeps n locals io p) (λ stored.
          if-Keeps stored _ _ (set_numbered-Keeps n locals ps (i + 1)) (pure-Keeps false)))

  frame_set_args-Keeps : (n : ℕ) (f : Frame) (args : Ptr) → Keeps (frame_set_args n f args)
  unfolding frame_set_args
  frame_set_args-Keeps n f args =
      search (keeping, as_list-Keeps, dict_set-Keeps, set_numbered-Keeps) depth 12

  pub proc_proc-Keeps :
      (call : Ptr → M Res) (n body priv args : ℕ)
      → ((p : Ptr) → Keeps (call p))
      → Keeps (proc_proc call n body priv args)
  unfolding proc_proc
  proc_proc-Keeps call n body priv args h =
      search (keeping, current-Keeps, frame_set_args-Keeps, set_local-Keeps, h) depth 12

  make_proc-Keeps : (n name b : ℕ) (p : Option Ptr) → Keeps (make_proc n name b p)
  make_proc-Keeps n name b p = search (keeping, set_global-Keeps) depth 12

  proc_args-Keeps : (n : ℕ) (out : List Ptr) → Keeps (proc_args n out)
  proc_args-Keeps n [] = crash-Keeps
  proc_args-Keeps n (name ∷ []) = crash-Keeps
  proc_args-Keeps n (name ∷ b ∷ []) = make_proc-Keeps n name b none
  proc_args-Keeps n (name ∷ b ∷ p ∷ []) = make_proc-Keeps n name b (some p)
  proc_args-Keeps n (name ∷ b ∷ p ∷ q ∷ qs) = crash-Keeps

  pub proc_proc_proc-Keeps : (n args : ℕ) → Keeps (proc_proc_proc n args)
  unfolding proc_proc_proc
  proc_proc_proc-Keeps n args = search (keeping, get_args-Keeps, proc_args-Keeps) depth 9
