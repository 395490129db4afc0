-- ===== src/Control/Source/Keeps.antt =====
-- A script in a file (b6b_source in src/b6b_interp.c) leaves the call stack as its statements do.
use b6b.Base.{ℕ, Option, none, some, Bytes, codes}
use b6b.CLib.{CLib}
use b6b.Store.{Ptr, Res}
use b6b.Store.Monad.{M}
use b6b.Store.Keeps.{Keeps, keeping, pure-Keeps}
use b6b.Object.Args.{c_str}
use b6b.Object.Args.Keeps.{one-Keeps}
use b6b.Str.Procs.{ptrs_one}
use b6b.Control.Source.{call_text, call_file, source_text, source, core_proc_source}

module _ (call : Ptr → M Res) (h : (p : Ptr) → Keeps (call p)) where
  call_text-Keeps : (s : Option Bytes) → Keeps (call_text call s)
  call_text-Keeps none = pure-Keeps _
  call_text-Keeps (some s) = search (keeping, h) depth 6

  call_file-Keeps : (s : Option Bytes) → Keeps (call_file call s)
  call_file-Keeps none = pure-Keeps _
  call_file-Keeps (some s) = call_text-Keeps (source_text s)

  source-Keeps : ⦃c : CLib⦄ (path : Bytes) → Keeps (source call path)
  unfolding source
  source-Keeps ⦃c⦄ path = call_file-Keeps (c.read_file (c_str path))

pub core_proc_source-Keeps :
    ⦃c : CLib⦄ (call : Ptr → M Res) (n args : ℕ)
    → ((p : Ptr) → Keeps (call p))
    → Keeps (core_proc_source call n args)
unfolding core_proc_source
core_proc_source-Keeps call n args h =
    one-Keeps n args (codes "os") ptrs_one _ λ path. search (keeping, source-Keeps call h) depth 6
