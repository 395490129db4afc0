-- ===== src/Control/Math/Keeps.antt =====
-- The procedures of src/b6b_math.c leave the call stack alone.
use b6b.Base.{ℕ, Bool, Option, none, some}
use b6b.CLib.{CLib}
use b6b.Store.Keeps.{Keeps, returning, pure-Keeps}
use b6b.Object.Args.Keeps.{two-Keeps}
use b6b.Store.Keeps.{return_float-Keeps}
use b6b.Control.Math.{
  float_proc, bits_proc, compare_proc, return_remainder, math_proc_div, math_proc_mod,
}

module _ ⦃c : CLib⦄ where
  pub float_proc-Keeps : (op : ℕ → ℕ → ℕ) (n args : ℕ) → Keeps (float_proc op n args)
  unfolding float_proc
  float_proc-Keeps op n args = search (two-Keeps, returning) depth 9

  pub bits_proc-Keeps : (op : ℕ → ℕ → ℕ) (n args : ℕ) → Keeps (bits_proc op n args)
  unfolding bits_proc
  bits_proc-Keeps op n args = search (two-Keeps, returning) depth 9

  pub compare_proc-Keeps : (test : ℕ → ℕ → Bool) (n args : ℕ) → Keeps (compare_proc test n args)
  unfolding compare_proc
  compare_proc-Keeps test n args = search (two-Keeps, returning) depth 9

  return_remainder-Keeps : (y : ℕ) (r : Option ℕ) → Keeps (return_remainder y r)
  return_remainder-Keeps y none = pure-Keeps _
  return_remainder-Keeps y (some r) = return_float-Keeps _

  pub math_proc_div-Keeps : (n args : ℕ) → Keeps (math_proc_div n args)
  unfolding math_proc_div
  math_proc_div-Keeps n args = search (two-Keeps, returning) depth 9

  pub math_proc_mod-Keeps : (n args : ℕ) → Keeps (math_proc_mod n args)
  unfolding math_proc_mod
  math_proc_mod-Keeps n args = search (two-Keeps, returning, return_remainder-Keeps) depth 9
