-- ===== src/Control/Math.antt =====
-- src/b6b_math.c. Doubles are the C library's; `long long` is two's complement, by its 64 bits.
pub mod Keeps
use Prim.Native.Nat.{bit_and, bit_or, bit_xor}
use b6b.Base.{ℕ, ◌-◌, ◌^◌, Bool, not, ◌&&◌, Option, none, some, ltb, if◌then◌else◌, codes}
use b6b.Base.Int.{ℤ, pos, negsuc}
use b6b.CLib.{CLib}
use b6b.Store.{Ptr, Res, err}
use b6b.Store.Monad.{M, ◌>>=◌, pure, load, return_int, return_float, return_bool, fail_with}
use b6b.Object.Args.{get_args, with_two}
use b6b.Str.Procs.{ptrs_two}

-- The 64 bits of a `long long`, and back.
abbrev pub to_bits : ℤ → ℕ
to_bits (pos n) = n
to_bits (negsuc n) = 2 ^ 64 - 1 - n

abbrev pub of_bits : ℕ → ℤ
of_bits b = if ltb b (2 ^ 63) then pos b else negsuc (2 ^ 64 - 1 - b)

module _ ⦃c : CLib⦄ where
  -- A procedure over two doubles that returns one.
  unfoldable pub float_proc : (ℕ → ℕ → ℕ) → ℕ → Ptr → M Res
  unfolding get_args load return_float
  float_proc op n args = do
    a ← get_args n args (codes "off") ptrs_two
    with_two a (λ p q. do x ← load p; y ← load q; return_float (op x.f y.f))

  unfoldable pub math_proc_add : ℕ → Ptr → M Res
  unfolding float_proc
  math_proc_add = float_proc c.add

  unfoldable pub math_proc_sub : ℕ → Ptr → M Res
  unfolding float_proc
  math_proc_sub = float_proc c.sub

  unfoldable pub math_proc_mul : ℕ → Ptr → M Res
  unfolding float_proc
  math_proc_mul = float_proc c.mul

  unfoldable pub math_proc_div : ℕ → Ptr → M Res
  unfolding get_args load return_float fail_with
  math_proc_div n args = do
    a ← get_args n args (codes "off") ptrs_two
    with_two a (λ p q. do
      x ← load p
      y ← load q
      if not (c.nonzero y.f) then fail_with (codes "/ by 0") else return_float (c.div x.f y.f))

  -- The remainder gets the divisor's sign, where the divisor is positive.
  abbrev pub return_remainder : ℕ → Option ℕ → M Res
  return_remainder y none = pure err
  return_remainder y (some r) =
      return_float (if c.lt r c.zero_double && c.lt c.zero_double y then c.add r y else r)

  unfoldable pub math_proc_mod : ℕ → Ptr → M Res
  unfolding get_args load return_float fail_with
  math_proc_mod n args = do
    a ← get_args n args (codes "off") ptrs_two
    with_two a (λ p q. do
      x ← load p
      y ← load q
      if not (c.nonzero y.f)
          then fail_with (codes "% by 0")
          else return_remainder y.f (c.remainder x.f y.f))

  -- A procedure over the bits of two integers.
  unfoldable pub bits_proc : (ℕ → ℕ → ℕ) → ℕ → Ptr → M Res
  unfolding get_args load return_int
  bits_proc op n args = do
    a ← get_args n args (codes "oii") ptrs_two
    with_two a
        (λ p q. do x ← load p; y ← load q; return_int (of_bits (op (to_bits x.i) (to_bits y.i))))

  unfoldable pub math_proc_and : ℕ → Ptr → M Res
  unfolding bits_proc
  math_proc_and = bits_proc bit_and

  unfoldable pub math_proc_or : ℕ → Ptr → M Res
  unfolding bits_proc
  math_proc_or = bits_proc bit_or

  unfoldable pub math_proc_xor : ℕ → Ptr → M Res
  unfolding bits_proc
  math_proc_xor = bits_proc bit_xor

  -- A comparison of two doubles.
  unfoldable pub compare_proc : (ℕ → ℕ → Bool) → ℕ → Ptr → M Res
  unfolding get_args load return_bool
  compare_proc test n args = do
    a ← get_args n args (codes "off") ptrs_two
    with_two a (λ p q. do x ← load p; y ← load q; return_bool (test x.f y.f))

  unfoldable pub math_proc_lt : ℕ → Ptr → M Res
  unfolding compare_proc
  math_proc_lt = compare_proc c.lt

  unfoldable pub math_proc_le : ℕ → Ptr → M Res
  unfolding compare_proc
  math_proc_le = compare_proc c.le

  unfoldable pub math_proc_gt : ℕ → Ptr → M Res
  unfolding compare_proc
  math_proc_gt = compare_proc (λ x y. c.lt y x)

  unfoldable pub math_proc_ge : ℕ → Ptr → M Res
  unfolding compare_proc
  math_proc_ge = compare_proc (λ x y. c.le y x)
