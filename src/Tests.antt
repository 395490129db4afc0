-- ===== src/Tests.antt =====
-- The model run on small scripts.
use b6b.Base.{
  ℕ, ◌+◌, ◌-◌, ◌*◌, ◌/◌, ◌%◌, false, not, ◌&&◌, Option, none, some, List, [], ◌∷◌, ltb, leb, ◌==◌,
  if◌then◌else◌, Bytes, codes, ◌≡◌, refl,
}
use b6b.Base.Int.{pos, pos_part}
use b6b.CLib.{CLib}
use b6b.Store.{Res, ok, ret, State, Builtin}
use b6b.Store.Monad.{M, Outcome, done, ◌>>=◌, ◌>>◌, pure, get, load, store, str_copy, list_new}
use b6b.Object.{as_str, as_float, format_int, strip_zeros}
use b6b.Text.Print.{quote, add_item, or_braces}
use b6b.Interp.Tables.{Entry, extensions}
use b6b.Interp.Boot.{empty, interp_new}
use b6b.Interp.Dispatch.{call}
use b6b.Interp.Frame.{frame_push, set_local, set_global}
use b6b.Interp.Nested.{b6b_proc, interp_proc_b6b}
use b6b.Interp.Complete.{complete}

-- Doubles stand for small whole numbers here, and the locale's characters are bytes.
abbrev pub digits_value : ℕ → ℕ → Bytes → ℕ × ℕ
digits_value v k [] = (v, k)
digits_value v k (b ∷ bs) =
    let rest = digits_value (v * 10 + (b - b'0')) (k + 1) bs in
    if leb b'0' b && leb b b'9' then rest else (v, k)

instance abbrev pub toy : CLib
toy = record {
  strtod = digits_value 0 0;
  format_double = λ f. format_int (pos f);
  of_int = pos_part;
  floor_int = λ f. some (pos f);
  nonzero = λ f. not (f == 0);
  add = ◌+◌;
  sub = ◌-◌;
  mul = ◌*◌;
  div = ◌/◌;
  remainder = λ m n. some (m % n);
  lt = ltb;
  le = leb;
  zero_double = 0;
  read_file = λ path. none;
  char_len = λ s. some 1;
}

-- A new interpreter runs a script: the result and the text of `_`.
abbrev run_script : Bytes → M (Res × Option Bytes)
run_script script = do
  args ← list_new
  ready ← interp_new 60 extensions args false
  stmts ← str_copy script
  res ← call 60 stmts
  st ← get
  known ← as_str 60 st.under
  o ← load st.under
  pure (res, if known then some o.s else none)

abbrev result : {A : Type 0} → Outcome A → Option A
result (done a st) = some a
result _ = none

echo_test : result (run_script (codes "{$echo hello}") empty) ≡ some (ok, some (codes "hello"))
unfolding interp_new call as_str str_copy list_new load extensions
echo_test = refl

sum_test :
    result (run_script (codes "{$local x [$+ 1 2]} {$echo $x}") empty) ≡ some (ok, some (codes "3"))
unfolding interp_new call as_str str_copy list_new load extensions as_float format_int strip_zeros
sum_test = refl

map_test :
    result (run_script (codes "{$map x {1 2 3} {{$* $x 2}}}") empty)
    ≡ some (ok, some (codes "2 4 6"))
unfolding interp_new call as_str str_copy list_new load extensions as_float format_int or_braces
    add_item quote strip_zeros
map_test = refl

proc_test :
    result (
      run_script (codes "{$proc f {{$if [$== $1 5] {{$return five}}} {$echo other}}} {$f 5}") empty)
    ≡ some (ok, some (codes "five"))
unfolding interp_new call as_str str_copy list_new load extensions format_int
proc_test = refl

try_test :
    result (run_script (codes "{$try {{$throw oops}} {{$echo caught}}}") empty)
    ≡ some (ok, some (codes "caught"))
unfolding interp_new call as_str str_copy list_new load extensions
try_test = refl

dict_test :
    result (
      run_script (codes "{$local d [$list.new]} {$dict.set $d k v} {$echo [$dict.get $d k]}") empty)
    ≡ some (ok, some (codes "v"))
unfolding interp_new call as_str str_copy list_new load extensions
dict_test = refl

-- Two variables, one of them of the frame that runs; the line has one word before the variable.
abbrev completed : M (List Bytes)
completed = do
  args ← list_new
  _ ← interp_new 60 [] args false
  xs ← str_copy (codes "xs")
  _ ← set_global 60 xs args
  _ ← frame_push
  xy ← str_copy (codes "xy")
  _ ← set_local 60 xy args
  st ← get
  complete 60 (λ p. st) (some st) (codes "echo $x")

complete_test : result (completed empty) ≡ some (codes "echo $xy" ∷ codes "echo $xs" ∷ [])
unfolding interp_new as_str str_copy list_new load complete set_global set_local frame_push
    or_braces add_item quote b6b.Text.spaced
complete_test = refl

abbrev only_return : List Entry
only_return = record { name = codes "return"; val = []; proc = Builtin.core_return } ∷ []

abbrev or_empty : Option State → State
or_empty none = empty
or_empty (some st) = st

-- `$b6b {}`, and then `{$b6b:1001 call {{$return five}}}`: the result, and the text of the outer `_`.
abbrev nested : M (Res × Option Bytes)
nested = do
  name ← str_copy (codes "b6b")
  args ← list_new
  whole ← list_new
  o ← load whole
  store whole (record o { l = name ∷ args ∷ [] })
  (made, inner) ← interp_proc_b6b 60 only_return 4096 whole
  self ← get
  verb ← str_copy (codes "call")
  script ← str_copy (codes "{$return five}")
  wanted ← list_new
  p ← load wanted
  store wanted (record p { l = self.under ∷ verb ∷ script ∷ [] })
  (res, after) ← b6b_proc (call 60) 60 (or_empty inner) wanted
  st ← get
  x ← load st.under
  pure (res, some x.s)

nested_test : result (nested empty) ≡ some (ret, some (codes "five"))
unfolding b6b_proc call interp_proc_b6b str_copy list_new load store
nested_test = refl
