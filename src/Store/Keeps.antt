-- ===== src/Store/Keeps.antt =====
-- The code that leaves the call stack as it found it: rules for the monad.
use b6b.Base.{ℕ, ◌≡◌, ◌∙◌, Bool, true, false, arith, if◌then◌else◌, Bytes}
use b6b.Base.Int.{ℤ}
use b6b.Store.{Ptr, Obj, State}
use b6b.Store.Monad.{
  return_int, return_float, float_new, M, done, ◌>>=◌, pure, crash, stuck, get, load, store, alloc,
  str_copy, int_new, list_new, return_obj, return_str, return_bool, fail_with, bind-done,
}

abbrev pub SameStack : State → State → Type 0
SameStack st st' = (st'.frames ≡ st.frames) × (st'.depth ≡ st.depth)

-- Where the code ends with a result, the frames and their number are those of before.
pub record Keeps {A : Type 0} (m : M A) : Type 0 where
  pub keeps : (st : State) (a : A) (st' : State) → m st ≡ done a st' → SameStack st st'

pub pure-Keeps : {A : Type 0} (a : A) → Keeps (pure a)
pure-Keeps a = record { keeps = λ st b st' h. ground arith }

pub crash-Keeps : {A : Type 0} → Keeps (crash {A = A})
crash-Keeps = record { keeps = λ st b st' h. ground arith }

pub stuck-Keeps : {A : Type 0} → Keeps (stuck {A = A})
stuck-Keeps = record { keeps = λ st b st' h. ground arith }

pub bind-Keeps :
    {A B : Type 0} (m : M A) (k : A → M B) → Keeps m → ((a : A) → Keeps (k a)) → Keeps (m >>= k)
bind-Keeps {A} {B} m k km kk = record { keeps = both }
  where
    both : (st : State) (b : B) (st' : State) → (m >>= k) st ≡ done b st' → SameStack st st'
    both st b st' h =
        let (a, mid, e, h') = bind-done m k st b st' h in
        let (f, d) = km.keeps st a mid e in
        let (f', d') = (kk a).keeps mid b st' h' in (f' ∙ f, d' ∙ d)

pub if-Keeps : {A : Type 0} (b : Bool) (m n : M A) → Keeps m → Keeps n → Keeps (if b then m else n)
if-Keeps true m n km kn = km
if-Keeps false m n km kn = kn

pub get-Keeps : Keeps get
get-Keeps = record { keeps = λ st b st' h. ground arith }

pub load-Keeps : (p : Ptr) → Keeps (load p)
unfolding load
load-Keeps p = record { keeps = λ st b st' h. ground arith }

pub store-Keeps : (p : Ptr) (o : Obj) → Keeps (store p o)
unfolding store
store-Keeps p o = record { keeps = λ st b st' h. ground arith }

pub alloc-Keeps : (o : Obj) → Keeps (alloc o)
unfolding alloc
alloc-Keeps o = record { keeps = λ st b st' h. ground arith }

pub return_obj-Keeps : (p : Ptr) → Keeps (return_obj p)
unfolding return_obj
return_obj-Keeps p = record { keeps = λ st b st' h. ground arith }

pub return_bool-Keeps : (b : Bool) → Keeps (return_bool b)
unfolding return_bool
return_bool-Keeps b = record { keeps = λ st b st' h. ground arith }

pub str_copy-Keeps : (s : Bytes) → Keeps (str_copy s)
unfolding str_copy
str_copy-Keeps s = alloc-Keeps _

pub int_new-Keeps : (i : ℤ) → Keeps (int_new i)
unfolding int_new
int_new-Keeps i = alloc-Keeps _

pub list_new-Keeps : Keeps list_new
unfolding list_new
list_new-Keeps = alloc-Keeps _

pub ruleset keeping = (
  pure-Keeps, crash-Keeps, stuck-Keeps, bind-Keeps, if-Keeps, get-Keeps, load-Keeps, store-Keeps,
  alloc-Keeps, return_obj-Keeps, return_bool-Keeps, str_copy-Keeps, int_new-Keeps, list_new-Keeps,
)

pub return_str-Keeps : (s : Bytes) → Keeps (return_str s)
unfolding return_str
return_str-Keeps s = search keeping

pub fail_with-Keeps : (s : Bytes) → Keeps (fail_with s)
unfolding fail_with
fail_with-Keeps s = search (keeping, return_str-Keeps)

pub return_int-Keeps : (i : ℤ) → Keeps (return_int i)
unfolding return_int
return_int-Keeps i = search keeping

pub return_float-Keeps : (f : ℕ) → Keeps (return_float f)
unfolding return_float float_new
return_float-Keeps f = bind-Keeps (float_new f) return_obj (alloc-Keeps _) return_obj-Keeps

pub ruleset returning =
    (keeping, return_str-Keeps, fail_with-Keeps, return_int-Keeps, return_float-Keeps)
