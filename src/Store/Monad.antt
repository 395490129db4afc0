-- ===== src/Store/Monad.antt =====
-- The monad of the C code: a function of the state that ends with a result and a state, faults
-- (a null pointer, a freed or foreign block), or runs out of fuel.
use b6b.Base.{ℕ, ◌+◌, Bool, true, none, some, ◌==◌, if◌then◌else◌, Bytes, ◌≡◌, ◌≢◌, refl, ap, arith}
use b6b.Base.Int.{ℤ}
use b6b.Store.{Ptr, Obj, State, Res, ok, err, blank_obj}

pub data Outcome (A : Type 0) : Type 0 where
  done : A → State → Outcome A
  fault : Outcome A
  timeout : Outcome A

abbrev pub M : Type 0 → Type 0
M A = State → Outcome A

infixl 5 ◌>>=◌ ◌>>◌
abbrev pub ◌>>=◌ : {A B : Type 0} → M A → (A → M B) → M B
◌>>=◌ m k st = elim (m st) [ done a st' ↦ k a st' | fault ↦ fault | timeout ↦ timeout ]

abbrev pub ◌>>◌ : {A B : Type 0} → M A → M B → M B
m >> k = m >>= λ _. k

abbrev pub pure : {A : Type 0} → A → M A
pure a st = done a st

abbrev pub crash : {A : Type 0} → M A
crash st = fault

abbrev pub stuck : {A : Type 0} → M A
stuck st = timeout

abbrev pub get : M State
get st = done st st

-- Reading through a pointer.
unfoldable pub load : Ptr → M Obj
load p st = elim (st.cell p) [ none ↦ fault | some o ↦ done o st ]

abbrev pub update {ℓ} : {V : Type ℓ} → (Ptr → V) → Ptr → V → Ptr → V
update m p v q = if q == p then v else m q

-- Writing through a pointer.
unfoldable pub store : Ptr → Obj → M (Unit {0})
store p o st = done tt (record st { cell = update st.cell p (some o) })

-- b6b_new, with the fields that the caller sets next.
unfoldable pub alloc : Obj → M Ptr
alloc o st = done st.next (record st { cell = update st.cell st.next (some o); next = st.next + 1 })

-- b6b_str_copy and b6b_str_new: the new object owns its text.
unfoldable pub str_copy : Bytes → M Ptr
unfolding alloc
str_copy s = alloc (record blank_obj { s = s; is_str = true })

-- b6b_int_new
unfoldable pub int_new : ℤ → M Ptr
unfolding alloc
int_new i = alloc (record blank_obj { i = i; is_int = true })

-- b6b_float_new
unfoldable pub float_new : ℕ → M Ptr
unfolding alloc
float_new f = alloc (record blank_obj { f = f; is_float = true })

-- b6b_list_new
unfoldable pub list_new : M Ptr
unfolding alloc
list_new = alloc (record blank_obj { is_list = true })

-- b6b_return
unfoldable pub return_obj : Ptr → M Res
return_obj p st = done ok (record st { under = p })

-- b6b_return_int
unfoldable pub return_int : ℤ → M Res
unfolding int_new return_obj
return_int i = do p ← int_new i; return_obj p

-- b6b_return_float
unfoldable pub return_float : ℕ → M Res
unfolding float_new return_obj
return_float f = do p ← float_new f; return_obj p

-- b6b_return_str
unfoldable pub return_str : Bytes → M Res
unfolding str_copy return_obj
return_str s = do p ← str_copy s; return_obj p

-- b6b_return_true, b6b_return_false and b6b_return_bool
unfoldable pub return_bool : Bool → M Res
return_bool b st = done ok (record st { under = if b then st.one else st.zero_obj })

-- The pattern `b6b_return_str(...); return B6B_ERR;`
unfoldable pub fail_with : Bytes → M Res
unfolding return_str
fail_with s = do _ ← return_str s; pure err

-- A chain whose first step is known goes on from there.
pub done-bind :
    {A B : Type 0} (m : M A) (k : A → M B) (st : State) (a : A) (mid : State)
    → m st ≡ done a mid
    → (m >>= k) st ≡ k a mid
done-bind {A} {B} m k st a mid h =
    ap
      (λ o. elim o as (λ x. Outcome B) [ done a mid ↦ k a mid | fault ↦ fault | timeout ↦ timeout ])
      h

-- A chain that ends with a result went through its first step's result.
pub bind-done :
    {A B : Type 0} (m : M A) (k : A → M B) (st : State) (b : B) (st' : State)
    → (m >>= k) st ≡ done b st'
    → (a : A) × (mid : State) × (m st ≡ done a mid) × (k a mid ≡ done b st')
bind-done {A} {B} m k st b st' h = go (m st) refl h
  where
    go :
        (o : Outcome A)
        → m st ≡ o
        → elim o as (λ x. Outcome B) [ done a mid ↦ k a mid | fault ↦ fault | timeout ↦ timeout ]
          ≡ done b st'
        → (a : A) × (mid : State) × (m st ≡ done a mid) × (k a mid ≡ done b st')
    go (done a mid) e h = (a, mid, e, h)
    go fault e h = ground arith
    go timeout e h = ground arith

pub load-cell : (p : Ptr) (o : Obj) (st : State) → st.cell p ≡ some o → load p st ≡ done o st
unfolding load
load-cell p o st h = ground (arith, h)

pub update_same {ℓ} : {V : Type ℓ} (m : Ptr → V) (p : Ptr) (v : V) → update m p v p ≡ v
update_same m p v = ground arith

pub update_other {ℓ} : {V : Type ℓ} (m : Ptr → V) (p q : Ptr) (v : V) → q ≢ p → update m p v q ≡ m q
update_other m p q v n = ground arith

pub timeout-bind :
    {A B : Type 0} (m : M A) (k : A → M B) (st : State) → m st ≡ timeout → (m >>= k) st ≡ timeout
timeout-bind m k st h = ground (arith, h)
