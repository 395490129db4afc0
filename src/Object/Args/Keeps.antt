-- ===== src/Object/Args/Keeps.antt =====
-- Taking the arguments of a procedure (b6b_proc_get_args in src/b6b_proc.c) leaves the call stack
-- alone.
use b6b.Base.{ℕ, ◌+◌, Bool, true, false, List, [], ◌∷◌, ◌==◌, Bytes}
use b6b.CLib.{CLib}
use b6b.Store.{Ptr, Res, err}
use b6b.Store.Monad.{M, ◌>>=◌}
use b6b.Store.Keeps.{
  Keeps, keeping, pure-Keeps, crash-Keeps, bind-Keeps, if-Keeps, return_str-Keeps,
}
use b6b.Object.Keeps.{as_str-Keeps, as_list-Keeps, as_int-Keeps, as_float-Keeps}
use b6b.Object.Args.{
  Args, convert, vparse_item, vparse, explain, get_args, take_one, take_two, take_three, with_one,
  with_two, with_three,
}

module _ ⦃c : CLib⦄ where
  convert-Keeps : (n ch p : ℕ) → Keeps (convert n ch p)
  unfolding convert
  convert-Keeps n ch p =
      search (keeping, as_str-Keeps, as_list-Keeps, as_int-Keeps, as_float-Keeps) depth 9

  vparse_item-Keeps :
      (again : List Ptr → List Bool → ℕ → List Ptr → M Args) (n ch : ℕ) (opt : Bool)
      (lis : List Ptr) (ptrs : List Bool) (argc : ℕ) (out : List Ptr)
      → ((lis : List Ptr) (ptrs : List Bool) (argc : ℕ) (out : List Ptr)
          → Keeps (again lis ptrs argc out))
      → Keeps (vparse_item again n ch opt lis ptrs argc out)
  vparse_item-Keeps again n ch opt [] ptrs argc out h = pure-Keeps _
  vparse_item-Keeps again n ch opt (li ∷ lis) [] argc out h = crash-Keeps
  vparse_item-Keeps again n ch opt (li ∷ lis) (false ∷ ptrs) argc out h = h lis ptrs (argc + 1) out
  vparse_item-Keeps again n ch opt (li ∷ lis) (true ∷ ptrs) argc out h =
      search (keeping, convert-Keeps, h) depth 8

  vparse-Keeps :
      (n : ℕ) (fmt : Bytes) (opt : Bool) (lis : List Ptr) (ptrs : List Bool) (argc : ℕ)
      (out : List Ptr)
      → Keeps (vparse n fmt opt lis ptrs argc out)
  unfolding vparse
  vparse-Keeps n [] opt [] ptrs argc out = pure-Keeps _
  vparse-Keeps n [] opt (li ∷ lis) ptrs argc out = pure-Keeps _
  vparse-Keeps n (ch ∷ fmt) opt lis ptrs argc out =
      if-Keeps (ch == b'|') _ _ (vparse-Keeps n fmt true lis ptrs argc out)
        (vparse_item-Keeps (vparse n fmt opt) n ch opt lis ptrs argc out (vparse-Keeps n fmt opt))

  explain-Keeps : (n l : ℕ) (fmt : Bytes) (lis : List Ptr) → Keeps (explain n l fmt lis)
  unfolding explain
  explain-Keeps n l fmt [] = crash-Keeps
  explain-Keeps n l fmt (li ∷ lis) = search (keeping, as_str-Keeps, return_str-Keeps) depth 12

  pub get_args-Keeps : (n l : ℕ) (fmt : Bytes) (ptrs : List Bool) → Keeps (get_args n l fmt ptrs)
  unfolding get_args
  get_args-Keeps n l fmt ptrs = search (keeping, vparse-Keeps, explain-Keeps) depth 12

pub take_one-Keeps :
    (ps : List Ptr) (k : Ptr → M Res) → ((p : Ptr) → Keeps (k p)) → Keeps (take_one ps k)
take_one-Keeps [] k h = crash-Keeps
take_one-Keeps (x ∷ []) k h = h x
take_one-Keeps (x ∷ y ∷ zs) k h = crash-Keeps

pub take_two-Keeps :
    (ps : List Ptr) (k : Ptr → Ptr → M Res) → ((p q : Ptr) → Keeps (k p q)) → Keeps (take_two ps k)
take_two-Keeps [] k h = crash-Keeps
take_two-Keeps (x ∷ []) k h = crash-Keeps
take_two-Keeps (x ∷ y ∷ []) k h = h x y
take_two-Keeps (x ∷ y ∷ z ∷ zs) k h = crash-Keeps

pub take_three-Keeps :
    (ps : List Ptr) (k : Ptr → Ptr → Ptr → M Res)
    → ((p q r : Ptr) → Keeps (k p q r))
    → Keeps (take_three ps k)
take_three-Keeps [] k h = crash-Keeps
take_three-Keeps (x ∷ []) k h = crash-Keeps
take_three-Keeps (x ∷ y ∷ []) k h = crash-Keeps
take_three-Keeps (x ∷ y ∷ z ∷ []) k h = h x y z
take_three-Keeps (x ∷ y ∷ z ∷ w ∷ ws) k h = crash-Keeps

module _ ⦃c : CLib⦄ where
  -- A procedure of one, two or three arguments.
  pub one-Keeps :
      (n l : ℕ) (fmt : Bytes) (ptrs : List Bool) (k : Ptr → M Res)
      → ((p : Ptr) → Keeps (k p))
      → Keeps (get_args n l fmt ptrs >>= λ a. with_one a k)
  one-Keeps n l fmt ptrs k h =
      bind-Keeps (get_args n l fmt ptrs) (λ a. with_one a k) (get_args-Keeps n l fmt ptrs)
        (λ a. if-Keeps (a.argc == 0) _ _ (pure-Keeps err) (take_one-Keeps a.out k h))

  pub two-Keeps :
      (n l : ℕ) (fmt : Bytes) (ptrs : List Bool) (k : Ptr → Ptr → M Res)
      → ((p q : Ptr) → Keeps (k p q))
      → Keeps (get_args n l fmt ptrs >>= λ a. with_two a k)
  two-Keeps n l fmt ptrs k h =
      bind-Keeps (get_args n l fmt ptrs) (λ a. with_two a k) (get_args-Keeps n l fmt ptrs)
        (λ a. if-Keeps (a.argc == 0) _ _ (pure-Keeps err) (take_two-Keeps a.out k h))

  pub three-Keeps :
      (n l : ℕ) (fmt : Bytes) (ptrs : List Bool) (k : Ptr → Ptr → Ptr → M Res)
      → ((p q r : Ptr) → Keeps (k p q r))
      → Keeps (get_args n l fmt ptrs >>= λ a. with_three a k)
  three-Keeps n l fmt ptrs k h =
      bind-Keeps (get_args n l fmt ptrs) (λ a. with_three a k) (get_args-Keeps n l fmt ptrs)
        (λ a. if-Keeps (a.argc == 0) _ _ (pure-Keeps err) (take_three-Keeps a.out k h))
