-- ===== src/Ffi/Calls.antt =====
-- src/b6b_ffi.c: buffers, functions and shared objects. What the linker, libffi and the memory of the
-- process do is a parameter.
use b6b.Base.{
  ℕ, ◌+◌, Bool, true, false, not, Option, none, some, ◌⊎◌, inl, inr, List, [], ◌∷◌, ◌++◌, ltb, ◌==◌,
  if◌then◌else◌, length, Bytes, codes,
}
use b6b.Base.Int.{ℤ, pos, negsuc}
use b6b.CLib.{CLib}
use b6b.Store.{Ptr, Res, err}
use b6b.Store.Monad.{M, ◌>>=◌, pure, crash, load, int_new, str_copy, return_obj, return_str}
use b6b.Object.{as_int}
use b6b.Object.Args.{get_args, c_str}
use b6b.Control.Math.{to_bits, of_bits}
use b6b.Strm.Procs.{is_op, hex}
use b6b.Device.Fd.{uint_max}
use b6b.Ffi.{FfiType, ffi_type, Floats, Num, decode}
use b6b.Ffi.Struct.{num_new, ffi_buf_new}

-- The process around the interpreter. An address is a number below 2 ^ 64.
pub record Process (W : Type 0) : Type 0 where
  -- Where the text of an object stands.
  pub text_address : W → Ptr → ℕ
  -- The bytes at an address, or `none` where the process may not read them.
  pub memory : W → ℕ → ℕ → Option Bytes
  -- ffi_prep_cif, and whether it gives FFI_OK.
  pub prep_cif : FfiType → List FfiType → Bool
  -- ffi_call, with the address of the function and of the arguments: what it leaves in `out`, which
  -- is a union of 8 bytes.
  pub ffi_call : W → ℕ → FfiType → List FfiType → List ℕ → Bytes × W
  -- dlopen(path, RTLD_LAZY), where no path is NULL, and dlerror where it fails.
  pub dlopen : W → Option Bytes → (Option Bytes ⊎ ℕ) × W
  -- dlsym, and dlerror where that is not NULL.
  pub dlsym : W → ℕ → Bytes → (Bytes ⊎ ℕ) × W
  -- The address of a new struct b6b_ffi_func.
  pub func_address : W → ℕ

-- struct b6b_ffi_func; `argc` is the length of `atypes`, and `cif` holds the types.
pub record FfiFunc : Type 0 where
  pub rtype : FfiType
  pub atypes : List FfiType
  pub p : ℕ

-- b6b_ffi_addr_new, without the reference to the object that the address belongs to.
unfoldable pub ffi_addr_new : ℕ → M Res
unfolding int_new return_obj
ffi_addr_new addr = do o ← int_new (of_bits addr); return_obj o

-- The loop of b6b_ffi_get_types.
unfoldable pub ffi_get_types : Bytes → Option (List FfiType)
ffi_get_types [] = some []
ffi_get_types (ch ∷ chs) = elim (ffi_type ch) [
  | none ↦ none
  | some t ↦ elim (ffi_get_types chs) [ none ↦ none | some ts ↦ some (t ∷ ts) ]
]

module _ ⦃c : CLib⦄ where
  -- The loop of b6b_ffi_func_proc: an address for each argument; more items do not count.
  unfoldable pub argument_addresses : ℕ → List FfiType → List Ptr → M (Option (List ℕ))
  unfolding as_int load
  argument_addresses n [] lis = pure (some [])
  argument_addresses n (t ∷ ts) [] = pure none
  argument_addresses n (t ∷ ts) (li ∷ lis) = do
    known ← as_int n li
    o ← load li
    if not known then pure none else (do
      rest ← argument_addresses n ts lis
      pure (elim rest [ none ↦ none | some ps ↦ some (to_bits o.i ∷ ps) ]))

  -- b6b_ffi_proc_buf
  unfoldable pub ffi_proc_buf : ℕ → Ptr → M Res
  unfolding get_args load ffi_buf_new
  ffi_proc_buf n args = do
    a ← get_args n args (codes "os") (false ∷ true ∷ [])
    if a.argc == 0 then pure err else buf_args a.out
    where
      buf_args : List Ptr → M Res
      buf_args (s ∷ []) = do o ← load s; ffi_buf_new o.s
      buf_args _ = crash

abbrev pub return_buf : Option Bytes → M Res
return_buf none = crash
return_buf (some bs) = ffi_buf_new bs

abbrev pub return_value : Option Num → M Res
return_value none = pure err
return_value (some v) = do o ← num_new v; return_obj o

abbrev pub return_text : Option Bytes → M Res
return_text none = pure err
return_text (some t) = do _ ← return_str t; pure err

abbrev pub so_path : Bytes → Option Bytes
so_path [] = none
so_path (b ∷ bs) = some (c_str (b ∷ bs))

module _ {W : Type 0} ⦃w : Process W⦄ where
  -- The end of b6b_ffi_proc_memcpy, with both integers. A negative length is more than malloc gives,
  -- and b6b_strndup writes through its NULL.
  abbrev pub memcpy_from : W → ℤ → ℤ → M Res
  memcpy_from world addr (negsuc len) = if to_bits addr == 0 then pure err else crash
  memcpy_from world addr (pos len) =
      if len == 0
      then pure err
      else if to_bits addr == 0
      then pure err
      else return_buf (w.memory world (to_bits addr) len)

  -- A function object from the types; `world` gives its address.
  abbrev pub func_new : W → ℕ → FfiType → List FfiType → M (Res × Option FfiFunc)
  func_new world p rtype atypes = do
    o ← str_copy (codes "func:" ++ hex (w.func_address world + 1) (w.func_address world))
    res ← return_obj o
    pure (res, some (record { rtype = rtype; atypes = atypes; p = p }))

  abbrev pub func_prep : W → ℕ → FfiType → Option (List FfiType) → M (Res × Option FfiFunc)
  func_prep world p rtype none = pure (err, none)
  func_prep world p rtype (some atypes) =
      if w.prep_cif rtype atypes then func_new world p rtype atypes else pure (err, none)

  abbrev pub func_types : W → ℕ → Option FfiType → Bytes → M (Res × Option FfiFunc)
  func_types world p none atypes = pure (err, none)
  func_types world p (some rtype) atypes = func_prep world p rtype (ffi_get_types atypes)

  -- The checks of b6b_ffi_proc_func, with the arguments known.
  abbrev pub func_checked : W → ℤ → Bytes → Bytes → M (Res × Option FfiFunc)
  func_checked world addr (ch ∷ []) atypes =
      if ltb uint_max (length atypes)
      then pure (err, none)
      else if to_bits addr == 0
      then pure (err, none)
      else func_types world (to_bits addr) (ffi_type ch) atypes
  func_checked world addr _ atypes = pure (err, none)

  abbrev pub called : ⦃f : Floats⦄ → FfiFunc → Bytes × W → M (Res × W)
  called fn (out, world) = do res ← return_value (decode fn.rtype out); pure (res, world)

  abbrev pub call_func : ⦃f : Floats⦄ → W → FfiFunc → Option (List ℕ) → M (Res × W)
  call_func world fn none = pure (err, world)
  call_func world fn (some ps) = called fn (w.ffi_call world fn.p fn.rtype fn.atypes ps)

  abbrev pub found_symbol : (Bytes ⊎ ℕ) × W → M (Res × W)
  found_symbol (inl t, world) = do res ← return_text (some t); pure (res, world)
  found_symbol (inr p, world) = do res ← ffi_addr_new p; pure (res, world)

  -- What dlopen gives: the object, with the handle.
  abbrev pub so_opened : (Option Bytes ⊎ ℕ) × W → M (Res × Option ℕ × W)
  so_opened (inl t, world) = do res ← return_text t; pure (res, none, world)
  so_opened (inr p, world) = do
    o ← str_copy (codes "so:" ++ hex (p + 1) p)
    res ← return_obj o
    pure (res, some p, world)

  module _ ⦃c : CLib⦄ where
    -- b6b_ffi_proc_memcpy
    unfoldable pub ffi_proc_memcpy : ℕ → W → Ptr → M Res
    unfolding get_args load ffi_buf_new
    ffi_proc_memcpy n world args = do
      a ← get_args n args (codes "oii") (false ∷ true ∷ true ∷ [])
      if a.argc == 0 then pure err else memcpy_args a.out
      where
        memcpy_args : List Ptr → M Res
        memcpy_args (addr ∷ len ∷ []) = do x ← load addr; y ← load len; memcpy_from world x.i y.i
        memcpy_args _ = crash

    abbrev pub buf_op : W → List Ptr → M Res
    buf_op world (o ∷ op ∷ []) = do
      x ← load op
      if is_op x.s (codes "address") then ffi_addr_new (w.text_address world o) else pure err
    buf_op world _ = crash

    -- b6b_ffi_buf_proc
    unfoldable pub ffi_buf_proc : ℕ → W → Ptr → M Res
    unfolding get_args load ffi_addr_new
    ffi_buf_proc n world args = do
      a ← get_args n args (codes "os") (true ∷ true ∷ [])
      if a.argc == 0 then pure err else buf_op world a.out

    abbrev pub func_args : W → List Ptr → M (Res × Option FfiFunc)
    func_args world (addr ∷ rtype ∷ atypes ∷ []) = do
      x ← load addr
      y ← load rtype
      z ← load atypes
      func_checked world x.i y.s z.s
    func_args world _ = crash

    -- b6b_ffi_proc_func
    unfoldable pub ffi_proc_func : ℕ → W → Ptr → M (Res × Option FfiFunc)
    unfolding get_args load ffi_get_types str_copy hex return_obj
    ffi_proc_func n world args = do
      a ← get_args n args (codes "oiss") (false ∷ true ∷ true ∷ true ∷ [])
      if a.argc == 0 then pure (err, none) else func_args world a.out

    abbrev pub func_call_args : ⦃f : Floats⦄ → ℕ → W → FfiFunc → List Ptr → M (Res × W)
    func_call_args n world fn (o ∷ argpos ∷ []) = do
      x ← load argpos
      argument_addresses n fn.atypes x.l >>= call_func world fn
    func_call_args n world fn _ = crash

    -- b6b_ffi_func_proc
    unfoldable pub ffi_func_proc : ⦃f : Floats⦄ → ℕ → W → FfiFunc → Ptr → M (Res × W)
    unfolding get_args load argument_addresses
    ffi_func_proc n world fn args = do
      a ← get_args n args (codes "ol") (true ∷ true ∷ [])
      if a.argc == 0 then pure (err, world) else func_call_args n world fn a.out

    abbrev pub so_op : W → ℕ → List Ptr → M (Res × W)
    so_op world handle (o ∷ op ∷ sym ∷ []) = do
      x ← load op
      y ← load sym
      if is_op x.s (codes "dlsym")
          then found_symbol (w.dlsym world handle (c_str y.s))
          else pure (err, world)
    so_op world handle (o ∷ op ∷ []) = do
      x ← load op
      if is_op x.s (codes "handle")
          then (do res ← ffi_addr_new handle; pure (res, world))
          else pure (err, world)
    so_op world handle _ = crash

    -- b6b_ffi_so_proc, of the object whose `priv` is the handle
    unfoldable pub ffi_so_proc : ℕ → W → ℕ → Ptr → M (Res × W)
    unfolding get_args load ffi_addr_new return_str
    ffi_so_proc n world handle args = do
      a ← get_args n args (codes "os|s") (true ∷ true ∷ true ∷ [])
      if a.argc == 0 then pure (err, world) else so_op world handle a.out

    abbrev pub dlopen_args : W → List Ptr → M (Res × Option ℕ × W)
    dlopen_args world (path ∷ []) = do x ← load path; so_opened (w.dlopen world (so_path x.s))
    dlopen_args world _ = crash

    -- b6b_ffi_proc_dlopen
    unfoldable pub ffi_proc_dlopen : ℕ → W → Ptr → M (Res × Option ℕ × W)
    unfolding get_args load return_str str_copy hex return_obj
    ffi_proc_dlopen n world args = do
      a ← get_args n args (codes "os") (false ∷ true ∷ [])
      if a.argc == 0 then pure (err, none, world) else dlopen_args world a.out
