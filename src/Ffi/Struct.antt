-- ===== src/Ffi/Struct.antt =====
-- src/b6b_ffi.c: `ffi.pack` and `ffi.unpack`.
use b6b.Base.{
  ℕ, zero, suc, ◌+◌, ◌-◌, ◌%◌, Bool, true, false, Option, none, some, List, [], ◌∷◌, ◌++◌, ltb, leb,
  ◌==◌, if◌then◌else◌, length, drop, Bytes, codes,
}
use b6b.CLib.{CLib}
use b6b.Store.{Ptr, Res, err}
use b6b.Store.Monad.{
  M, ◌>>=◌, ◌>>◌, pure, crash, load, int_new, float_new, list_new, str_copy, return_obj,
}
use b6b.Object.{is_empty, list_add}
use b6b.Object.Args.{get_args}
use b6b.Ffi.{FfiType, type_size, ffi_type, Floats, Num, int, flt, decode, encode}

-- B6B_FFI_MAX_STRUCT_SZ
abbrev pub max_struct_size : ℕ
max_struct_size = 4096

abbrev pub zeros : ℕ → Bytes
zeros zero = []
zeros (suc n) = 0 ∷ zeros n

-- The padding in front of a value at `off`.
abbrev pub gap : Bool → FfiType → ℕ → ℕ
gap true t off = 0
gap false t off = if off % type_size t == 0 then 0 else type_size t - off % type_size t

-- The end of a round of b6b_ffi_proc_pack: the padding and the value go into the buffer.
unfoldable pub append_value : Bool → FfiType → Bytes → Bytes → Option Bytes
append_value packed t buf val =
    let start = length buf + gap packed t (length buf) in
    if ltb max_struct_size start
    then none
    else if ltb max_struct_size (start + type_size t)
    then none
    else some (buf ++ (zeros (gap packed t (length buf)) ++ val))

-- A first '.', which may not stand alone: the letters, and whether there is no padding.
abbrev pub read_packed : Bytes → Option (Bool × Bytes)
read_packed [] = none
read_packed (ch ∷ []) = if ch == b'.' then none else some (false, ch ∷ [])
read_packed (ch ∷ next ∷ fmt) =
    if ch == b'.' then some (true, next ∷ fmt) else some (false, ch ∷ next ∷ fmt)

-- The object of a value that was decoded.
abbrev pub num_new : Num → M Ptr
num_new (int i) = int_new i
num_new (flt x) = float_new x

-- Each value becomes an object in the list.
unfoldable pub add_nums : Ptr → List Num → M (Unit {0})
unfolding int_new float_new list_add
add_nums l [] = pure tt
add_nums l (v ∷ vs) = do o ← num_new v; list_add l o; add_nums l vs

-- b6b_ffi_buf_new, which gives the object the procedure b6b_ffi_buf_proc, and b6b_return
unfoldable pub ffi_buf_new : Bytes → M Res
unfolding str_copy return_obj
ffi_buf_new s = do o ← str_copy s; return_obj o

module _ ⦃f : Floats⦄ where
  abbrev pub next_field :
      (ℕ → Bytes → Option (List Num)) → FfiType → ℕ → ℕ → Bytes → Option (List Num)
  next_field again t pad off rest =
      if leb (length rest) pad then none else elim (decode t (drop pad rest)) [
        | none ↦ none
        | some v ↦ elim (again (off + pad + type_size t) (drop (type_size t) (drop pad rest))) [
          | none ↦ none
          | some vs ↦ some (v ∷ vs)
        ]
      ]

  -- The loop of b6b_ffi_proc_unpack: the letters left, the offset, and what stands there. Each value
  -- is added to a list as it is read, and the list is destroyed where the loop fails; the values are
  -- gathered first here.
  unfoldable pub unpack_fields : Bool → Bytes → ℕ → Bytes → Option (List Num)
  unpack_fields packed [] off rest = some []
  unpack_fields packed (ch ∷ fmt) off rest = if is_empty rest then none else elim (ffi_type ch) [
    | none ↦ none
    | some t ↦ next_field (unpack_fields packed fmt) t (gap packed t off) off rest
  ]

  abbrev pub return_fields : Option (List Num) → M Res
  return_fields none = pure err
  return_fields (some vs) = do l ← list_new; add_nums l vs; return_obj l

  abbrev pub unpack_with : Option (Bool × Bytes) → Bytes → M Res
  unpack_with none s = pure err
  unpack_with (some (packed, fmt)) s = return_fields (unpack_fields packed fmt 0 s)

  module _ ⦃c : CLib⦄ where
    abbrev pub pack_next : (Bytes → M (Option Bytes)) → Option Bytes → M (Option Bytes)
    pack_next again none = pure none
    pack_next again (some buf) = again buf

    abbrev pub pack_value :
        (Bytes → M (Option Bytes)) → Bool → FfiType → Bytes → Option Bytes → M (Option Bytes)
    pack_value again packed t buf none = pure none
    pack_value again packed t buf (some val) = pack_next again (append_value packed t buf val)

    abbrev pub pack_type :
        ℕ → (Bytes → M (Option Bytes)) → Bool → Bytes → Ptr → Option FfiType → M (Option Bytes)
    pack_type n again packed buf v none = pure none
    pack_type n again packed buf v (some t) = encode n t v >>= pack_value again packed t buf

    -- The loop of b6b_ffi_proc_pack: the letters left, the objects left, and the buffer's bytes.
    unfoldable pub pack_loop : ℕ → Bool → Bytes → List Ptr → Bytes → M (Option Bytes)
    pack_loop n packed [] vs buf = pure (some buf)
    pack_loop n packed (ch ∷ fmt) [] buf = pure none
    pack_loop n packed (ch ∷ fmt) (v ∷ vs) buf =
        pack_type n (pack_loop n packed fmt vs) packed buf v (ffi_type ch)

    abbrev pub return_packed : Option Bytes → M Res
    return_packed none = pure err
    return_packed (some buf) = ffi_buf_new buf

    abbrev pub pack_with : ℕ → Option (Bool × Bytes) → List Ptr → M Res
    pack_with n none vs = pure err
    pack_with n (some (packed, fmt)) vs = pack_loop n packed fmt vs [] >>= return_packed

    abbrev pub pack_args : ℕ → List Ptr → M Res
    pack_args n [] = crash
    pack_args n (fmt ∷ vs) = do o ← load fmt; pack_with n (read_packed o.s) vs

    -- b6b_ffi_proc_pack
    unfoldable pub ffi_proc_pack : ℕ → Ptr → M Res
    unfolding get_args load pack_loop ffi_buf_new
    ffi_proc_pack n args = do
      a ← get_args n args (codes "os*") (false ∷ true ∷ true ∷ [])
      if a.argc == 0 then pure err else pack_args n a.out

    abbrev pub unpack_args : List Ptr → M Res
    unpack_args (fmt ∷ s ∷ []) = do o ← load fmt; x ← load s; unpack_with (read_packed o.s) x.s
    unpack_args _ = crash

    -- b6b_ffi_proc_unpack
    unfoldable pub ffi_proc_unpack : ℕ → Ptr → M Res
    unfolding get_args load unpack_fields list_new add_nums return_obj
    ffi_proc_unpack n args = do
      a ← get_args n args (codes "oss") (false ∷ true ∷ true ∷ [])
      if a.argc == 0 then pure err else unpack_args a.out
