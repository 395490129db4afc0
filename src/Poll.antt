-- ===== src/Poll.antt =====
-- src/b6b_poll.c: `poll` and the objects that it makes. epoll is a parameter; without offload threads,
-- b6b_syscall makes the call.
pub mod Sorted
use b6b.Base.{
  ℕ, suc, ◌+◌, ◌-◌, ◌*◌, ◌/◌, ◌%◌, ◌^◌, Bool, true, false, ◌||◌, ◌&&◌, Option, none, some, ◌⊎◌, inl,
  inr, List, [], ◌∷◌, ltb, ◌==◌, if◌then◌else◌, Bytes, ◌++◌, codes, length,
}
use b6b.Base.Int.{ℤ, pos, negsuc}
use b6b.CLib.{CLib}
use b6b.Store.{Ptr, Res, ok, err}
use b6b.Store.Monad.{M, ◌>>=◌, ◌>>◌, pure, crash, load, int_new, list_new, str_copy, return_obj}
use b6b.Object.{list_add, format_int}
use b6b.Object.Args.{get_args}
use b6b.Strm.Procs.{is_op}
use b6b.Device.{return_strerror}
use b6b.Rand.{int_max, int_min}
use b6b.Base.Int.{ltb_ℤ}

-- struct epoll_event
pub record Event : Type 0 where
  pub events : ℕ
  pub fd : ℕ

-- The system's table of epoll instances, which `W` is; an instance is known by its descriptor.
pub record Epoll (W : Type 0) : Type 0 where
  -- epoll_create1(EPOLL_CLOEXEC): the error's number, or the descriptor.
  pub create : W → (ℕ ⊎ ℕ) × W
  -- epoll_ctl; `some` has the error's number.
  pub ctl_del : W → ℕ → ℕ → Option ℕ × W
  pub ctl_add : W → ℕ → ℕ → ℕ → Option ℕ × W
  -- epoll_wait with room for so many events, and a timeout: the events that it writes.
  pub wait : W → ℕ → ℕ → ℤ → (ℕ ⊎ List Event) × W
  pub close : W → ℕ → W
  pub enoent : ℕ
  pub eexist : ℕ
  pub strerror : ℕ → Option Bytes

abbrev pub epollin : ℕ
epollin = 1

abbrev pub epollout : ℕ
epollout = 4

abbrev pub has_bit : ℕ → ℕ → Bool
has_bit bit n = n / bit % 2 == 1

-- `n & (EPOLLIN | EPOLLOUT)`, of the low bits of the two's complement
abbrev pub in_out : ℤ → ℕ
in_out (pos n) = n % 2 + n / 4 % 2 * 4
in_out (negsuc n) = 1 - n % 2 + (1 - n / 4 % 2) * 4

-- `e`: EPOLLERR, EPOLLHUP or EPOLLRDHUP.
abbrev pub has_error : ℕ → Bool
has_error n = has_bit 8 n || (has_bit 16 n || has_bit (2 ^ 13) n)

abbrev pub is_reported : Event → Bool
is_reported e = has_bit epollin e.events || (has_bit epollout e.events || has_error e.events)

-- fds
pub record Ready : Type 0 where
  pub inps : Ptr
  pub outps : Ptr
  pub errps : Ptr

abbrev pub add_if : Bool → Ptr → Ptr → M (Unit {0})
add_if false p fd = pure tt
add_if true p fd = list_add p fd

-- An event's descriptor, in each of the lists that it is for.
unfoldable pub add_event : Ready → Event → M (Unit {0})
unfolding int_new list_add
add_event f e =
    if is_reported e
    then (do
      fd ← int_new (pos e.fd)
      add_if (has_bit epollin e.events) f.inps fd
      add_if (has_bit epollout e.events) f.outps fd
      add_if (has_error e.events) f.errps fd)
    else pure tt

-- The loop over `evs`, with room for `left` more events, `j` of `ret` done, and the events from `i` on
-- that epoll_wait wrote; behind those, memory that nothing wrote is read.
unfoldable pub sort_events : Ready → ℕ → ℕ → ℕ → List Event → M (Unit {0})
sort_events f ret left j [] = if ltb j ret && ltb 0 left then crash else pure tt
sort_events f ret left j (e ∷ es) =
    let next = sort_events f ret (left - 1) (if is_reported e then suc j else j) es in
    if ltb j ret && ltb 0 left then (do add_event f e; next) else pure tt

abbrev pub ctl_done : {W : Type 0} → (ℕ → Option Bytes) → ℕ → Option ℕ × W → M (Res × W)
ctl_done strerror but (none, world) = pure (ok, world)
ctl_done strerror but (some e, world) =
    if e == but
    then pure (ok, world)
    else (do res ← return_strerror (strerror e); pure (res, world))

module _ {W : Type 0} (w : Epoll W) where
  -- `remove`, of the instance `ep`
  abbrev pub poll_remove : W → ℕ → ℤ → M (Res × W)
  poll_remove world ep (negsuc n) = pure (err, world)
  poll_remove world ep (pos n) = ctl_done w.strerror w.enoent (w.ctl_del world ep n)

  abbrev pub poll_add : W → ℕ → ℤ → ℤ → M (Res × W)
  poll_add world ep (negsuc n) t = pure (err, world)
  poll_add world ep (pos n) t = ctl_done w.strerror w.eexist (w.ctl_add world ep n (in_out t))

  abbrev pub poll_waited : ℕ → Ptr → Ready → (ℕ ⊎ List Event) × W → M (Res × W)
  poll_waited n p f (inl e, world) = do res ← return_strerror (w.strerror e); pure (res, world)
  poll_waited n p f (inr evs, world) = do
    sort_events f (length evs) n 0 evs
    res ← return_obj p
    pure (res, world)

  abbrev pub poll_wait : W → ℕ → ℕ → ℤ → M (Res × W)
  poll_wait world ep n t = do
    p ← list_new
    inps ← list_new
    list_add p inps
    outps ← list_new
    list_add p outps
    errps ← list_new
    list_add p errps
    poll_waited n p (record { inps = inps; outps = outps; errps = errps }) (w.wait world ep n t)

  abbrev pub checked_wait : W → ℕ → ℤ → ℤ → M (Res × W)
  checked_wait world ep (negsuc n) t = pure (err, world)
  checked_wait world ep (pos n) t =
      if n == 0 || (ltb_ℤ t int_min || ltb_ℤ (pos int_max) t)
      then pure (err, world)
      else poll_wait world ep n t

  abbrev pub too_large : ℤ → Bool
  too_large n = ltb_ℤ (pos int_max) n

  module _ ⦃c : CLib⦄ where
    abbrev pub poll_args : W → ℕ → List Ptr → M (Res × W)
    poll_args world ep (p ∷ op ∷ n ∷ []) = do
      x ← load op
      y ← load n
      if too_large y.i
          then pure (err, world)
          else if is_op x.s (codes "remove")
          then poll_remove world ep y.i
          else pure (err, world)
    poll_args world ep (p ∷ op ∷ n ∷ t ∷ []) = do
      x ← load op
      y ← load n
      z ← load t
      if too_large y.i
          then pure (err, world)
          else if is_op x.s (codes "add")
          then poll_add world ep y.i z.i
          else if is_op x.s (codes "wait")
          then checked_wait world ep y.i z.i
          else pure (err, world)
    poll_args world ep _ = crash

    -- b6b_poll_proc, of the object whose `priv` is the instance
    unfoldable pub poll_proc : ℕ → W → ℕ → Ptr → M (Res × W)
    unfolding get_args load return_strerror list_new list_add sort_events return_obj
    poll_proc n world ep args = do
      a ← get_args n args (codes "osi|i") (true ∷ true ∷ true ∷ true ∷ [])
      if a.argc == 0 then pure (err, world) else poll_args world ep a.out

  -- b6b_poll_del
  abbrev pub poll_del : W → ℕ → W
  poll_del world ep = w.close world ep

  -- What epoll_create1 gives: the object, with the instance.
  abbrev pub poll_new : (ℕ ⊎ ℕ) × W → M (Res × Option ℕ × W)
  poll_new (inl e, world) = do res ← return_strerror (w.strerror e); pure (res, none, world)
  poll_new (inr ep, world) = do
    o ← str_copy (codes "poll:" ++ format_int (pos ep))
    res ← return_obj o
    pure (res, some ep, world)

  -- b6b_poll_proc_poll
  unfoldable pub poll_proc_poll : ⦃c : CLib⦄ → ℕ → W → Ptr → M (Res × Option ℕ × W)
  unfolding get_args return_strerror str_copy format_int return_obj
  poll_proc_poll n world args = do
    a ← get_args n args (codes "o") (false ∷ [])
    if a.argc == 0 then pure (err, none, world) else poll_new (w.create world)
