-- ===== src/Device/Fd/Sem.antt =====
-- src/b6b_sem.c over src/b6b_fdops.c: what is written to and read from a semaphore.
use b6b.Base.{
  ℕ, zero, suc, ◌+◌, ◌≤◌, ◌<◌, ◌≡◌, refl, ◌∙◌, true, false, none, some, inl, inr, [], ltb, leb,
  arith, length, Bytes, codes,
}
use b6b.Base.Words.{bytes_of}
use b6b.Store.{State}
use b6b.Store.Monad.{done}
use b6b.Object.{format_int}
use b6b.Object.Args.{c_str}
use b6b.Device.Fd.{
  Descriptor, u64_size, u64_max, got, would_block, fd_on_read, fd_read, fd_on_write, fd_write,
  fd_read_u64, fd_write_u64,
}
use b6b.Device.Fd.Number.{fd_read_u64_lem}

-- A descriptor of eventfd with EFD_SEMAPHORE and EFD_NONBLOCK, as its documentation has it, where
-- `count` is its counter: a write adds to it, or would block where the sum is above 2 ^ 64 - 2; a read
-- gives 1 and takes 1 from it, or would block where it is 0.
pub record IsSemaphore {D : Type 0} (l : Descriptor D) (count : D → ℕ) : Type 0 where
  pub adds :
      (d : D) (n : ℕ)
      → count d + n < u64_max
      → (d' : D) × (l.write d (bytes_of u64_size n) ≡ (inr u64_size, d')) × (count d' ≡ count d + n)
  pub is_full :
      (d : D) (n : ℕ)
      → n < u64_max
      → u64_max ≤ count d + n
      → (e : ℕ) × (d' : D) × (l.write d (bytes_of u64_size n) ≡ (inl e, d'))
        × (would_block l e ≡ true)
        × (count d' ≡ count d)
  pub takes :
      (d : D)
      → 0 < count d
      → (d' : D) × (l.read d u64_size ≡ (inr (bytes_of u64_size 1), d')) × (count d' + 1 ≡ count d)
  pub is_empty :
      (d : D)
      → count d ≡ 0
      → (e : ℕ) × (d' : D) × (l.read d u64_size ≡ (inl e, d'))
        × (would_block l e ≡ true)
        × (count d' ≡ 0)

module _ {D : Type 0} (l : Descriptor D) (count : D → ℕ) (h : IsSemaphore l count) where
  -- `k` reads give a 1 each, and the one behind them nothing.
  pub Drains : ℕ → ℕ → D → State → Type 0
  Drains len zero d st =
      (d' : D) × (fd_read_u64 ⦃l = l⦄ d len st ≡ done (got [] true, d') st) × (count d' ≡ 0)
  Drains len (suc k) d st =
      (d' : D) × (fd_read_u64 ⦃l = l⦄ d len st ≡ done (got (codes "1") false, d') st)
      × Drains len k d' st

  drained : (len k : ℕ) (d : D) (st : State) → 1 < len → count d ≡ k → Drains len k d st
  unfolding Drains fd_read_u64 fd_read fd_on_read format_int
  drained len zero d st r c = let (e, d', q, b, z) = h.is_empty d c in (d', rw (q, b) refl, z)
  drained len (suc k) d st r c =
      let (d', q, m) = h.takes d (omega (arith, c)) in
      let room : leb len 1 ≡ false = ground (arith, r) in
      (
        d',
        fd_read_u64_lem ⦃l = l⦄ d d' 1 len st (omega arith) q ∙ rw room refl,
        drained len k d' st r (omega (arith, m, c)),
      )

  -- A number that is written to a semaphore whose counter has room for it is written in full, and
  -- then as many reads as the counter and the number together give 1 each, and the next gives
  -- nothing; where there is no room, writing fails, and the counter stays.
  pub semaphore_lem :
      (d : D) (buf : Bytes) (n len : ℕ) (st : State)
      → l.strtoull (c_str buf) ≡ some n
      → n < u64_max
      → 1 < len
      → (count d + n < u64_max
          → (d' : D) × (fd_write_u64 ⦃l = l⦄ d buf st ≡ done (some (length buf), d') st)
            × Drains len (count d + n) d' st)
        × (u64_max ≤ count d + n
            → (d' : D) × (fd_write_u64 ⦃l = l⦄ d buf st ≡ done (none, d') st)
              × (count d' ≡ count d))
  unfolding fd_write_u64 fd_write fd_on_write
  semaphore_lem d buf n len st hn small r =
      let fits : ltb u64_max n ≡ false = ground (arith, small) in
      (
        λ space.
            let (d', q, c) = h.adds d n space in
            (d', rw (hn, fits, q) refl, drained len (count d + n) d' st r c),
        λ full.
            let (e, d', q, b, c) = h.is_full d n small full in (d', rw (hn, fits, q, b) refl, c),
      )
