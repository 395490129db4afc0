-- ===== src/Examples/Descriptors.antt =====
-- The theorems on descriptors at concrete inputs.
use b6b.Base.{
  ℕ, ◌-◌, ◌+◌, ◌==◌, ◌<◌, ◌≤◌, true, if◌then◌else◌, ltb, ◌≡◌, refl, false, none, some, inl, inr,
  ◌++◌, [], take, drop, length, Bytes, codes, arith,
}
use b6b.Base.Words.{bytes_of, word_of, word_of-bytes_of}
use b6b.Tests.{digits_value}
use b6b.Store.{State, ok}
use b6b.Store.Monad.{done, fault, timeout, return_str}
use b6b.Strm.{Strm, strm_new, strm_read}
use b6b.Device.Fd.{Descriptor, u64_max, u64_size, fd_read, fd_on_read, fd_write_u64}
use b6b.Device.Fd.Sem.{IsSemaphore, Drains, semaphore_lem}
use b6b.Sh.{Sh, sh_read, sh_out_ops}
use b6b.Sh.End.{sh_out-SameEnd}
use b6b.Interp.Boot.{empty}

-- A pipe with the bytes that are in it, whose other end is closed.
abbrev pipe : Descriptor Bytes
pipe = record {
  fionread = λ d. some (length d);
  read = λ d len. (inr (take len d), drop len d);
  recv = λ d len. (inr (take len d), drop len d);
  write = λ d buf. (inr (length buf), d ++ buf);
  send = λ d buf. (inr (length buf), d ++ buf);
  close = λ d. d;
  number = λ d. 3;
  eagain = 11;
  ewouldblock = 11;
  strerror = λ e. none;
  strtoull = λ s. some (digits_value 0 0 s).0;
  eventfd = λ n. inr (bytes_of u64_size n);
}

-- The output of a child that is gone.
abbrev reader : Strm (Sh Bytes)
reader = strm_new (sh_out_ops pipe) (record { pid = 0; dev = [] })

abbrev after : State
after = elim (return_str [] empty) [ done r st ↦ st | fault ↦ empty | timeout ↦ empty ]

reader-end : strm_read reader 5 empty ≡ done (ok, reader) after
unfolding strm_read sh_out_ops sh_read fd_read fd_on_read return_str
reader-end = refl

sh_out-SameEnd_example : reader.eof ≡ false
sh_out-SameEnd_example = sh_out-SameEnd pipe reader 5 empty ok reader after refl reader-end

-- A counter, as eventfd with EFD_SEMAPHORE has it.
abbrev counter : Descriptor ℕ
counter = record {
  fionread = λ d. none;
  read = λ d len. if d == 0 then (inl 11, d) else (inr (bytes_of u64_size 1), d - 1);
  recv = λ d len. (inl 88, d);
  write = λ d buf.
      if ltb (d + word_of buf) u64_max then (inr u64_size, d + word_of buf) else (inl 11, d);
  send = λ d buf. (inl 88, d);
  close = λ d. d;
  number = λ d. 3;
  eagain = 11;
  ewouldblock = 11;
  strerror = λ e. none;
  strtoull = λ s. some (length s);
  eventfd = λ n. inr n;
}

counter-IsSemaphore : IsSemaphore counter (λ d. d)
counter-IsSemaphore = record {
  adds = λ d n space.
      let same = word_of-bytes_of u64_size n (omega (arith, space)) in
      let fits : ltb (d + n) u64_max ≡ true = ground (arith, space) in
      (d + n, rw (same, fits) refl, refl);
  is_full = λ d n small full.
      let same = word_of-bytes_of u64_size n (omega (arith, small)) in
      let none_left : ltb (d + n) u64_max ≡ false = ground (arith, full) in
      (11, d, rw (same, none_left) refl, refl, refl);
  takes = λ d some_left.
      let more : (d == 0) ≡ false = ground (arith, some_left) in
      (d - 1, rw more refl, omega (arith, some_left));
  is_empty = λ d z. (11, 0, rw z refl, refl, refl);
}

semaphore_lem_example :
    (1 + 3 < u64_max
      → (d' : ℕ) × (fd_write_u64 ⦃l = counter⦄ 1 (codes "abc") empty ≡ done (some 3, d') empty)
        × Drains counter (λ d. d) counter-IsSemaphore 20 4 d' empty)
    × (u64_max ≤ 1 + 3
        → (d' : ℕ) × (fd_write_u64 ⦃l = counter⦄ 1 (codes "abc") empty ≡ done (none, d') empty)
          × (d' ≡ 1))
semaphore_lem_example =
    semaphore_lem counter (λ d. d) counter-IsSemaphore 1 (codes "abc") 3 20 empty refl (omega arith)
      (omega arith)
