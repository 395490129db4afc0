-- ===== src/Strm/Flags.antt =====
-- src/b6b_strm.c: the two flags of a stream under the operations that a script calls.
use b6b.Base.{ℕ, ◌≡◌, refl, Bool, true, false, Option, none, some, Bytes, arith, if◌then◌else◌}
use b6b.CLib.{CLib}
use b6b.Store.{Ptr, State, Res, ok, err}
use b6b.Store.Monad.{M, done, pure}
use b6b.Strm.{
  Strm, strm_close, strm_read, strm_write, strm_writeln, strm_accept, strm_fd, write_open,
  accept_open,
}
use b6b.Strm.Procs.{strm_proc}
use b6b.Strm.Leads.{Allows, strm_proc-Leads}

-- A closed stream is at its end too.
pub record IsSound {D : Type 0} (s : Strm D) : Type 0 where
  pub closed-eof : s.closed ≡ true → s.eof ≡ true

-- The flags are only ever set, and the table stays.
pub record Later {D : Type 0} (s s' : Strm D) : Type 0 where
  pub sound : IsSound s'
  pub still_eof : s.eof ≡ true → s'.eof ≡ true
  pub still_closed : s.closed ≡ true → s'.closed ≡ true
  pub same_ops : s'.ops ≡ s.ops

either :
    {A : Type 0} (P : A → Type 0) (b : Bool) (x y : A)
    → (b ≡ true → P x)
    → (b ≡ false → P y)
    → P (if b then x else y)
either P true x y hx hy = hx refl
either P false x y hx hy = hy refl

write_closed :
    {D : Type 0} (s : Strm D) (buf : Bytes)
    → s.closed ≡ true
    → (f : Option (D → Bytes → M (Option ℕ × D))) → write_open s buf f ≡ pure (err, s)
write_closed s buf hc none = refl
write_closed s buf hc (some f) = rw hc refl

accept_closed :
    {D : Type 0} (s : Strm D) (k : ℕ)
    → s.closed ≡ true
    → (f : Option (D → M (Option (Option Ptr) × D))) → accept_open k s f ≡ pure (err, s)
accept_closed s k hc none = refl
accept_closed s k hc (some f) = rw hc refl

module _ {D : Type 0} (s : Strm D) where
  Later-Allows : IsSound s → Allows (Later s) s
  unfolding strm_close
  Later-Allows h = record {
    same = record { sound = h; still_eof = λ e. e; still_closed = λ e. e; same_ops = refl };
    shut =
        either (Later s) s.closed s _
          (λ _. record { sound = h; still_eof = λ e. e; still_closed = λ e. e; same_ops = refl })
          (λ _. record {
            sound = record { closed-eof = λ e. refl };
            still_eof = λ e. refl;
            still_closed = λ e. refl;
            same_ops = refl;
          });
    moved = λ hc d. record {
      sound = record { closed-eof = h.closed-eof };
      still_eof = λ e. e;
      still_closed = λ e. e;
      same_ops = refl;
    };
    filled = λ hc he d e. record {
      sound = record { closed-eof = λ q. ground (arith, hc, q) };
      still_eof = λ q. ground (arith, he, q);
      still_closed = λ q. q;
      same_ops = refl;
    };
    asked = λ f e d. record {
      sound = record { closed-eof = h.closed-eof };
      still_eof = λ e. e;
      still_closed = λ e. e;
      same_ops = refl;
    };
  }

  module _ ⦃c : CLib⦄ (n : ℕ) (args : Ptr) (st : State) (res : Res) (s' : Strm D)
      (st' : State) where
    -- Whatever a script does with a stream, a flag that is set stays set, a closed stream is at its
    -- end, and the table of functions is the same.
    pub strm_proc-Later : IsSound s → strm_proc n s args st ≡ done (res, s') st' → Later s s'
    strm_proc-Later h e =
        (strm_proc-Leads (Later s) s (Later-Allows h) n args).gives st (res, s') st' e

-- A closed stream refuses to be written to, to accept and to give its descriptor, while reading from
-- it succeeds without a result, since its end is looked at first. None of them touches anything.
pub closed_stream_answers :
    {D : Type 0} (s : Strm D) (k want : ℕ) (buf : Bytes)
    → IsSound s
    → s.closed ≡ true
    → (strm_read s want ≡ pure (ok, s))
      × (strm_write s buf ≡ pure (err, s))
      × (strm_writeln s buf ≡ pure (err, s))
      × (strm_accept k s ≡ pure (err, s))
      × (strm_fd s ≡ pure (err, s))
unfolding strm_read strm_write strm_writeln strm_accept strm_fd
closed_stream_answers s k want buf h hc = (
  rw (h.closed-eof hc) refl,
  write_closed s buf hc s.ops.write,
  write_closed s _ hc s.ops.write,
  accept_closed s k hc s.ops.accept,
  rw hc refl,
)
