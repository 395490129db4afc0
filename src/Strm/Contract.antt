-- ===== src/Strm/Contract.antt =====
-- What the loops of src/b6b_strm.c rely on a device for: it ends, it delivers what is pending from
-- the front, no more than it is asked for, and less only where it has a reason.
use b6b.Base.{
  ◌≤◌, ◌<◌, ℕ, ◌≡◌, refl, true, false, Option, none, some, [], ◌++◌, length, Bytes, ◌==◌,
}
use b6b.Store.{State}
use b6b.Store.Monad.{M, done}
use b6b.Strm.{Got, bufsiz, strm_peeksz}

-- How a device looks from outside: the bytes that it has not delivered yet, whether it has nothing
-- to deliver for now, and whether it may fail.
pub record View (D : Type 0) : Type 1 where
  pub pending : D → Bytes
  pub IsIdle : D → Type 0
  pub IsBroken : D → Type 0

module _ {D : Type 0} (v : View D) where
  open v use {pending, IsIdle, IsBroken}

  -- What is put into the buffer comes from the front of what is pending, and `n` bytes at most.
  abbrev pub IsChunk : D → ℕ → D → Option Got → Type 0
  IsChunk d n dev none = IsBroken dev
  IsChunk d n dev (some g) =
      (pending d ≡ g.bytes ++ pending dev)
      × (length g.bytes ≤ n)
      × (g.eof ≡ true → pending dev ≡ [])
      × (g.eof ≡ true → IsIdle dev)
      × (g.again ≡ false → IsIdle dev)
      × ((length g.bytes == 0) ≡ true → IsIdle dev)

  -- One call of `read` ends.
  pub record Delivers (f : D → ℕ → M (Option Got × D)) (d : D) (n : ℕ) (st : State) : Type 0 where
    pub reply : Option Got
    pub dev : D
    pub after : State
    pub runs : f d n st ≡ done (reply, dev) after
    pub exact : IsChunk d n dev reply

  abbrev pub IsSource : (D → ℕ → M (Option Got × D)) → Type 0
  IsSource f = (d : D) (n : ℕ) (st : State) → 0 < n → Delivers f d n st

  -- Nothing is taken, and 0 is only said by an idle device.
  abbrev pub IsGuess : D → D → Option ℕ → Type 0
  IsGuess d dev none = IsBroken dev
  IsGuess d dev (some n) = (pending dev ≡ pending d) × ((n == 0) ≡ true → IsIdle dev)

  -- One call of `peeksz` ends.
  pub record Peeked (m : M (Option ℕ × D)) (d : D) (st : State) : Type 0 where
    pub reply : Option ℕ
    pub dev : D
    pub after : State
    pub runs : m st ≡ done (reply, dev) after
    pub exact : IsGuess d dev reply

  abbrev pub IsPeek : Option (D → M (Option ℕ × D)) → Type 0
  IsPeek none = Unit
  IsPeek (some f) = (d : D) (st : State) → Peeked (f d) d st

  pub strm_peeksz-Peeked :
      (peek : Option (D → M (Option ℕ × D)))
      → IsPeek peek
      → (d : D) (st : State) → Peeked (strm_peeksz peek d) d st
  strm_peeksz-Peeked none h d st = record {
    reply = some bufsiz;
    dev = d;
    after = st;
    runs = refl;
    exact = (refl, λ q. absurd cc);
  }
  strm_peeksz-Peeked (some f) h d st = h d st
