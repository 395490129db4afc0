-- ===== src/Thread/Join/Scan.antt =====
-- src/b6b_interp.c: what the loops of b6b_yield pass over, and what b6b_wait leaves.
use b6b.Base.{
  suc, ◌+◌, ◌≤◌, ◌≡◌, refl, ap, inl, inr, arith, true, false, Option, none, some, List, [], ◌∷◌,
  ◌++◌, Bool-cases, All, length,
}
use b6b.Thread.{Thread, pending, Found, skip, scan, alive}
use b6b.Thread.Kept.{Waits}

abbrev pub Ended : Thread → Type 0
Ended t = t.done ≡ true

-- What a scan leaves out is done, and what it finds is not.
pub data Scanned (ts : List Thread) : Option Found → Type 0 where
  nothing : All Ended ts → Scanned ts none
  something :
      (f : Found)
      → ts ≡ f.skipped ++ f.thread ∷ f.rest
      → All Ended f.skipped
      → f.thread.done ≡ false
      → Scanned ts (some f)

not-pending : (t : Thread) → Waits t → pending t ≡ false → Ended t
not-pending t w h = ground (arith, w, h)

is-pending : (t : Thread) → pending t ≡ true → t.done ≡ false
is-pending t h = ground (arith, h)

skip-Scanned :
    (t : Thread) (ts : List Thread) (r : Option Found)
    → Ended t
    → Scanned ts r
    → Scanned (t ∷ ts) (skip t r)
skip-Scanned t ts _ e (nothing h) = nothing (e, h)
skip-Scanned t ts _ e (something f q h d) =
    something (record f { skipped = t ∷ f.skipped }) (ap (◌∷◌ t) q) (e, h) d

pub scan-Scanned : (ts : List Thread) → All Waits ts → Scanned ts (scan ts)
unfolding scan
scan-Scanned [] w = nothing tt
scan-Scanned (t ∷ ts) (w, ws) = elim (Bool-cases (pending t)) [
  | inl y ↦
      simp y (something (record { skipped = []; thread = t; rest = ts }) refl tt (is-pending t y))
  | inr n ↦ simp n (skip-Scanned t ts (scan ts) (not-pending t w n) (scan-Scanned ts ws))
]

pub alive-Ended : (xs : List Thread) → All Ended xs → alive xs ≡ []
unfolding alive
alive-Ended [] h = refl
alive-Ended (x ∷ xs) (h, hs) = simp h (alive-Ended xs hs)

pub All-split : (P : Thread → Type 0) (xs ys : List Thread) → All P (xs ++ ys) → All P xs × All P ys
All-split P [] ys h = (tt, h)
All-split P (x ∷ xs) ys (h, hs) = let (a, b) = All-split P xs ys hs in ((h, a), b)

pub All-join : (P : Thread → Type 0) (xs ys : List Thread) → All P xs → All P ys → All P (xs ++ ys)
All-join P [] ys h k = k
All-join P (x ∷ xs) ys (h, hs) k = (h, All-join P xs ys hs k)

pub alive-All : (P : Thread → Type 0) (xs : List Thread) → All P xs → All P (alive xs)
unfolding alive
alive-All P [] h = tt
alive-All P (x ∷ xs) (h, hs) = elim (Bool-cases x.done) [
  | inl y ↦ simp y (alive-All P xs hs)
  | inr n ↦ simp n (h, alive-All P xs hs)
]

pub alive-length : (xs : List Thread) → length (alive xs) ≤ length xs
unfolding alive
alive-length [] = omega arith
alive-length (x ∷ xs) = elim (Bool-cases x.done) [
  | inl y ↦ simp y (omega (arith, alive-length xs))
  | inr n ↦ simp n (omega (arith, alive-length xs))
]

pub split-length :
    (xs ys : List Thread) (t : Thread) → length (xs ++ t ∷ ys) ≡ length xs + suc (length ys)
split-length [] ys t = omega arith
split-length (x ∷ xs) ys t = omega (arith, split-length xs ys t)
