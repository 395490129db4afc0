-- ===== src/Examples/Memory.antt =====
-- A file of three bytes in memory, with the laws that reading relies on.
use b6b.Base.{
  ℕ, zero, suc, ◌+◌, ◌≤◌, ◌≡◌, refl, Bool, true, false, none, some, List, [], ◌∷◌, inl, Bytes,
  codes, length, take, drop, ltb, arith,
}
use b6b.Base.Int.{pos}
use native.Mathlib.Decide.{dec_le}
use b6b.Device.{CFile}
use b6b.Device.Refines.{IsRegular}

pub record Memory : Type 0 where
  pub at : ℕ
  pub inside : at ≤ 3
  pub ended : Bool

abbrev pub text : Bytes
text = codes "abc"

length-take-le {ℓ} : {A : Type ℓ} (n : ℕ) (xs : List A) → length (take n xs) ≤ length xs
length-take-le zero xs = omega arith
length-take-le (suc n) [] = omega arith
length-take-le (suc n) (x ∷ xs) = omega (arith, length-take-le n xs)

pub length-take-drop {ℓ} :
    {A : Type ℓ} (n k : ℕ) (xs : List A)
    → k ≤ length xs
    → k + length (take n (drop k xs)) ≤ length xs
length-take-drop n zero xs h = omega (arith, length-take-le n xs)
length-take-drop n (suc k) [] h = absurd (omega arith)
length-take-drop n (suc k) (x ∷ xs) h = omega (arith, length-take-drop n k xs (omega arith))

abbrev pub move_if : Memory → (n : ℕ) → Dec (n ≤ 3) → Memory
move_if fp n (yes h) = record { at = n; inside = h; ended = false }
move_if fp n (no h) = fp

move_if-at : (fp : Memory) (n : ℕ) (d : Dec (n ≤ 3)) → n ≤ 3 → (move_if fp n d).at ≡ n
move_if-at fp n (yes h) k = refl
move_if-at fp n (no h) k = absurd (h k)

instance abbrev pub memory : CFile Memory
memory = record {
  ftello = λ fp. some fp.at;
  seek_end = λ fp. (none, record { at = 3; inside = omega arith; ended = false });
  seek_set = λ fp n. (none, move_if fp n (dec_le n 3));
  fread = λ fp n. (
    take n (drop fp.at text),
    record {
      at = fp.at + length (take n (drop fp.at text));
      inside = length-take-drop n fp.at text fp.inside;
      ended = ltb (length (take n (drop fp.at text))) n;
    },
  );
  fwrite = λ fp bs. (0, fp);
  ferror = λ fp. false;
  feof = λ fp. fp.ended;
  clearerr = λ fp. fp;
  errno = λ fp. 0;
  fclose = λ fp. fp;
  fopen = λ path mode. inl 2;
  fileno = λ fp. pos 3;
  set_cloexec = λ fp. none;
  setbuf = λ fp. fp;
  setvbuf = λ fp n. (true, fp);
  strerror = λ e. some (codes "no such file");
}

pub memory-IsRegular : IsRegular memory (λ fp. text) (λ fp. fp.at)
memory-IsRegular = record {
  tells = λ fp. (refl, omega (arith, fp.inside));
  seeks_end = λ fp. (refl, refl, refl);
  seeks_set = λ fp n h. (refl, refl, move_if-at fp n (dec_le n 3) h);
  reads = λ fp n. (refl, refl, refl, refl, refl);
}
