-- ===== src/Control/Source/Shebang.antt =====
-- b6b_source in src/b6b_interp.c: what is left of a script whose first line names its interpreter.
use b6b.Base.{
  ℕ, ◌+◌, ◌-◌, ◌≡◌, ◌≢◌, refl, ap, ◌∙◌, false, some, [], ◌∷◌, ◌++◌, arith, ◌==◌, length,
  length-append, take, drop-append, All, Bytes,
}
use b6b.Control.Source.{find_newline, behind_line, source_text}

-- A byte of a line.
abbrev pub InLine : ℕ → Type 0
InLine b = (b ≢ b'\n') × (b ≢ 0)

find_newline-line :
    (line body : Bytes) → All InLine line → find_newline (line ++ b'\n' ∷ body) ≡ some (length line)
unfolding find_newline
find_newline-line [] body h = refl
find_newline-line (b ∷ line) body ((n, z), hs) = ground (arith, find_newline-line line body hs)

behind_line-append :
    (x : ℕ) (pre rest : Bytes)
    → behind_line ((x ∷ pre) ++ rest) (some (length (x ∷ pre))) ≡ some (take (length rest - 1) rest)
behind_line-append x pre rest =
    let nz : (length (x ∷ pre) == 0) ≡ false = ground arith in
    let left : length ((x ∷ pre) ++ rest) - (length (x ∷ pre) + 1) ≡ length rest - 1 =
      omega (arith, length-append pre rest) in
    rw (nz, left, drop-append (x ∷ pre) rest) refl

-- Of a script behind a first line of #!, b6b_source takes the newline and all of the rest but its
-- last byte; a script with no such line is taken whole.
pub source_text-shebang :
    (line body : Bytes)
    → All InLine line
    → source_text (b'#' ∷ b'!' ∷ (line ++ b'\n' ∷ body)) ≡ some (take (length body) (b'\n' ∷ body))
unfolding source_text
source_text-shebang line body h =
    let k : length line + 1 + 1 ≡ length (b'#' ∷ b'!' ∷ line) = omega arith in
    rw (find_newline-line line body h, k)
      (behind_line-append (b'#') (b'!' ∷ line) (b'\n' ∷ body)
        ∙ ap (λ n. some (take n (b'\n' ∷ body))) (omega arith))
