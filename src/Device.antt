-- ===== src/Device.antt =====
-- What streams stand on: src/b6b_stdio.c (Stdio) and src/b6b_file.c (File). The C library's files
-- are a parameter.
pub mod Stdio
pub mod Refines
pub mod Writes
pub mod File
pub mod Open
pub mod Fd
use b6b.Base.{ℕ, Bool, false, Option, none, some, ◌⊎◌, Bytes}
use b6b.Base.Int.{ℤ}
use b6b.Store.{Res, err}
use b6b.Store.Monad.{M, ◌>>=◌, ◌>>◌, pure, str_copy, return_obj}

-- A FILE of the C library, in all that the code looks at; a call gives the FILE behind it. `errno` is
-- the number that the last failed call left.
pub record CFile (F : Type 0) : Type 0 where
  -- `none` is -1.
  pub ftello : F → Option ℕ
  -- fseeko(fp, 0, SEEK_END) and fseeko(fp, off, SEEK_SET); `some` has the error's number.
  pub seek_end : F → Option ℕ × F
  pub seek_set : F → ℕ → Option ℕ × F
  -- fread(buf, 1, len, fp) and fwrite(buf, 1, len, fp)
  pub fread : F → ℕ → Bytes × F
  pub fwrite : F → Bytes → ℕ × F
  pub ferror : F → Bool
  pub feof : F → Bool
  pub clearerr : F → F
  pub errno : F → ℕ
  pub fclose : F → F
  -- fopen(path, mode): the error's number, or the FILE.
  pub fopen : Bytes → Bytes → ℕ ⊎ F
  pub fileno : F → ℤ
  -- fcntl(fd, F_SETFD, FD_CLOEXEC); `some` has the error's number.
  pub set_cloexec : F → Option ℕ
  -- setbuf(fp, NULL), and setvbuf(fp, buf, bmode, B6B_STRM_BUFSIZ), with whether it failed.
  pub setbuf : F → F
  pub setvbuf : F → ℕ → Bool × F
  -- strerror_r; `none` is NULL.
  pub strerror : ℕ → Option Bytes

abbrev pub set_error : Option Bytes → M (Unit {0})
set_error none = pure tt
set_error (some t) = do o ← str_copy t; _ ← return_obj o; pure tt

-- b6b_return_strerror, with the text that strerror_r gives, or `none` for NULL
unfoldable pub return_strerror : Option Bytes → M Res
unfolding str_copy return_obj
return_strerror t = set_error t >> pure err
