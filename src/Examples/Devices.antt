-- ===== src/Examples/Devices.antt =====
-- The theorems on streams and files at concrete inputs.
use b6b.Base.{
  inr, ℕ, ◌≡◌, ◌↔◌, refl, ◌==◌, if◌then◌else◌, Bool, true, false, Option, none, some, [], ◌∷◌, ◌++◌,
  inr, Bytes, codes, arith,
}
use b6b.Base.Int.{pos}
use b6b.Tests.{toy}
use b6b.Store.{State, ok, err, blank_obj}
use b6b.Store.Monad.{M, done}
use b6b.Interp.Boot.{empty}
use b6b.Strm.{Strm, StrmOps, strm_new, strm_close}
use b6b.Strm.Procs.{strm_proc, strm_op}
use b6b.Strm.Read.{ReadsPart, strm_read_lem}
use b6b.Strm.Write.{Outlet, WritesPart, strm_write_lem, IsSink}
use b6b.Strm.Flags.{Later, strm_proc-Later}
use b6b.Device.{CFile}
use b6b.Device.Stdio.{StdioStrm, stdio_read}
use b6b.Device.File.{
  file_ops, read_only, Buffering, fbf, dropped, open_path, file_def_mode, file_mode,
}
use b6b.Device.Open.{file_mode_iff, open_path-setvbuf, Access, reading, base, suffix, mode_of}
use b6b.Device.Refines.{
  file_view, stdio_read-IsSource, stdio_peeksz-IsPeek, ReadsFile, file_read_lem,
}
use b6b.Examples.Memory.{Memory, memory, memory-IsRegular, text}

-- A stream over the file, from its second byte on.
abbrev file : Strm (StdioStrm Memory)
file =
    strm_new (file_ops read_only)
      (record { fp = record { at = 1; inside = omega arith; ended = false }; fd = pos 3 })

strm_read_lem_example :
    ReadsPart (file_view {F = Memory} (λ fp. text) (λ fp. fp.at) memory-IsRegular) file 1 empty
strm_read_lem_example =
    strm_read_lem (file_view {F = Memory} (λ fp. text) (λ fp. fp.at) memory-IsRegular) file
      stdio_read 1 empty refl refl refl
      (stdio_read-IsSource (λ fp. text) (λ fp. fp.at) memory-IsRegular)
      (stdio_peeksz-IsPeek (λ fp. text) (λ fp. fp.at) memory-IsRegular)

file_read_lem_example : ReadsFile (λ fp. text) (λ fp. fp.at) memory-IsRegular file 5 empty
file_read_lem_example =
    file_read_lem (λ fp. text) (λ fp. fp.at) memory-IsRegular file 5 empty refl refl refl refl

-- A device that takes one byte at a time.
abbrev take_one : Bytes → Bytes → M (Option ℕ × Bytes)
take_one d [] st = done (some 0, d) st
take_one d (b ∷ bs) st = done (some 1, d ++ b ∷ []) st

abbrev tape : Outlet Bytes
tape = record { sent = λ d. d; IsFull = λ d. Unit; IsBroken = λ d. ⊥ }

take_one-IsSink : IsSink tape take_one
take_one-IsSink d [] st h = absurd (omega arith)
take_one-IsSink d (b ∷ bs) st h = record {
  reply = some 1;
  dev = d ++ b ∷ [];
  after = st;
  runs = refl;
  exact = (b ∷ [], bs, refl, refl, refl, λ e. tt);
}

abbrev tape_ops : StrmOps Bytes
tape_ops = record {
  peeksz = none;
  read = none;
  write = some take_one;
  peer = none;
  accept = none;
  fd = λ d. pos 0;
  close = none;
}

abbrev tape_strm : Strm Bytes
tape_strm = strm_new tape_ops []

strm_write_lem_example : WritesPart tape tape_strm (codes "hello") empty
strm_write_lem_example =
    strm_write_lem tape tape_strm (codes "hello") take_one empty refl refl take_one-IsSink

-- The stream at 2 is told to do the operation at 3.
abbrev calls : Bytes → State
calls op = record empty {
  cell = λ p.
      if p == 1
      then some (record blank_obj { is_list = true; l = 2 ∷ 3 ∷ [] })
      else if p == 2
      then some (record blank_obj { is_str = true })
      else if p == 3
      then some (record blank_obj { is_str = true; s = op })
      else none;
  next = 4;
}

abbrev shut : Strm Bytes
shut = record { ops = tape_ops; priv = codes "x"; closed = true; eof = true }

strm_proc-close :
    strm_proc 9 tape_strm 1 (calls (codes "close"))
    ≡ done (ok, record tape_strm { closed = true; eof = true }) (calls (codes "close"))
unfolding strm_proc strm_op strm_close
strm_proc-close = refl

strm_proc-Later_example : Later tape_strm (record tape_strm { closed = true; eof = true })
strm_proc-Later_example =
    strm_proc-Later tape_strm 9 1 (calls (codes "close")) ok _ (calls (codes "close"))
      (record { closed-eof = λ e. absurd cc }) strm_proc-close

file_mode_iff_example : (file_mode (codes "r+b") ≡ some (mode_of reading true fbf)) ↔ (
    (a : Access) × (plus : Bool) × (b : Buffering) × (mode_of reading true fbf ≡ mode_of a plus b)
    × (codes "r+b" ≡ base a plus ++ suffix b))
file_mode_iff_example = file_mode_iff (codes "r+b") (mode_of reading true fbf)

-- The file opens, and its buffer is refused.
abbrev first : Memory
first = record { at = 0; inside = omega arith; ended = false }

abbrev unbuffered : CFile Memory
unbuffered = record memory { fopen = λ path mode. inr first }

open_path-setvbuf_example :
    (after : State) × (open_path ⦃l = unbuffered⦄ 16 (codes "a") file_def_mode empty
      ≡ done (err, dropped first) after)
open_path-setvbuf_example =
    open_path-setvbuf ⦃l = unbuffered⦄ 16 (codes "a") file_def_mode empty first first refl refl
      (λ e. absurd cc) (λ n. refl)
