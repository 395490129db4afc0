-- ===== src/Examples/Disk.antt =====
-- A file on a disk that has room for five bytes, with the laws that writing relies on.
use b6b.Base.{
  ℕ, zero, suc, ◌-◌, ◌≤◌, ◌≡◌, refl, ap, Bool, true, false, ◌||◌, none, some, List, [], ◌∷◌, ◌++◌,
  inl, Bytes, codes, length, take, ltb, arith,
}
use b6b.Base.Int.{pos}
use b6b.Strm.{Strm, strm_new}
use b6b.Device.{CFile}
use b6b.Device.Stdio.{StdioStrm}
use b6b.Device.File.{file_ops, write_only}
use b6b.Device.Writes.{IsWritable, WritesFile, file_write_lem}
use b6b.Interp.Boot.{empty}

record Disk : Type 0 where
  bytes : Bytes
  bad : Bool
  seen : Bool

abbrev disk : CFile Disk
disk = record {
  ftello = λ fp. none;
  seek_end = λ fp. (some 29, fp);
  seek_set = λ fp n. (some 29, fp);
  fread = λ fp n. ([], fp);
  fwrite = λ fp buf.
      let taken = take (5 - length fp.bytes) buf in
      (
        length taken,
        record { bytes = fp.bytes ++ taken; bad = ltb (length taken) (length buf); seen = fp.seen },
      );
  ferror = λ fp. fp.bad;
  feof = λ fp. false;
  clearerr = λ fp. record fp { bad = false; seen = fp.bad || fp.seen };
  errno = λ fp. 28;
  fclose = λ fp. fp;
  fopen = λ path mode. inl 2;
  fileno = λ fp. pos 3;
  set_cloexec = λ fp. none;
  setbuf = λ fp. fp;
  setvbuf = λ fp n. (false, fp);
  strerror = λ e. none;
}

taken_part {ℓ} :
    {A : Type ℓ} (n : ℕ) (xs : List A)
    → (length (take n xs) ≤ length xs) × (take n xs ≡ take (length (take n xs)) xs)
taken_part zero xs = (omega arith, refl)
taken_part (suc n) [] = (omega arith, refl)
taken_part (suc n) (x ∷ xs) = let (a, b) = taken_part n xs in (omega (arith, a), ap (◌∷◌ x) b)

disk-IsWritable : IsWritable disk (λ fp. fp.bytes) (λ fp. fp.seen ≡ true)
disk-IsWritable = record {
  takes = λ fp buf.
      let (a, b) = taken_part (5 - length fp.bytes) buf in
      (a, ap (λ t. fp.bytes ++ t) b, λ h. ground (arith, h));
  clears = λ fp h. rw h refl;
}

abbrev file : Strm (StdioStrm Disk)
file =
    strm_new (file_ops ⦃l = disk⦄ write_only)
      (record { fp = record { bytes = codes "abc"; bad = false; seen = false }; fd = pos 3 })

file_write_lem_example :
    WritesFile ⦃l = disk⦄
      (λ fp. fp.bytes)
      (λ fp. fp.seen ≡ true)
      disk-IsWritable
      file
      (codes "defg")
      empty
file_write_lem_example =
    file_write_lem ⦃l = disk⦄ (λ fp. fp.bytes) (λ fp. fp.seen ≡ true) disk-IsWritable file
      (codes "defg") empty refl refl
