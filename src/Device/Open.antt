-- ===== src/Device/Open.antt =====
-- src/b6b_file.c: the modes that `open` knows, and how it ends where the system refuses.
use b6b.Base.{
  ℕ, ◌≡◌, refl, sym, ap, ◌∙◌, ◌≢◌, ◌↔◌, inl, inr, Bool, true, false, none, some, List, [], ◌∷◌,
  ◌++◌, if◌then◌else◌, Bytes, codes, bytes_eq, bytes_eq_iff, Bool-cases, All, arith,
}
use mathlib.Core.Path.{subst}
use mathlib.Core.Option.{some-injective}
use b6b.Base.Int.{ℤ}
use b6b.Store.{blank_obj, Ptr, State, err}
use b6b.Store.Monad.{done, str_copy, return_obj, update_same, alloc}
use b6b.Object.Args.{c_str}
use b6b.Strm.{strm_close, strm_new}
use b6b.Strm.Procs.{strm_fmt}
use b6b.Device.{CFile, return_strerror}
use b6b.Device.File.{
  Opened, Buffering, lbf, fbf, nbf, Table, read_only, write_only, read_write, FileMode, file_modes,
  find_mode, file_mode, dropped, nothing, open_path, file_new, buffered, file_ops,
}

-- How a mode is put together.
pub data Access : Type 0 where
  reading writing appending : Access

abbrev pub letter : Access → Bytes
letter reading = codes "r"
letter writing = codes "w"
letter appending = codes "a"

abbrev pub base : Access → Bool → Bytes
base a plus = letter a ++ (if plus then codes "+" else [])

abbrev pub suffix : Buffering → Bytes
suffix lbf = []
suffix fbf = codes "b"
suffix nbf = codes "u"

abbrev pub table : Access → Bool → Table
table a true = read_write
table reading false = read_only
table writing false = write_only
table appending false = write_only

abbrev pub mode_of : Access → Bool → Buffering → FileMode
mode_of a plus b = record {
  mode = base a plus ++ suffix b;
  fmode = base a plus;
  ops = table a plus;
  bmode = b;
}

abbrev IsMode : FileMode → Type 0
IsMode m = (a : Access) × (plus : Bool) × (b : Buffering) × (m ≡ mode_of a plus b)

file_modes-IsMode : All IsMode file_modes
file_modes-IsMode = (
  (reading, false, lbf, refl),
  (
    (writing, false, lbf, refl),
    (
      (appending, false, lbf, refl),
      (
        (reading, false, fbf, refl),
        (
          (writing, false, fbf, refl),
          (
            (appending, false, fbf, refl),
            (
              (reading, false, nbf, refl),
              (
                (writing, false, nbf, refl),
                (
                  (appending, false, nbf, refl),
                  (
                    (reading, true, lbf, refl),
                    (
                      (writing, true, lbf, refl),
                      (
                        (appending, true, lbf, refl),
                        (
                          (reading, true, fbf, refl),
                          (
                            (writing, true, fbf, refl),
                            (
                              (appending, true, fbf, refl),
                              (
                                (reading, true, nbf, refl),
                                ((writing, true, nbf, refl), ((appending, true, nbf, refl), tt)),
                              ),
                            ),
                          ),
                        ),
                      ),
                    ),
                  ),
                ),
              ),
            ),
          ),
        ),
      ),
    ),
  ),
)

find_mode-found :
    (ms : List FileMode) (s : Bytes) (m : FileMode)
    → All IsMode ms
    → find_mode ms s ≡ some m
    → IsMode m × (m.mode ≡ c_str s)
unfolding find_mode
find_mode-found [] s m h e = absurd cc
find_mode-found (x ∷ xs) s m (hx, hs) e = elim (Bool-cases (bytes_eq x.mode (c_str s))) [
  | inl q ↦
      let i : x ≡ m = some-injective _ _ (rw q at e) in
      (subst IsMode i hx, ap (λ y. y.mode) (sym i) ∙ (bytes_eq_iff x.mode (c_str s)).0 q)
  | inr q ↦ find_mode-found xs s m hs (rw q at e)
]

file_mode-mode_of :
    (a : Access) (plus : Bool) (b : Buffering)
    → file_mode (base a plus ++ suffix b) ≡ some (mode_of a plus b)
unfolding file_mode find_mode
file_mode-mode_of reading true lbf = refl
file_mode-mode_of reading true fbf = refl
file_mode-mode_of reading true nbf = refl
file_mode-mode_of reading false lbf = refl
file_mode-mode_of reading false fbf = refl
file_mode-mode_of reading false nbf = refl
file_mode-mode_of writing true lbf = refl
file_mode-mode_of writing true fbf = refl
file_mode-mode_of writing true nbf = refl
file_mode-mode_of writing false lbf = refl
file_mode-mode_of writing false fbf = refl
file_mode-mode_of writing false nbf = refl
file_mode-mode_of appending true lbf = refl
file_mode-mode_of appending true fbf = refl
file_mode-mode_of appending true nbf = refl
file_mode-mode_of appending false lbf = refl
file_mode-mode_of appending false fbf = refl
file_mode-mode_of appending false nbf = refl

c_str-c_str : (s : Bytes) → c_str (c_str s) ≡ c_str s
c_str-c_str [] = refl
c_str-c_str (b ∷ bs) = ground (arith, c_str-c_str bs)

find_mode-c_str : (ms : List FileMode) (s : Bytes) → find_mode ms (c_str s) ≡ find_mode ms s
unfolding find_mode
find_mode-c_str [] s = refl
find_mode-c_str (m ∷ ms) s = rw (c_str-c_str s, find_mode-c_str ms s) refl

-- `open` knows just the modes that are a letter, perhaps a +, and perhaps b or u for the buffering;
-- it opens the file with the first two, and the stream can be read for r and for +, and written for
-- all but r.
pub file_mode_iff :
    (s : Bytes) (m : FileMode)
    → (file_mode s ≡ some m) ↔ (
        (a : Access) × (plus : Bool) × (b : Buffering) × (m ≡ mode_of a plus b)
        × (c_str s ≡ base a plus ++ suffix b))
unfolding file_mode
file_mode_iff s m = (sound, complete)
  where
    sound :
        find_mode file_modes s ≡ some m
        → (a : Access) × (plus : Bool) × (b : Buffering) × (m ≡ mode_of a plus b)
          × (c_str s ≡ base a plus ++ suffix b)
    sound e =
        let ((a, plus, b, i), c) = find_mode-found file_modes s m file_modes-IsMode e in
        (a, plus, b, i, sym c ∙ ap (λ y. y.mode) i)

    complete :
        ((a : Access) × (plus : Bool) × (b : Buffering) × (m ≡ mode_of a plus b)
          × (c_str s ≡ base a plus ++ suffix b))
        → find_mode file_modes s ≡ some m
    complete (a, plus, b, i, c) =
        sym (find_mode-c_str file_modes s)
        ∙ ap (find_mode file_modes) c
        ∙ file_mode-mode_of a plus b
        ∙ ap some (sym i)

-- What b6b_return_strerror leaves is the text of the error.
return_strerror-runs :
    (t : Bytes) (st : State)
    → (after : State) × (return_strerror (some t) st ≡ done err after)
      × (after.cell after.under ≡ some (record blank_obj { s = t; is_str = true }))
unfolding return_strerror str_copy return_obj alloc
return_strerror-runs t st = (_, refl, update_same st.cell st.next _)

module _ {F : Type 0} ⦃l : CFile F⦄ (addr : ℕ) (path : Bytes) (m : FileMode) (st : State) where
  -- How `open` ends with an error: `_` is its text.
  abbrev pub EndsWith : Bytes → Opened F → Type 0
  EndsWith t o =
      (after : State) × (open_path addr path m st ≡ done (err, o) after)
      × (after.cell after.under ≡ some (record blank_obj { s = t; is_str = true }))

  -- Where the system does not open the file, or does not mark its descriptor as one to be closed by
  -- exec, `open` ends with an error and `_` is the text of the error; nothing stays open.
  pub open_path-refused :
      (e : ℕ) (t : Bytes)
      → l.strerror e ≡ some t
      → (l.fopen (c_str path) m.fmode ≡ inl e → EndsWith t nothing)
        × ((fp : F)
            → l.fopen (c_str path) m.fmode ≡ inr fp
            → l.set_cloexec fp ≡ some e
            → EndsWith t (dropped (l.fclose fp)))
  unfolding open_path
  open_path-refused e t ht =
      let (after, runs, text) = return_strerror-runs t st in
      (
        λ h. (after, rw (h, ht) (ground (arith, runs)), text),
        λ fp h hc. (after, rw (h, hc, ht) (ground (arith, runs)), text),
      )

  -- The object is made first; what becomes of the FILE is a matter of its buffer.
  file_new-runs :
      (fp : F) (fd : ℤ) (b : Buffering) (t : Table)
      → (o : Ptr) × (after : State) × (file_new addr fp fd b t st
          ≡ done (buffered fp b (o, strm_new (file_ops t) (record { fp = fp; fd = fd }))) after)
  unfolding file_new strm_fmt str_copy alloc
  file_new-runs fp fd b t = (_, _, refl)

  buffered-setvbuf :
      (fp fp' : F) (fd : ℤ) (b : Buffering) (t : Table) (o : Ptr)
      → b ≢ nbf
      → ((n : ℕ) → l.setvbuf fp n ≡ (true, fp'))
      → buffered fp b (o, strm_new (file_ops t) (record { fp = fp; fd = fd }))
        ≡ dropped (l.fclose fp')
  unfolding strm_close
  buffered-setvbuf fp fp' fd lbf t o hb hv = rw (hv 1) refl
  buffered-setvbuf fp fp' fd fbf t o hb hv = rw (hv 0) refl
  buffered-setvbuf fp fp' fd nbf t o hb hv = absurd (hb refl)

  -- Where the buffer of an open file is refused, the FILE is closed twice.
  pub open_path-setvbuf :
      (fp fp' : F)
      → l.fopen (c_str path) m.fmode ≡ inr fp
      → l.set_cloexec fp ≡ none
      → m.bmode ≢ nbf
      → ((n : ℕ) → l.setvbuf fp n ≡ (true, fp'))
      → (after : State) × (open_path {F = F} addr path m st
          ≡ done (err, dropped (l.fclose (l.fclose fp'))) after)
  unfolding open_path
  open_path-setvbuf fp fp' h hc hb hv =
      let (o, after, runs) = file_new-runs fp (l.fileno fp) m.bmode m.ops in
      let shut = buffered-setvbuf fp fp' (l.fileno fp) m.bmode m.ops o hb hv in
      (after, rw (h, hc) (ground (arith, runs ∙ ap (λ x. done x after) shut)))
