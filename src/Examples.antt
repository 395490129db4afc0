-- ===== src/Examples.antt =====
-- The theorems at concrete inputs.
pub mod Memory
pub mod Threads
pub mod Descriptors
pub mod Devices
pub mod Disk
pub mod Unset
pub mod Foreign
pub mod Outside
pub mod Pipes
pub mod Connection
pub mod Texts
pub mod Handed
use b6b.Base.{
  ℕ, ◌+◌, ◌<◌, ◌^◌, ◌≡◌, refl, ◌≢◌, ◌↔◌, ◌⊎◌, true, false, Option, none, some, List, [], ◌∷◌, ◌++◌,
  if◌then◌else◌, ◌==◌, Bytes, codes, length, arith,
}
use b6b.Tests.{toy}
use b6b.Store.{Ptr, Obj, State, Res, ok, err, break, blank_obj}
use b6b.Store.Monad.{M, done, timeout}
use b6b.Object.{flushed, obj_eq}
use b6b.Store.Monad.{pure, return_obj}
use b6b.Store.Keeps.{Keeps, pure-Keeps, return_obj-Keeps}
use b6b.Store.{Proc}
use b6b.Interp.Eval.{stmt_call_with}
use b6b.Interp.Dispatch.{call}
use b6b.Interp.Dispatch.Keeps.{call-Keeps}
use b6b.Interp.Balance.{stmt_call_with-Keeps}
use b6b.Object.Cells.{Ends}
use b6b.Interp.Boot.{empty}
use b6b.Text.{is_space, spaced}
use b6b.Text.Print.{print_list}
use b6b.Text.Parse.{parse_list, items, out_of_fuel}
use b6b.Text.RoundTrip.{reads_back, nests, parse_list-print_list}
use b6b.Text.Fuel.{parse_list_total}
use b6b.Str.Expand.{expand, expanded}
use b6b.Str.Expand.Grammar.{Expands}
use b6b.Str.Expand.Correct.{IsError, expand_iff}
use b6b.Str.Split.{split, pieces, overrun, join}
use b6b.Str.Split.Correct.{split_total, IsSplit}
use b6b.Str.Trim.{rtrim_len, ltrim_len}
use b6b.Str.Trim.Correct.{rtrim_len_lem, ltrim_len_lem}
use b6b.Hash.{hash, hash_init, hash_update, hash_finish, hash-append}
use b6b.Lists.Ops.{list_extend}
use b6b.Lists.Ops.Extend.{list_extend_lem, list_extend_self}
use b6b.Dict.Ops.{dict_set, dict_get}
use b6b.Dict.Ops.Model.{lookup, with_pair}
use b6b.Dict.Ops.Refines.{dict_get_lem, dict_set_lem}
use b6b.Dict.Ops.Laws.{dict_get-dict_set}
use b6b.Control.Exc.{try_blocks}
use b6b.Control.Exc.Correct.{caught_finally, Tries-try_blocks}
use b6b.Control.Loop.{loop_rounds}
use b6b.Control.Loop.Rounds.{Rounds, loop_rounds_iff}

-- A dictionary at 0 with one pair, its key at 3; and another key at 1.
abbrev pairs : Obj
pairs = record blank_obj { is_list = true; l = 3 ∷ 4 ∷ [] }

abbrev key : Bytes → Obj
key s = record blank_obj { s = s; is_str = true; hash = length s; is_hashed = true }

abbrev cells : Ptr → Option Obj
cells q =
    if q == 0
    then some pairs
    else if q == 1
    then some (key (codes "a"))
    else if q == 3
    then some (key (codes "bc"))
    else none

abbrev small : State
small = record empty { cell = cells; next = 5 }

-- Block 0 fails and leaves `_` at 7, block 1 succeeds, and block 2 breaks.
abbrev run_block : Ptr → M Res
run_block p st =
    if p == 0
    then done err (record st { under = 7 })
    else if p == 1
    then done ok st
    else done break (record st { under = 9 })

parse_list-print_list_example :
    parse_list (print_list (codes "a b" ∷ [] ∷ codes "c" ∷ []))
    ≡ items (codes "a b" ∷ [] ∷ codes "c" ∷ [])
unfolding reads_back nests spaced is_space
parse_list-print_list_example =
    parse_list-print_list (codes "a b") ([] ∷ codes "c" ∷ [])
      ((refl, omega arith), ((refl, omega arith), ((refl, omega arith), tt)))

dict_get-dict_set_example :
    (st' : State) × (was : Option Ptr) × (dict_set 3 0 1 2 small ≡ done true st')
    × (dict_get 3 0 3 small ≡ done (some was) small)
    × (dict_get 3 0 3 st'
        ≡ done (some (if obj_eq (key (codes "a")) (key (codes "bc")) then some 2 else was)) st')
dict_get-dict_set_example =
    dict_get-dict_set 3 0 1 2 3 (key (codes "a")) (key (codes "bc")) pairs small refl refl refl refl
      refl (omega arith) (omega arith) ((key (codes "bc"), refl, refl), tt) (omega arith, tt)

Tries-try_blocks_example :
    try_blocks run_block 4 0 (1 ∷ 2 ∷ []) empty ≡ done break (record empty { under = 7 })
Tries-try_blocks_example =
    Tries-try_blocks run_block 0 (1 ∷ 2 ∷ []) empty (record empty { under = 7 }) break
      (caught_finally {mid = record empty { under = 7 }} refl refl refl)

expand_iff_example :
    ((t : Bytes) → (expand (codes "a\\n") ≡ expanded t) ↔ Expands (codes "a\\n") t)
    × (((t : Bytes) × Expands (codes "a\\n") t) ⊎ IsError (expand (codes "a\\n")))
expand_iff_example = expand_iff (codes "a\\n") (omega arith)

split_test : split (codes "a,b") (codes ",") ≡ pieces (codes "a" ∷ codes "b" ∷ [])
unfolding split
split_test = refl

list_extend_lem_example :
    Ends
      (list_extend 3 1 0 small)
      tt
      small
      1
      (flushed (record (key (codes "a")) { l = 3 ∷ 4 ∷ [] }))
list_extend_lem_example = list_extend_lem 1 0 (key (codes "a")) pairs small (omega arith) refl refl

list_extend_self_example : list_extend 100 0 0 small ≡ timeout
list_extend_self_example = list_extend_self 100 0 pairs small refl (ground arith)

loop_rounds_iff_example :
    ((n : ℕ) × (loop_rounds n run_block 2 empty ≡ done ok (record empty { under = 9 })))
    ↔ Rounds (run_block 2) empty ok (record empty { under = 9 })
loop_rounds_iff_example = loop_rounds_iff run_block 2 empty (record empty { under = 9 }) ok

dict_set_lem_example :
    Ends
      (dict_set 3 0 1 2 small)
      true
      small
      0
      (flushed (record pairs { l = with_pair small.cell (key (codes "a")) 1 2 pairs.l }))
dict_set_lem_example =
    dict_set_lem 3 0 1 2 (key (codes "a")) pairs small refl refl refl
      ((key (codes "bc"), refl, refl), tt)

parse_list_total_example : parse_list (codes "a {b c} [d") ≢ out_of_fuel
parse_list_total_example = parse_list_total (codes "a {b c} [d")

-- A procedure that succeeds at once.
abbrev succeed : Proc → Ptr → M Res
succeed p args = pure ok

stmt_call_with-Keeps_example : Keeps (stmt_call_with succeed return_obj 3 0)
stmt_call_with-Keeps_example =
    stmt_call_with-Keeps succeed return_obj 3 0 (λ p q. pure-Keeps ok) return_obj-Keeps

call-Keeps_example : Keeps (call 5 0)
call-Keeps_example = call-Keeps 5 0

split_total_example :
    ((ps : List Bytes) × (split (codes "a,b") (codes ",") ≡ pieces ps)
      × IsSplit (codes ",") (codes "a,b") ps
      × (join (codes ",") ps ≡ codes "a,b"))
    ⊎ ((split (codes "a,b") (codes ",") ≡ overrun) × (2 < length (codes ",")))
split_total_example = split_total (codes "a,b") (codes ",") (refl, tt)
