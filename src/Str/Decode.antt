-- ===== src/Str/Decode.antt =====
-- src/b6b_str.c, b6b_str_decode: a text is cut into its characters.
use b6b.Base.{ℕ, zero, suc, Option, none, some, List, [], ◌∷◌, take, drop, Bytes}
use b6b.CLib.{CLib}

module _ ⦃c : CLib⦄ where
  abbrev cons? : Bytes → Option (List Bytes) → Option (List Bytes)
  cons? t none = none
  cons? t (some ts) = some (t ∷ ts)

  -- The loop over what is left of the text. Each character takes a byte at least, so the text's
  -- length is enough rounds.
  unfoldable pub decode : ℕ → Bytes → Option (List Bytes)
  decode f [] = some []
  decode zero (b ∷ bs) = none
  decode (suc f) (b ∷ bs) = elim (c.char_len (b ∷ bs)) [
    | none ↦ none
    | some k ↦ cons? (take k (b ∷ bs)) (decode f (drop k (b ∷ bs)))
  ]
