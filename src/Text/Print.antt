-- ===== src/Text/Print.antt =====
-- src/b6b_str.c, b6b_as_str on a list: the text of a list from the texts of its items.
use b6b.Base.{Option, none, some, List, [], ◌∷◌, ◌++◌, if◌then◌else◌, Bytes}
use b6b.Text.{spaced}

-- The three shapes of an item, by `slen` and `b6b_spaced`: bare, or wrapped by one pair of braces.
unfoldable pub quote : Bytes → Bytes
quote [] = b'{' ∷ b'}' ∷ []
quote (c ∷ cs) = if spaced (c ∷ cs) then b'{' ∷ (c ∷ cs) ++ b'}' ∷ [] else c ∷ cs

-- One round of the loop: `none` is `o->s == NULL`, before the first item.
unfoldable pub add_item : Option Bytes → Bytes → Option Bytes
add_item none item = some (quote item)
add_item (some s) item = some (s ++ b' ' ∷ quote item)

unfoldable pub add_items : Option Bytes → List Bytes → Option Bytes
add_items s [] = s
add_items s (item ∷ items) = add_items (add_item s item) items

-- The special case behind the loop: an empty list is `{}`.
unfoldable pub or_braces : Option Bytes → Bytes
or_braces none = b'{' ∷ b'}' ∷ []
or_braces (some s) = s

unfoldable pub print_list : List Bytes → Bytes
print_list items = or_braces (add_items none items)
