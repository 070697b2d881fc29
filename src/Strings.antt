-- ===== src/Strings.antt =====
-- Texts in order and put together: `<`, `+`, f-strings and `"\n".join`, and lists of texts as JSON
-- values.
use Prim.Native.Nat.{Ordering}
use Prim.Native.String.{compare}
use trade_alerts.Base.{Bool, true, false, List, [], ◌∷◌, String}
use trade_alerts.Json
use trade_alerts.Json.{Json, Items}

-- a < b, on texts
abbrev pub text_lt : String → String → Bool
text_lt a b = elim (compare a b) [ Ordering.lt ↦ true | _ ↦ false ]

unfoldable pub append_text : String → String → String
append_text String.[] t = t
append_text (String.◌∷◌ c s) t = String.◌∷◌ c (append_text s t)

unfoldable pub concat : List String → String
concat [] = ""
concat (s ∷ ss) = append_text s (concat ss)

-- "\n".join(lines)
unfoldable pub join_lines : List String → String
join_lines [] = ""
join_lines (s ∷ []) = s
join_lines (s ∷ t ∷ ss) = append_text s (append_text "\n" (join_lines (t ∷ ss)))

unfoldable pub text_items : List String → Items
text_items [] = Json.nil
text_items (s ∷ ss) = Json.item (Json.str s) (text_items ss)

abbrev pub texts : List String → Json
texts ss = Json.arr (text_items ss)
