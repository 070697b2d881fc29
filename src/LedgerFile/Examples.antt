-- ===== src/LedgerFile/Examples.antt =====
-- Batches appended to a small ledger of src/trade_alerts/atomic_ledger_append.py.
use trade_alerts.Base.{ℕ, ◌≡◌, refl, Bool, ◌||◌, Option, none, some, List, [], ◌∷◌, nat_eq, length}
use trade_alerts.Result.{ok}
use trade_alerts.Json
use trade_alerts.Json.{Json, Fields}
use trade_alerts.Channels.Text.{Text}
use trade_alerts.LedgerFile.Texts.{strip_left, strip_right, universal, is_boundary, split_lines}
use trade_alerts.LedgerFile.Batch.{
  blob_of, needs_leading_newline, encode_from, append_lines_atomically, events_in, read_ledger,
}
use trade_alerts.LedgerFile.Landing.{Landed, append_lines-Landed, Misread, append_lines-Misread}

abbrev is_space : ℕ → Bool
is_space c = nat_eq c 32 || nat_eq c 10

-- A text that starts with "{" reads as an object.
abbrev loads : Text → Option Json
loads (c ∷ d ∷ t) = some (Json.obj Json.end)
loads _ = none

abbrev torn_file : Text
torn_file = 123 ∷ []

abbrev event : Text
event = 123 ∷ 125 ∷ []

abbrev batch : List Text
batch = event ∷ event ∷ []

batch_encoded : encode_from is_space loads 0 batch ≡ ok batch
unfolding encode_from strip_left strip_right
batch_encoded = refl

append_lines-Landed_example :
    Landed is_space loads torn_file batch
      (append_lines_atomically is_space loads [] batch torn_file)
unfolding is_boundary
append_lines-Landed_example =
    append_lines-Landed is_space loads event (event ∷ []) batch torn_file batch_encoded refl refl

-- The fragment is skipped, and both events are read.
both_read :
    length
      (read_ledger is_space loads (append_lines_atomically is_space loads [] batch torn_file).file)
    ≡ 2
unfolding append_lines_atomically encode_from strip_left strip_right read_ledger events_in universal
    split_lines is_boundary needs_leading_newline blob_of
both_read = refl

-- "{", U+2028, "}"
abbrev separated : Text
separated = 123 ∷ 8232 ∷ 125 ∷ []

separated_encoded : encode_from is_space loads 0 (separated ∷ []) ≡ ok (separated ∷ [])
unfolding encode_from strip_left strip_right
separated_encoded = refl

append_lines-Misread_example :
    Misread is_space loads [] torn_file
      (separated ∷ [])
      (append_lines_atomically is_space loads [] (separated ∷ []) torn_file)
unfolding is_boundary
append_lines-Misread_example =
    append_lines-Misread is_space loads [] separated [] (separated ∷ []) torn_file separated_encoded
      refl
