-- ===== src/LedgerFile/Batch.antt =====
-- `append_lines_atomically` and `stage_lines` of src/trade_alerts/atomic_ledger_append.py, and
-- `read_ledger` of src/trade_alerts/ledger_reconcile.py.
--
-- A file is its text; a missing file reads as an empty one. `loads` is `json.loads`, and `is_space`
-- the characters that `str.strip` drops. `others` is what a program that takes no lock appends after
-- the write and before the read-back.
use trade_alerts.Base.{
  ℕ, suc, ◌-◌, Bool, true, false, not, Option, none, some, List, [], ◌∷◌, ◌++◌, any, select, length,
  if◌then◌else◌,
}
use trade_alerts.Result.{Result, ok, raised, ◌>>=◌, ◌>>◌, raise_if}
use trade_alerts.Json.{Json, Fields}
use trade_alerts.Channels.Text.{Text, drop, is_blank_text}
use trade_alerts.LedgerFile.Texts.{is_newline, strip_text, universal, split_lines, same_lines}

pub data AppendError : Type 0 where
  blank_line embedded_newline not_json : ℕ → AppendError
  read_back_differs : AppendError

-- Each line with the newline that ends it.
unfoldable pub blob_of : List Text → Text
blob_of [] = []
blob_of (l ∷ ls) = l ++ 10 ∷ blob_of ls

unfoldable pub needs_leading_newline : Text → Bool
needs_leading_newline [] = false
needs_leading_newline (c ∷ []) = not (is_newline c)
needs_leading_newline (c ∷ d ∷ t) = needs_leading_newline (d ∷ t)

abbrev pub batch_text : Text → List Text → Text
batch_text f encoded = if needs_leading_newline f then 10 ∷ blob_of encoded else blob_of encoded

-- target.read_text().splitlines()
abbrev pub lines_of : Text → List Text
lines_of f = split_lines (universal false f)

-- written[-n:], for an n that is not 0
abbrev pub last_lines : ℕ → List Text → List Text
last_lines n written = drop (length written - n) written

abbrev pub read_back : List Text → Text → Result AppendError ℕ
read_back encoded f =
    if same_lines (last_lines (length encoded) (lines_of f)) encoded
    then ok (length encoded)
    else raised read_back_differs

-- What a call returned or raised, and the file that it leaves.
pub record Appended : Type 0 where
  pub result : Result AppendError ℕ
  pub file : Text

abbrev is_some : Option Json → Bool
is_some none = false
is_some (some v) = true

-- What a line stands for: an object, or nothing.
abbrev object_in : Option Json → Option Fields
object_in (some (Json.obj fs)) = some fs
object_in _ = none

abbrev pub keep {ℓ} : {A : Type ℓ} → Option A → List A → List A
keep none xs = xs
keep (some x) xs = x ∷ xs

module _ (is_space : ℕ → Bool) (loads : Text → Option Json) where
  abbrev pub encode_line : ℕ → Text → Result AppendError Text
  encode_line index line = do
    let stripped = strip_text is_newline line
    raise_if (is_blank_text is_space stripped) (blank_line index)
    raise_if (any is_newline stripped) (embedded_newline index)
    raise_if (not (is_some (loads stripped))) (not_json index)
    ok stripped

  unfoldable pub encode_from : ℕ → List Text → Result AppendError (List Text)
  encode_from index [] = ok []
  encode_from index (line ∷ lines) = do
    stripped ← encode_line index line
    rest ← encode_from (suc index) lines
    ok (stripped ∷ rest)

  abbrev pub write_batch : Text → Text → Result AppendError (List Text) → Appended
  write_batch others f (raised e) = record { result = raised e; file = f }
  write_batch others f (ok encoded) =
      let written = f ++ (batch_text f encoded ++ others) in
      record { result = read_back encoded written; file = written }

  unfoldable pub append_lines_atomically : Text → List Text → Text → Appended
  append_lines_atomically others [] f = record { result = ok 0; file = f }
  append_lines_atomically others (line ∷ lines) f =
      write_batch others f (encode_from 0 (line ∷ lines))

  unfoldable pub stage_lines : Text → List Text
  stage_lines f = select (λ line. not (is_blank_text is_space line)) (lines_of f)

  abbrev pub event_of : Text → Option Fields
  event_of line =
      let stripped = strip_text is_space line in
      if is_blank_text is_space stripped then none else object_in (loads stripped)

  unfoldable pub events_in : List Text → List Fields
  events_in [] = []
  events_in (line ∷ lines) = keep (event_of line) (events_in lines)

  unfoldable pub read_ledger : Text → List Fields
  read_ledger f = events_in (lines_of f)
