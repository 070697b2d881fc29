-- ===== src/Outbox/Requeue.antt =====
-- `requeue_rejected_projection_intents` of src/trade_alerts/projection_outbox.py. The new ids and times
-- are functions of the number of the copy.
use Prim.Native.String
use trade_alerts.Base.{
  ℕ, zero, suc, ◌/◌, ◌%◌, Bool, false, ◌&&◌, ◌||◌, not, none, some, List, [], ◌∷◌, ◌++◌, String,
  ◌==◌, any, ltb, nat_eq, if◌then◌else◌,
}
use trade_alerts.Base.Int.{pos, negsuc}
use trade_alerts.Result.{Result, ok, ◌>>=◌}
use trade_alerts.Jsonl.{File, append_record}
use trade_alerts.Outbox.Cells.{Cell, null, int, str, cell_eq, get_or_null}
use trade_alerts.Outbox.Records.{
  OutboxError, Intent, Record, intent_v1, dispatch_v1, other_kind, intent_from_record,
}
use trade_alerts.Outbox.Queue.{read_outbox, same_key, record_of_intent}

digit : ℕ → String
digit n =
    if nat_eq n 0
    then "0"
    else if nat_eq n 1
    then "1"
    else if nat_eq n 2
    then "2"
    else if nat_eq n 3
    then "3"
    else if nat_eq n 4
    then "4"
    else if nat_eq n 5
    then "5"
    else if nat_eq n 6
    then "6"
    else if nat_eq n 7
    then "7"
    else if nat_eq n 8
    then "8"
    else "9"

-- the digits of n, for fuel above n
decimal : ℕ → ℕ → String
decimal zero n = ""
decimal (suc fuel) n =
    let rest = decimal fuel (n / 10) in
    if ltb n 10 then digit n else String.◌++◌ rest (digit (n % 10))

-- str(c)
unfoldable pub py_str : Cell → String
unfolding decimal digit
py_str null = "None"
py_str (int (pos n)) = decimal (suc n) n
py_str (int (negsuc n)) = String.◌++◌ "-" (decimal (suc (suc n)) (suc n))
py_str (str s) = s

-- `seen`: each status that was ever recorded, with the id that it was recorded for.
abbrev pub Seen : Type 0
Seen = List (String × String)

-- status in seen.get(intent.intent_id, ())
abbrev pub saw : (String → Bool) → Intent → String × String → Bool
saw test i (id, status) = cell_eq i.intent_id (str id) && test status

unfoldable pub was_confirmed : Seen → Intent → Bool
was_confirmed seen i = any (saw (λ s. s == "CONFIRMED") i) seen

unfoldable pub was_settled : Seen → Intent → Bool
was_settled seen i = any (saw (λ s. s == "CONFIRMED" || s == "REJECTED") i) seen

abbrev pub Collected : Type 0
Collected = List Intent × Seen

-- The first loop.
unfoldable pub collect : List Record → Result OutboxError Collected
collect [] = ok ([], [])
collect (intent_v1 raw ∷ rest) = do
  i ← intent_from_record (intent_v1 raw)
  c ← collect rest
  ok (i ∷ c.0, c.1)
collect (dispatch_v1 none ∷ rest) = collect rest
collect (dispatch_v1 (some raw) ∷ rest) = do
  c ← collect rest
  ok (c.0, (py_str (get_or_null "intent_id" raw), py_str (get_or_null "status" raw)) ∷ c.1)
collect (other_kind ∷ rest) = collect rest

abbrev pub in_group : Intent → List Intent → Bool
in_group i [] = false
in_group i (j ∷ _) = same_key j i

-- by_key.setdefault(_intent_key(intent), []).append(intent)
unfoldable pub add_to_group : Intent → List (List Intent) → List (List Intent)
add_to_group i [] = (i ∷ []) ∷ []
add_to_group i (g ∷ gs) = if in_group i g then (g ++ i ∷ []) ∷ gs else g ∷ add_to_group i gs

unfoldable pub group_by_key : String → List Intent → List (List Intent) → List (List Intent)
group_by_key trade_id [] gs = gs
group_by_key trade_id (i ∷ is) gs =
    group_by_key trade_id is (if cell_eq i.trade_id (str trade_id) then add_to_group i gs else gs)

abbrev pub latest : Intent → List Intent → Intent
latest i [] = i
latest i (j ∷ is) = latest j is

-- What one key's intents give: nothing, or the latest of them.
abbrev pub recoverable : Seen → List Intent → List Intent
recoverable seen [] = []
recoverable seen (i ∷ is) =
    if any (was_confirmed seen) (i ∷ is)
    then []
    else if any (λ j. not (was_settled seen j)) (i ∷ is)
    then []
    else latest i is ∷ []

unfoldable pub recover_groups : Seen → List (List Intent) → List Intent
recover_groups seen [] = []
recover_groups seen (g ∷ gs) = recoverable seen g ++ recover_groups seen gs

unfoldable pub append_intents : List Intent → File Record → File Record
append_intents [] f = f
append_intents (i ∷ is) f = append_intents is (append_record (record_of_intent i) f)

module _ (fresh now : ℕ → String) where
  unfoldable pub copies_from : ℕ → List Intent → List Intent
  copies_from n [] = []
  copies_from n (i ∷ is) =
      record i { intent_id = str (fresh n); created_at = str (now n) } ∷ copies_from (suc n) is

  unfoldable pub requeue_rejected :
      String → File Record → Result OutboxError (List Intent × File Record)
  requeue_rejected trade_id f = do
    records ← read_outbox f
    c ← collect records
    let queued = copies_from 0 (recover_groups c.1 (group_by_key trade_id c.0 []))
    ok (queued, append_intents queued f)
