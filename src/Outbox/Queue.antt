-- ===== src/Outbox/Queue.antt =====
-- `ProjectionIntent.from_provenance`, `enqueue_projection_intent` and
-- `outstanding_projection_intents` of src/trade_alerts/projection_outbox.py. The new `intent_id` and
-- the time are arguments. A call that raises has written nothing.
use trade_alerts.Base.{
  Bool, false, ◌&&◌, not, Option, none, some, List, [], ◌∷◌, ◌++◌, String, ◌==◌, any, select,
  if◌then◌else◌,
}
use trade_alerts.Result.{Result, ok, raised, ◌>>=◌, ◌>>◌, raise_if}
use trade_alerts.Jsonl.{File, read_records, append_record}
use trade_alerts.Outbox.Cells.{Cell, str, cell_eq}
use trade_alerts.Outbox.Records.{
  OutboxError, unreadable, action_not_allowed, event_type_mismatch, duplicate_intent_id,
  dispatch_missing, dispatch_invalid, Provenance, Intent, Dispatch, Record, intent_v1, dispatch_v1,
  other_kind, action_event_type, is_allowed_action, is_terminal, dispatch_of_obj, obj_of_intent,
  intent_from_record,
}

-- _read_records
unfoldable pub read_outbox : File Record → Result OutboxError (List Record)
read_outbox f = elim (read_records f) [ ok rs ↦ ok rs | raised e ↦ raised (unreadable e) ]

abbrev is_event_type : Option String → String → Bool
is_event_type none t = false
is_event_type (some e) t = e == t

abbrev pub candidate_of : String → String → String → Provenance → Intent
candidate_of fresh now action p = record {
  intent_id = str fresh;
  created_at = str now;
  action = str action;
  project_id = str p.project_id;
  trade_id = str p.trade_id;
  event_type = str p.event_type;
  source_id = str p.source_id;
  ledger_event_digest = str p.ledger_event_digest;
  payload_digest = str p.payload_digest;
  schema_version = str p.schema_version;
}

-- ProjectionIntent.from_provenance
unfoldable pub from_provenance : String → String → String → Provenance → Result OutboxError Intent
from_provenance fresh now action p = do
  raise_if (not (is_allowed_action (str action))) action_not_allowed
  raise_if (not (is_event_type (action_event_type action) p.event_type)) event_type_mismatch
  ok (candidate_of fresh now action p)

-- _intent_key(a) == _intent_key(b)
unfoldable pub same_key : Intent → Intent → Bool
same_key a b =
    cell_eq a.action b.action
    && cell_eq a.project_id b.project_id
    && cell_eq a.trade_id b.trade_id
    && cell_eq a.event_type b.event_type
    && cell_eq a.source_id b.source_id
    && cell_eq a.ledger_event_digest b.ledger_event_digest
    && cell_eq a.payload_digest b.payload_digest
    && cell_eq a.schema_version b.schema_version

-- The loop of enqueue_projection_intent.
unfoldable pub find_existing : Intent → List Record → Result OutboxError (Option Intent)
find_existing c [] = ok none
find_existing c (intent_v1 raw ∷ rest) = do
  existing ← intent_from_record (intent_v1 raw)
  if same_key existing c then ok (some existing) else find_existing c rest
find_existing c (dispatch_v1 raw ∷ rest) = find_existing c rest
find_existing c (other_kind ∷ rest) = find_existing c rest

abbrev pub record_of_intent : Intent → Record
record_of_intent i = intent_v1 (some (obj_of_intent i))

abbrev pub enqueue_candidate : Intent → Option Intent → File Record → Intent × File Record
enqueue_candidate c (some existing) f = (existing, f)
enqueue_candidate c none f = (c, append_record (record_of_intent c) f)

unfoldable pub enqueue_projection_intent :
    String → String → String → Provenance → File Record → Result OutboxError (Intent × File Record)
enqueue_projection_intent fresh now action p f = do
  candidate ← from_provenance fresh now action p
  records ← read_outbox f
  found ← find_existing candidate records
  ok (enqueue_candidate candidate found f)

-- The two locals of outstanding_projection_intents: the intents of the dict, in order of insertion,
-- and the set of ids with a terminal status.
pub record Scan : Type 0 where
  pub intents : List Intent
  pub terminal : List Cell

abbrev pub has_id : Cell → Intent → Bool
has_id c i = cell_eq i.intent_id c

abbrev add_intent : Intent → Scan → Result OutboxError Scan
add_intent i s = do
  raise_if (any (has_id i.intent_id) s.intents) duplicate_intent_id
  ok (record s { intents = s.intents ++ i ∷ [] })

abbrev add_dispatch : Option Dispatch → Scan → Result OutboxError Scan
add_dispatch none s = raised dispatch_invalid
add_dispatch (some d) s =
    ok (if is_terminal d.status then record s { terminal = d.intent_id ∷ s.terminal } else s)

unfoldable pub scan_record : Record → Scan → Result OutboxError Scan
scan_record (intent_v1 raw) s = do i ← intent_from_record (intent_v1 raw); add_intent i s
scan_record (dispatch_v1 none) s = raised dispatch_missing
scan_record (dispatch_v1 (some raw)) s = add_dispatch (dispatch_of_obj raw) s
scan_record other_kind s = ok s

unfoldable pub scan : List Record → Scan → Result OutboxError Scan
scan [] s = ok s
scan (r ∷ rest) s = do s' ← scan_record r s; scan rest s'

unfoldable pub is_settled : Scan → Intent → Bool
is_settled s i = any (λ c. cell_eq c i.intent_id) s.terminal

unfoldable pub outstanding_projection_intents : File Record → Result OutboxError (List Intent)
outstanding_projection_intents f = do
  records ← read_outbox f
  s ← scan records (record { intents = []; terminal = [] })
  ok (select (λ i. not (is_settled s i)) s.intents)
