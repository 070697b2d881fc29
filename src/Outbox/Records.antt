-- ===== src/Outbox/Records.antt =====
-- The dataclasses of src/trade_alerts/projection_outbox.py, with `LedgerProvenance` of
-- src/trade_alerts/ledger_integrity.py, and how they are read from and written to records.
use trade_alerts.Base.{
  ◌≡◌, refl, Bool, ◌||◌, not, Option, none, some, List, [], ◌∷◌, String, ◌==◌, any, all,
  if◌then◌else◌,
}
use trade_alerts.Result.{Result, ok, raised, ◌>>◌, raise_if}
use trade_alerts.Jsonl.{ReadError}
use trade_alerts.Outbox.Cells.{Cell, null, str, is_str, Obj, get}

pub data OutboxError : Type 0 where
  unreadable : ReadError → OutboxError
  action_not_allowed event_type_mismatch not_intent intent_missing intent_invalid : OutboxError
  intent_action_invalid intent_schema_invalid duplicate_intent_id : OutboxError
  dispatch_missing dispatch_invalid status_invalid receiver_row_invalid : OutboxError
  error_code_invalid schema_mismatch binding_changed payload_action_mismatch : OutboxError
  payload_identity_mismatch payload_provenance_mismatch : OutboxError

abbrev pub schema_version_v2 : String
schema_version_v2 = "google-ledger-projection-v2"

-- LedgerProvenance
pub record Provenance : Type 0 where
  pub project_id : String
  pub trade_id : String
  pub event_type : String
  pub ledger_event_digest : String
  pub payload_digest : String
  pub request_id : String
  pub issued_at : String
  pub source_id : String
  pub schema_version : String

unfoldable pub as_dict : Provenance → Obj
as_dict p =
    ("project_id", str p.project_id)
    ∷ ("trade_id", str p.trade_id)
    ∷ ("event_type", str p.event_type)
    ∷ ("ledger_event_digest", str p.ledger_event_digest)
    ∷ ("payload_digest", str p.payload_digest)
    ∷ ("request_id", str p.request_id)
    ∷ ("issued_at", str p.issued_at)
    ∷ ("source_id", str p.source_id)
    ∷ ("schema_version", str p.schema_version)
    ∷ []

-- ProjectionIntent. A dataclass does not check the types of its fields.
pub record Intent : Type 0 where
  pub intent_id : Cell
  pub created_at : Cell
  pub action : Cell
  pub project_id : Cell
  pub trade_id : Cell
  pub event_type : Cell
  pub source_id : Cell
  pub ledger_event_digest : Cell
  pub payload_digest : Cell
  pub schema_version : Cell

-- ProjectionDispatch
pub record Dispatch : Type 0 where
  pub intent_id : Cell
  pub recorded_at : Cell
  pub status : Cell
  pub receiver_row : Cell
  pub error_code : Cell

-- One line by its `kind`; the object under "intent" or "dispatch" if there is one.
pub data Record : Type 0 where
  intent_v1 dispatch_v1 : Option Obj → Record
  other_kind : Record

-- the keys of _ACTION_EVENT_TYPE, with their values
unfoldable pub action_event_type : String → Option String
action_event_type a =
    if a == "append_open_v2"
    then some "trade_open"
    else if a == "append_fill_v2"
    then some "spot_fill"
    else if a == "update_close_v2"
    then some "trade_close"
    else if a == "correct_close_v2"
    then some "trade_correction"
    else none

-- action in _ALLOWED_ACTIONS
unfoldable pub is_allowed_action : Cell → Bool
is_allowed_action a =
    is_str "append_open_v2" a
    || is_str "append_fill_v2" a
    || is_str "update_close_v2" a
    || is_str "correct_close_v2" a

-- status in _TERMINAL_STATUSES
unfoldable pub is_terminal : Cell → Bool
is_terminal s = is_str "CONFIRMED" s || is_str "REJECTED" s

module _ (allowed : List String) where
  -- no keyword argument that the dataclass lacks
  abbrev pub only_keys : Obj → Bool
  only_keys o = all (λ (e : String × Cell). any (λ k. e.0 == k) allowed) o

abbrev pub with_field {ℓ} : {A : Type ℓ} → Option Cell → (Cell → Option A) → Option A
with_field none f = none
with_field (some c) f = f c

abbrev pub or_default : Option Cell → Cell → Cell
or_default none d = d
or_default (some c) d = c

abbrev intent_keys : List String
intent_keys =
    "intent_id" ∷ "created_at" ∷ "action" ∷ "project_id" ∷ "trade_id" ∷ "event_type" ∷ "source_id"
    ∷ "ledger_event_digest" ∷ "payload_digest" ∷ "schema_version" ∷ []

-- ProjectionIntent(**dict(raw)); none is the TypeError
unfoldable pub intent_of_obj : Obj → Option Intent
unfolding get
intent_of_obj o =
    if only_keys intent_keys o
    then with_field (get "intent_id" o) (λ a. with_field (get "created_at" o) λ b.
      with_field (get "action" o) λ c. with_field (get "project_id" o) λ d.
        with_field (get "trade_id" o) λ e. with_field (get "event_type" o) λ f.
          with_field (get "source_id" o) λ g. with_field (get "ledger_event_digest" o) λ h.
            with_field (get "payload_digest" o) λ i. some (record {
              intent_id = a;
              created_at = b;
              action = c;
              project_id = d;
              trade_id = e;
              event_type = f;
              source_id = g;
              ledger_event_digest = h;
              payload_digest = i;
              schema_version = or_default (get "schema_version" o) (str schema_version_v2);
            }))
    else none

-- asdict(intent)
unfoldable pub obj_of_intent : Intent → Obj
obj_of_intent i =
    ("intent_id", i.intent_id)
    ∷ ("created_at", i.created_at)
    ∷ ("action", i.action)
    ∷ ("project_id", i.project_id)
    ∷ ("trade_id", i.trade_id)
    ∷ ("event_type", i.event_type)
    ∷ ("source_id", i.source_id)
    ∷ ("ledger_event_digest", i.ledger_event_digest)
    ∷ ("payload_digest", i.payload_digest)
    ∷ ("schema_version", i.schema_version)
    ∷ []

pub intent_of_obj-obj_of_intent : (i : Intent) → intent_of_obj (obj_of_intent i) ≡ some i
unfolding intent_of_obj obj_of_intent
intent_of_obj-obj_of_intent i = refl

abbrev dispatch_keys : List String
dispatch_keys = "intent_id" ∷ "recorded_at" ∷ "status" ∷ "receiver_row" ∷ "error_code" ∷ []

-- ProjectionDispatch(**dict(raw))
unfoldable pub dispatch_of_obj : Obj → Option Dispatch
unfolding get
dispatch_of_obj o =
    if only_keys dispatch_keys o
    then with_field (get "intent_id" o) (λ a. with_field (get "recorded_at" o) λ b.
      with_field (get "status" o) λ c. some (record {
        intent_id = a;
        recorded_at = b;
        status = c;
        receiver_row = or_default (get "receiver_row" o) null;
        error_code = or_default (get "error_code" o) null;
      }))
    else none

-- asdict(dispatch)
unfoldable pub obj_of_dispatch : Dispatch → Obj
obj_of_dispatch d =
    ("intent_id", d.intent_id)
    ∷ ("recorded_at", d.recorded_at)
    ∷ ("status", d.status)
    ∷ ("receiver_row", d.receiver_row)
    ∷ ("error_code", d.error_code)
    ∷ []

pub dispatch_of_obj-obj_of_dispatch : (d : Dispatch) → dispatch_of_obj (obj_of_dispatch d) ≡ some d
unfolding dispatch_of_obj obj_of_dispatch
dispatch_of_obj-obj_of_dispatch d = refl

-- The checks of _intent_from_record behind the constructor call.
check_intent : Option Intent → Result OutboxError Intent
check_intent none = raised intent_invalid
check_intent (some i) = do
  raise_if (not (is_allowed_action i.action)) intent_action_invalid
  raise_if (not (is_str schema_version_v2 i.schema_version)) intent_schema_invalid
  ok i

unfoldable pub intent_from_record : Record → Result OutboxError Intent
unfolding check_intent
intent_from_record (intent_v1 none) = raised intent_missing
intent_from_record (intent_v1 (some raw)) = check_intent (intent_of_obj raw)
intent_from_record _ = raised not_intent
