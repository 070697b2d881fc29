-- ===== src/EventLog.antt =====
-- src/trade_alerts/fleet_event_log.py: what a log line holds, and how it is written and read.
pub mod Catalog
pub mod Appending
pub mod Kept
mod Examples
use trade_alerts.Base.{
  Bool, true, false, ◌&&◌, ◌||◌, not, Option, none, some, List, [], ◌∷◌, ◌++◌, String, ◌==◌, any,
  select, if◌then◌else◌,
}
use trade_alerts.Result.{Result, ok, raised, ◌>>=◌, ◌>>◌, raise_if}
use trade_alerts.Jsonl.{ReadError, File, read_records, append_record}
use trade_alerts.Json.{
  Json, null, str, obj, Fields, end, field, get, is_text, truthy, is_canonical_fields, has_dot,
  is_filled_text, text_or_empty, or_else,
}

pub data LogError : Type 0 where
  unreadable : ReadError → LogError
  unknown_project code_required code_has_prefix unknown_tier not_mapping not_canonical : LogError
  lock_timeout no_entry no_tier : LogError

-- the keys of PROJECT_CODE_PREFIXES
abbrev pub projects : List String
projects = "seykota" ∷ "momentum" ∷ "mycrypto" ∷ "btc-competition" ∷ "trend-meteor" ∷ "fleet" ∷ []

abbrev pub risk_tiers : List String
risk_tiers = "R0" ∷ "R1" ∷ "R2" ∷ "R3" ∷ []

-- v in a tuple or dict of texts
unfoldable pub is_one_of : List String → Json → Bool
is_one_of ss v = any (λ s. is_text s v) ss

unfoldable pub require_project : Json → Result LogError Json
require_project p = do raise_if (not (is_one_of projects p)) unknown_project; ok p

abbrev pub text_has_dot : Json → Bool
text_has_dot (str s) = has_dot s
text_has_dot _ = false

unfoldable pub require_bare_code : Json → Result LogError Json
require_bare_code c = do
  raise_if (not (is_filled_text c)) code_required
  raise_if (text_has_dot c) code_has_prefix
  ok c

unfoldable pub require_mapping : Json → Result LogError Fields
require_mapping null = ok end
require_mapping (obj fs) = ok fs
require_mapping _ = raised not_mapping

unfoldable pub require_risk_tier : Json → Result LogError Json
require_risk_tier null = ok null
require_risk_tier t = do raise_if (not (is_one_of risk_tiers t)) unknown_tier; ok t

abbrev pub EventFile : Type 0
EventFile = File Fields

-- The lock is taken in time or not; with no time-out it always is.
unfoldable pub append_jsonl : Bool → Fields → EventFile → Result LogError EventFile
append_jsonl locked r f = do
  raise_if (not (is_canonical_fields r)) not_canonical
  raise_if (not locked) lock_timeout
  ok (append_record r f)

unfoldable pub read_jsonl : EventFile → Result LogError (List Fields)
read_jsonl f = elim (read_records f) [ ok rs ↦ ok rs | raised e ↦ raised (unreadable e) ]

-- The keyword arguments of append_fleet_event.
pub record EventArgs : Type 0 where
  pub project : Json
  pub code : Json
  pub summary : Json
  pub risk_tier : Json
  pub evidence : Json
  pub details : Json
  pub measurements : Json
  pub recorded_at : Json
  pub event_id : Json

abbrev pub event_record :
    String → String → EventArgs → Json → Json → Json → Fields → Fields → Fields → Fields
event_record fresh now a project code tier evidence details measurements =
    field "kind" (str "fleet_event_v1") (
      field "event_id" (or_else a.event_id (str fresh)) (
        field "recorded_at" (or_else a.recorded_at (str now)) (
          field "project" project (
            field "code" code (
              field "summary" (text_or_empty a.summary) (
                field "risk_tier" tier (
                  field "evidence" (obj evidence) (
                    field "details" (obj details)
                      (field "measurements" (obj measurements) end)))))))))

unfoldable pub event_fields : String → String → EventArgs → Result LogError Fields
event_fields fresh now a = do
  project ← require_project a.project
  code ← require_bare_code a.code
  tier ← require_risk_tier a.risk_tier
  evidence ← require_mapping a.evidence
  details ← require_mapping a.details
  measurements ← require_mapping a.measurements
  ok (event_record fresh now a project code tier evidence details measurements)

unfoldable pub append_fleet_event :
    Bool → String → String → EventArgs → EventFile → Result LogError (Fields × EventFile)
append_fleet_event locked fresh now a f = do
  r ← event_fields fresh now a
  f' ← append_jsonl locked r f
  ok (r, f')

abbrev pub is_fleet_event : Fields → Bool
is_fleet_event r = is_text "fleet_event_v1" (get "kind" r)

unfoldable pub read_fleet_events : EventFile → Result LogError (List Fields)
read_fleet_events f = do rs ← read_jsonl f; ok (select is_fleet_event rs)
