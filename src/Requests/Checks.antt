-- ===== src/Requests/Checks.antt =====
-- The checks of src/trade_alerts/error_request_queue.py on what it is given.
--
-- `digest` stands for `hashlib.sha256(json.dumps(core)).hexdigest()[:12]`. A value that `dict` or a
-- set cannot take raises like a wrong one.
use trade_alerts.Base.{not, List, [], ◌∷◌, String, if◌then◌else◌}
use trade_alerts.Result.{Result, ok, raised, ◌>>=◌, ◌>>◌, raise_if}
use trade_alerts.Json.{
  Json, null, obj, Fields, end, field, truthy, is_canonical_fields, is_filled_text,
}
use trade_alerts.EventLog.{LogError, projects, risk_tiers, is_one_of, text_has_dot}

pub data QueueError : Type 0 where
  in_log : LogError → QueueError
  unknown_project code_required code_has_prefix unknown_tier tier_not_requestable : QueueError
  not_mapping not_canonical request_missing request_id_missing duplicate_request_id : QueueError
  outcome_missing unknown_status no_request already_closed : QueueError

abbrev pub from_log {ℓ} : {A : Type ℓ} → Result LogError A → Result QueueError A
from_log (ok a) = ok a
from_log (raised e) = raised (in_log e)

abbrev pub terminal_statuses : List String
terminal_statuses = "RESOLVED_AUTO" ∷ "RESOLVED_HUMAN" ∷ "SUPERSEDED" ∷ "WITHDRAWN" ∷ []

unfoldable pub require_queue_project : Json → Result QueueError Json
require_queue_project p = do raise_if (not (is_one_of projects p)) unknown_project; ok p

unfoldable pub require_queue_code : Json → Result QueueError Json
require_queue_code c = do
  raise_if (not (is_filled_text c)) code_required
  raise_if (text_has_dot c) code_has_prefix
  ok c

unfoldable pub require_requestable_tier : Json → Result QueueError Json
require_requestable_tier t = do
  raise_if (not (is_one_of risk_tiers t)) unknown_tier
  raise_if (not (is_one_of ("R2" ∷ "R3" ∷ []) t)) tier_not_requestable
  ok t

unfoldable pub queue_mapping : Json → Result QueueError Fields
queue_mapping null = ok end
queue_mapping (obj fs) = ok fs
queue_mapping _ = raised not_mapping

abbrev dict_of : Json → Result QueueError Fields
dict_of (obj fs) = ok fs
dict_of _ = raised not_mapping

-- dict(v or {})
unfoldable pub dict_or_empty : Json → Result QueueError Fields
dict_or_empty v = if truthy v then dict_of v else ok end

abbrev core_of : Json → Json → Fields → Fields
core_of project code evidence =
    field "project" project (field "code" code (field "evidence" (obj evidence) end))

module _ (digest : Fields → String) where
  unfoldable pub request_fingerprint : Json → Json → Json → Result QueueError String
  request_fingerprint project code evidence = do
    p ← require_queue_project project
    c ← require_queue_code code
    e ← dict_or_empty evidence
    raise_if (not (is_canonical_fields (core_of p c e))) not_canonical
    ok (digest (core_of p c e))
