-- ===== src/SafeHalt/Examples.antt =====
-- Runs of src/trade_alerts/safe_halt_model.py on one latch.
use trade_alerts.Base.{◌≡◌, refl, [], ◌∷◌, String}
use trade_alerts.Result.{ok, raised}
use trade_alerts.Json.{
  update_fields, Json, Fields, end, field, get, find, truthy, is_canonical, has_dot,
}
use trade_alerts.SafeHalt.Latch.{
  HaltArgs, already_cleared, build_safe_halt, halt_dict, require_condition_code, fingerprint_core,
  re_assert, safe_halt_fingerprint, latch_record,
}
use trade_alerts.SafeHalt.Resume.{resume_preview, safe_halt_cleared_fields}
use trade_alerts.SafeHalt.Token.{re_assert-since, cleared_once}

abbrev constant : Fields → String
constant core = "0123456789ab"

abbrev unchanged_text : String → String
unchanged_text s = s

abbrev bad_stop : Json → HaltArgs
bad_stop details = record {
  code = Json.str "STOP_MISSING";
  reason = Json.str "no stop order";
  evidence = Json.obj (field "trade_id" (Json.str "T-7") end);
  details = details;
  since = Json.null;
}

abbrev retries : Fields
retries = field "retries" (Json.str "3") end

abbrev first_latch : Fields
first_latch =
    latch_record "2026-09-01T00:00:00Z" (Json.str "STOP_MISSING") (Json.str "no stop order")
      Json.null (field "trade_id" (Json.str "T-7") end) end

abbrev second_latch : Fields
second_latch =
    latch_record "2026-09-01T00:05:00Z" (Json.str "STOP_MISSING") (Json.str "no stop order")
      Json.null (field "trade_id" (Json.str "T-7") end) retries

builds_first : build_safe_halt "2026-09-01T00:00:00Z" (bad_stop Json.null) ≡ ok first_latch
unfolding build_safe_halt require_condition_code halt_dict fingerprint_core get find truthy has_dot
    is_canonical
builds_first = refl

builds_second :
    build_safe_halt "2026-09-01T00:05:00Z" (bad_stop (Json.obj retries)) ≡ ok second_latch
unfolding build_safe_halt require_condition_code halt_dict fingerprint_core get find truthy has_dot
    is_canonical
builds_second = refl

re_assert-since_example :
    (get "since" (re_assert constant (Json.obj first_latch) second_latch) ≡ get "since" first_latch)
    × (safe_halt_fingerprint constant (re_assert constant (Json.obj first_latch) second_latch)
        ≡ safe_halt_fingerprint constant first_latch)
unfolding get find truthy
re_assert-since_example =
    re_assert-since constant "2026-09-01T00:00:00Z" "2026-09-01T00:05:00Z" (bad_stop Json.null)
      (bad_stop (Json.obj retries)) refl refl refl builds_first builds_second refl

abbrev cleared_row : Fields
cleared_row =
    field "event_type" (Json.str "safe_halt_cleared")
      (field "halt_fingerprint" (Json.str "0123456789ab") end)

abbrev cleared_fields : Fields
cleared_fields = field "halt_code" (Json.str "STOP_MISSING") (
    field "halt_reason" (Json.str "no stop order") (
      field "halt_since" (Json.str "2026-09-01T00:00:00Z") (
        field "halt_fingerprint" (Json.str "0123456789ab") (
          field "halt_evidence" (Json.obj (field "trade_id" (Json.str "T-7") end)) (
            field "cleared_at" (Json.str "2026-09-01T01:00:00Z")
              (field "method" (Json.str "operator") (field "reason" (Json.str "checked") end)))))))

clears :
    safe_halt_cleared_fields constant unchanged_text "2026-09-01T01:00:00Z" first_latch "operator"
      Json.null
      (Json.str "checked")
      end
    ≡ ok cleared_fields
unfolding safe_halt_cleared_fields safe_halt_fingerprint require_condition_code halt_dict
    fingerprint_core update_fields get find truthy has_dot is_canonical
clears = refl

cleared_once_example :
    resume_preview constant unchanged_text first_latch (Json.null ∷ Json.obj cleared_row ∷ [])
    ≡ raised already_cleared
unfolding get find
cleared_once_example =
    cleared_once constant unchanged_text "2026-09-01T01:00:00Z" first_latch "operator" Json.null
      (Json.str "checked") (Json.null ∷ []) [] cleared_row (λ c. refl) clears refl refl
