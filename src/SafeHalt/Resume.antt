-- ===== src/SafeHalt/Resume.antt =====
-- Clearing a latch of src/trade_alerts/safe_halt_model.py. An event of the ledger is any JSON value.
-- A `method` that is no text is refused like an empty one, and is left out; `strip` stands for `str.strip`, and an extra keyword argument overwrites a field.
use Prim.Native.String
use trade_alerts.Base.{
  Bool, false, not, Option, none, some, List, [], ◌∷◌, String, ◌==◌, any, if◌then◌else◌,
}
use trade_alerts.Result.{Result, ok, ◌>>=◌, ◌>>◌, raise_if}
use trade_alerts.Json.{Json, str, obj, Fields, end, field, get, is_text, update_fields, or_else}
use trade_alerts.SafeHalt.Latch.{
  HaltError, already_cleared, token_mismatch, method_required, halt_dict, safe_halt_fingerprint,
}

abbrev filled_texts : Json → List String
filled_texts (str s) = if s == "" then [] else s ∷ []
filled_texts _ = []

abbrev cleared_by : Json → List String
cleared_by (obj event) =
    if is_text "safe_halt_cleared" (get "event_type" event)
    then filled_texts (get "halt_fingerprint" event)
    else []
cleared_by _ = []

-- fingerprint in cleared_fingerprints(events)
unfoldable pub is_cleared : String → List Json → Bool
is_cleared fp events = any (λ e. any (λ s. s == fp) (cleared_by e)) events

unfoldable pub assert_not_already_cleared : String → List Json → Result HaltError (Unit {0})
assert_not_already_cleared fp events = raise_if (is_cleared fp events) already_cleared

module _ (digest : Fields → String) (strip : String → String) where
  unfoldable pub resume_preview : Fields → List Json → Result HaltError Fields
  resume_preview halt events = do
    fp ← safe_halt_fingerprint digest halt
    assert_not_already_cleared fp events
    evidence ← halt_dict (get "evidence" halt)
    ok (
        field "code" (get "code" halt) (
          field "reason" (get "reason" halt) (
            field "halt_since" (get "since" halt) (
              field "evidence" (obj evidence) (
                field "confirmation_token" (str fp) (
                  field "state_file_touched" (Json.bool false)
                    (field "ledger_event_to_append" (str "safe_halt_cleared") end)))))))

  abbrev token_text : Option String → String
  token_text none = ""
  token_text (some s) = s

  unfoldable pub check_confirmation : Fields → Option String → Result HaltError String
  check_confirmation halt token = do
    expected ← safe_halt_fingerprint digest halt
    raise_if (not (strip (token_text token) == expected)) token_mismatch
    ok expected

  unfoldable pub safe_halt_cleared_fields :
      String → Fields → String → Json → Json → Fields → Result HaltError Fields
  safe_halt_cleared_fields now halt method cleared_at reason extra = do
    raise_if (method == "") method_required
    fp ← safe_halt_fingerprint digest halt
    evidence ← halt_dict (get "evidence" halt)
    ok (
        update_fields
          (field "halt_code" (get "code" halt) (
            field "halt_reason" (get "reason" halt) (
              field "halt_since" (get "since" halt) (
                field "halt_fingerprint" (str fp) (
                  field "halt_evidence" (obj evidence) (
                    field "cleared_at" (or_else cleared_at (str now)) (
                      field "method" (str method) (
                        field "reason"
                          (or_else reason
                            (str (String.◌++◌ "safe_halt cleared (" (String.◌++◌ method ")"))))
                          end))))))))
          extra)
