-- ===== src/Integrity/Canonical.antt =====
-- `canonical_json`, `sha256_digest`, `_projection_value` and `normalise_projection` of
-- src/trade_alerts/ledger_integrity.py.
use trade_alerts.Base.{ℕ, Bool, String, ◌==◌, if◌then◌else◌}
use trade_alerts.Base.Int.{ℤ, int_eq, pos}
use trade_alerts.Result.{Result, ok, raised, ◌>>=◌}
use trade_alerts.Json
use trade_alerts.Json.{Json, Items, Fields, is_canonical}
use trade_alerts.Integrity.Text.{strip_right}

pub data IntegrityError : Type 0 where
  not_canonical non_finite_number unsupported_value : IntegrityError
  invalid_identifier unsupported_event_type invalid_request_id invalid_issued_at : IntegrityError
  unsupported_action invalid_sheet_name missing_credential invalid_digest : IntegrityError

-- The functions of Python's library that the code calls: `json.dumps` with sorted keys on a value it
-- accepts, `str` on an int, `format(x, ".15f")`, `UUID(...)` returning, SHA-256 and HMAC-SHA-256 as
-- hexadecimal digests of texts.
pub record Runtime : Type 0 where
  pub dumps : Json → String
  pub str_int : ℤ → String
  pub fixed : ℤ → ℕ → String
  pub is_uuid : String → Bool
  pub sha256 : String → String
  pub hmac : String → String → String

module _ (py : Runtime) where
  unfoldable pub canonical_json : Json → Result IntegrityError String
  canonical_json v = if is_canonical v then ok (py.dumps v) else raised not_canonical

  unfoldable pub sha256_digest : Json → Result IntegrityError String
  sha256_digest v = do text ← canonical_json v; ok (py.sha256 text)

  -- format(value, ".15f").rstrip("0").rstrip(".") or "0"
  abbrev pub decimal_text : ℤ → ℕ → String
  decimal_text n s =
      let text = strip_right 46 (strip_right 48 (py.fixed n s)) in if text == "" then "0" else text

  unfoldable mutual
    pub projection_value : Json → Result IntegrityError Json
    projection_value Json.null = ok Json.null
    projection_value Json.non_finite = raised non_finite_number
    projection_value Json.foreign = raised unsupported_value
    projection_value (Json.bool b) = ok (Json.bool b)
    projection_value (Json.int n) = ok (Json.str (py.str_int n))
    projection_value (Json.decimal n s) =
        ok (Json.str (if int_eq n (pos 0) then "0" else decimal_text n s))
    projection_value (Json.str s) = ok (Json.str s)
    projection_value (Json.arr xs) = do ys ← projection_items xs; ok (Json.arr ys)
    projection_value (Json.obj fs) = do gs ← normalise_projection fs; ok (Json.obj gs)

    pub projection_items : Items → Result IntegrityError Items
    projection_items Json.nil = ok Json.nil
    projection_items (Json.item x xs) = do
      y ← projection_value x
      ys ← projection_items xs
      ok (Json.item y ys)

    pub normalise_projection : Fields → Result IntegrityError Fields
    normalise_projection Json.end = ok Json.end
    normalise_projection (Json.field k v fs) = do
      w ← projection_value v
      gs ← normalise_projection fs
      ok (Json.field k w gs)
