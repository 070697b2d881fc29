-- ===== src/Integrity/Signing.antt =====
-- `build_provenance`, the three signed requests and `verify_signed_request` of
-- src/trade_alerts/ledger_integrity.py.
use trade_alerts.Base.{Bool, false, not, List, [], ◌∷◌, String, ◌==◌, any, if◌then◌else◌}
use trade_alerts.Result.{Result, ok, ◌>>=◌, ◌>>◌, raise_if}
use trade_alerts.Json.{Json, Fields, end, field, get, put}
use trade_alerts.Outbox.Records.{Provenance, as_dict, schema_version_v2}
use trade_alerts.Receiver.Recording.{fields_of}
use trade_alerts.Integrity.Text.{is_identifier, is_sheet_name, is_sha256}
use trade_alerts.Integrity.Canonical.{
  IntegrityError, invalid_identifier, unsupported_event_type, invalid_request_id, invalid_issued_at,
  unsupported_action, invalid_sheet_name, missing_credential, invalid_digest, Runtime,
  canonical_json, sha256_digest, normalise_projection,
}

abbrev pub allowed_event_types : List String
allowed_event_types = "trade_open" ∷ "trade_close" ∷ "trade_correction" ∷ "spot_fill" ∷ []

abbrev pub allowed_actions : List String
allowed_actions =
    "append_open_v2" ∷ "append_fill_v2" ∷ "update_close_v2" ∷ "correct_close_v2" ∷ "read_audit_v2"
    ∷ "read_reconciliation_v2" ∷ "quarantine_v2" ∷ []

abbrev pub one_of : List String → String → Bool
one_of ss s = any (λ t. t == s) ss

abbrev pub require_identifier : String → Result IntegrityError (Unit {0})
require_identifier s = raise_if (not (is_identifier s)) invalid_identifier

abbrev pub require_sheet_name : String → Result IntegrityError (Unit {0})
require_sheet_name s = raise_if (not (is_sheet_name s)) invalid_sheet_name

abbrev pub require_digest : String → Result IntegrityError (Unit {0})
require_digest s = raise_if (not (is_sha256 s)) invalid_digest

-- The arguments of `build_provenance`.
pub record Evidence : Type 0 where
  pub project_id : String
  pub trade_id : String
  pub event_type : String
  pub ledger_event : Fields
  pub projection : Fields
  pub request_id : String
  pub issued_at : String
  pub source_id : String

abbrev pub provenance_of : Evidence → String → String → Provenance
provenance_of a ledger_event_digest payload_digest = record {
  project_id = a.project_id;
  trade_id = a.trade_id;
  event_type = a.event_type;
  ledger_event_digest = ledger_event_digest;
  payload_digest = payload_digest;
  request_id = a.request_id;
  issued_at = a.issued_at;
  source_id = a.source_id;
  schema_version = schema_version_v2;
}

-- The fields that are signed.
abbrev pub request_body : String → String → Provenance → Fields → Fields
request_body action sheet p projection = field "schema_version" (Json.str schema_version_v2) (
    field "action" (Json.str action) (
      field "source_id" (Json.str p.source_id) (
        field "project_id" (Json.str p.project_id) (
          field "sheet_name" (Json.str sheet) (
            field "request_id" (Json.str p.request_id) (
              field "issued_at" (Json.str p.issued_at) (
                field "provenance" (Json.obj (fields_of (as_dict p)))
                  (field "projection" (Json.obj projection) end))))))))

-- The arguments of `signed_reconciliation_request`.
pub record Query : Type 0 where
  pub project_id : String
  pub sheet_name : String
  pub source_id : String
  pub request_id : String
  pub issued_at : String

abbrev pub query_body : Query → Fields
query_body q = field "schema_version" (Json.str schema_version_v2) (
    field "action" (Json.str "read_reconciliation_v2") (
      field "source_id" (Json.str q.source_id) (
        field "project_id" (Json.str q.project_id) (
          field "sheet_name" (Json.str q.sheet_name) (
            field "request_id" (Json.str q.request_id) (
              field "issued_at" (Json.str q.issued_at) (
                field "query"
                  (Json.obj (field "kind" (Json.str "source_projection_inventory_v1") end))
                  end)))))))

-- replace(provenance, request_id=..., issued_at=...)
abbrev pub reissued : String → String → Provenance → Provenance
reissued request_id issued_at p = record {
  project_id = p.project_id;
  trade_id = p.trade_id;
  event_type = p.event_type;
  ledger_event_digest = p.ledger_event_digest;
  payload_digest = p.payload_digest;
  request_id = request_id;
  issued_at = issued_at;
  source_id = p.source_id;
  schema_version = p.schema_version;
}

-- {key: value for key, value in payload.items() if key != "signature"}
unfoldable pub unsigned : Fields → Fields
unsigned end = end
unsigned (field k v fs) =
    let rest = unsigned fs in if k == "signature" then rest else field k v rest

-- {**body, "signature": signature}
unfoldable pub with_signature : Fields → String → Fields
with_signature body signature = put "signature" (Json.str signature) body

module _ (py : Runtime) where
  abbrev pub require_request_id : String → Result IntegrityError (Unit {0})
  require_request_id s = raise_if (not (py.is_uuid s)) invalid_request_id

  unfoldable pub build_provenance : Evidence → Result IntegrityError Provenance
  build_provenance a = do
    require_identifier a.project_id
    require_identifier a.trade_id
    require_identifier a.source_id
    raise_if (not (one_of allowed_event_types a.event_type)) unsupported_event_type
    require_request_id a.request_id
    raise_if (a.issued_at == "") invalid_issued_at
    ledger_event_digest ← sha256_digest py (Json.obj a.ledger_event)
    projection ← normalise_projection py a.projection
    payload_digest ← sha256_digest py (Json.obj projection)
    ok (provenance_of a ledger_event_digest payload_digest)

  -- The HMAC over the canonical text of a body, and the body with it.
  unfoldable pub sign : String → Fields → Result IntegrityError Fields
  sign secret body = do
    text ← canonical_json py (Json.obj body)
    ok (with_signature body (py.hmac secret text))

  unfoldable pub signed_request :
      String → String → Provenance → Fields → String → Result IntegrityError Fields
  signed_request action sheet p projection secret = do
    raise_if (not (one_of allowed_actions action)) unsupported_action
    require_sheet_name sheet
    raise_if (secret == "") missing_credential
    require_digest p.ledger_event_digest
    require_digest p.payload_digest
    normal ← normalise_projection py projection
    sign secret (request_body action sheet p normal)

  unfoldable pub signed_reconciliation_request : Query → String → Result IntegrityError Fields
  signed_reconciliation_request q secret = do
    require_identifier q.project_id
    require_sheet_name q.sheet_name
    require_identifier q.source_id
    require_request_id q.request_id
    raise_if (q.issued_at == "") invalid_issued_at
    raise_if (secret == "") missing_credential
    sign secret (query_body q)

  unfoldable pub signed_read_audit_request :
      String → Provenance → Fields → String → String → String → Result IntegrityError Fields
  signed_read_audit_request sheet p projection request_id issued_at secret = do
    require_request_id request_id
    raise_if (issued_at == "") invalid_issued_at
    signed_request "read_audit_v2" sheet (reissued request_id issued_at p) projection secret

  abbrev pub check_signature : Json → Fields → String → Result IntegrityError Bool
  check_signature (Json.str signature) payload secret =
      if not (is_sha256 signature) then ok false else (do
        text ← canonical_json py (Json.obj (unsigned payload))
        ok (signature == py.hmac secret text))
  check_signature _ payload secret = ok false

  unfoldable pub verify_signed_request : Fields → String → Result IntegrityError Bool
  verify_signed_request payload secret =
      if secret == "" then ok false else check_signature (get "signature" payload) payload secret
