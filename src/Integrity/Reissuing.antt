-- ===== src/Integrity/Reissuing.antt =====
-- A provenance of src/trade_alerts/ledger_integrity.py that is built again, and what the outbox reads of
-- its signed request.
use mathlib.Core.Path.{subst}
use trade_alerts.Base.{◌≡◌, refl, ap, true, false, not, Option, none, some, [], ◌∷◌, String, ◌==◌}
use trade_alerts.Result.{ok, raise_if-eq-ok, bind-eq-ok, ok-injective}
use trade_alerts.Json
use trade_alerts.Json.{Json, Fields, find, put, is_canonical, is_canonical_fields}
use trade_alerts.Outbox.Cells
use trade_alerts.Outbox.Cells.{
  Cell, null, int, str, cell_eq, cell_eq_refl, Obj, get_or_null, obj_eq,
}
use trade_alerts.Outbox.Records.{Provenance, as_dict, schema_version_v2}
use trade_alerts.Outbox.Queue.{candidate_of}
use trade_alerts.Outbox.ParkEvent.{json_of}
use trade_alerts.Outbox.Dispatch.{Payload}
use trade_alerts.Outbox.Binding.{IsBound}
use trade_alerts.Integrity.Text.{is_identifier, is_sheet_name, is_sha256}
use trade_alerts.Integrity.Canonical.{
  invalid_identifier, unsupported_event_type, invalid_request_id, invalid_issued_at, Runtime,
  canonical_json, sha256_digest, normalise_projection,
}
use trade_alerts.Integrity.Signing.{
  one_of, allowed_actions, allowed_event_types, Evidence, provenance_of, request_body, reissued,
  with_signature, build_provenance, sign, signed_request,
}
use trade_alerts.Integrity.Verified.{IsDigesting}

-- What the outbox reads of a signed request: its flat fields and its provenance.
unfoldable pub flat : Fields → Obj
flat Json.end = []
flat (Json.field k Json.null fs) = (k, null) ∷ flat fs
flat (Json.field k (Json.int n) fs) = (k, int n) ∷ flat fs
flat (Json.field k (Json.str s) fs) = (k, str s) ∷ flat fs
flat (Json.field k _ fs) = flat fs

abbrev provenance_in : Json → Option Obj
provenance_in (Json.obj fs) = some (flat fs)
provenance_in _ = none

unfoldable pub payload_of : Fields → Payload
payload_of fs = record { fields = flat fs; provenance = provenance_in (Json.get "provenance" fs) }

-- The same evidence under a new request id and time.
abbrev pub asked_again : String → String → Evidence → Evidence
asked_again request_id issued_at a = record {
  project_id = a.project_id;
  trade_id = a.trade_id;
  event_type = a.event_type;
  ledger_event = a.ledger_event;
  projection = a.projection;
  request_id = request_id;
  issued_at = issued_at;
  source_id = a.source_id;
}

as_dict-same : (p : Provenance) → obj_eq (as_dict p) (as_dict p) ≡ true
unfolding obj_eq as_dict Cells.get
as_dict-same p =
    rw
      (
        cell_eq_refl (str p.project_id),
        cell_eq_refl (str p.trade_id),
        cell_eq_refl (str p.event_type),
        cell_eq_refl (str p.ledger_event_digest),
        cell_eq_refl (str p.payload_digest),
        cell_eq_refl (str p.request_id),
        cell_eq_refl (str p.issued_at),
        cell_eq_refl (str p.source_id),
        cell_eq_refl (str p.schema_version),
      )
      refl

module _ (py : Runtime) where
  -- How `build_provenance` came to return.
  pub record IsBuilt (a : Evidence) (p : Provenance) : Type 0 where
    pub good_project : not (is_identifier a.project_id) ≡ false
    pub good_trade : not (is_identifier a.trade_id) ≡ false
    pub good_source : not (is_identifier a.source_id) ≡ false
    pub good_event : not (one_of allowed_event_types a.event_type) ≡ false
    pub event_digest : String
    pub normal : Fields
    pub projection_digest : String
    pub digested : sha256_digest py (Json.obj a.ledger_event) ≡ ok event_digest
    pub normalised : normalise_projection py a.projection ≡ ok normal
    pub bound : sha256_digest py (Json.obj normal) ≡ ok projection_digest
    pub made : provenance_of a event_digest projection_digest ≡ p

  pub build_provenance-IsBuilt :
      (a : Evidence) (p : Provenance) → build_provenance py a ≡ ok p → IsBuilt a p
  unfolding build_provenance
  build_provenance-IsBuilt a p h =
      let (good_project, h1) =
        raise_if-eq-ok (not (is_identifier a.project_id)) invalid_identifier _ h in
      let (good_trade, h2) =
        raise_if-eq-ok (not (is_identifier a.trade_id)) invalid_identifier _ h1 in
      let (good_source, h3) =
        raise_if-eq-ok (not (is_identifier a.source_id)) invalid_identifier _ h2 in
      let (good_event, h4) =
        raise_if-eq-ok (not (one_of allowed_event_types a.event_type)) unsupported_event_type _
          h3 in
      let (_, h5) = raise_if-eq-ok (not (py.is_uuid a.request_id)) invalid_request_id _ h4 in
      let (_, h6) = raise_if-eq-ok (a.issued_at == "") invalid_issued_at _ h5 in
      let (event_digest, digested, h7) =
        bind-eq-ok (sha256_digest py (Json.obj a.ledger_event)) _ h6 in
      let (normal, normalised, h8) = bind-eq-ok (normalise_projection py a.projection) _ h7 in
      let (projection_digest, bound, last) = bind-eq-ok (sha256_digest py (Json.obj normal)) _ h8 in
      record {
        good_project = good_project;
        good_trade = good_trade;
        good_source = good_source;
        good_event = good_event;
        event_digest = event_digest;
        normal = normal;
        projection_digest = projection_digest;
        digested = digested;
        normalised = normalised;
        bound = bound;
        made = ok-injective last;
      }

  pub sha256_digest-hex :
      (v : Json) (d : String) → IsDigesting py → sha256_digest py v ≡ ok d → is_sha256 d ≡ true
  unfolding sha256_digest
  sha256_digest-hex v d digests h =
      let (text, _, last) = bind-eq-ok (canonical_json py v) (λ text. ok (py.sha256 text)) h in
      subst (λ s. is_sha256 s ≡ true) (ok-injective last) (digests.sha256_hex text)

  pub build-again :
      (a : Evidence) (p : Provenance) (request_id issued_at : String)
      → IsBuilt a p
      → py.is_uuid request_id ≡ true
      → (issued_at == "") ≡ false
      → build_provenance py (asked_again request_id issued_at a)
        ≡ ok (reissued request_id issued_at p)
  unfolding build_provenance
  build-again a p request_id issued_at b fresh dated =
      rw
        (
          b.good_project, b.good_trade, b.good_source, b.good_event, fresh, dated, b.digested,
          b.normalised, b.bound,
        )
        (ap (λ q. ok (reissued request_id issued_at q)) b.made)

  body-canonical :
      (action sheet : String) (p : Provenance) (normal : Fields)
      → is_canonical_fields normal ≡ true
      → is_canonical (Json.obj (request_body action sheet p normal)) ≡ true
  unfolding is_canonical is_canonical_fields as_dict json_of
  body-canonical action sheet p normal h = rw h refl

  abbrev pub signature_of : String → String → String → Provenance → Fields → String
  signature_of secret action sheet p normal =
      py.hmac secret (py.dumps (Json.obj (request_body action sheet p normal)))

  pub signed_request-signs :
      (action sheet secret : String) (p : Provenance) (projection normal : Fields)
      → one_of allowed_actions action ≡ true
      → is_sheet_name sheet ≡ true
      → (secret == "") ≡ false
      → is_sha256 p.ledger_event_digest ≡ true
      → is_sha256 p.payload_digest ≡ true
      → normalise_projection py projection ≡ ok normal
      → is_canonical_fields normal ≡ true
      → signed_request py action sheet p projection secret
        ≡ ok (
            with_signature
              (request_body action sheet p normal)
              (signature_of secret action sheet p normal))
  unfolding signed_request sign canonical_json
  signed_request-signs action sheet secret p projection normal allowed named keyed hex1 hex2 came
        canonical =
      rw (allowed, named, keyed, hex1, hex2, came, body-canonical action sheet p normal canonical)
        refl

  pub rebuilt-IsBound :
      (fresh now action sheet signature request_id issued_at : String) (p : Provenance)
      (normal : Fields)
      → schema_version_v2 ≡ p.schema_version
      → IsBound (candidate_of fresh now action p) (record {
        payload = payload_of (
            with_signature
              (request_body action sheet (reissued request_id issued_at p) normal)
              signature);
        provenance = reissued request_id issued_at p;
      })
  unfolding payload_of flat with_signature put get_or_null Cells.get Json.get find json_of as_dict
  rebuilt-IsBound fresh now action sheet signature request_id issued_at p normal versioned =
      record {
        schema_version = refl;
        project_id = refl;
        trade_id = refl;
        event_type = refl;
        source_id = refl;
        ledger_event_digest = refl;
        payload_digest = refl;
        payload_action = refl;
        payload_schema = ap str versioned;
        payload_project = refl;
        payload_source = refl;
        payload_provenance = (
          as_dict (reissued request_id issued_at p),
          refl,
          as_dict-same (reissued request_id issued_at p),
        );
      }
