-- ===== src/Integrity/Verified.antt =====
-- What `verify_signed_request` of src/trade_alerts/ledger_integrity.py accepts.
use mathlib.Core.Path.{subst}
use trade_alerts.Base.{
  ◌≡◌, refl, sym, ap, ◌∙◌, ◌↔◌, Bool, true, false, not, String, ◌==◌, eq_iff, if◌then◌else◌,
  Bool-cases, inl, inr,
}
use trade_alerts.Result.{Result, ok, ◌>>=◌, raise_if-eq-ok, if-eq-ok, bind-eq-ok, ok-injective}
use trade_alerts.Json.{Json, Fields, get, put, find, is_canonical}
use trade_alerts.Outbox.Records.{Provenance}
use trade_alerts.Integrity.Text.{is_identifier, is_sheet_name, is_sha256}
use trade_alerts.Integrity.Canonical.{
  IntegrityError, not_canonical, unsupported_action, invalid_sheet_name, missing_credential,
  invalid_digest, invalid_identifier, invalid_request_id, invalid_issued_at, Runtime,
  canonical_json, normalise_projection,
}
use trade_alerts.Integrity.Signing.{
  one_of, allowed_actions, request_body, Query, query_body, reissued, unsigned, with_signature,
  sign, signed_request, signed_reconciliation_request, signed_read_audit_request, check_signature,
  verify_signed_request,
}

-- A body that a signature can be added to and taken from.
record IsSignable (body : Fields) : Type 0 where
  pub kept : (s : String) → unsigned (with_signature body s) ≡ body
  pub found : (s : String) → get "signature" (with_signature body s) ≡ Json.str s

request-IsSignable :
    (action sheet : String) (p : Provenance) (projection : Fields)
    → IsSignable (request_body action sheet p projection)
unfolding unsigned with_signature put get find
request-IsSignable action sheet p projection = record { kept = λ s. refl; found = λ s. refl }

query-IsSignable : (q : Query) → IsSignable (query_body q)
unfolding unsigned with_signature put get find
query-IsSignable q = record { kept = λ s. refl; found = λ s. refl }

module _ (py : Runtime) where
  -- SHA-256 and HMAC-SHA-256 give 64 lower-case hexadecimal digits.
  pub record IsDigesting : Type 0 where
    pub sha256_hex : (text : String) → is_sha256 (py.sha256 text) ≡ true
    pub hmac_hex : (key text : String) → is_sha256 (py.hmac key text) ≡ true

  pub canonical_json-eq-ok :
      (v : Json) {text : String}
      → canonical_json py v ≡ ok text
      → (is_canonical v ≡ true) × (py.dumps v ≡ text)
  unfolding canonical_json
  canonical_json-eq-ok v h = if-eq-ok (is_canonical v) (py.dumps v) not_canonical h

  sign-verified :
      (secret : String) (body payload : Fields)
      → IsDigesting
      → IsSignable body
      → (secret == "") ≡ false
      → sign py secret body ≡ ok payload
      → verify_signed_request py payload secret ≡ ok true
  unfolding sign verify_signed_request
  sign-verified secret body payload digests whole keyed h =
      let (text, came, last) = bind-eq-ok (canonical_json py (Json.obj body)) _ h in
      let signature = py.hmac secret text in
      subst (λ fs. verify_signed_request py fs secret ≡ ok true) (ok-injective last)
        (rw
          (
            keyed,
            whole.found signature,
            digests.hmac_hex secret text,
            whole.kept signature,
            came,
            (eq_iff signature signature).1 refl,
          )
          refl)

  -- The requests that the module signs with this secret.
  pub data Signed (secret : String) (payload : Fields) : Type 0 where
    projected :
        (action sheet : String) (p : Provenance) (projection : Fields)
        → signed_request py action sheet p projection secret ≡ ok payload
        → Signed secret payload
    inventory :
        (q : Query) → signed_reconciliation_request py q secret ≡ ok payload → Signed secret payload
    audit :
        (sheet : String) (p : Provenance) (projection : Fields) (request_id issued_at : String)
        → signed_read_audit_request py sheet p projection request_id issued_at secret ≡ ok payload
        → Signed secret payload

  signed_request-verified :
      (action sheet : String) (p : Provenance) (projection : Fields) (secret : String)
      (payload : Fields)
      → IsDigesting
      → signed_request py action sheet p projection secret ≡ ok payload
      → verify_signed_request py payload secret ≡ ok true
  unfolding signed_request
  signed_request-verified action sheet p projection secret payload digests h =
      let (_, h1) = raise_if-eq-ok (not (one_of allowed_actions action)) unsupported_action _ h in
      let (_, h2) = raise_if-eq-ok (not (is_sheet_name sheet)) invalid_sheet_name _ h1 in
      let (keyed, h3) = raise_if-eq-ok (secret == "") missing_credential _ h2 in
      let (_, h4) = raise_if-eq-ok (not (is_sha256 p.ledger_event_digest)) invalid_digest _ h3 in
      let (_, h5) = raise_if-eq-ok (not (is_sha256 p.payload_digest)) invalid_digest _ h4 in
      let (normal, _, last) =
        bind-eq-ok (normalise_projection py projection)
          (λ normal. sign py secret (request_body action sheet p normal)) h5 in
      sign-verified secret (request_body action sheet p normal) payload digests
        (request-IsSignable action sheet p normal) keyed last

  inventory-verified :
      (q : Query) (secret : String) (payload : Fields)
      → IsDigesting
      → signed_reconciliation_request py q secret ≡ ok payload
      → verify_signed_request py payload secret ≡ ok true
  unfolding signed_reconciliation_request
  inventory-verified q secret payload digests h =
      let (_, h1) = raise_if-eq-ok (not (is_identifier q.project_id)) invalid_identifier _ h in
      let (_, h2) = raise_if-eq-ok (not (is_sheet_name q.sheet_name)) invalid_sheet_name _ h1 in
      let (_, h3) = raise_if-eq-ok (not (is_identifier q.source_id)) invalid_identifier _ h2 in
      let (_, h4) = raise_if-eq-ok (not (py.is_uuid q.request_id)) invalid_request_id _ h3 in
      let (_, h5) = raise_if-eq-ok (q.issued_at == "") invalid_issued_at _ h4 in
      let (keyed, last) = raise_if-eq-ok (secret == "") missing_credential _ h5 in
      sign-verified secret (query_body q) payload digests (query-IsSignable q) keyed last

  audit-projected :
      (sheet : String) (p : Provenance) (projection : Fields) (request_id issued_at secret : String)
      (payload : Fields)
      → signed_read_audit_request py sheet p projection request_id issued_at secret ≡ ok payload
      → signed_request py "read_audit_v2" sheet (reissued request_id issued_at p) projection secret
        ≡ ok payload
  unfolding signed_read_audit_request
  audit-projected sheet p projection request_id issued_at secret payload h =
      let (_, h1) = raise_if-eq-ok (not (py.is_uuid request_id)) invalid_request_id _ h in
      let (_, h2) = raise_if-eq-ok (issued_at == "") invalid_issued_at _ h1 in h2

  -- Each request that the module returns, whichever of the three functions signed it, passes the
  -- verification with the secret it was signed with, if HMAC-SHA-256 gives hexadecimal digests.
  pub verify-Signed :
      (secret : String) (payload : Fields)
      → IsDigesting
      → Signed secret payload
      → verify_signed_request py payload secret ≡ ok true
  verify-Signed secret payload digests (projected action sheet p projection h) =
      signed_request-verified action sheet p projection secret payload digests h
  verify-Signed secret payload digests (inventory q h) =
      inventory-verified q secret payload digests h
  verify-Signed secret payload digests (audit sheet p projection request_id issued_at h) =
      signed_request-verified "read_audit_v2" sheet (reissued request_id issued_at p) projection
        secret payload digests
        (audit-projected sheet p projection request_id issued_at secret payload h)

  -- The signature field holds the digest, under this secret, of the canonical text of the other fields.
  pub record IsAuthentic (secret : String) (payload : Fields) : Type 0 where
    pub keyed : (secret == "") ≡ false
    pub signature : String
    pub sent : get "signature" payload ≡ Json.str signature
    pub hexadecimal : is_sha256 signature ≡ true
    pub canonical : is_canonical (Json.obj (unsigned payload)) ≡ true
    pub same : signature ≡ py.hmac secret (py.dumps (Json.obj (unsigned payload)))

  -- The answer to a text that may be a digest.
  abbrev answer_for : Bool → String → String → Fields → Result IntegrityError Bool
  answer_for hex signature secret payload = if not hex then ok false else (do
    text ← canonical_json py (Json.obj (unsigned payload))
    ok (signature == py.hmac secret text))

  answer_for-IsAuthentic :
      (hex : Bool) (signature secret : String) (payload : Fields)
      → is_sha256 signature ≡ hex
      → (secret == "") ≡ false
      → get "signature" payload ≡ Json.str signature
      → answer_for hex signature secret payload ≡ ok true
      → IsAuthentic secret payload
  answer_for-IsAuthentic false signature secret payload hex keyed sent h = cc
  answer_for-IsAuthentic true signature secret payload hex keyed sent h =
      let (text, came, last) =
        bind-eq-ok (canonical_json py (Json.obj (unsigned payload)))
          (λ text. ok (signature == py.hmac secret text)) h in
      let (canonical, dumped) = canonical_json-eq-ok (Json.obj (unsigned payload)) came in
      record {
        keyed = keyed;
        signature = signature;
        sent = sent;
        hexadecimal = hex;
        canonical = canonical;
        same =
            (eq_iff signature (py.hmac secret text)).0 (ok-injective last)
            ∙ ap (py.hmac secret) (sym dumped);
      }

  check-IsAuthentic :
      (secret : String) (payload : Fields) (v : Json)
      → get "signature" payload ≡ v
      → (secret == "") ≡ false
      → check_signature py v payload secret ≡ ok true
      → IsAuthentic secret payload
  check-IsAuthentic secret payload (Json.str s) sent keyed h =
      answer_for-IsAuthentic (is_sha256 s) s secret payload refl keyed sent h
  check-IsAuthentic secret payload _ sent keyed h = cc

  authentic :
      (secret : String) (payload : Fields)
      → verify_signed_request py payload secret ≡ ok true
      → IsAuthentic secret payload
  unfolding verify_signed_request
  authentic secret payload h = elim (Bool-cases (secret == "")) [
    | inl empty ↦
        let refused : ok false ≡ ok true =
          sym (
            ap
              (λ b.
                if b then ok false else check_signature py (get "signature" payload) payload secret)
              empty)
          ∙ h in
        cc
    | inr keyed ↦ check-IsAuthentic secret payload (get "signature" payload) refl keyed (
        sym (
          ap
            (λ b.
              if b then ok false else check_signature py (get "signature" payload) payload secret)
            keyed)
        ∙ h)
  ]

  IsAuthentic-verified :
      (secret : String) (payload : Fields)
      → IsAuthentic secret payload
      → verify_signed_request py payload secret ≡ ok true
  unfolding verify_signed_request canonical_json
  IsAuthentic-verified secret payload a =
      rw (a.keyed, a.sent, a.hexadecimal, a.canonical)
        (ap ok
          ((eq_iff a.signature (py.hmac secret (py.dumps (Json.obj (unsigned payload))))).1 a.same))

  -- A payload is accepted exactly if its signature is the HMAC, under a secret that is not empty, of
  -- the canonical text of all its other fields, which must all be canonical JSON.
  pub verify-IsAuthentic :
      (secret : String) (payload : Fields)
      → (verify_signed_request py payload secret ≡ ok true) ↔ IsAuthentic secret payload
  verify-IsAuthentic secret payload =
      (authentic secret payload, IsAuthentic-verified secret payload)
