-- ===== src/Integrity/Rebuilding.antt =====
-- The requests of src/trade_alerts/ledger_integrity.py in front of `_validate_rebuilt` of
-- src/trade_alerts/projection_outbox.py.
use mathlib.Core.Path.{subst}
use trade_alerts.Base.{◌≡◌, ap, true, false, String, ◌==◌}
use trade_alerts.Result.{ok}
use trade_alerts.Json.{Json, Fields}
use trade_alerts.Outbox.Records.{Provenance}
use trade_alerts.Outbox.Queue.{candidate_of}
use trade_alerts.Outbox.Dispatch.{validate_rebuilt}
use trade_alerts.Outbox.Binding.{validate_rebuilt-IsBound}
use trade_alerts.Integrity.Text.{is_sheet_name, is_sha256}
use trade_alerts.Integrity.Canonical.{Runtime}
use trade_alerts.Integrity.Signing.{
  one_of, allowed_actions, Evidence, request_body, reissued, with_signature, build_provenance,
  signed_request, verify_signed_request,
}
use trade_alerts.Integrity.Normal.{normalise_projection-IsNormal}
use trade_alerts.Integrity.Verified.{IsDigesting, projected, verify-Signed}
use trade_alerts.Integrity.Reissuing.{
  payload_of, asked_again, build_provenance-IsBuilt, sha256_digest-hex, build-again, signature_of,
  signed_request-signs, rebuilt-IsBound,
}

module _ (py : Runtime) where
  -- The rebuild of a queued intent: the provenance again, a request for it, its signature and its test.
  pub record Rebuilds (a : Evidence) (p : Provenance)
      (action sheet secret fresh now request_id issued_at : String) : Type 0 where
    pub payload : Fields
    pub again :
        build_provenance py (asked_again request_id issued_at a)
        ≡ ok (reissued request_id issued_at p)
    pub signs :
        signed_request py action sheet (reissued request_id issued_at p) a.projection secret
        ≡ ok payload
    pub verifies : verify_signed_request py payload secret ≡ ok true
    pub validates :
        validate_rebuilt
          (candidate_of fresh now action p)
          (record { payload = payload_of payload; provenance = reissued request_id issued_at p })
        ≡ ok tt

  -- An intent that was queued with the provenance of some evidence can be rebuilt from the same
  -- evidence at any later time: with a fresh request id and time the provenance is built again, the
  -- request for an allowed action, a sheet name and a secret is signed without an error, its signature
  -- verifies, and the outbox's own test of a rebuilt projection passes.
  pub rebuild-Rebuilds :
      (a : Evidence) (p : Provenance) (action sheet secret fresh now request_id issued_at : String)
      → IsDigesting py
      → build_provenance py a ≡ ok p
      → one_of allowed_actions action ≡ true
      → is_sheet_name sheet ≡ true
      → (secret == "") ≡ false
      → py.is_uuid request_id ≡ true
      → (issued_at == "") ≡ false
      → Rebuilds a p action sheet secret fresh now request_id issued_at
  rebuild-Rebuilds a p action sheet secret fresh now request_id issued_at digests built allowed
        named keyed asked dated =
      let b = build_provenance-IsBuilt py a p built in
      let p2 = reissued request_id issued_at p in
      let canonical =
        (normalise_projection-IsNormal py a.projection b.normal b.normalised).fields_canonical in
      let signs =
        signed_request-signs py action sheet secret p2 a.projection b.normal allowed named keyed
          (subst (λ q. is_sha256 q.ledger_event_digest ≡ true) b.made
            (sha256_digest-hex py (Json.obj a.ledger_event) b.event_digest digests b.digested))
          (subst (λ q. is_sha256 q.payload_digest ≡ true) b.made
            (sha256_digest-hex py (Json.obj b.normal) b.projection_digest digests b.bound))
          b.normalised canonical in
      record {
        payload =
            with_signature (request_body action sheet p2 b.normal)
              (signature_of py secret action sheet p2 b.normal);
        again = build-again py a p request_id issued_at b asked dated;
        signs = signs;
        verifies = verify-Signed py secret _ digests (projected action sheet p2 a.projection signs);
        validates = (validate_rebuilt-IsBound _ _).1 (
            rebuilt-IsBound py fresh now action sheet
              (signature_of py secret action sheet p2 b.normal) request_id issued_at p b.normal
              (ap (λ q. q.schema_version) b.made));
      }
