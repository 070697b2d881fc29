-- ===== src/Integrity/Examples.antt =====
-- One trade of src/trade_alerts/ledger_integrity.py, signed, verified and rebuilt.
use trade_alerts.Base.{◌≡◌, refl, ◌↔◌, true, String}
use trade_alerts.Base.Int.{pos}
use trade_alerts.Result.{ok}
use trade_alerts.Json.{Json, Fields, end, field, is_canonical, is_canonical_fields}
use trade_alerts.Outbox.Records.{Provenance, as_dict}
use trade_alerts.Outbox.ParkEvent.{json_of}
use trade_alerts.Integrity.Text.{is_sha256, is_name, all_chars, text_length, strip_right}
use trade_alerts.Integrity.Canonical.{
  Runtime, canonical_json, sha256_digest, projection_value, normalise_projection,
}
use trade_alerts.Integrity.Signing.{
  Evidence, provenance_of, request_body, with_signature, build_provenance, sign, signed_request,
  verify_signed_request,
}
use trade_alerts.Integrity.Normal.{IsNormalFields, normalise_projection-IsNormal}
use trade_alerts.Integrity.Verified.{
  IsDigesting, projected, verify-Signed, IsAuthentic, verify-IsAuthentic,
}
use trade_alerts.Integrity.Rebuilding.{Rebuilds, rebuild-Rebuilds}

abbrev digest : String
digest = "00112233445566778899aabbccddeeff00112233445566778899aabbccddeeff"

abbrev python : Runtime
python = record {
  dumps = λ v. "text";
  str_int = λ n. "3";
  fixed = λ n s. "15.500000000000000";
  is_uuid = λ s. true;
  sha256 = λ text. digest;
  hmac = λ key text. digest;
}

digest_hex : is_sha256 digest ≡ true
unfolding is_sha256 all_chars text_length
digest_hex = refl

python-IsDigesting : IsDigesting python
python-IsDigesting = record { sha256_hex = λ text. digest_hex; hmac_hex = λ key text. digest_hex }

abbrev row : Fields
row = field "quantity" (Json.int (pos 3)) (field "price" (Json.decimal (pos 155) 1) end)

abbrev normal_row : Fields
normal_row = field "quantity" (Json.str "3") (field "price" (Json.str "15.5") end)

row_normal : normalise_projection python row ≡ ok normal_row
unfolding normalise_projection projection_value strip_right
row_normal = refl

normalise_projection-IsNormal_example : IsNormalFields python normal_row
normalise_projection-IsNormal_example =
    normalise_projection-IsNormal python row normal_row row_normal

abbrev evidence : Evidence
evidence = record {
  project_id = "mycrypto";
  trade_id = "T-7";
  event_type = "trade_open";
  ledger_event = end;
  projection = row;
  request_id = "r1";
  issued_at = "2026-09-01T00:00:00Z";
  source_id = "host-a";
}

abbrev proof : Provenance
proof = provenance_of evidence digest digest

evidence_built : build_provenance python evidence ≡ ok proof
unfolding build_provenance sha256_digest canonical_json is_canonical is_canonical_fields
    normalise_projection projection_value strip_right is_name all_chars text_length
evidence_built = refl

abbrev body : Fields
body = request_body "append_open_v2" "sheet" proof normal_row

abbrev sent : Fields
sent = with_signature body digest

sent_signed : signed_request python "append_open_v2" "sheet" proof row "secret" ≡ ok sent
unfolding signed_request sign canonical_json is_canonical is_canonical_fields normalise_projection
    as_dict json_of projection_value strip_right is_name all_chars text_length is_sha256
sent_signed = refl

verify-Signed_example : verify_signed_request python sent "secret" ≡ ok true
verify-Signed_example =
    verify-Signed python "secret" sent python-IsDigesting
      (projected "append_open_v2" "sheet" proof row sent_signed)

verify-IsAuthentic_example :
    (verify_signed_request python sent "secret" ≡ ok true) ↔ IsAuthentic python "secret" sent
verify-IsAuthentic_example = verify-IsAuthentic python "secret" sent

rebuild-Rebuilds_example :
    Rebuilds python evidence proof "append_open_v2" "sheet" "secret" "a1" "2026-09-01T00:00:00Z"
      "r2" "2026-09-02T00:00:00Z"
unfolding is_name all_chars text_length
rebuild-Rebuilds_example =
    rebuild-Rebuilds python evidence proof "append_open_v2" "sheet" "secret" "a1"
      "2026-09-01T00:00:00Z" "r2" "2026-09-02T00:00:00Z" python-IsDigesting evidence_built refl refl
      refl refl refl
