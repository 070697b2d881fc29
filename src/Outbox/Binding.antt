-- ===== src/Outbox/Binding.antt =====
-- What `_validate_rebuilt` of src/trade_alerts/projection_outbox.py admits, and what happens to the rest.
use trade_alerts.Base.{
  ◌≡◌, refl, ap, ◌∙◌, ◌↔◌, true, false, not, Option, none, some, List, [], ◌∷◌, ◌++◌, String, arith,
}
use trade_alerts.Result.{Result, ok, raised}
use trade_alerts.Outbox.Cells.{Cell, str, cell_eq, cell_eq_iff, get_or_null, obj_eq}
use trade_alerts.Outbox.Records.{Provenance, as_dict, Intent, Dispatch, OutboxError, is_terminal}
use trade_alerts.Outbox.Dispatch.{
  carries, binding_differs, action_differs, identity_differs, Rebuilt, Payload, RebuildEnd, rebuilt,
  SubmitEnd, validate_rebuilt, dispatch_of, rejected_with, reject_rebuild, attempt, dispatch_next,
}
use trade_alerts.Outbox.Log.{Entry, tried, log, pending, IsLog, outstanding-log, tried-IsLog}
use trade_alerts.Outbox.Head.{pending-tried}
use trade_alerts.Outbox.Queue.{outstanding_projection_intents}
use trade_alerts.Outbox.Attempt.{rejected_with-IsRecordable, record_projection_dispatch-log}
use trade_alerts.Outbox.Dispatch.{is_error_code}

-- The rebuilt projection is the one that was queued, in its provenance and in its payload.
pub record IsBound (i : Intent) (r : Rebuilt) : Type 0 where
  pub schema_version : str r.provenance.schema_version ≡ i.schema_version
  pub project_id : str r.provenance.project_id ≡ i.project_id
  pub trade_id : str r.provenance.trade_id ≡ i.trade_id
  pub event_type : str r.provenance.event_type ≡ i.event_type
  pub source_id : str r.provenance.source_id ≡ i.source_id
  pub ledger_event_digest : str r.provenance.ledger_event_digest ≡ i.ledger_event_digest
  pub payload_digest : str r.provenance.payload_digest ≡ i.payload_digest
  pub payload_action : get_or_null "action" r.payload.fields ≡ i.action
  pub payload_schema : get_or_null "schema_version" r.payload.fields ≡ i.schema_version
  pub payload_project : get_or_null "project_id" r.payload.fields ≡ i.project_id
  pub payload_source : get_or_null "source_id" r.payload.fields ≡ i.source_id
  pub payload_provenance :
      (o : List (String × Cell)) × (r.payload.provenance ≡ some o)
      × (obj_eq o (as_dict r.provenance) ≡ true)

same : {a b : Cell} → a ≡ b → cell_eq a b ≡ true
same {a} {b} h = (cell_eq_iff a b).1 h

decided : (a b : Cell) → not (cell_eq a b) ≡ false → a ≡ b
decided a b h = (cell_eq_iff a b).0 (ground arith)

carried :
    (o : Option (List (String × Cell))) (p : Provenance)
    → not (carries o p) ≡ false
    → (w : List (String × Cell)) × (o ≡ some w) × (obj_eq w (as_dict p) ≡ true)
carried none p h = cc
carried (some w) p h = (w, refl, ground arith)

passed :
    (i : Intent) (r : Rebuilt)
    → validate_rebuilt i r ≡ ok tt
    → (cell_eq (str r.provenance.schema_version) i.schema_version ≡ true)
      × (binding_differs i r.provenance ≡ false)
      × (action_differs i r.payload.fields ≡ false)
      × (identity_differs i r.payload.fields ≡ false)
      × (not (carries r.payload.provenance r.provenance) ≡ false)
unfolding validate_rebuilt
passed i r h = ground arith

same_binding :
    (i : Intent) (p : Provenance)
    → binding_differs i p ≡ false
    → (cell_eq (str p.project_id) i.project_id ≡ true)
      × (cell_eq (str p.trade_id) i.trade_id ≡ true)
      × (cell_eq (str p.event_type) i.event_type ≡ true)
      × (cell_eq (str p.source_id) i.source_id ≡ true)
      × (cell_eq (str p.ledger_event_digest) i.ledger_event_digest ≡ true)
      × (cell_eq (str p.payload_digest) i.payload_digest ≡ true)
unfolding binding_differs
same_binding i p h = ground arith

same_payload :
    (i : Intent) (o : List (String × Cell))
    → action_differs i o ≡ false
    → identity_differs i o ≡ false
    → (cell_eq (get_or_null "action" o) i.action ≡ true)
      × (cell_eq (get_or_null "schema_version" o) i.schema_version ≡ true)
      × (cell_eq (get_or_null "project_id" o) i.project_id ≡ true)
      × (cell_eq (get_or_null "source_id" o) i.source_id ≡ true)
unfolding action_differs identity_differs
same_payload i o h k = ground arith

IsBound-validate_rebuilt : (i : Intent) (r : Rebuilt) → validate_rebuilt i r ≡ ok tt → IsBound i r
IsBound-validate_rebuilt i r h =
    let (schema, binding, action, identity, provenance) = passed i r h in
    let (project, trade, event, source, event_digest, payload_digest) =
      same_binding i r.provenance binding in
    let (p_action, p_schema, p_project, p_source) =
      same_payload i r.payload.fields action identity in
    record {
      schema_version = (cell_eq_iff _ _).0 schema;
      project_id = (cell_eq_iff _ _).0 project;
      trade_id = (cell_eq_iff _ _).0 trade;
      event_type = (cell_eq_iff _ _).0 event;
      source_id = (cell_eq_iff _ _).0 source;
      ledger_event_digest = (cell_eq_iff _ _).0 event_digest;
      payload_digest = (cell_eq_iff _ _).0 payload_digest;
      payload_action = (cell_eq_iff _ _).0 p_action;
      payload_schema = (cell_eq_iff _ _).0 p_schema;
      payload_project = (cell_eq_iff _ _).0 p_project;
      payload_source = (cell_eq_iff _ _).0 p_source;
      payload_provenance = carried r.payload.provenance r.provenance provenance;
    }

validate_rebuilt_bound : (i : Intent) (r : Rebuilt) → IsBound i r → validate_rebuilt i r ≡ ok tt
unfolding validate_rebuilt binding_differs action_differs identity_differs
validate_rebuilt_bound i r b =
    let (w, found, equal) = b.payload_provenance in
    rw
      (
        same b.schema_version,
        same b.project_id,
        same b.trade_id,
        same b.event_type,
        same b.source_id,
        same b.ledger_event_digest,
        same b.payload_digest,
        same b.payload_action,
        same b.payload_schema,
        same b.payload_project,
        same b.payload_source,
        found,
        equal,
      )
      refl

-- A rebuilt projection passes exactly if every field that the intent fixed is unchanged, and the
-- payload carries the action, the identity and the provenance that go with them.
pub validate_rebuilt-IsBound :
    (i : Intent) (r : Rebuilt) → (validate_rebuilt i r ≡ ok tt) ↔ IsBound i r
validate_rebuilt-IsBound i r = (IsBound-validate_rebuilt i r, validate_rebuilt_bound i r)

-- A rebuilt projection that is not bound to the head of the queue gives the same result whatever
-- `submit` would answer: REJECTED with the code "rehydration_invalid" is recorded, and the intent is no
-- longer to be sent, while all behind it still is.
pub unbound_rejected :
    (rebuild : Intent → RebuildEnd) (submit : Payload → Provenance → SubmitEnd) (now : String)
    (es : List Entry) {i : Intent} {rest : List Intent} {r : Rebuilt}
    → IsLog es
    → pending es ≡ i ∷ rest
    → rebuild i ≡ rebuilt r
    → ¬ (IsBound i r)
    → let d = dispatch_of now i (rejected_with "rehydration_invalid") in
      (dispatch_next rebuild submit now (log es)
        ≡ ok (
          record { intent = some i; dispatch = some d; paused_reason = none },
          log (es ++ tried d ∷ []),
        ))
      × (outstanding_projection_intents (log (es ++ tried d ∷ [])) ≡ ok rest)
unfolding dispatch_next attempt reject_rebuild is_error_code is_terminal cell_eq
unbound_rejected rebuild submit now es {i} {rest} {r} h front rebuilds unbound = (
  rw (outstanding-log es h, front, rebuilds) (failed (validate_rebuilt i r) refl),
  outstanding-log (es ++ tried d ∷ []) (tried-IsLog es d h)
      ∙ ap ok (pending-tried es d h front refl),
)
  where
    d : Dispatch
    d = dispatch_of now i (rejected_with "rehydration_invalid")

    failed :
        (v : Result OutboxError (Unit {0}))
        → validate_rebuilt i r ≡ v
        → attempt rebuild submit now i (rebuilt r) (log es)
          ≡ ok (
            record { intent = some i; dispatch = some d; paused_reason = none },
            log (es ++ tried d ∷ []),
          )
    failed (ok tt) e = absurd (unbound (IsBound-validate_rebuilt i r e))
    failed (raised x) e =
        rw
          (
            e,
            attempt,
            record_projection_dispatch-log now i (rejected_with "rehydration_invalid") es
                (rejected_with-IsRecordable "rehydration_invalid" refl),
          )
          refl
