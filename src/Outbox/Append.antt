-- ===== src/Outbox/Append.antt =====
-- What an enqueued intent does to the queue of src/trade_alerts/projection_outbox.py.
use mathlib.Core.Path.{subst}
use trade_alerts.Base.{
  ◌≡◌, ◌≢◌, refl, ap, ◌∙◌, true, false, not, none, List, [], ◌∷◌, ◌++◌, map, any, first, arith,
  map-append, String, any-append, select-append, select-cong,
}
use trade_alerts.Result.{ok, raised, ◌>>=◌}
use trade_alerts.Outbox.Cells.{Cell, str, cell_eq_iff, cell_eq_refl, is_str}
use trade_alerts.Outbox.Records.{
  Provenance, Intent, Record, schema_version_v2, intent_schema_invalid, intent_of_obj-obj_of_intent,
  intent_from_record,
}
use trade_alerts.Outbox.Queue.{
  Scan, has_id, candidate_of, same_key, enqueue_projection_intent, outstanding_projection_intents,
  scan, scan_record,
}
use trade_alerts.Outbox.Log.{
  Entry, queued, tried, record_of, log, queued_intents, settles, pending, IsSendable, IsLog,
  IsLogAfter, queued_intents-append, queued-IsLog, outstanding-log, read_outbox-log, scan-log,
}
use trade_alerts.Outbox.Enqueue.{
  enqueue_after, IsProjectable, from_provenance-IsProjectable, enqueue-log,
}

-- The id was never written.
abbrev pub IsFresh : Cell → List Entry → Type 0
IsFresh c es = (any (has_id c) (queued_intents es) ≡ false) × (any (settles c) es ≡ false)

settled-queued :
    (es : List Entry) (i : Intent) (x : Cell)
    → any (settles x) (es ++ queued i ∷ []) ≡ any (settles x) es
settled-queued es i x = rw any-append (ground arith)

pub pending-queued :
    (es : List Entry) (i : Intent)
    → any (settles i.intent_id) es ≡ false
    → pending (es ++ queued i ∷ []) ≡ pending es ++ i ∷ []
unfolding pending
pending-queued es i h =
    rw (queued_intents-append es (queued i ∷ []), select-append, settled-queued es i i.intent_id, h)
      (ap (λ is. is ++ i ∷ [])
        (select-cong _ _ (queued_intents es) λ x. ap not (settled-queued es i x.intent_id)))

same_key-foreign :
    (i c : Intent)
    → is_str schema_version_v2 i.schema_version ≡ true
    → is_str schema_version_v2 c.schema_version ≡ false
    → same_key i c ≡ false
unfolding same_key
same_key-foreign i c v2 other = ground (
  arith,
  cell_eq_iff i.schema_version c.schema_version,
  cell_eq_iff i.schema_version (str schema_version_v2),
  cell_eq_iff c.schema_version (str schema_version_v2),
)

first-foreign :
    (c : Intent) (es : List Entry) (before : List Intent)
    → IsLogAfter before es
    → is_str schema_version_v2 c.schema_version ≡ false
    → first (λ e. same_key e c) (queued_intents es) ≡ none
first-foreign c [] before h other = refl
first-foreign c (queued i ∷ es) before h other =
    rw (same_key-foreign i c h.0.1 other) (first-foreign c es (before ++ i ∷ []) h.2 other)
first-foreign c (tried d ∷ es) before h other = first-foreign c es before h other

scan-append : (rs ss : List Record) (s : Scan) → scan (rs ++ ss) s ≡ (do s' ← scan rs s; scan ss s')
unfolding scan
scan-append [] ss s = refl
scan-append (r ∷ rs) ss s =
    elim (scan_record r s)
      as (λ o. (do s' ← o; scan (rs ++ ss) s') ≡ (do s' ← (do s'' ← o; scan rs s''); scan ss s')) [
        | ok s' ↦ scan-append rs ss s'
        | raised e ↦ refl
      ]

module _ (fresh now action : String) (p : Provenance) (es : List Entry) where
  abbrev candidate : Intent
  candidate = candidate_of fresh now action p

  enqueue_absent :
      IsLog es
      → IsProjectable action p
      → first (λ e. same_key e candidate) (queued_intents es) ≡ none
      → enqueue_projection_intent fresh now action p (log es)
        ≡ ok (candidate, log (es ++ queued candidate ∷ []))
  enqueue_absent h pass absent =
      subst
        (λ found.
          enqueue_projection_intent fresh now action p (log es)
          ≡ ok ((enqueue_after candidate es found).0, log (enqueue_after candidate es found).1))
        absent
        (enqueue-log fresh now action p es h
          (from_provenance-IsProjectable action p fresh now pass))

  -- An intent that was never queued goes to the end of the queue, behind all that is pending, and
  -- the file that is left is again that of a history: for a new id and a provenance of schema v2.
  pub enqueue-pending :
      IsLog es
      → IsProjectable action p
      → p.schema_version ≡ schema_version_v2
      → IsFresh (str fresh) es
      → first (λ e. same_key e candidate) (queued_intents es) ≡ none
      → (enqueue_projection_intent fresh now action p (log es)
          ≡ ok (candidate, log (es ++ queued candidate ∷ [])))
        × IsLog (es ++ queued candidate ∷ [])
        × (outstanding_projection_intents (log (es ++ queued candidate ∷ []))
            ≡ ok (pending es ++ candidate ∷ []))
  enqueue-pending h pass v2 new absent =
      let sendable : IsSendable candidate =
        (pass.0, rw v2 (cell_eq_refl (str schema_version_v2))) in
      let kept : IsLog (es ++ queued candidate ∷ []) = queued-IsLog es candidate h sendable new.0 in
      (
        enqueue_absent h pass absent,
        kept,
        outstanding-log (es ++ queued candidate ∷ []) kept
            ∙ ap ok (pending-queued es candidate new.1),
      )

  -- A provenance of another schema version is enqueued all the same, and the outbox that is left
  -- cannot be read: asking for the outstanding intents raises.
  pub enqueue_foreign_schema :
      IsLog es
      → IsProjectable action p
      → p.schema_version ≢ schema_version_v2
      → (enqueue_projection_intent fresh now action p (log es)
          ≡ ok (candidate, log (es ++ queued candidate ∷ [])))
        × (outstanding_projection_intents (log (es ++ queued candidate ∷ []))
            ≡ raised intent_schema_invalid)
  unfolding outstanding_projection_intents scan scan_record record_of intent_from_record
  enqueue_foreign_schema h pass other =
      let foreign : is_str schema_version_v2 candidate.schema_version ≡ false =
        ground (arith, cell_eq_iff candidate.schema_version (str schema_version_v2)) in
      (
        enqueue_absent h pass (first-foreign candidate es [] h foreign),
        rw
            (
              read_outbox-log,
              map-append,
              scan-append (map record_of es),
              scan-log es (record { intents = []; terminal = [] }) h,
              intent_of_obj-obj_of_intent,
              pass.0,
              foreign,
            )
            refl,
      )
