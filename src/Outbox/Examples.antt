-- ===== src/Outbox/Examples.antt =====
-- Runs of the outbox of src/trade_alerts/projection_outbox.py on small files.
use trade_alerts.Base.{
  ℕ, ◌≡◌, ◌≢◌, refl, true, false, none, some, List, [], ◌∷◌, ◌++◌, map, String, arith, ◌==◌, eq_iff,
  ◌↔◌, first, All, if◌then◌else◌, nat_eq,
}
use trade_alerts.Base.Int.{pos}
use trade_alerts.Result.{ok, raised}
use trade_alerts.Jsonl.{append_record}
use trade_alerts.EventLog.{EventFile}
use trade_alerts.Outbox.Cells.{
  Cell, null, int, str, cell_eq, cell_eq_iff, is_str, get, get_or_null, obj_eq,
}
use trade_alerts.Outbox.Records.{
  Provenance, Intent, Dispatch, schema_version_v2, as_dict, action_event_type, is_allowed_action,
  is_terminal, intent_schema_invalid,
}
use trade_alerts.Outbox.Queue.{
  record_of_intent, candidate_of, enqueue_projection_intent, outstanding_projection_intents,
  same_key,
}
use trade_alerts.Outbox.Dispatch.{
  Rebuilt, Payload, RebuildEnd, rebuilt, SubmitEnd, answered, validate_rebuilt, binding_differs,
  action_differs, identity_differs, is_receiver_row, is_error_code, dispatch_of, rejected_with,
  dispatch_next, consecutive_answers,
}
use trade_alerts.Outbox.Requeue.{requeue_rejected}
use trade_alerts.Outbox.Log.{record_of, Entry, queued, tried, log, pending, IsLog, outstanding-log}
use trade_alerts.Outbox.Enqueue.{
  from_provenance-IsProjectable, IsProjectable, enqueue_twice, enqueue-log,
}
use trade_alerts.Outbox.Append.{enqueue-pending, enqueue_foreign_schema}
use trade_alerts.Outbox.Head.{pending-tried}
use trade_alerts.Outbox.Attempt.{Attempted, dispatch_next-Attempted}
use trade_alerts.Outbox.Streak.{answers, trailing_run, consecutive_answers-trailing_run}
use trade_alerts.Outbox.Binding.{IsBound, validate_rebuilt-IsBound, unbound_rejected}
use trade_alerts.Outbox.Rules.{trade_id_conflict, refused_with}
use trade_alerts.Outbox.Parking.{dispatch_rounds, parked_after_limit}
use trade_alerts.Outbox.Recovery.{IsRecoverable, requeue-IsRecoverable}
use trade_alerts.Outbox.ParkNotice.{IsFiled, park_event_written}
use trade_alerts.Outbox.ParkEvent.{dispatch_next_projection}

abbrev proof_of : String → Provenance
proof_of t = record {
  project_id = "mycrypto";
  trade_id = t;
  event_type = "trade_open";
  ledger_event_digest = "5f1c";
  payload_digest = "9a02";
  request_id = "req-1";
  issued_at = "2026-09-01T00:00:00Z";
  source_id = "host-a";
  schema_version = schema_version_v2;
}

abbrev opening : Intent
opening = candidate_of "a1" "2026-09-01T00:00:00Z" "append_open_v2" (proof_of "T-7")

abbrev later : Intent
later = candidate_of "a2" "2026-09-01T00:00:05Z" "append_open_v2" (proof_of "T-8")

abbrev waiting : List Entry
waiting = queued opening ∷ queued later ∷ []

abbrev failure : Dispatch
failure = dispatch_of "2026-09-01T00:01:00Z" opening (refused_with "trade_id_conflict")

abbrev refusal : Dispatch
refusal = dispatch_of "2026-09-01T00:02:00Z" opening (rejected_with "trade_id_conflict_parked")

abbrev two_waiting : List Intent
two_waiting = opening ∷ later ∷ []

waiting-IsLog : IsLog waiting
unfolding is_allowed_action cell_eq
waiting-IsLog = (((refl, refl), refl, ((refl, refl), refl, tt)))

waiting-pending : pending waiting ≡ two_waiting
unfolding pending
waiting-pending = refl

abbrev signed : Rebuilt
signed = record {
  payload = record {
    fields =
        ("action", str "append_open_v2")
        ∷ ("schema_version", str schema_version_v2)
        ∷ ("project_id", str "mycrypto")
        ∷ ("source_id", str "host-a")
        ∷ [];
    provenance = some (as_dict (proof_of "T-7"));
  };
  provenance = proof_of "T-7";
}

abbrev rebuild_signed : Intent → RebuildEnd
rebuild_signed i = rebuilt signed

abbrev confirm : Payload → Provenance → SubmitEnd
confirm p q =
    answered (record { status = str "CONFIRMED"; receiver_row = int (pos 5); error_code = null })

abbrev refuse : Payload → Provenance → SubmitEnd
refuse p q = answered (refused_with "trade_id_conflict")

dispatch_next-Attempted_example :
    Attempted waiting opening
      (later ∷ [])
      (dispatch_next rebuild_signed confirm "2026-09-01T00:01:00Z" (log waiting))
unfolding is_receiver_row is_error_code
dispatch_next-Attempted_example =
    dispatch_next-Attempted waiting opening (later ∷ []) waiting-IsLog waiting-pending
      rebuild_signed confirm "2026-09-01T00:01:00Z" (λ p q. (refl, refl))

signed_valid : validate_rebuilt opening signed ≡ ok tt
unfolding validate_rebuilt binding_differs action_differs identity_differs cell_eq get_or_null get
    obj_eq as_dict
signed_valid = refl

conflict_concerns : (is_str "append_open_v2" opening.action ≡ true)
unfolding cell_eq
conflict_concerns = refl

abbrev three_times : List String
three_times = "2026-09-01T00:01:00Z" ∷ "2026-09-01T00:02:00Z" ∷ "2026-09-01T00:03:00Z" ∷ []

parked_after_limit_example :
    (es' : List Entry) × (dispatch_rounds rebuild_signed refuse three_times (log waiting)
      ≡ ok (log es'))
    × IsLog es'
    × (pending es' ≡ later ∷ [])
unfolding cell_eq
parked_after_limit_example =
    parked_after_limit rebuild_signed refuse trade_id_conflict opening (later ∷ []) refl refl
      signed_valid refl three_times waiting waiting-IsLog waiting-pending (omega arith) refl

abbrev refused : List Entry
refused = queued opening ∷ tried failure ∷ tried refusal ∷ []

refused-IsLog : IsLog refused
unfolding is_allowed_action cell_eq
refused-IsLog = ((refl, refl), refl, tt)

abbrev copy_id : ℕ → String
copy_id n = if nat_eq n 0 then "b1" else "b2"

abbrev copy_time : ℕ → String
copy_time n = "2026-09-02T00:00:00Z"

requeue-IsRecoverable_example :
    (is : List Intent) × (requeue_rejected copy_id copy_time "T-7" (log refused)
      ≡ ok (is, log (refused ++ map queued is)))
    × All (IsRecoverable "T-7" refused) is
requeue-IsRecoverable_example = requeue-IsRecoverable "T-7" refused copy_id copy_time refused-IsLog

abbrev again : Provenance
again = proof_of "T-9"

abbrev added : Intent
added = candidate_of "a3" "2026-09-01T00:00:09Z" "append_open_v2" again

open_projectable : (p : Provenance) → p.event_type ≡ "trade_open" → IsProjectable "append_open_v2" p
unfolding is_allowed_action cell_eq action_event_type
open_projectable p h = rw h (refl, refl)

added_absent : first (λ e. same_key e added) (two_waiting) ≡ none
unfolding same_key cell_eq
added_absent = refl

enqueue-pending_example :
    (enqueue_projection_intent "a3" "2026-09-01T00:00:09Z" "append_open_v2" again (log waiting)
      ≡ ok (added, log (waiting ++ queued added ∷ [])))
    × IsLog (waiting ++ queued added ∷ [])
    × (outstanding_projection_intents (log (waiting ++ queued added ∷ []))
        ≡ ok (pending waiting ++ added ∷ []))
unfolding cell_eq
enqueue-pending_example =
    enqueue-pending "a3" "2026-09-01T00:00:09Z" "append_open_v2" again waiting waiting-IsLog
      (open_projectable again refl) refl (refl, refl) added_absent

once :
    enqueue_projection_intent "a1" "2026-09-01T00:00:00Z" "append_open_v2" (proof_of "T-7") (log [])
    ≡ ok (opening, append_record (record_of_intent opening) (log []))
unfolding append_record record_of
once =
    enqueue-log "a1" "2026-09-01T00:00:00Z" "append_open_v2" (proof_of "T-7") [] tt
      (from_provenance-IsProjectable _ _ _ _ (open_projectable (proof_of "T-7") refl))

enqueue_twice_example :
    enqueue_projection_intent "z9" "2026-09-05T00:00:00Z" "append_open_v2"
      (proof_of "T-7")
      (append_record (record_of_intent opening) (log []))
    ≡ ok (opening, append_record (record_of_intent opening) (log []))
enqueue_twice_example =
    enqueue_twice "append_open_v2" (proof_of "T-7") "a1" "2026-09-01T00:00:00Z" "z9"
      "2026-09-05T00:00:00Z" refl (open_projectable (proof_of "T-7") refl) (log []) refl once

outstanding-log_example : outstanding_projection_intents (log waiting) ≡ ok (pending waiting)
outstanding-log_example = outstanding-log waiting waiting-IsLog

validate_rebuilt-IsBound_example :
    (validate_rebuilt opening signed ≡ ok tt) ↔ IsBound opening signed
validate_rebuilt-IsBound_example = validate_rebuilt-IsBound opening signed

cells_differ : (a b : Cell) → cell_eq a b ≡ false → a ≢ b
cells_differ a b h e = ground (arith, cell_eq_iff a b)

texts_differ : (s t : String) → (s == t) ≡ false → s ≢ t
texts_differ s t h e = ground (arith, eq_iff s t)

later_unbound : ¬ (IsBound later signed)
unfolding cell_eq
later_unbound h = cells_differ (str "T-7") (str "T-8") refl h.trade_id

abbrev only_later : List Entry
only_later = queued later ∷ []

only_later-IsLog : IsLog only_later
unfolding is_allowed_action cell_eq
only_later-IsLog = ((refl, refl), refl, tt)

only_later-pending : pending only_later ≡ later ∷ []
unfolding pending
only_later-pending = refl

unbound_rejected_example :
    let d = dispatch_of "2026-09-01T00:01:00Z" later (rejected_with "rehydration_invalid") in
    (dispatch_next rebuild_signed confirm "2026-09-01T00:01:00Z" (log only_later)
      ≡ ok (
        record { intent = some later; dispatch = some d; paused_reason = none },
        log (only_later ++ tried d ∷ []),
      ))
    × (outstanding_projection_intents (log (only_later ++ tried d ∷ [])) ≡ ok [])
unbound_rejected_example =
    unbound_rejected rebuild_signed confirm "2026-09-01T00:01:00Z" only_later {i = later}
      {rest = []} {r = signed} only_later-IsLog only_later-pending refl later_unbound

consecutive_answers-trailing_run_example :
    consecutive_answers (log refused) (str "a1") "trade_id_conflict_parked"
    ≡ ok (trailing_run (str "trade_id_conflict_parked") (answers (str "a1") refused))
consecutive_answers-trailing_run_example =
    consecutive_answers-trailing_run refused (str "a1") "trade_id_conflict_parked"

abbrev old_schema : Provenance
old_schema = record (proof_of "T-9") { schema_version = "google-ledger-projection-v1" }

abbrev old_candidate : Intent
old_candidate = candidate_of "a3" "2026-09-01T00:00:09Z" "append_open_v2" old_schema

enqueue_foreign_schema_example :
    (enqueue_projection_intent "a3" "2026-09-01T00:00:09Z" "append_open_v2" old_schema (log waiting)
      ≡ ok (old_candidate, log (waiting ++ queued old_candidate ∷ [])))
    × (outstanding_projection_intents (log (waiting ++ queued old_candidate ∷ []))
        ≡ raised intent_schema_invalid)
enqueue_foreign_schema_example =
    enqueue_foreign_schema "a3" "2026-09-01T00:00:09Z" "append_open_v2" old_schema waiting
      waiting-IsLog (open_projectable old_schema refl) (texts_differ _ _ refl)

pending-tried_example :
    pending (waiting ++ tried failure ∷ [])
    ≡ (if is_terminal failure.status then later ∷ [] else two_waiting)
pending-tried_example = pending-tried waiting failure waiting-IsLog waiting-pending refl

abbrev no_events : EventFile
no_events = record { lines = []; torn = none }

abbrev conflicts : List Entry
conflicts = queued opening ∷ queued later ∷ tried failure ∷ tried failure ∷ []

conflicts-IsLog : IsLog conflicts
unfolding is_allowed_action cell_eq
conflicts-IsLog = (((refl, refl), refl, ((refl, refl), refl, tt)))

conflicts-pending : pending conflicts ≡ two_waiting
unfolding pending is_terminal cell_eq
conflicts-pending = refl

park_event_written_example :
    IsFiled trade_id_conflict "2026-09-01T00:03:00Z" opening conflicts no_events (
      dispatch_next_projection rebuild_signed refuse true "e1" "2026-09-01T00:03:00Z"
        (some "mycrypto")
        (record { outbox = log conflicts; event_log = some no_events }))
unfolding cell_eq
park_event_written_example =
    park_event_written rebuild_signed refuse "e1" "2026-09-01T00:03:00Z" "mycrypto"
      trade_id_conflict opening (later ∷ []) conflicts no_events refl refl signed_valid refl
      conflicts-IsLog conflicts-pending (omega arith)
