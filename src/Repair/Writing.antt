-- ===== src/Repair/Writing.antt =====
-- `_write` of src/trade_alerts/repair_runner.py.
--
-- What a strategy's adapter does is a parameter, as functions to how its calls end, and so are the
-- calls of src/trade_alerts/verified_close_backfill.py. An exception's text is an argument of its
-- constructor.
use trade_alerts.Base.{
  ℕ, Bool, ◌&&◌, not, Option, none, some, List, [], ◌∷◌, String, ◌==◌, nat_eq, length,
  if◌then◌else◌,
}
use trade_alerts.Result.{Result, ok, raised}
use trade_alerts.Json.{Json, Fields, end, field, get, is_text}
use trade_alerts.Channels.Text.{Text}
use trade_alerts.LedgerFile.Batch.{AppendError, Appended, append_lines_atomically}
use trade_alerts.EventLog.{EventArgs}
use trade_alerts.Strings.{concat}
use trade_alerts.Repair.World.{
  Identity, repaired, World, Done, Step, ◌>>=◌, ◌>>◌, return, raise, in_repair, note, Clock,
  append_event,
}
use trade_alerts.Repair.Outcomes.{
  code_auto_repaired, number, identity_fields, Tiers, text_of, close_request, fail, block,
}

-- How `fetch_evidence` ends: evidence, PositionStillOpen, or another exception.
pub data Fetched : Type 0 where
  fetched : Fields → Fetched
  position_open fetch_failed : String → Fetched

pub data Verdict : Type 0 where
  halt unmappable writable : Verdict

pub record Assessment : Type 0 where
  pub verdict : Verdict
  pub reasons : List String
  pub checks : Json

-- The measurements of the close of `build_repair_events`, and the details that its reconciliation gives.
pub record CloseReport : Type 0 where
  pub details : Fields
  pub measurements : Fields

-- What one strategy supplies. `stage` is `append_repair_from_evidence` on the scratch file and what
-- `stage_lines` reads there, with the number of events; `persist` writes the evidence file.
pub record Adapter : Type 0 where
  pub project : String
  pub fetch_evidence : String → Fetched
  pub assess : Fields → List Fields → Result String Assessment
  pub evidence_path : String → String
  pub persist : String → Fields → Option String
  pub stage : Text → Fields → Result String (List Text × ℕ)
  pub queue_projection : String → Result String Json
  pub close_report : Fields → Result String CloseReport

-- The characters that `str.strip` drops, `json.loads`, and the text of an AtomicAppendError.
pub record LedgerRuntime : Type 0 where
  pub is_space : ℕ → Bool
  pub loads : Text → Option Json
  pub describe : AppendError → String

-- What a round is given.
pub record Setting : Type 0 where
  pub clock : Clock
  pub adapter : Adapter
  pub runtime : LedgerRuntime
  pub tiers : Tiers
  pub escalate_after : ℕ
  pub fleet_events : List Fields
  pub others : Text

module _ (s : Setting) where
  abbrev pub printed : Json → String
  printed v = text_of s.clock s.adapter.project v

  -- _symbol_of
  unfoldable pub symbol_of : List Fields → String → Json
  symbol_of [] trade_id = Json.null
  symbol_of (e ∷ es) trade_id =
      let rest = symbol_of es trade_id in
      if is_text "trade_open" (get "event_type" e) && (printed (get "trade_id" e) == trade_id)
      then get "symbol" e
      else rest

  -- The write of the ledger, and what it returned.
  abbrev pub landed : World → Appended → Done (Result String ℕ)
  landed w a = record {
    result = ok (elim a.result [ ok n ↦ ok n | raised e ↦ raised (s.runtime.describe e) ]);
    world = record {
      ledger = a.file;
      log = w.log;
      queue = w.queue;
      written = w.written;
      notes = w.notes;
    };
  }

  -- The second `try` of _write, from what was staged.
  abbrev pub land : Result String (List Text × ℕ) → Step (Result String ℕ)
  land (raised e) w = return (raised e) w
  land (ok (lines, count)) w =
      if not (nat_eq (length lines) count)
      then return
          (raised (
            concat (
              "staged "
              ∷ s.clock.print (number (length lines))
              ∷ " lines but the repair has "
              ∷ s.clock.print (number count)
              ∷ " events"
              ∷ [])))
          w
      else landed w
          (append_lines_atomically s.runtime.is_space s.runtime.loads s.others lines w.ledger)

  abbrev pub projection_of : Result String Json → Fields
  projection_of (ok v) = field "intent_id" v end
  projection_of (raised e) = field "error" (Json.str e) end

  abbrev pub resolve : Option Fields → Fields → Step (Unit {0})
  resolve none event = return tt
  resolve (some request) event =
      close_request s.clock s.adapter.project request "RESOLVED_AUTO"
        "a later automatic retry repaired it" (field "event_id" (get "event_id" event) end)

  abbrev pub repaired_args : Identity → String → ℕ → CloseReport → EventArgs
  repaired_args i path count report = record {
    project = Json.str s.adapter.project;
    code = Json.str code_auto_repaired;
    summary =
        Json.str (
          concat ("verified close written from exchange evidence for trade_id=" ∷ i.trade_id ∷ []));
    risk_tier = Json.str s.tiers.repaired_tier;
    evidence = Json.obj (identity_fields i);
    details = Json.obj (
        field "evidence_path" (Json.str path) (
          field "appended_event_count" (number count) (
            field "projection" (Json.obj (projection_of (s.adapter.queue_projection i.trade_id)))
              report.details)));
    measurements = Json.obj report.measurements;
    recorded_at = Json.null;
    event_id = Json.null;
  }

  -- The event of a write that is done; an exception of `build_repair_events` ends the round before it.
  abbrev pub report_repaired :
      Identity → String → Option Fields → ℕ → Result String CloseReport → Step (Unit {0})
  report_repaired i path request count (raised e) = raise (in_repair e)
  report_repaired i path request count (ok report) = do
    event ← append_event s.clock (repaired_args i path count report)
    resolve request event
    note (repaired i count)

  -- What _write does once it knows how the write of the ledger ended.
  unfoldable pub after_landing :
      Identity → String → Fields → Option Fields → Result String ℕ → Step (Unit {0})
  after_landing i path evidence request (raised e) =
      block s.clock s.adapter.project s.tiers.blocked_tier i
        (concat ("ledger write failed or could not be verified: " ∷ e ∷ [])) []
        (field "evidence_path" (Json.str path) end) request
  after_landing i path evidence request (ok count) =
      report_repaired i path request count (s.adapter.close_report evidence)

  unfoldable pub land_and_report : Identity → String → Fields → Option Fields → Step (Unit {0})
  land_and_report i path evidence request w =
      (land (s.adapter.stage w.ledger evidence) >>= after_landing i path evidence request) w

  -- _write, from how the evidence file was written
  abbrev pub persisted :
      Identity → String → Fields → Option Fields → Option String → Step (Unit {0})
  persisted i path evidence request none = land_and_report i path evidence request
  persisted i path evidence request (some e) =
      fail s.clock s.adapter.project s.tiers.failed_tier s.escalate_after s.fleet_events i
        (concat ("could not persist the evidence file: " ∷ e ∷ []) ∷ []) end request

  unfoldable pub write : Identity → Fields → Option Fields → Step (Unit {0})
  write i evidence request =
      let path = s.adapter.evidence_path i.trade_id in
      persisted i path evidence request (s.adapter.persist path evidence)
