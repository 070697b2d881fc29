-- ===== src/Repair/Replays.antt =====
-- `_replay_unannounced` of src/trade_alerts/repair_runner.py, and the start of `run`.
use trade_alerts.Base.{ℕ, ◌+◌, true, none, some, List, [], ◌∷◌, ◌++◌, map, select, length, String}
use trade_alerts.Result.{Result, ok, raised}
use trade_alerts.Json.{Json, Fields, end, field, get, is_text}
use trade_alerts.Strings.{concat}
use trade_alerts.EventLog.{LogError, EventFile, read_fleet_events}
use trade_alerts.SafeHalt.Latch.{mapping_or_empty}
use trade_alerts.Requests.Reading.{key_text}
use trade_alerts.Replay.Replaying.{ReplayError, ReplayArgs, Replayed, replay_unannounced_requests}
use trade_alerts.Expired.Notice.{texts_in}
use trade_alerts.Repair.World.{
  in_log, Note, replayed, replay_failed, World, Done, Step, ◌>>◌, return,
}
use trade_alerts.Repair.Outcomes.{code_repair_failed, code_repair_blocked, notice_text, text_of}
use trade_alerts.Repair.Writing.{Setting}

-- The fleet's events of a project.
abbrev pub of_project : String → List Fields → List Fields
of_project project es = select (λ e. is_text project (get "project" e)) es

-- The round with the events that its start read.
abbrev pub started : Setting → List Fields → Setting
started s es = record {
  clock = s.clock;
  adapter = s.adapter;
  runtime = s.runtime;
  tiers = s.tiers;
  escalate_after = s.escalate_after;
  fleet_events = of_project s.adapter.project es;
  others = s.others;
}

abbrev pub read_events : World → Result LogError (List Fields) → Done (List Fields)
read_events w (ok es) = record { result = ok es; world = w }
read_events w (raised e) = record { result = raised (in_log e); world = w }

abbrev pub fleet_events : Step (List Fields)
fleet_events w = read_events w (read_fleet_events w.log)

abbrev pub with_log : World → EventFile → ℕ → List Note → World
with_log w log more notes = record {
  ledger = w.ledger;
  log = log;
  queue = w.queue;
  written = w.written + more;
  notes = w.notes ++ notes;
}

module _ (s : Setting) where
  abbrev listed : Json → List String
  listed (Json.arr items) = texts_in s.clock.print items
  listed _ = []

  abbrev or_summary : Fields → List String → List String
  or_summary request [] = key_text s.clock.print (get "summary" request) ∷ []
  or_summary request (r ∷ rs) = r ∷ rs

  -- _replayed_notice
  unfoldable pub replayed_notice : Fields → String → String
  replayed_notice request headline =
      let evidence = mapping_or_empty (get "evidence" request) in
      let details = mapping_or_empty (get "details" request) in
      concat (
        "（補發：上一輪開了請求後被中斷，沒來得及通知。）\n"
        ∷ notice_text s.clock s.adapter.project
            (record {
              incident = none;
              trade_id = text_of s.clock s.adapter.project (get "trade_id" evidence);
              symbol = get "symbol" evidence;
            })
            (or_summary request (listed (get "reasons" details))) headline
        ∷ [])

  abbrev pub replay_args : String → String → String → Fields → ReplayArgs
  replay_args code tier headline extra = record {
    project = s.adapter.project;
    code = code;
    risk_tier = tier;
    notice_text = λ request. Json.str (replayed_notice request headline);
    extra_details = extra;
  }

  abbrev replay_note : String → Fields → Note
  replay_note code e =
      replayed code (get "request_id" (mapping_or_empty (get "details" e))) (get "event_id" e)

  abbrev replay_notes : String → Replayed → List Note
  replay_notes code r = elim r.stopped [
    | none ↦ map (replay_note code) r.written
    | some e ↦ replay_failed code ∷ []
  ]

  -- The world after a replay; an exception is only noted.
  abbrev pub after_replay : String → World → Result ReplayError Replayed → World
  after_replay code w (ok r) = with_log w r.log (length r.written) (replay_notes code r)
  after_replay code w (raised e) = with_log w w.log 0 (replay_failed code ∷ [])

  unfoldable pub replay_code : String → String → String → Fields → Step (Unit {0})
  replay_code code tier headline extra w = return tt (
      after_replay code w (
        replay_unannounced_requests s.clock.print (replay_args code tier headline extra)
          (λ n. s.clock.fresh (w.written + n)) (λ n. s.clock.now (w.written + n)) w.queue w.log))

  -- _replay_unannounced
  unfoldable pub replay_unannounced : Step (Unit {0})
  replay_unannounced = do
    replay_code code_repair_failed s.tiers.failed_tier "自動補寫連續失敗，已升格需要你處理"
        (field "escalated" (Json.bool true) end)
    replay_code code_repair_blocked s.tiers.blocked_tier "自動補寫已停手，這筆不會再自動重試" end
