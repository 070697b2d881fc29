-- ===== src/Repair/Rounds.antt =====
-- `run` and `run_repair_round` of src/trade_alerts/repair_runner.py, with the two checks at the end.
use trade_alerts.Base.{
  ℕ, ◌-◌, ◌*◌, Bool, true, false, ◌&&◌, ◌||◌, not, Option, none, some, List, [], ◌∷◌, map, any,
  select, length, String, ltb, if◌then◌else◌,
}
use trade_alerts.Result.{Result, ok, raised}
use trade_alerts.Json
use trade_alerts.Json.{Json, Items, Fields, end, field, get, is_text}
use trade_alerts.Strings.{concat, join_lines, texts}
use trade_alerts.EventLog.{LogError, EventFile, EventArgs, append_fleet_event, read_fleet_events}
use trade_alerts.SafeHalt.Latch.{mapping_or_empty}
use trade_alerts.LedgerFile.Batch.{read_ledger}
use trade_alerts.Expired.Notice.{Plan, plan_pending_expired_notice, plan_args}
use trade_alerts.Repair.World.{
  recurring, pending_expired, pending_expired_failed, World, Done, Step, ◌>>=◌, ◌>>◌, return, note,
  append_event,
}
use trade_alerts.Repair.Outcomes.{code_auto_repaired, number, text_of}
use trade_alerts.Repair.Writing.{Setting}
use trade_alerts.Repair.Candidates.{take_candidates, close_overtaken_requests}
use trade_alerts.Repair.Replays.{started, fleet_events, with_log, replay_unannounced}

abbrev pub code_repair_recurring : String
code_repair_recurring = "VERIFIED_CLOSE_REPAIR_RECURRING"

abbrev pub recurring_threshold : ℕ
recurring_threshold = 2

abbrev pub recurring_window_days : ℕ
recurring_window_days = 7

-- What a round is given besides: the status document, `detect_repair_candidates`, the times in
-- seconds, and the tiers of the two notices; the second may be missing in the catalog.
pub record Inputs : Type 0 where
  pub ledger_status : Json
  pub detect : Json → List Fields → List String
  pub parse_time : Json → Option ℕ
  pub moment : ℕ
  pub now_text : String
  pub recurring_tier : String
  pub expired_tier : Option String

module _ (s : Setting) (i : Inputs) where
  abbrev is_recent_time : Option ℕ → Bool
  is_recent_time none = false
  is_recent_time (some t) = not (ltb t (i.moment - recurring_window_days * 86400))

  abbrev pub is_recent : Fields → Bool
  is_recent e =
      is_text s.adapter.project (get "project" e)
      && is_recent_time (i.parse_time (get "recorded_at" e))

  abbrev pub recent_repairs : List Fields → List Fields
  recent_repairs es = select (λ e. is_recent e && is_text code_auto_repaired (get "code" e)) es

  abbrev pub was_told : List Fields → Bool
  was_told es = any (λ e. is_recent e && is_text code_repair_recurring (get "code" e)) es

  abbrev repaired_trade : Fields → String
  repaired_trade e =
      text_of s.clock s.adapter.project (get "trade_id" (mapping_or_empty (get "evidence" e)))

  abbrev event_ids : List Fields → Items
  event_ids [] = Json.nil
  event_ids (e ∷ es) = Json.item (get "event_id" e) (event_ids es)

  abbrev count_text : ℕ → String
  count_text n = s.clock.print (number n)

  abbrev recurring_text : List Fields → String
  recurring_text repairs = join_lines (
      concat ("最近 7 天內，這支策略已經被自動補寫漏記的平倉 " ∷ count_text (length repairs) ∷ " 次。" ∷ [])
      ∷ "自動補寫只是把帳本補對，但一直需要補，代表有 bug 在持續漏記平倉，請追根因。"
      ∷ map (λ e. concat ("- trade_id: " ∷ repaired_trade e ∷ [])) repairs)

  abbrev pub recurring_args : List Fields → EventArgs
  recurring_args repairs = record {
    project = Json.str s.adapter.project;
    code = Json.str code_repair_recurring;
    summary =
        Json.str (
          concat
            (count_text (length repairs) ∷ " automatic verified-close repairs in 7 days" ∷ []));
    risk_tier = Json.str i.recurring_tier;
    evidence = Json.obj (
        field "window_days" (number recurring_window_days) (
          field "count" (number (length repairs))
            (field "trade_ids" (texts (map repaired_trade repairs)) end)));
    details = Json.obj (
        field "threshold" (number recurring_threshold) (
          field "repair_event_ids" (Json.arr (event_ids repairs))
            (field "notice_text" (Json.str (recurring_text repairs)) end)));
    measurements = Json.null;
    recorded_at = Json.str i.now_text;
    event_id = Json.null;
  }

  unfoldable pub tell_recurring : List Fields → Step (Unit {0})
  tell_recurring repairs = do
    event ← append_event s.clock (recurring_args repairs)
    note (recurring (length repairs) (map repaired_trade repairs) (get "event_id" event))

  -- _check_recurring
  unfoldable pub check_recurring : Step (Unit {0})
  check_recurring = do
    events ← fleet_events
    (if ltb (length (recent_repairs events)) recurring_threshold || was_told events
        then return tt
        else tell_recurring (recent_repairs events))

  abbrev pub wrote_plan : Plan → World → Result LogError (Fields × EventFile) → World
  wrote_plan p w (ok (e, log)) =
      with_log w log 1 (pending_expired p.trade_ids (get "event_id" e) ∷ [])
  wrote_plan p w (raised e) = with_log w w.log 0 (pending_expired_failed ∷ [])

  abbrev pub write_plan : Option String → Plan → World → World
  write_plan none p w = with_log w w.log 0 (pending_expired_failed ∷ [])
  write_plan (some tier) p w = wrote_plan p w (
      append_fleet_event true (s.clock.fresh w.written) (s.clock.now w.written)
        (plan_args s.adapter.project tier i.now_text p) w.log)

  abbrev pub follow_plan : Option Plan → World → World
  follow_plan none w = w
  follow_plan (some p) w = write_plan i.expired_tier p w

  abbrev pub plan_from : World → Result LogError (List Fields) → World
  plan_from w (ok es) =
      follow_plan (plan_pending_expired_notice s.clock.print i.ledger_status es s.adapter.project) w
  plan_from w (raised e) = with_log w w.log 0 (pending_expired_failed ∷ [])

  -- _check_pending_expired, which raises nothing
  unfoldable pub check_pending_expired : Step (Unit {0})
  check_pending_expired w = return tt (plan_from w (read_fleet_events w.log))

  -- run, from what its start read
  unfoldable pub run_from : List Fields → List Fields → Step (Unit {0})
  run_from ledger events = do
    requests ← close_overtaken_requests (started s events) ledger
    take_candidates (started s events) ledger requests false (i.detect i.ledger_status ledger)
    check_recurring
    check_pending_expired

  -- The reads after the replay.
  unfoldable pub read_and_run : Step (Unit {0})
  read_and_run w =
      (fleet_events >>= run_from (read_ledger s.runtime.is_space s.runtime.loads w.ledger)) w

  unfoldable pub run : Step (Unit {0})
  run = do replay_unannounced s; read_and_run

  -- What run_repair_round returns or raises, the export file, and whether it was written.
  pub record RoundEnd : Type 0 where
    pub done : Done (Unit {0})
    pub ops_export : Option Fields
    pub ops_export_written : Bool

  -- _refresh_ops_export: the file and the flag, by what the export came to and could be written as; an
  -- exception is only logged.
  abbrev pub refresh_ops_export : Option Fields → Option Fields → Option Fields × Bool
  refresh_ops_export before none = (before, false)
  refresh_ops_export before (some document) = (some document, true)

  -- `export` is `build_ops_export` and `write_ops_export`; `before` is the export file until then.
  unfoldable pub run_repair_round :
      (World → Option Fields) → Option Fields → Bool → World → RoundEnd
  run_repair_round export before paused w =
      let d : Done (Unit {0}) = if paused then return tt w else run w in
      let refreshed = refresh_ops_export before (export d.world) in
      record { done = d; ops_export = refreshed.0; ops_export_written = refreshed.1 }
