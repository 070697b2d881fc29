-- ===== src/Expired/Batch.antt =====
-- `_valid_batch_block`, `_batch_episode` and `announce_batch_expired` of
-- src/trade_alerts/pending_expired_notice.py. `digest` stands for the first 16 digits of the SHA-256
-- of the list as JSON, `day` for the date of the moment and `now` for its time.
use trade_alerts.Base.{
  Bool, true, false, ◌&&◌, ◌||◌, not, Option, none, some, List, [], ◌∷◌, any, length, String, ◌==◌,
  if◌then◌else◌,
}
use trade_alerts.Base.Int.{pos, int_ltb}
use trade_alerts.Result.{Result, ok, raised, ◌>>=◌}
use trade_alerts.Json
use trade_alerts.Json.{Json, Items, Fields, end, field, get, find, is_text, truthy}
use trade_alerts.Strings.{concat, join_lines}
use trade_alerts.EventLog.{
  LogError, EventFile, EventArgs, is_one_of, append_fleet_event, read_fleet_events,
}
use trade_alerts.SafeHalt.Latch.{mapping_or_empty}
use trade_alerts.Expired.Notice.{
  code_pending_expired, reason_text, block_of, sort_texts, text_of, age_text, is_notice,
}

abbrev pub reasons : List String
reasons = "waited_over_limit" ∷ "time_unreadable" ∷ "time_in_future" ∷ []

-- A finite number above 0 that is not a bool.
abbrev pub is_limit : Json → Bool
is_limit (Json.int n) = not (int_ltb n 1)
is_limit (Json.decimal n s) = not (int_ltb n 1)
is_limit _ = false

abbrev has_key : Option Json → Bool
has_key none = false
has_key (some v) = true

unfoldable pub is_valid_batch_block : Json → Bool
is_valid_batch_block (Json.obj block) =
    not (has_key (find "markers" block))
    && is_one_of reasons (get "reason" block)
    && is_limit (get "max_hours" block)
is_valid_batch_block _ = false

abbrev pub add_distinct : String → List String → List String
add_distinct s ss = if s == "" || any (λ t. t == s) ss then ss else s ∷ ss

module _ (print : Json → String) where
  -- The distinct texts of the items that are texts or integers.
  unfoldable pub distinct_ids : Items → List String
  distinct_ids Json.nil = []
  distinct_ids (Json.item (Json.str s) rest) = add_distinct s (distinct_ids rest)
  distinct_ids (Json.item (Json.int n) rest) = add_distinct (print (Json.int n)) (distinct_ids rest)
  distinct_ids (Json.item _ rest) = distinct_ids rest

  abbrev pub clean_ids : Json → List String
  clean_ids (Json.arr items) = sort_texts (distinct_ids items)
  clean_ids _ = []

  module _ (digest : List String → String) (day : String) where
    abbrev pub episode_without_since : Fields → List String → String
    episode_without_since block [] =
        concat ("unidentified:" ∷ text_of print (get "reason" block) ∷ ":" ∷ day ∷ [])
    episode_without_since block (id ∷ ids) =
        concat ("ids:" ∷ print (Json.int (pos (length (id ∷ ids)))) ∷ ":" ∷ digest (id ∷ ids) ∷ [])

    abbrev pub episode_since : Fields → Json → String
    episode_since block (Json.str s) =
        if s == ""
        then episode_without_since block (clean_ids (get "episode_ids" block))
        else concat ("since:" ∷ s ∷ [])
    episode_since block _ = episode_without_since block (clean_ids (get "episode_ids" block))

    unfoldable pub batch_episode : Fields → String
    batch_episode block = episode_since block (get "since" block)

    abbrev pub announces_episode : String → String → Fields → Bool
    announces_episode project episode e =
        is_notice print project e
        && is_text episode (get "episode" (mapping_or_empty (get "evidence" e)))

    abbrev pub batch_text : Fields → Fields → String
    batch_text status block = join_lines (
        concat (
          "對帳等了超過 "
          ∷ text_of print (get "max_hours" block)
          ∷ " 小時，有調倉批次或快照之後的現貨成交還沒結算；系統已不再等，"
          ∷ "改按交易所餘額與帳本比對（比對結果："
          ∷ text_of print (get "value" status)
          ∷ "）。"
          ∷ [])
        ∷ concat (
            "- 開始等的時間："
            ∷ text_of print (get "since" block)
            ∷ age_text print (get "age_hours" block)
            ∷ "（"
            ∷ reason_text (text_of print (get "reason" block))
            ∷ "）"
            ∷ [])
        ∷ concat (
            "- 沒有持倉快照就結束的調倉批次："
            ∷ (if truthy (get "rebalance_batch_without_snapshot" block) then "有" else "沒有")
            ∷ "；最後一份持倉快照之後的現貨成交："
            ∷ text_of print (get "spot_fills_after_last_snapshot" block)
            ∷ " 筆"
            ∷ [])
        ∷ [])

    abbrev pub batch_args : String → String → String → Fields → Fields → EventArgs
    batch_args project tier now status block = record {
      project = Json.str project;
      code = Json.str code_pending_expired;
      summary = Json.str "rebalance batch or spot fills unsettled past the limit";
      risk_tier = Json.str tier;
      evidence = Json.obj (field "episode" (Json.str (batch_episode block)) end);
      details = Json.obj (
          field "pending_expired" (Json.obj block) (
            field "ledger_value" (get "value" status)
              (field "notice_text" (Json.str (batch_text status block)) end)));
      measurements = Json.null;
      recorded_at = Json.str now;
      event_id = Json.null;
    }

    abbrev pub announced :
        Result LogError (Fields × EventFile) → Result LogError (Option Fields × EventFile)
    announced (ok (e, f)) = ok (some e, f)
    announced (raised e) = raised e

    -- Under the lock, for a valid block.
    unfoldable pub announce_block :
        String
        → String
        → String
        → String
        → Fields
        → Fields
        → EventFile
        → Result LogError (Option Fields × EventFile)
    announce_block fresh now project tier status block f = do
      events ← read_fleet_events f
      (if any (announces_episode project (batch_episode block)) events
          then ok (none, f)
          else announced
              (append_fleet_event true fresh now (batch_args project tier now status block) f))

    abbrev pub announce_valid :
        String
        → String
        → String
        → String
        → Fields
        → Json
        → EventFile
        → Result LogError (Option Fields × EventFile)
    announce_valid fresh now project tier status (Json.obj block) f =
        if is_valid_batch_block (Json.obj block)
        then announce_block fresh now project tier status block f
        else ok (none, f)
    announce_valid fresh now project tier status _ f = ok (none, f)

    unfoldable pub announce_batch_expired :
        String
        → String
        → String
        → String
        → Json
        → EventFile
        → Result LogError (Option Fields × EventFile)
    announce_batch_expired fresh now project tier (Json.obj status) f =
        if is_text "RECONCILED" (get "value" status)
        then announce_valid fresh now project tier status (block_of status) f
        else ok (none, f)
    announce_batch_expired fresh now project tier _ f = ok (none, f)
