-- ===== src/Expired/Notice.antt =====
-- `expired_markers`, `_announced_trade_ids` and `plan_pending_expired_notice` of
-- src/trade_alerts/pending_expired_notice.py. `print` stands for `str` on a value that is not a text.
use trade_alerts.Base.{
  Bool, ◌&&◌, ◌||◌, not, Option, none, some, List, [], ◌∷◌, ◌++◌, map, any, select, length, String,
  ◌==◌, if◌then◌else◌,
}
use trade_alerts.Base.Int.{pos}
use trade_alerts.Json
use trade_alerts.Json.{Json, Items, Fields, end, field, get, is_text}
use trade_alerts.EventLog.{EventArgs}
use trade_alerts.Strings.{concat, join_lines, text_lt, texts}
use trade_alerts.Requests.Reading.{key_text}
use trade_alerts.SafeHalt.Latch.{mapping_or_empty}

abbrev pub code_pending_expired : String
code_pending_expired = "LEDGER_PENDING_EXPIRED"

-- _REASON_TEXT.get(reason, reason)
unfoldable pub reason_text : String → String
reason_text reason =
    if reason == "waited_over_limit"
    then "超過上限仍沒結清"
    else if reason == "time_unreadable"
    then "標記的時間讀不出來，無法證明它是新的"
    else if reason == "time_in_future"
    then "標記的時間比現在還晚（時鐘或帳本有問題），無法證明它是新的"
    else reason

-- evidence["pending_expired"], of a status that is an object
abbrev pub block_of : Fields → Json
block_of status = get "pending_expired" (mapping_or_empty (get "evidence" status))

unfoldable pub insert_text : String → List String → List String
insert_text s [] = s ∷ []
insert_text s (t ∷ ts) = let rest = insert_text s ts in if text_lt t s then t ∷ rest else s ∷ t ∷ ts

-- sorted(texts)
unfoldable pub sort_texts : List String → List String
sort_texts [] = []
sort_texts (s ∷ ss) = insert_text s (sort_texts ss)

unfoldable pub items_of : List Fields → Items
items_of [] = Json.nil
items_of (m ∷ ms) = Json.item (Json.obj m) (items_of ms)

-- The fields of the event that the caller writes.
pub record Plan : Type 0 where
  pub summary : String
  pub trade_ids : List String
  pub details : Fields

abbrev pub evidence_of : Plan → Fields
evidence_of p = field "trade_ids" (texts p.trade_ids) end

-- The call that writes a plan, in repair_runner.py.
abbrev pub plan_args : String → String → String → Plan → EventArgs
plan_args project tier now p = record {
  project = Json.str project;
  code = Json.str code_pending_expired;
  summary = Json.str p.summary;
  risk_tier = Json.str tier;
  evidence = Json.obj (evidence_of p);
  details = Json.obj p.details;
  measurements = Json.null;
  recorded_at = Json.str now;
  event_id = Json.null;
}

module _ (print : Json → String) where
  -- str(v)
  abbrev pub text_of : Json → String
  text_of (Json.str s) = s
  text_of v = print v

  -- str(m.get("trade_id") or "")
  abbrev pub marker_id : Fields → String
  marker_id m = key_text print (get "trade_id" m)

  -- str(m["trade_id"])
  abbrev pub trade_id_of : Fields → String
  trade_id_of m = text_of (get "trade_id" m)

  -- The loop of expired_markers, with the ids seen so far.
  unfoldable pub distinct_markers : List String → Items → List Fields
  distinct_markers seen Json.nil = []
  distinct_markers seen (Json.item (Json.obj m) rest) =
      if marker_id m == "" || any (λ t. t == marker_id m) seen
      then distinct_markers seen rest
      else m ∷ distinct_markers (marker_id m ∷ seen) rest
  distinct_markers seen (Json.item _ rest) = distinct_markers seen rest

  abbrev markers_in : Json → List Fields
  markers_in (Json.arr items) = distinct_markers [] items
  markers_in _ = []

  unfoldable pub expired_markers : Json → List Fields
  expired_markers (Json.obj status) =
      if is_text "RECONCILED" (get "value" status)
      then markers_in (get "markers" (mapping_or_empty (block_of status)))
      else []
  expired_markers _ = []

  unfoldable pub texts_in : Items → List String
  texts_in Json.nil = []
  texts_in (Json.item v rest) = text_of v ∷ texts_in rest

  abbrev pub listed : Json → List String
  listed (Json.arr items) = texts_in items
  listed _ = []

  abbrev pub is_notice : String → Fields → Bool
  is_notice project e =
      is_text project (get "project" e) && is_text code_pending_expired (get "code" e)

  unfoldable pub announced_trade_ids : List Fields → String → List String
  announced_trade_ids [] project = []
  announced_trade_ids (e ∷ es) project =
      let rest = announced_trade_ids es project in
      if is_notice project e
      then listed (get "trade_ids" (mapping_or_empty (get "evidence" e))) ++ rest
      else rest

  abbrev pub age_text : Json → String
  age_text Json.null = ""
  age_text v = concat ("，已等 " ∷ text_of v ∷ " 小時" ∷ [])

  abbrev pub marker_line : Fields → String
  marker_line m = concat (
      "- 交易編號："
      ∷ trade_id_of m
      ∷ "\u{3000}商品："
      ∷ text_of (get "symbol" m)
      ∷ "\u{3000}數量："
      ∷ text_of (get "volume" m)
      ∷ "\u{3000}標記時間："
      ∷ text_of (get "event_time" m)
      ∷ age_text (get "age_hours" m)
      ∷ "（"
      ∷ reason_text (text_of (get "expired_reason" m))
      ∷ "）"
      ∷ [])

  abbrev pub count_text : List Fields → String
  count_text ms = print (Json.int (pos (length ms)))

  abbrev pub notice_head : Fields → Json → List Fields → String
  notice_head status max_hours unannounced = concat (
      "對帳等了超過 "
      ∷ text_of max_hours
      ∷ " 小時，下面 "
      ∷ count_text unannounced
      ∷ " 筆標記還沒結清；系統已不再等，改按實際比對判斷"
      ∷ "（比對結果："
      ∷ text_of (get "value" status)
      ∷ "）。"
      ∷ [])

  abbrev pub plan_of : Fields → List Fields → Plan
  plan_of status unannounced =
      let max_hours = get "max_hours" (mapping_or_empty (block_of status)) in
      record {
        summary = concat (
            count_text unannounced
            ∷ " pending reconciliation marker(s) unsettled past the limit"
            ∷ []);
        trade_ids = sort_texts (map trade_id_of unannounced);
        details = field "ledger_value" (get "value" status) (
            field "max_hours" max_hours (
              field "markers" (Json.arr (items_of unannounced)) (
                field "notice_text"
                  (Json.str (
                    join_lines
                      (notice_head status max_hours unannounced ∷ map marker_line unannounced)))
                  end)));
      }

  abbrev pub plan_for : Json → List Fields → Option Plan
  plan_for status [] = none
  plan_for (Json.obj status) (m ∷ ms) = some (plan_of status (m ∷ ms))
  plan_for status (m ∷ ms) = none

  -- The markers whose trade is not in the list.
  abbrev pub unannounced_of : List String → List Fields → List Fields
  unannounced_of seen markers = select (λ m. not (any (λ t. t == trade_id_of m) seen)) markers

  unfoldable pub plan_pending_expired_notice : Json → List Fields → String → Option Plan
  plan_pending_expired_notice status fleet_events project =
      plan_for status
        (unannounced_of (announced_trade_ids fleet_events project) (expired_markers status))
