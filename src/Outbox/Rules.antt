-- ===== src/Outbox/Rules.antt =====
-- The three parking rules of src/trade_alerts/projection_outbox.py.
use trade_alerts.Base.{ℕ, ◌≡◌, refl, Bool, true, ◌||◌, String}
use trade_alerts.Jsonl.{File}
use trade_alerts.Outbox.Cells.{Cell, null, str, cell_eq, is_str}
use trade_alerts.Outbox.Records.{Intent, Record}
use trade_alerts.Outbox.Dispatch.{
  Outcome, is_status, is_receiver_row, is_error_code, is_close_action, is_row_write_action,
  park_after, park, rejected_with,
}
use trade_alerts.Outbox.Attempt.{IsRecordable, rejected_with-IsRecordable}

-- The three rules of the code: the answer, the actions that it concerns, how often, and the code
-- that the parked intent gets.
pub data Rule : Type 0 where
  orphan_close trade_id_conflict correction_unconfirmed : Rule

abbrev pub answer_code : Rule → String
answer_code orphan_close = "trade_id_not_found"
answer_code trade_id_conflict = "trade_id_conflict"
answer_code correction_unconfirmed = "close_not_confirmed"

abbrev pub concerns : Rule → Cell → Bool
concerns orphan_close a = is_str "update_close_v2" a || is_str "correct_close_v2" a
concerns trade_id_conflict a = is_str "append_open_v2" a || is_str "append_fill_v2" a
concerns correction_unconfirmed a = is_str "correct_close_v2" a

abbrev pub limit_of : Rule → ℕ
limit_of orphan_close = 12
limit_of trade_id_conflict = 3
limit_of correction_unconfirmed = 12

abbrev pub parked_code : Rule → String
parked_code orphan_close = "orphan_close_no_open_row"
parked_code trade_id_conflict = "trade_id_conflict_parked"
parked_code correction_unconfirmed = "correction_close_not_confirmed"

abbrev pub refused_with : String → Outcome
refused_with code = record {
  status = str "TRANSPORT_FAILED";
  receiver_row = null;
  error_code = str code;
}

pub park-rule :
    (r : Rule) (f : File Record) (i : Intent)
    → concerns r i.action ≡ true
    → park f i (refused_with (answer_code r))
      ≡ park_after f i (answer_code r) (limit_of r) (parked_code r) (refused_with (answer_code r))
unfolding park cell_eq is_close_action is_row_write_action
park-rule orphan_close f i h = rw h refl
park-rule trade_id_conflict f i h = rw h refl
park-rule correction_unconfirmed f i h = rw h refl

pub refused_with-IsRecordable : (r : Rule) → IsRecordable (refused_with (answer_code r))
unfolding is_status is_receiver_row is_error_code cell_eq
refused_with-IsRecordable orphan_close = record {
  status = refl;
  receiver_row = refl;
  error_code = refl;
}
refused_with-IsRecordable trade_id_conflict = record {
  status = refl;
  receiver_row = refl;
  error_code = refl;
}
refused_with-IsRecordable correction_unconfirmed = record {
  status = refl;
  receiver_row = refl;
  error_code = refl;
}

pub parked-IsRecordable : (r : Rule) → IsRecordable (rejected_with (parked_code r))
unfolding is_error_code
parked-IsRecordable orphan_close = rejected_with-IsRecordable _ refl
parked-IsRecordable trade_id_conflict = rejected_with-IsRecordable _ refl
parked-IsRecordable correction_unconfirmed = rejected_with-IsRecordable _ refl
