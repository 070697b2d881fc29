-- ===== src/Channels/Examples.antt =====
-- Runs of src/trade_alerts/channels.py on a short text.
use trade_alerts.Base.{
  ℕ, ◌≤◌, ◌≡◌, ◌↔◌, refl, Bool, true, ◌||◌, some, List, [], ◌∷◌, All, arith, length, nat_eq,
}
use trade_alerts.Channels.Text.{
  Text, take, drop, after_last_break, cut_of, split_loop, split_text, sendable, line_max_messages,
  line_pieces,
}
use trade_alerts.Channels.Split.{IsSplit, split_text-IsSplit}
use trade_alerts.Channels.Waiting.{Waited}
use trade_alerts.Channels.Sending.{retry_from, request_with_retry, send_each, telegram_send}
use trade_alerts.Channels.Delivery.{
  Returning, request_with_retry-returned, delivered, visible, telegram_send-visible,
  line_pieces-bounds,
}

abbrev white : ℕ → Bool
white c = nat_eq c 32 || nat_eq c 10

abbrev greeting : Text
greeting = 104 ∷ 105 ∷ 10 ∷ 121 ∷ 111 ∷ 117 ∷ 33 ∷ []

abbrev second_try : List Text → ℕ → Bool
second_try m k = nat_eq k 1

split_text-IsSplit_example :
    (pieces : List Text) × (split_text white greeting 4 ≡ some pieces)
    × IsSplit white 4 greeting pieces
split_text-IsSplit_example = split_text-IsSplit white greeting 4 (omega arith)

request_with_retry-returned_example :
    (((request_with_retry (second_try []) 3).returned ≡ true) ↔ Returning (second_try []) 0 3)
    × Waited (second_try []) 0 3 (request_with_retry (second_try []) 3)
request_with_retry-returned_example = request_with_retry-returned (second_try []) 3

sends : (telegram_send white 3 second_try true 4 greeting).returned ≡ true
unfolding telegram_send send_each request_with_retry retry_from split_text split_loop cut_of
    after_last_break take drop sendable
sends = refl

telegram_send-visible_example :
    visible white (delivered (telegram_send white 3 second_try true 4 greeting).texts)
    ≡ visible white greeting
telegram_send-visible_example =
    telegram_send-visible white 3 second_try 4 greeting (omega arith) sends

abbrev seven : List Text
seven = (49 ∷ []) ∷ (50 ∷ []) ∷ (51 ∷ []) ∷ (52 ∷ []) ∷ (53 ∷ []) ∷ (54 ∷ []) ∷ (55 ∷ []) ∷ []

one_each : 1 ≤ 4
one_each = omega arith

line_pieces-bounds_example :
    (length (line_pieces (46 ∷ []) 4 seven) ≤ line_max_messages)
    × All (λ p. length p ≤ 4) (line_pieces (46 ∷ []) 4 seven)
line_pieces-bounds_example =
    line_pieces-bounds (46 ∷ []) 4 seven one_each
      (one_each, (one_each, (one_each, (one_each, (one_each, (one_each, (one_each, tt)))))))
