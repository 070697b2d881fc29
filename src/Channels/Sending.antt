-- ===== src/Channels/Sending.antt =====
-- `request_with_retry` of src/trade_alerts/core.py and the two `send` methods of
-- src/trade_alerts/channels.py. A request is a function from the number of the attempt to whether it
-- returns; what it sends is a text, and the HTTP library's part is inside that function.
use trade_alerts.Base.{
  ℕ, zero, suc, ◌^◌, Bool, true, false, Option, none, some, List, [], ◌∷◌, ltb, if◌then◌else◌,
}
use trade_alerts.Channels.Text.{Text, split_text, sendable, line_pieces}

-- Whether a call returned, and the waits in between, in units of `backoff_seconds`.
pub record Tried : Type 0 where
  pub returned : Bool
  pub waits : List ℕ

-- The attempts from `attempt` on, of which `left` are left.
unfoldable pub retry_from : ℕ → ℕ → (ℕ → Bool) → Tried
retry_from zero attempt request = record { returned = false; waits = [] }
retry_from (suc left) attempt request =
    let more = retry_from left (suc attempt) request in
    if request attempt then record { returned = true; waits = [] } else record {
      returned = more.returned;
      waits = if ltb 0 left then 2 ^ attempt ∷ more.waits else more.waits;
    }

unfoldable pub request_with_retry : (ℕ → Bool) → ℕ → Tried
request_with_retry request attempts = retry_from attempts 0 request

-- How a `send` ended, and the texts of the requests that were accepted, in order.
pub record Sent : Type 0 where
  pub returned : Bool
  pub texts : List (List Text)

module _ (is_space : ℕ → Bool) (attempts : ℕ) (post : List Text → ℕ → Bool) where
  -- The loop of TelegramChannel.send: a piece that fails raises, and ends it.
  unfoldable pub send_each : List Text → Sent
  send_each [] = record { returned = true; texts = [] }
  send_each (p ∷ ps) =
      let more = send_each ps in
      if (request_with_retry (post (p ∷ [])) attempts).returned
      then record { returned = more.returned; texts = (p ∷ []) ∷ more.texts }
      else record { returned = false; texts = [] }

  abbrev send_pieces : Option (List Text) → Text → Sent
  send_pieces none text = record { returned = false; texts = [] }
  send_pieces (some pieces) text = send_each (sendable is_space pieces text)

  -- `credentials` is whether both are filled.
  unfoldable pub telegram_send : Bool → ℕ → Text → Sent
  telegram_send credentials max_text_length text =
      if credentials
      then send_pieces (split_text is_space text max_text_length) text
      else record { returned = false; texts = [] }

  abbrev push : List Text → Sent
  push pieces =
      if (request_with_retry (post pieces) attempts).returned
      then record { returned = true; texts = pieces ∷ [] }
      else record { returned = false; texts = [] }

  abbrev push_pieces : Text → ℕ → Option (List Text) → Text → Sent
  push_pieces mark limit none text = record { returned = false; texts = [] }
  push_pieces mark limit (some pieces) text =
      push (line_pieces mark limit (sendable is_space pieces text))

  unfoldable pub line_send : Bool → Text → ℕ → Text → Sent
  line_send credentials mark max_text_length text =
      if credentials
      then push_pieces mark max_text_length (split_text is_space text max_text_length) text
      else record { returned = false; texts = [] }
