-- ===== src/Repair/Overtaken.antt =====
-- The requests that a round of src/trade_alerts/repair_runner.py closes leave the ledger alone.
use trade_alerts.Base.{
  ◌≡◌, refl, Bool, true, false, not, List, [], ◌∷◌, String, any, ◌==◌, if◌then◌else◌,
}
use trade_alerts.Result.{Result, ok, raised}
use trade_alerts.Json.{Fields}
use trade_alerts.Requests.Checks.{QueueError}
use trade_alerts.Repair.World.{World, Step}
use trade_alerts.Repair.Writing.{Setting}
use trade_alerts.Repair.Candidates.{
  OpenRequests, is_ours, trade_of, close_overtaken, closed_trades, with_requests, outstanding,
  close_overtaken_requests,
}
use trade_alerts.Repair.Writes.{Quiet, Quiet-bind, return-Quiet, close_request-Quiet}

module _ (s : Setting) where
  with_requests-same :
      (w : World) (r : Result QueueError (List Fields))
      → (with_requests s w r).world.ledger ≡ w.ledger
  with_requests-same w (ok rs) = refl
  with_requests-same w (raised e) = refl

  outstanding-Quiet : Quiet (outstanding s)
  outstanding-Quiet = record { same = λ w. with_requests-same w _ }

  choose-Quiet :
      (b : Bool) (m n : Step (OpenRequests s)) → Quiet m → Quiet n → Quiet (if b then m else n)
  choose-Quiet true m n hm hn = hm
  choose-Quiet false m n hm hn = hn

  close_overtaken-Quiet :
      (closed : List String) (still : OpenRequests s) (rs : List Fields)
      → Quiet (close_overtaken s closed still rs)
  unfolding close_overtaken
  close_overtaken-Quiet closed still [] = return-Quiet still
  close_overtaken-Quiet closed still (r ∷ rs) =
      choose-Quiet (not (is_ours s r)) _ _ (close_overtaken-Quiet closed still rs) (
        choose-Quiet (any (λ t. t == trade_of s r) closed) _ _
          (Quiet-bind _ _ (close_request-Quiet s r _ _ _)
            (λ u. close_overtaken-Quiet closed still rs))
          (close_overtaken-Quiet closed
            (if trade_of s r == "" then still else (trade_of s r, r) ∷ still) rs))

  pub close_overtaken_requests-Quiet :
      (ledger : List Fields) → Quiet (close_overtaken_requests s ledger)
  unfolding close_overtaken_requests
  close_overtaken_requests-Quiet ledger =
      Quiet-bind _ _ outstanding-Quiet (λ rs. close_overtaken-Quiet (closed_trades s ledger) [] rs)
