-- ===== src/Repair/LeftOpen.antt =====
-- The requests that `_close_overtaken_requests` of src/trade_alerts/repair_runner.py leaves open.
use trade_alerts.Base.{
  ◌≡◌, refl, sym, ap, ◌∙◌, Bool, true, false, ◌&&◌, not, Option, none, some, List, [], ◌∷◌, String,
  any, select, ◌==◌, if◌then◌else◌, Bool-cases, inl, inr, arith,
}
use trade_alerts.Result.{Result, ok, raised, ok-injective}
use trade_alerts.Json.{Fields, end}
use trade_alerts.Requests.Checks.{QueueError}
use trade_alerts.Requests.Reading.{outstanding_error_requests}
use trade_alerts.Repair.World.{World, settled}
use trade_alerts.Repair.Outcomes.{close_request}
use trade_alerts.Repair.Writing.{Setting}
use trade_alerts.Repair.Events.{settled-eq-ok}
use trade_alerts.Repair.Candidates.{
  OpenRequests, request_of, is_ours, trade_of, close_overtaken, closed_trades, with_requests,
  close_overtaken_requests,
}

-- The last of a list, or what was before it.
unfoldable pub last_or : Option Fields → List Fields → Option Fields
last_or before [] = before
last_or before (r ∷ rs) = last_or (some r) rs

module _ (s : Setting) where
  -- A request of the runner about this trade, for which the ledger has no trade_close.
  unfoldable pub holds : List String → String → Fields → Bool
  holds closed trade_id r =
      is_ours s r
      && trade_of s r == trade_id
      && not (trade_of s r == "")
      && not (any (λ t. t == trade_of s r) closed)

  -- The last such request of a queue's open ones.
  abbrev pub last_held : List Fields → String → List Fields → Option Fields
  last_held ledger trade_id rs = last_or none (select (holds (closed_trades s ledger) trade_id) rs)

  request_of-added :
      (trade_id : String) (still : OpenRequests s) (r : Fields)
      → request_of s trade_id (if trade_of s r == "" then still else (trade_of s r, r) ∷ still) ≡ (
          if not (trade_of s r == "") && trade_of s r == trade_id
          then some r
          else request_of s trade_id still)
  unfolding request_of
  request_of-added trade_id still r = elim (Bool-cases (trade_of s r == "")) [
    | inl h ↦ rw h refl
    | inr h ↦ rw h refl
  ]

  module _ (closed : List String) (trade_id : String) (r : Fields) where
    holds-other : is_ours s r ≡ false → holds closed trade_id r ≡ false
    unfolding holds
    holds-other h = ground arith

    holds-closed : any (λ t. t == trade_of s r) closed ≡ true → holds closed trade_id r ≡ false
    unfolding holds
    holds-closed h = ground arith

    holds-open :
        is_ours s r ≡ true
        → any (λ t. t == trade_of s r) closed ≡ false
        → holds closed trade_id r ≡ (not (trade_of s r == "") && trade_of s r == trade_id)
    unfolding holds
    holds-open h k = ground arith

    last-added :
        (b : Bool) (before : Option Fields) (rs : List Fields)
        → holds closed trade_id r ≡ b
        → last_or (if b then some r else before) (select (holds closed trade_id) rs)
          ≡ last_or before (select (holds closed trade_id) (r ∷ rs))
    unfolding last_or
    last-added true before rs h = rw h refl
    last-added false before rs h = rw h refl

  close_overtaken-last :
      (closed : List String) (trade_id : String) (still : OpenRequests s) (rs : List Fields)
      (w : World) {requests : OpenRequests s}
      → (close_overtaken s closed still rs w).result ≡ ok requests
      → request_of s trade_id requests
        ≡ last_or (request_of s trade_id still) (select (holds closed trade_id) rs)
  unfolding close_overtaken last_or
  close_overtaken-last closed trade_id still [] w h =
      ap (request_of s trade_id) (sym (ok-injective h))
  close_overtaken-last closed trade_id still (r ∷ rs) w {requests} h =
      elim (Bool-cases (is_ours s r)) [
        | inr other ↦
            close_overtaken-last closed trade_id still rs w (rw other at h)
            ∙ last-added closed trade_id r false _ rs (holds-other closed trade_id r other)
        | inl ours ↦ elim (Bool-cases (any (λ t. t == trade_of s r) closed)) [
          | inl overtaken ↦
              let d =
                close_request s.clock s.adapter.project r "WITHDRAWN"
                  "the ledger now has a trade_close for this trade" end w in
              let k : (settled (λ _. close_overtaken s closed still rs) d.world d.result).result
                  ≡ ok requests =
                rw (ours, overtaken) at h in
              let (u, came, after) =
                settled-eq-ok (λ _. close_overtaken s closed still rs) d.world d.result k in
              close_overtaken-last closed trade_id still rs d.world
                (sym (ap (λ x. x.result) after) ∙ k)
              ∙ last-added closed trade_id r false _ rs (holds-closed closed trade_id r overtaken)
          | inr left ↦
              close_overtaken-last closed trade_id
                (if trade_of s r == "" then still else (trade_of s r, r) ∷ still) rs w
                (rw (ours, left) at h)
              ∙ ap (λ o. last_or o (select (holds closed trade_id) rs))
                  (request_of-added trade_id still r)
              ∙ last-added closed trade_id r _ (request_of s trade_id still) rs
                  (holds-open closed trade_id r ours left)
        ]
      ]

  -- For each trade the round goes by the last request that the queue holds for it.
  pub close_overtaken_requests-last :
      (ledger : List Fields) (trade_id : String) (w : World) {requests : OpenRequests s}
      → (close_overtaken_requests s ledger w).result ≡ ok requests
      → (rs : List Fields) × (outstanding_error_requests s.clock.print w.queue ≡ ok rs)
        × (request_of s trade_id requests ≡ last_held ledger trade_id rs)
  unfolding close_overtaken_requests request_of
  close_overtaken_requests-last ledger trade_id w h =
      from (outstanding_error_requests s.clock.print w.queue) refl h
    where
      from :
          (r : Result QueueError (List Fields)) {requests : OpenRequests s}
          → outstanding_error_requests s.clock.print w.queue ≡ r
          → (settled
              (close_overtaken s (closed_trades s ledger) [])
              (with_requests s w r).world
              (with_requests s w r).result).result
            ≡ ok requests
          → (rs : List Fields) × (outstanding_error_requests s.clock.print w.queue ≡ ok rs)
            × (request_of s trade_id requests ≡ last_held ledger trade_id rs)
      from (ok rs) e k = (rs, e, close_overtaken-last (closed_trades s ledger) trade_id [] rs w k)
      from (raised x) e k = cc
