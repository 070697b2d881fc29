-- ===== src/Repair/Candidates.antt =====
-- `_close_overtaken_requests`, `_handle` and the loop over the candidates of
-- src/trade_alerts/repair_runner.py.
use trade_alerts.Base.{
  Bool, true, false, ◌&&◌, ◌||◌, not, Option, none, some, List, [], ◌∷◌, any, String, ◌==◌,
  if◌then◌else◌,
}
use trade_alerts.Result.{Result, ok, raised}
use trade_alerts.Json.{Json, Fields, end, field, get, is_text}
use trade_alerts.SafeHalt.Latch.{mapping_or_empty}
use trade_alerts.Requests.Checks.{QueueError}
use trade_alerts.Requests.Reading.{key_text, outstanding_error_requests}
use trade_alerts.Strings.{concat, texts}
use trade_alerts.Repair.World.{
  in_queue, Identity, awaiting_human, deferred, still_open, World, Done, Step, ◌>>=◌, ◌>>◌, return,
  raise, in_repair, note,
}
use trade_alerts.Repair.Outcomes.{
  code_repair_failed, code_repair_blocked, close_request, fail, block,
}
use trade_alerts.Repair.Writing.{
  Fetched, fetched, position_open, fetch_failed, halt, unmappable, writable, Assessment, Setting,
  printed, symbol_of, write,
}

module _ (s : Setting) where
  abbrev pub attempted : Bool → Step (Unit {0}) → Step Bool
  attempted b m = do m; return b

  -- _handle, from the assessment
  abbrev pub act_on : Identity → Fields → Option Fields → Assessment → Step Bool
  act_on i evidence request a = elim a.verdict [
    | halt ↦ attempted false (
        block s.clock s.adapter.project s.tiers.blocked_tier i
          "the ledger already carries repair records for this trade" a.reasons
          (field "reasons" (texts a.reasons) (field "checks" a.checks end)) request)
    | unmappable ↦ attempted false (
        fail s.clock s.adapter.project s.tiers.failed_tier s.escalate_after s.fleet_events i
          a.reasons (field "checks" a.checks end) request)
    | writable ↦ attempted true (write s i evidence request)
  ]

  -- _handle, from how `assess_repair` ended: nothing catches its exception
  abbrev pub assessed : Identity → Fields → Option Fields → Result String Assessment → Step Bool
  assessed i evidence request (raised e) = raise (in_repair e)
  assessed i evidence request (ok a) = act_on i evidence request a

  -- _handle, from how the fetch ended
  abbrev pub handle_fetched : String → Json → List Fields → Option Fields → Fetched → Step Bool
  handle_fetched trade_id symbol ledger request (position_open why) =
      attempted false (note (still_open trade_id why))
  handle_fetched trade_id symbol ledger request (fetch_failed why) = attempted false (
      fail s.clock s.adapter.project s.tiers.failed_tier s.escalate_after s.fleet_events
        (record { incident = none; trade_id = trade_id; symbol = symbol })
        (concat ("evidence fetch failed: " ∷ why ∷ []) ∷ []) end request)
  handle_fetched trade_id symbol ledger request (fetched evidence) =
      assessed
        (record {
          incident = some (get "incident_id" evidence);
          trade_id = trade_id;
          symbol = symbol;
        })
        evidence request (s.adapter.assess evidence ledger)

  -- _handle
  unfoldable pub handle : String → List Fields → Option Fields → Step Bool
  handle trade_id ledger request =
      handle_fetched trade_id (symbol_of s ledger trade_id) ledger request
        (s.adapter.fetch_evidence trade_id)

  -- The open requests by their trades, the last one first.
  abbrev pub OpenRequests : Type 0
  OpenRequests = List (String × Fields)

  unfoldable pub request_of : String → OpenRequests → Option Fields
  request_of trade_id [] = none
  request_of trade_id ((t, r) ∷ rs) =
      let rest = request_of trade_id rs in if t == trade_id then some r else rest

  abbrev pub is_blocked : Option Fields → Bool
  is_blocked none = false
  is_blocked (some r) = is_text code_repair_blocked (get "code" r)

  abbrev id_in : Option Fields → Json
  id_in none = Json.null
  id_in (some r) = get "request_id" r

  -- The loop of run, with the flag whether a write s was attempted.
  unfoldable pub take_candidates : List Fields → OpenRequests → Bool → List String → Step (Unit {0})
  take_candidates ledger open_requests attempt [] = return tt
  take_candidates ledger open_requests attempt (trade_id ∷ rest) =
      let request = request_of trade_id open_requests in
      if is_blocked request
      then (do
        note (awaiting_human trade_id (id_in request))
        take_candidates ledger open_requests attempt rest)
      else if attempt
      then (do note (deferred trade_id); take_candidates ledger open_requests attempt rest)
      else (do
        wrote ← handle trade_id ledger request
        take_candidates ledger open_requests wrote rest)

  abbrev pub is_ours : Fields → Bool
  is_ours r =
      is_text s.adapter.project (get "project" r)
      && (is_text code_repair_failed (get "code" r) || is_text code_repair_blocked (get "code" r))

  -- str((request.get("evidence") or {}).get("trade_id") or "")
  abbrev pub trade_of : Fields → String
  trade_of r = key_text s.clock.print (get "trade_id" (mapping_or_empty (get "evidence" r)))

  -- The loop of _close_overtaken_requests, with the requests that are still open.
  unfoldable pub close_overtaken : List String → OpenRequests → List Fields → Step OpenRequests
  close_overtaken closed still [] = return still
  close_overtaken closed still (r ∷ rs) =
      if not (is_ours r)
      then close_overtaken closed still rs
      else if any (λ t. t == trade_of r) closed
      then (do
        close_request s.clock s.adapter.project r "WITHDRAWN"
            "the ledger now has a trade_close for this trade" end
        close_overtaken closed still rs)
      else close_overtaken closed (if trade_of r == "" then still else (trade_of r, r) ∷ still) rs

  unfoldable pub closed_trades : List Fields → List String
  closed_trades [] = []
  closed_trades (e ∷ es) =
      let rest = closed_trades es in
      if is_text "trade_close" (get "event_type" e)
      then printed s (get "trade_id" e) ∷ rest
      else rest

  abbrev pub with_requests : World → Result QueueError (List Fields) → Done (List Fields)
  with_requests w (ok rs) = record { result = ok rs; world = w }
  with_requests w (raised e) = record { result = raised (in_queue e); world = w }

  abbrev pub outstanding : Step (List Fields)
  outstanding w = with_requests w (outstanding_error_requests s.clock.print w.queue)

  unfoldable pub close_overtaken_requests : List Fields → Step OpenRequests
  close_overtaken_requests ledger = do
    requests ← outstanding
    close_overtaken (closed_trades ledger) [] requests
