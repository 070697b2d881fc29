-- ===== src/Repair/Events.antt =====
-- The events of src/trade_alerts/repair_runner.py, and the steps that returned.
use trade_alerts.Base.{
  ℕ, ◌+◌, ◌≡◌, refl, sym, ap, ◌∙◌, Bool, true, Option, none, some, List, [], ◌∷◌, ◌++◌, String,
  eq_refl, if◌then◌else◌,
}
use trade_alerts.Result.{Result, ok, raised, ok-injective}
use trade_alerts.Json.{Json, obj, Fields, end, field, get, find, is_text}
use trade_alerts.EventLog.{LogError, EventFile, append_fleet_event}
use trade_alerts.EventLog.Kept.{append_fleet_event-IsKept, taken}
use trade_alerts.Requests.Checks.{QueueError}
use trade_alerts.Repair.World.{RunError, Identity, World, Step, settled, logged, queued, Clock}
use trade_alerts.Repair.Outcomes.{
  code_repair_failed, identity_fields, is_failure_of, is_escalated, count_failures, event_args,
  with_incident,
}

-- Events and their fields

-- The parts of an event that the runner wrote.
pub record Carries (project code : String) (evidence details e : Fields) : Type 0 where
  pub in_project : get "project" e ≡ Json.str project
  pub with_code : get "code" e ≡ Json.str code
  pub with_evidence : get "evidence" e ≡ Json.obj evidence
  pub with_details : get "details" e ≡ Json.obj details

module _ (clock : Clock) (project code tier summary : String) (evidence details : Fields)
    (fresh now : String) where
  pub append_fleet_event-Carries :
      (f f' : EventFile) (e : Fields)
      → append_fleet_event true fresh now
          (event_args clock project code tier summary evidence details)
          f
        ≡ ok (e, f')
      → Carries project code evidence details e
  append_fleet_event-Carries f f' e h =
      let kept =
        append_fleet_event-IsKept true fresh now
          (event_args clock project code tier summary evidence details) f f' e h in
      record {
        in_project = kept.same_project;
        with_code = kept.same_code;
        with_evidence =
            kept.same_evidence ∙ ap obj (sym (taken evidence kept.evidence kept.taken_evidence));
        with_details =
            kept.same_details ∙ ap obj (sym (taken details kept.details kept.taken_details));
      }

-- Steps that returned

pub settled-eq-ok :
    {A B : Type 0} (f : A → Step B) (w : World) (r : Result RunError A) {b : B}
    → (settled f w r).result ≡ ok b
    → (a : A) × (r ≡ ok a) × (settled f w r ≡ f a w)
settled-eq-ok f w (ok a) h = (a, refl, refl)
settled-eq-ok f w (raised e) h = cc

pub logged-eq-ok :
    (w : World) (r : Result LogError (Fields × EventFile)) {e : Fields}
    → (logged w r).result ≡ ok e
    → (log : EventFile) × (r ≡ ok (e, log))
      × ((logged w r).world.log ≡ log)
      × ((logged w r).world.queue ≡ w.queue)
logged-eq-ok w (ok (x, log)) h = (log, ap (λ y. ok (y, log)) (ok-injective h), refl, refl)
logged-eq-ok w (raised x) h = cc

pub queued-eq-ok :
    (w : World) (r : Result QueueError (Fields × EventFile)) {e : Fields}
    → (queued w r).result ≡ ok e
    → (queue : EventFile) × (r ≡ ok (e, queue))
      × ((queued w r).world.queue ≡ queue)
      × ((queued w r).world.log ≡ w.log)
queued-eq-ok w (ok (x, queue)) h = (queue, ap (λ y. ok (y, queue)) (ok-injective h), refl, refl)
queued-eq-ok w (raised x) h = cc

-- Counting

abbrev pub is_ours : String → Fields → Bool
is_ours project e = is_text project (get "project" e)

pub count_failures-snoc :
    (t : String) (n : ℕ) (es : List Fields) (e : Fields)
    → is_failure_of t e ≡ true
    → count_failures t n (es ++ e ∷ []) ≡ (if is_escalated e then 0 else count_failures t n es + 1)
unfolding count_failures
count_failures-snoc t n [] e h = rw h refl
count_failures-snoc t n (x ∷ es) e h =
    count_failures-snoc t (if is_failure_of t x then (if is_escalated x then 0 else n + 1) else n)
      es e h

pub failure-Carries :
    (project : String) (i : Identity) (details e : Fields)
    → Carries project code_repair_failed (identity_fields i) details e
    → is_failure_of i.trade_id e ≡ true
unfolding is_text get find
failure-Carries project i details e c =
    rw (c.with_code, c.with_evidence) (by_incident i.incident i.trade_id i.symbol)
  where
    by_incident :
        (o : Option Json) (t : String) (symbol : Json)
        → is_text t (
            get "trade_id"
              (with_incident o (field "trade_id" (Json.str t) (field "symbol" symbol end))))
          ≡ true
    by_incident none t symbol = eq_refl t
    by_incident (some v) t symbol = eq_refl t
