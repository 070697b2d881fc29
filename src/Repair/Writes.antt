-- ===== src/Repair/Writes.antt =====
-- How often a round of src/trade_alerts/repair_runner.py writes the ledger.
use trade_alerts.Base.{
  ℕ, ◌≡◌, refl, ◌∙◌, Bool, true, false, Option, none, some, List, [], ◌∷◌, String, if◌then◌else◌,
}
use trade_alerts.Result.{Result, ok, raised}
use trade_alerts.Json.{Fields}
use trade_alerts.EventLog.{LogError, EventFile, EventArgs}
use trade_alerts.Requests.Checks.{QueueError}
use trade_alerts.Requests.Queue.{OpenArgs, OutcomeArgs}
use trade_alerts.Repair.World.{
  RunError, Note, World, Step, settled, ◌>>=◌, return, note, logged, queued, append_event,
  open_request, record_outcome, Identity,
}
use trade_alerts.Repair.Outcomes.{
  close_request, first_reason, report_failure, announce_escalation, escalate, first_failures, fail,
  supersede, block,
}
use trade_alerts.Repair.Writing.{CloseReport, Setting, resolve, report_repaired, after_landing}

-- It leaves the ledger as it is, whether it returns or raises.
pub record Quiet {ℓ} {A : Type ℓ} (m : Step A) : Type 0 where
  pub same : (w : World) → (m w).world.ledger ≡ w.ledger

pub settled-Quiet {ℓ κ} :
    {A : Type ℓ} {B : Type κ} (f : A → Step B) (w : World) (r : Result RunError A)
    → ((a : A) → Quiet (f a))
    → (settled f w r).world.ledger ≡ w.ledger
settled-Quiet f w (ok a) h = (h a).same w
settled-Quiet f w (raised e) h = refl

pub Quiet-bind {ℓ κ} :
    {A : Type ℓ} {B : Type κ} (m : Step A) (f : A → Step B)
    → Quiet m
    → ((a : A) → Quiet (f a))
    → Quiet (m >>= f)
Quiet-bind m f hm hf = record {
  same = λ w. settled-Quiet f (m w).world (m w).result hf ∙ hm.same w;
}

pub return-Quiet {ℓ} : {A : Type ℓ} (a : A) → Quiet (return a)
return-Quiet a = record { same = λ w. refl }

pub note-Quiet : (n : Note) → Quiet (note n)
note-Quiet n = record { same = λ w. refl }

logged-same :
    (w : World) (r : Result LogError (Fields × EventFile)) → (logged w r).world.ledger ≡ w.ledger
logged-same w (ok (e, log)) = refl
logged-same w (raised e) = refl

queued-same :
    (w : World) (r : Result QueueError (Fields × EventFile)) → (queued w r).world.ledger ≡ w.ledger
queued-same w (ok (e, queue)) = refl
queued-same w (raised e) = refl

pub Quiet-if : (b : Bool) (m n : Step (Unit {0})) → Quiet m → Quiet n → Quiet (if b then m else n)
Quiet-if true m n hm hn = hm
Quiet-if false m n hm hn = hn

module _ (s : Setting) where
  pub append_event-Quiet : (a : EventArgs) → Quiet (append_event s.clock a)
  unfolding append_event
  append_event-Quiet a = record { same = λ w. logged-same w _ }

  open_request-Quiet : (a : OpenArgs) → Quiet (open_request s.clock a)
  unfolding open_request
  open_request-Quiet a = record { same = λ w. queued-same w _ }

  record_outcome-Quiet : (a : OutcomeArgs) → Quiet (record_outcome s.clock a)
  unfolding record_outcome
  record_outcome-Quiet a = record { same = λ w. queued-same w _ }

  pub close_request-Quiet :
      (r : Fields) (status remark : String) (details : Fields)
      → Quiet (close_request s.clock s.adapter.project r status remark details)
  unfolding close_request
  close_request-Quiet r status remark details =
      Quiet-bind _ _ (record_outcome-Quiet _) (λ o. note-Quiet _)

  first_reason-Quiet : (rs : List String) → Quiet (first_reason s.clock s.adapter.project rs)
  first_reason-Quiet [] = record { same = λ w. refl }
  first_reason-Quiet (r ∷ rs) = record { same = λ w. refl }

  report_failure-Quiet :
      (tier : String) (limit : ℕ) (i : Identity) (reasons : List String) (extra : Fields)
      (attempt : ℕ) (summary : String)
      → Quiet (report_failure s.clock s.adapter.project tier limit i reasons extra attempt summary)
  unfolding report_failure
  report_failure-Quiet tier limit i reasons extra attempt summary =
      Quiet-bind _ _ (append_event-Quiet _) (λ e. note-Quiet _)

  escalate-Quiet :
      (tier : String) (limit : ℕ) (i : Identity) (reasons : List String) (extra : Fields)
      (attempt : ℕ) (summary : String)
      → Quiet (escalate s.clock s.adapter.project tier limit i reasons extra attempt summary)
  unfolding escalate announce_escalation
  escalate-Quiet tier limit i reasons extra attempt summary =
      Quiet-bind _ _ (open_request-Quiet _)
        (λ r. Quiet-bind _ _ (append_event-Quiet _) (λ e. note-Quiet _))

  first_failures-Quiet :
      (tier : String) (limit : ℕ) (es : List Fields) (i : Identity) (reasons : List String)
      (extra : Fields)
      → Quiet (first_failures s.clock s.adapter.project tier limit es i reasons extra)
  unfolding first_failures
  first_failures-Quiet tier limit es i reasons extra =
      Quiet-bind _ _ (first_reason-Quiet reasons) (λ r.
        Quiet-if _ _ _ (report_failure-Quiet tier limit i reasons extra _ _)
          (escalate-Quiet tier limit i reasons extra _ _))

  pub fail-Quiet :
      (tier : String) (limit : ℕ) (es : List Fields) (i : Identity) (reasons : List String)
      (extra : Fields) (request : Option Fields)
      → Quiet (fail s.clock s.adapter.project tier limit es i reasons extra request)
  unfolding fail
  fail-Quiet tier limit es i reasons extra none = first_failures-Quiet tier limit es i reasons extra
  fail-Quiet tier limit es i reasons extra (some r) = note-Quiet _

  supersede-Quiet :
      (r : Fields) (old : Option Fields) → Quiet (supersede s.clock s.adapter.project r old)
  supersede-Quiet r none = return-Quiet tt
  supersede-Quiet r (some old) = close_request-Quiet old _ _ _

  pub block-Quiet :
      (tier : String) (i : Identity) (reason : String) (more : List String) (extra : Fields)
      (old : Option Fields)
      → Quiet (block s.clock s.adapter.project tier i reason more extra old)
  unfolding block
  block-Quiet tier i reason more extra old = Quiet-bind _ _ (open_request-Quiet _) (λ r.
      Quiet-bind _ _ (append_event-Quiet _)
        (λ e. Quiet-bind _ _ (supersede-Quiet r old) (λ u. note-Quiet _)))

  resolve-Quiet : (request : Option Fields) (event : Fields) → Quiet (resolve s request event)
  resolve-Quiet none event = return-Quiet tt
  resolve-Quiet (some r) event = close_request-Quiet r _ _ _

  report_repaired-Quiet :
      (i : Identity) (path : String) (request : Option Fields) (n : ℕ)
      (r : Result String CloseReport)
      → Quiet (report_repaired s i path request n r)
  report_repaired-Quiet i path request n (raised e) = record { same = λ w. refl }
  report_repaired-Quiet i path request n (ok report) =
      Quiet-bind _ _ (append_event-Quiet _)
        (λ e. Quiet-bind _ _ (resolve-Quiet request e) (λ u. note-Quiet _))

  pub after_landing-Quiet :
      (i : Identity) (path : String) (evidence : Fields) (request : Option Fields)
      (r : Result String ℕ)
      → Quiet (after_landing s i path evidence request r)
  unfolding after_landing
  after_landing-Quiet i path evidence request (raised e) = block-Quiet _ i _ _ _ request
  after_landing-Quiet i path evidence request (ok n) =
      report_repaired-Quiet i path request n (s.adapter.close_report evidence)
