-- ===== src/Repair/World.antt =====
-- What a round of src/trade_alerts/repair_runner.py works on, and the calls that change it.
--
-- An exception ends the round and keeps what was written before it. New ids and the time are functions
-- of the number of records that were written. `print` stands for `str` on a value that is not a text.
use trade_alerts.Base.{ℕ, suc, true, Option, List, [], ◌∷◌, ◌++◌, String}
use trade_alerts.Result.{Result, ok, raised}
use trade_alerts.Json.{Json, Fields}
use trade_alerts.Channels.Text.{Text}
use trade_alerts.EventLog.{LogError, EventFile, EventArgs, append_fleet_event}
use trade_alerts.Requests.Checks.{QueueError}
use trade_alerts.Requests.Queue.{OpenArgs, OutcomeArgs, open_error_request, record_request_outcome}

pub data RunError : Type 0 where
  in_log : LogError → RunError
  in_queue : QueueError → RunError
  no_reason : RunError
  in_repair : String → RunError

-- The trade that a candidate is about; the incident is known once there is evidence.
pub record Identity : Type 0 where
  pub incident : Option Json
  pub trade_id : String
  pub symbol : Json

-- An entry of one of the lists of the round's result.
pub data Note : Type 0 where
  awaiting_human : String → Json → Note
  deferred : String → Note
  still_open : String → String → Note
  failed_silently : Identity → List String → Json → Note
  failed : Identity → List String → ℕ → Note
  escalated : Identity → List String → ℕ → Json → Note
  blocked : Identity → String → Json → Note
  repaired : Identity → ℕ → Note
  closed_request : Json → Json → String → Note
  replayed : String → Json → Json → Note
  replay_failed : String → Note
  recurring : ℕ → List String → Json → Note
  pending_expired : List String → Json → Note
  pending_expired_failed : Note

-- The files, the number of records written so far, and the result.
pub record World : Type 0 where
  pub ledger : Text
  pub log : EventFile
  pub queue : EventFile
  pub written : ℕ
  pub notes : List Note

-- How a call ended, and the world it left.
pub record Done {ℓ} (A : Type ℓ) : Type ℓ where
  pub result : Result RunError A
  pub world : World

abbrev pub Step {ℓ} : Type ℓ → Type ℓ
Step A = World → Done A

abbrev pub settled {ℓ κ} :
    {A : Type ℓ} {B : Type κ} → (A → Step B) → World → Result RunError A → Done B
settled f w (ok a) = f a w
settled f w (raised e) = record { result = raised e; world = w }

infixl 5 ◌>>=◌ ◌>>◌
abbrev pub ◌>>=◌ {ℓ κ} : {A : Type ℓ} {B : Type κ} → Step A → (A → Step B) → Step B
(m >>= f) w = settled f (m w).world (m w).result

abbrev pub ◌>>◌ {ℓ} : {B : Type ℓ} → Step (Unit {0}) → Step B → Step B
m >> k = m >>= λ _. k

abbrev pub return {ℓ} : {A : Type ℓ} → A → Step A
return a w = record { result = ok a; world = w }

abbrev pub raise {ℓ} : {A : Type ℓ} → RunError → Step A
raise e w = record { result = raised e; world = w }

abbrev pub note : Note → Step (Unit {0})
note n w = record {
  result = ok tt;
  world = record {
    ledger = w.ledger;
    log = w.log;
    queue = w.queue;
    written = w.written;
    notes = w.notes ++ n ∷ [];
  };
}

abbrev pub logged : World → Result LogError (Fields × EventFile) → Done Fields
logged w (ok (e, log)) = record {
  result = ok e;
  world = record {
    ledger = w.ledger;
    log = log;
    queue = w.queue;
    written = suc w.written;
    notes = w.notes;
  };
}
logged w (raised e) = record { result = raised (in_log e); world = w }

abbrev pub queued : World → Result QueueError (Fields × EventFile) → Done Fields
queued w (ok (r, queue)) = record {
  result = ok r;
  world = record {
    ledger = w.ledger;
    log = w.log;
    queue = queue;
    written = suc w.written;
    notes = w.notes;
  };
}
queued w (raised e) = record { result = raised (in_queue e); world = w }

-- The new ids, the times, and the functions of Python's library.
pub record Clock : Type 0 where
  pub fresh : ℕ → String
  pub now : ℕ → String
  pub digest : Fields → String
  pub print : Json → String

module _ (clock : Clock) where
  unfoldable pub append_event : EventArgs → Step Fields
  append_event a w =
      logged w (append_fleet_event true (clock.fresh w.written) (clock.now w.written) a w.log)

  unfoldable pub open_request : OpenArgs → Step Fields
  open_request a w = queued w (
      open_error_request clock.digest clock.print (clock.fresh w.written) (clock.now w.written) a
        w.queue)

  unfoldable pub record_outcome : OutcomeArgs → Step Fields
  record_outcome a w = queued w (record_request_outcome (clock.now w.written) a w.queue)
