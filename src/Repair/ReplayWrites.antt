-- ===== src/Repair/ReplayWrites.antt =====
-- The replay at the start of a round of src/trade_alerts/repair_runner.py leaves the ledger and the queue alone.
use trade_alerts.Base.{◌≡◌, refl, ◌∙◌, List, String}
use trade_alerts.Result.{Result, ok, raised}
use trade_alerts.Json.{Fields}
use trade_alerts.EventLog.{LogError}
use trade_alerts.Replay.Replaying.{ReplayError, Replayed}
use trade_alerts.Repair.World.{RunError, World, Step, settled, ◌>>◌}
use trade_alerts.Repair.Writing.{Setting}
use trade_alerts.Repair.Replays.{
  read_events, fleet_events, after_replay, replay_code, replay_unannounced,
}
use trade_alerts.Repair.Writes.{Quiet, Quiet-bind}

module _ (s : Setting) where
  after_replay-same :
      (code : String) (w : World) (r : Result ReplayError Replayed)
      → (after_replay s code w r).ledger ≡ w.ledger
  after_replay-same code w (ok r) = refl
  after_replay-same code w (raised e) = refl

  replay_code-Quiet :
      (code tier headline : String) (extra : Fields)
      → Quiet (replay_code s code tier headline extra)
  unfolding replay_code
  replay_code-Quiet code tier headline extra = record { same = λ w. after_replay-same code w _ }

  pub replay_unannounced-Quiet : Quiet (replay_unannounced s)
  unfolding replay_unannounced
  replay_unannounced-Quiet =
      Quiet-bind _ _ (replay_code-Quiet _ _ _ _) (λ u. replay_code-Quiet _ _ _ _)

  after_replay-queue :
      (code : String) (w : World) (r : Result ReplayError Replayed)
      → (after_replay s code w r).queue ≡ w.queue
  after_replay-queue code w (ok r) = refl
  after_replay-queue code w (raised e) = refl

  pub record KeepsQueue (m : Step (Unit {0})) : Type 0 where
    pub kept : (w : World) → (m w).world.queue ≡ w.queue

  KeepsQueue-then : (m k : Step (Unit {0})) → KeepsQueue m → KeepsQueue k → KeepsQueue (m >> k)
  KeepsQueue-then m k hm hk = record { kept = λ w. from w (m w).world (m w).result ∙ hm.kept w }
    where
      from :
          (w v : World) (r : Result RunError (Unit {0}))
          → (settled (λ _. k) v r).world.queue ≡ v.queue
      from w v (ok _) = hk.kept v
      from w v (raised e) = refl

  replay_code-KeepsQueue :
      (code tier headline : String) (extra : Fields)
      → KeepsQueue (replay_code s code tier headline extra)
  unfolding replay_code
  replay_code-KeepsQueue code tier headline extra = record {
    kept = λ w. after_replay-queue code w _;
  }

  pub replay_unannounced-KeepsQueue : KeepsQueue (replay_unannounced s)
  unfolding replay_unannounced
  replay_unannounced-KeepsQueue =
      KeepsQueue-then _ _ (replay_code-KeepsQueue _ _ _ _) (replay_code-KeepsQueue _ _ _ _)

  read_events-same :
      (w : World) (r : Result LogError (List Fields)) → (read_events w r).world.ledger ≡ w.ledger
  read_events-same w (ok es) = refl
  read_events-same w (raised e) = refl

  pub fleet_events-Quiet : Quiet fleet_events
  fleet_events-Quiet = record { same = λ w. read_events-same w _ }
