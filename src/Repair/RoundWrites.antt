-- ===== src/Repair/RoundWrites.antt =====
-- The one write of a whole round of src/trade_alerts/repair_runner.py.
use mathlib.Core.Path.{subst}
use trade_alerts.Base.{
  ◌≡◌, refl, ap, sym, ◌∙◌, ◌⊎◌, inl, inr, Bool, true, false, ◌||◌, Option, none, some, List, String,
  any, ◌==◌, ltb, length,
}
use trade_alerts.Result.{Result, ok, raised}
use trade_alerts.Json.{Fields}
use trade_alerts.Channels.Text.{Text}
use trade_alerts.EventLog.{LogError, EventFile, read_fleet_events}
use trade_alerts.LedgerFile.Batch.{read_ledger}
use trade_alerts.Expired.Notice.{Plan}
use trade_alerts.Repair.World.{RunError, World, Step, settled, ◌>>◌}
use trade_alerts.Repair.Writing.{Setting}
use trade_alerts.Repair.Candidates.{
  OpenRequests, take_candidates, is_blocked, close_overtaken_requests,
}
use trade_alerts.Repair.Replays.{started, read_events, replay_unannounced}
use trade_alerts.Repair.Rounds.{
  Inputs, recent_repairs, was_told, recurring_threshold, tell_recurring, check_recurring,
  wrote_plan, write_plan, follow_plan, plan_from, check_pending_expired, run_from, read_and_run,
  run, refresh_ops_export, run_repair_round,
}
use trade_alerts.Repair.Writes.{
  Quiet, Quiet-bind, Quiet-if, settled-Quiet, return-Quiet, note-Quiet, append_event-Quiet,
}
use trade_alerts.Repair.Handling.{Wrote}
use trade_alerts.Repair.OneWrite.{AtMostOnce, take_candidates-AtMostOnce}
use trade_alerts.Requests.Reading.{outstanding_error_requests}
use trade_alerts.Repair.LeftOpen.{last_held, close_overtaken_requests-last}
use trade_alerts.Repair.Overtaken.{close_overtaken_requests-Quiet}
use trade_alerts.Repair.ReplayWrites.{
  replay_unannounced-Quiet, replay_unannounced-KeepsQueue, fleet_events-Quiet,
}

module _ (s : Setting) where
  module _ (i : Inputs) where
    tell_recurring-Quiet : (repairs : List Fields) → Quiet (tell_recurring s i repairs)
    unfolding tell_recurring
    tell_recurring-Quiet repairs = Quiet-bind _ _ (append_event-Quiet s _) (λ e. note-Quiet _)

    check_recurring-Quiet : Quiet (check_recurring s i)
    unfolding check_recurring
    check_recurring-Quiet = Quiet-bind _ _ (fleet_events-Quiet s) (λ es.
        Quiet-if (ltb (length (recent_repairs s i es)) recurring_threshold || was_told s i es) _ _
          (return-Quiet tt) (tell_recurring-Quiet (recent_repairs s i es)))

    wrote_plan-same :
        (p : Plan) (w : World) (r : Result LogError (Fields × EventFile))
        → (wrote_plan s i p w r).ledger ≡ w.ledger
    wrote_plan-same p w (ok (e, log)) = refl
    wrote_plan-same p w (raised e) = refl

    write_plan-same :
        (o : Option String) (p : Plan) (w : World) → (write_plan s i o p w).ledger ≡ w.ledger
    write_plan-same none p w = refl
    write_plan-same (some tier) p w = wrote_plan-same p w _

    follow_plan-same : (o : Option Plan) (w : World) → (follow_plan s i o w).ledger ≡ w.ledger
    follow_plan-same none w = refl
    follow_plan-same (some p) w = write_plan-same i.expired_tier p w

    plan_from-same :
        (w : World) (r : Result LogError (List Fields)) → (plan_from s i w r).ledger ≡ w.ledger
    plan_from-same w (ok es) = follow_plan-same _ w
    plan_from-same w (raised e) = refl

    check_pending_expired-Quiet : Quiet (check_pending_expired s i)
    unfolding check_pending_expired
    check_pending_expired-Quiet = record { same = λ w. plan_from-same w _ }

    checks-Quiet : Quiet (check_recurring s i >> check_pending_expired s i)
    checks-Quiet = Quiet-bind _ _ check_recurring-Quiet (λ u. check_pending_expired-Quiet)

    -- The ledger as a round reads it.
    abbrev pub events_of : Text → List Fields
    events_of before = read_ledger s.runtime.is_space s.runtime.loads before

    -- From the files `start`: the batch of a candidate that the ledger status names, and for which the
    -- last open request of the queue, if there is one, is not of the blocking code.
    pub record RoundWrote (start : World) (after : Text) : Type 0 where
      pub log_events : List Fields
      pub read : read_fleet_events start.log ≡ ok log_events
      pub open_requests : List Fields
      pub listed : outstanding_error_requests s.clock.print start.queue ≡ ok open_requests
      pub trade_id : String
      pub candidate :
          any (λ t. t == trade_id) (i.detect i.ledger_status (events_of start.ledger)) ≡ true
      pub free :
          is_blocked
            (started s log_events)
            (last_held (started s log_events) (events_of start.ledger) trade_id open_requests)
          ≡ false
      pub wrote : Wrote (started s log_events) (events_of start.ledger) start.ledger after trade_id

    abbrev pub AtMostOneBatch : World → Text → Type 0
    AtMostOneBatch start after = (after ≡ start.ledger) ⊎ RoundWrote start after

    module _ (es : List Fields) (start : World) (read : read_fleet_events start.log ≡ ok es) where
      abbrev chosen : OpenRequests (started s es) → Step (Unit {0})
      chosen requests =
          take_candidates (started s es) (events_of start.ledger) requests false
            (i.detect i.ledger_status (events_of start.ledger))

      chosen-AtMostOneBatch :
          (requests : OpenRequests (started s es)) (before after : Text)
          → before ≡ start.ledger
          → (close_overtaken_requests (started s es) (events_of start.ledger) start).result
            ≡ ok requests
          → AtMostOnce
              (started s es)
              (events_of start.ledger)
              requests
              (i.detect i.ledger_status (events_of start.ledger))
              before
              after
          → AtMostOneBatch start after
      chosen-AtMostOneBatch requests before after same closed (inl h) = inl (h ∙ same)
      chosen-AtMostOneBatch requests before after same closed (inr (t, there, free, w)) =
          let (rs, listed, last) =
            close_overtaken_requests-last (started s es) (events_of start.ledger) t start closed in
          inr (record {
            log_events = es;
            read = read;
            open_requests = rs;
            listed = listed;
            trade_id = t;
            candidate = there;
            free = ap (is_blocked (started s es)) (sym last) ∙ free;
            wrote = subst (λ b. Wrote (started s es) (events_of start.ledger) b after t) same w;
          })

      settled-AtMostOneBatch :
          (v : World) (r : Result RunError (OpenRequests (started s es)))
          → v.ledger ≡ start.ledger
          → (close_overtaken_requests (started s es) (events_of start.ledger) start).result ≡ r
          → AtMostOneBatch start
              (settled
                (λ requests. chosen requests >> (check_recurring s i >> check_pending_expired s i))
                v
                r).world.ledger
      settled-AtMostOneBatch v (raised e) same came = inl same
      settled-AtMostOneBatch v (ok requests) same came =
          chosen-AtMostOneBatch requests v.ledger _ same came (
            subst
              (AtMostOnce (started s es) (events_of start.ledger) requests
                (i.detect i.ledger_status (events_of start.ledger)) v.ledger)
              (sym (
                settled-Quiet (λ _. check_recurring s i >> check_pending_expired s i)
                  (chosen requests v).world (chosen requests v).result (λ _. checks-Quiet)))
              (take_candidates-AtMostOnce (started s es) (events_of start.ledger) requests
                (i.detect i.ledger_status (events_of start.ledger)) v))

      run_from-AtMostOneBatch :
          AtMostOneBatch start (run_from s i (events_of start.ledger) es start).world.ledger
      unfolding run_from
      run_from-AtMostOneBatch =
          settled-AtMostOneBatch
            (close_overtaken_requests (started s es) (events_of start.ledger) start).world
            (close_overtaken_requests (started s es) (events_of start.ledger) start).result
            ((close_overtaken_requests-Quiet (started s es) (events_of start.ledger)).same start)
            refl

    read-AtMostOneBatch :
        (w : World) (r : Result LogError (List Fields))
        → read_fleet_events w.log ≡ r
        → AtMostOneBatch w
            (settled
              (run_from s i (events_of w.ledger))
              (read_events w r).world
              (read_events w r).result).world.ledger
    read-AtMostOneBatch w (ok es) e = run_from-AtMostOneBatch es w e
    read-AtMostOneBatch w (raised x) e = inl refl

    settled_run :
        (w : World) (r : Result RunError (Unit {0}))
        → AtMostOneBatch w (settled (λ _. read_and_run s i) w r).world.ledger
    unfolding read_and_run
    settled_run w (ok _) = read-AtMostOneBatch w _ refl
    settled_run w (raised e) = inl refl

    -- The files as the replay of the notices leaves them.
    abbrev pub replayed_world : World → World
    replayed_world w = (replay_unannounced s w).world

    run-AtMostOneBatch : (w : World) → AtMostOneBatch (replayed_world w) (run s i w).world.ledger
    unfolding run
    run-AtMostOneBatch w = settled_run (replayed_world w) (replay_unannounced s w).result

    -- A round, paused or not, and whether it ends or an exception stops it, leaves the ledger as it was
    -- or appends one batch: the one staged for a trade that the ledger status names, on evidence that the
    -- exchange gave and the assessment found writable. Of the runner's open requests in the queue for this
    -- trade, without those of a trade that has a trade_close in the ledger, the last is then not of the
    -- blocking code VERIFIED_CLOSE_REPAIR_BLOCKED. The ledger and the queue that this is about are those
    -- before the round, which the replayed notices leave alone. A paused round leaves the ledger, the event log and the queue as they were;
    -- paused or not, the export file is refreshed from the files as the round leaves them, or kept when
    -- that fails.
    pub run_repair_round-AtMostOneBatch :
        (export : World → Option Fields) (before : Option Fields) (paused : Bool) (w : World)
        → let e = run_repair_round s i export before paused w in
          AtMostOneBatch (replayed_world w) e.done.world.ledger
          × ((replayed_world w).ledger ≡ w.ledger)
          × ((replayed_world w).queue ≡ w.queue)
          × ((run_repair_round s i export before true w).done.world ≡ w)
          × ((e.ops_export, e.ops_export_written)
              ≡ refresh_ops_export s i before (export e.done.world))
    unfolding run_repair_round
    run_repair_round-AtMostOneBatch export before true w = (
      inl (sym ((replay_unannounced-Quiet s).same w)),
      (replay_unannounced-Quiet s).same w,
      (replay_unannounced-KeepsQueue s).kept w,
      refl,
      refl,
    )
    run_repair_round-AtMostOneBatch export before false w = (
      run-AtMostOneBatch w,
      (replay_unannounced-Quiet s).same w,
      (replay_unannounced-KeepsQueue s).kept w,
      refl,
      refl,
    )
