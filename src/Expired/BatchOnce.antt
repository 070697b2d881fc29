-- ===== src/Expired/BatchOnce.antt =====
-- A batch that `announce_batch_expired` of src/trade_alerts/pending_expired_notice.py announced.
use trade_alerts.Base.{
  ◌≡◌, refl, sym, ap, ◌∙◌, Bool, true, false, ◌&&◌, ◌||◌, Option, none, some, List, [], ◌∷◌, ◌++◌,
  any, any-append, String, eq_refl, if◌then◌else◌, arith,
}
use trade_alerts.Result.{Result, ok, raised, bind-eq-ok, ok-injective}
use trade_alerts.Json.{Json, Fields, get, find, is_text}
use trade_alerts.SafeHalt.Latch.{mapping_or_empty}
use trade_alerts.EventLog.{LogError, EventFile, append_fleet_event, read_fleet_events}
use trade_alerts.EventLog.Appending.{read_fleet_events-append}
use trade_alerts.EventLog.Kept.{IsKept, append_fleet_event-IsKept, taken}
use trade_alerts.Expired.Notice.{code_pending_expired, block_of, is_notice}
use trade_alerts.Expired.Batch.{
  is_valid_batch_block, batch_episode, announces_episode, batch_args, announced, announce_block,
  announce_valid, announce_batch_expired,
}

abbrev Answer : Type 0
Answer = Result LogError (Option Fields × EventFile)

abbrev is_written : Answer → Bool
is_written (ok (none, f)) = false
is_written (ok (some e, f)) = true
is_written (raised e) = false

guarded :
    (b : Bool) (m : Answer) (f f' : EventFile) (e : Fields)
    → ◌≡◌ {A = Answer} (if b then m else ok (none, f)) (ok (some e, f'))
    → (b ≡ true) × (m ≡ ok (some e, f'))
guarded true m f f' e h = (refl, h)
guarded false m f f' e h = let bad : false ≡ true = ap is_written h in cc

refused_first :
    (b : Bool) (m : Answer) (f f' : EventFile) (e : Fields)
    → ◌≡◌ {A = Answer} (if b then ok (none, f) else m) (ok (some e, f'))
    → m ≡ ok (some e, f')
refused_first false m f f' e h = h
refused_first true m f f' e h = let bad : false ≡ true = ap is_written h in cc

right_holds : (a b : Bool) → b ≡ true → (a || b) ≡ true
right_holds a b h = ground arith

both : (a b : Bool) → a ≡ true → b ≡ true → (a && b) ≡ true
both a b h k = ground arith

module _ (print : Json → String) (digest : List String → String) (day : String) where
  announced-eq-ok :
      (r : Result LogError (Fields × EventFile)) (f' : EventFile) (e : Fields)
      → announced print digest day r ≡ ok (some e, f')
      → r ≡ ok (e, f')
  announced-eq-ok (ok (x, g)) f' e h =
      let same = ok-injective h in
      ap ok (ap (λ w. (elim w.0 as (λ _. Fields) [ none ↦ x | some y ↦ y ], w.1)) same)
  announced-eq-ok (raised x) f' e h = let bad : false ≡ true = ap is_written h in cc

  kept-announces :
      (project tier at : String) (status block e : Fields)
      → IsKept (batch_args print digest day project tier at status block) e
      → announces_episode print digest day project (batch_episode print digest day block) e ≡ true
  unfolding is_text get find
  kept-announces project tier at status block e k =
      let episode = batch_episode print digest day block in
      let evidence = k.same_evidence ∙ ap Json.obj (sym (taken _ k.evidence k.taken_evidence)) in
      both (is_notice print project e)
        (is_text episode (get "episode" (mapping_or_empty (get "evidence" e))))
        (both (is_text project (get "project" e)) (is_text code_pending_expired (get "code" e))
          (rw k.same_project (eq_refl project)) (rw k.same_code refl))
        (rw evidence (eq_refl episode))

  module _ (fresh now fresh2 now2 project tier tier2 : String) where
    announce_block-twice :
        (status block : Fields) (f f' : EventFile) (e : Fields)
        → f.torn ≡ none
        → announce_block print digest day fresh now project tier status block f ≡ ok (some e, f')
        → announce_block print digest day fresh2 now2 project tier2 status block f' ≡ ok (none, f')
    unfolding announce_block
    announce_block-twice status block f f' e whole h =
        let (events, read, h1) = bind-eq-ok (read_fleet_events f) _ h in
        let args = batch_args print digest day project tier now status block in
        let test =
          announces_episode print digest day project (batch_episode print digest day block) in
        let wrote =
          announced-eq-ok (append_fleet_event true fresh now args f) f' e
            (refused_first _ _ f f' e h1) in
        let read_again = read_fleet_events-append true fresh now args f whole read wrote in
        let here =
          kept-announces project tier now status block e
            (append_fleet_event-IsKept true fresh now args f f' e wrote) in
        let found : any test (events ++ e ∷ []) ≡ true =
          any-append test events (e ∷ [])
          ∙ right_holds (any test events) (test e || false) (rw here refl) in
        rw (read_again, found) refl

    announce_valid-twice :
        (status : Fields) (block : Json) (f f' : EventFile) (e : Fields)
        → f.torn ≡ none
        → announce_valid print digest day fresh now project tier status block f ≡ ok (some e, f')
        → announce_valid print digest day fresh2 now2 project tier2 status block f' ≡ ok (none, f')
    announce_valid-twice status (Json.obj block) f f' e whole h =
        let (valid, wrote) =
          guarded (is_valid_batch_block (Json.obj block))
            (announce_block print digest day fresh now project tier status block f) f f' e h in
        rw valid (announce_block-twice status block f f' e whole wrote)
    announce_valid-twice status _ f f' e whole h = let bad : false ≡ true = ap is_written h in cc

    -- A stuck batch that was announced, on a log that ended in a whole line, is not announced again on the
    -- same day, whatever tier the second call gives: it finds the first event in the log, returns nothing
    -- and leaves the log as it is.
    pub announce-twice :
        (status : Json) (f f' : EventFile) (e : Fields)
        → f.torn ≡ none
        → announce_batch_expired print digest day fresh now project tier status f ≡ ok (some e, f')
        → announce_batch_expired print digest day fresh2 now2 project tier2 status f'
          ≡ ok (none, f')
    unfolding announce_batch_expired
    announce-twice (Json.obj status) f f' e whole h =
        let (reconciled, wrote) =
          guarded (is_text "RECONCILED" (get "value" status))
            (announce_valid print digest day fresh now project tier status (block_of status) f) f f'
            e h in
        rw reconciled (announce_valid-twice status (block_of status) f f' e whole wrote)
    announce-twice _ f f' e whole h = let bad : false ≡ true = ap is_written h in cc
