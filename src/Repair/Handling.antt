-- ===== src/Repair/Handling.antt =====
-- What one candidate does to the ledger, in src/trade_alerts/repair_runner.py.
use mathlib.Core.Path.{subst}
use trade_alerts.Base.{
  ℕ, ◌≡◌, refl, sym, ◌∙◌, ◌⊎◌, inl, inr, Bool, true, false, Option, none, some, List, String,
  length, nat_eq, Bool-cases,
}
use trade_alerts.Result.{Result, ok, raised, ok-injective}
use trade_alerts.Json.{Json, Fields, get}
use trade_alerts.Channels.Text.{Text}
use trade_alerts.LedgerFile.Batch.{append_lines_atomically}
use trade_alerts.Repair.World.{RunError, World, Done, Step, settled, return, Identity}
use trade_alerts.Repair.Writing.{
  Fetched, fetched, position_open, fetch_failed, Verdict, halt, unmappable, writable, Assessment,
  Setting, land, after_landing, land_and_report, persisted, write, symbol_of,
}
use trade_alerts.Repair.Candidates.{attempted, act_on, assessed, handle_fetched, handle}
use trade_alerts.Repair.Writes.{
  Quiet, settled-Quiet, note-Quiet, fail-Quiet, block-Quiet, after_landing-Quiet,
}

module _ (s : Setting) where
  -- The batch that was staged for this trade is appended, on evidence that was fetched and assessed.
  pub record Wrote (ledger : List Fields) (before after : Text) (trade_id : String) : Type 0 where
    pub evidence : Fields
    pub lines : List Text
    pub count : ℕ
    pub found : s.adapter.fetch_evidence trade_id ≡ fetched evidence
    pub assessment : Assessment
    pub came : s.adapter.assess evidence ledger ≡ ok assessment
    pub may_write : assessment.verdict ≡ writable
    pub staged : s.adapter.stage before evidence ≡ ok (lines, count)
    pub whole : nat_eq (length lines) count ≡ true
    pub appended :
        after
        ≡ (append_lines_atomically s.runtime.is_space s.runtime.loads s.others lines before).file

  -- What the staged lines did to the ledger.
  abbrev Lands : Result String (List Text × ℕ) → Text → Text → Type 0
  Lands r before after =
      (after ≡ before)
      ⊎ ((lines : List Text) × (count : ℕ) × (r ≡ ok (lines, count))
          × (nat_eq (length lines) count ≡ true)
          × (after
              ≡ (append_lines_atomically s.runtime.is_space s.runtime.loads s.others lines
                  before).file))

  land-Lands :
      (r : Result String (List Text × ℕ)) (w : World) → Lands r w.ledger (land s r w).world.ledger
  land-Lands (raised e) w = inl refl
  land-Lands (ok (lines, count)) w = elim (Bool-cases (nat_eq (length lines) count)) [
    | inl h ↦ inr (lines, count, refl, h, rw h refl)
    | inr h ↦ inl (rw h refl)
  ]

  land_and_report-Lands :
      (i : Identity) (path : String) (evidence : Fields) (request : Option Fields) (w : World)
      → Lands
          (s.adapter.stage w.ledger evidence)
          w.ledger
          (land_and_report s i path evidence request w).world.ledger
  unfolding land_and_report
  land_and_report-Lands i path evidence request w =
      subst (Lands (s.adapter.stage w.ledger evidence) w.ledger)
        (sym (
          settled-Quiet (after_landing s i path evidence request)
            (land s (s.adapter.stage w.ledger evidence) w).world
            (land s (s.adapter.stage w.ledger evidence) w).result
            (after_landing-Quiet s i path evidence request)))
        (land-Lands (s.adapter.stage w.ledger evidence) w)

  write-Lands :
      (i : Identity) (evidence : Fields) (request : Option Fields) (w : World)
      → Lands
          (s.adapter.stage w.ledger evidence)
          w.ledger
          (write s i evidence request w).world.ledger
  unfolding write
  write-Lands i evidence request w =
      from (s.adapter.persist (s.adapter.evidence_path i.trade_id) evidence)
    where
      from :
          (o : Option String)
          → Lands
              (s.adapter.stage w.ledger evidence)
              w.ledger
              (persisted s i (s.adapter.evidence_path i.trade_id) evidence request o w).world.ledger
      from none = land_and_report-Lands i (s.adapter.evidence_path i.trade_id) evidence request w
      from (some e) = inl ((fail-Quiet s _ _ _ i _ _ request).same w)

  settled-return :
      (b : Bool) (w : World) (r : Result RunError (Unit {0}))
      → (settled (λ _. return b) w r).world.ledger ≡ w.ledger
  settled-return b w (ok _) = refl
  settled-return b w (raised e) = refl

  settled_answer :
      (b c : Bool) (w : World) (r : Result RunError (Unit {0}))
      → (settled (λ _. return b) w r).result ≡ ok c
      → c ≡ b
  settled_answer b c w (ok _) h = sym (ok-injective h)
  settled_answer b c w (raised e) h = cc

  -- What one candidate did: nothing to the ledger, or the one write, and then the call says so.
  pub data Handled (ledger : List Fields) (trade_id : String) (w : World) (d : Done Bool)
      : Type 0 where
    untouched : d.world.ledger ≡ w.ledger → Handled ledger trade_id w d
    wrote :
        Wrote ledger w.ledger d.world.ledger trade_id
        → ((b : Bool) → d.result ≡ ok b → b ≡ true)
        → Handled ledger trade_id w d

  attempted-Handled :
      (ledger : List Fields) (trade_id : String) (b : Bool) (m : Step (Unit {0})) (w : World)
      → Quiet m
      → Handled ledger trade_id w (attempted s b m w)
  attempted-Handled ledger trade_id b m w h =
      untouched (settled-return b (m w).world (m w).result ∙ h.same w)

  written-Handled :
      (ledger : List Fields) (i : Identity) (evidence : Fields) (request : Option Fields)
      (w : World) (a : Assessment)
      → s.adapter.fetch_evidence i.trade_id ≡ fetched evidence
      → s.adapter.assess evidence ledger ≡ ok a
      → a.verdict ≡ writable
      → Lands
          (s.adapter.stage w.ledger evidence)
          w.ledger
          (write s i evidence request w).world.ledger
      → Handled ledger i.trade_id w (attempted s true (write s i evidence request) w)
  written-Handled ledger i evidence request w a found came may_write (inl same) =
      let d = write s i evidence request w in
      untouched (settled-return true d.world d.result ∙ same)
  written-Handled ledger i evidence request w a found came may_write
        (inr (lines, count, staged, whole, appended)) =
      let d = write s i evidence request w in
      wrote
        (record {
          evidence = evidence;
          lines = lines;
          count = count;
          found = found;
          assessment = a;
          came = came;
          may_write = may_write;
          staged = staged;
          whole = whole;
          appended = settled-return true d.world d.result ∙ appended;
        })
        (λ b h. settled_answer true b d.world d.result h)

  act_on-Handled :
      (ledger : List Fields) (i : Identity) (evidence : Fields) (request : Option Fields)
      (w : World) (a : Assessment)
      → s.adapter.fetch_evidence i.trade_id ≡ fetched evidence
      → s.adapter.assess evidence ledger ≡ ok a
      → Handled ledger i.trade_id w (act_on s i evidence request a w)
  act_on-Handled ledger i evidence request w a found came = by_verdict a.verdict refl
    where
      by_verdict :
          (v : Verdict)
          → a.verdict ≡ v
          → Handled ledger i.trade_id w (
              act_on s i evidence request
                (record { verdict = v; reasons = a.reasons; checks = a.checks })
                w)
      by_verdict halt h =
          attempted-Handled ledger i.trade_id false _ w (block-Quiet s _ i _ _ _ request)
      by_verdict unmappable h =
          attempted-Handled ledger i.trade_id false _ w (fail-Quiet s _ _ _ i _ _ request)
      by_verdict writable h =
          written-Handled ledger i evidence request w a found came h
            (write-Lands i evidence request w)

  assessed-Handled :
      (ledger : List Fields) (i : Identity) (evidence : Fields) (request : Option Fields)
      (w : World) (r : Result String Assessment)
      → s.adapter.fetch_evidence i.trade_id ≡ fetched evidence
      → s.adapter.assess evidence ledger ≡ r
      → Handled ledger i.trade_id w (assessed s i evidence request r w)
  assessed-Handled ledger i evidence request w (raised x) found came = untouched refl
  assessed-Handled ledger i evidence request w (ok a) found came =
      act_on-Handled ledger i evidence request w a found came

  fetched-Handled :
      (trade_id : String) (symbol : Json) (ledger : List Fields) (request : Option Fields)
      (w : World) (r : Fetched)
      → s.adapter.fetch_evidence trade_id ≡ r
      → Handled ledger trade_id w (handle_fetched s trade_id symbol ledger request r w)
  fetched-Handled trade_id symbol ledger request w (position_open why) e =
      attempted-Handled ledger trade_id false _ w (note-Quiet _)
  fetched-Handled trade_id symbol ledger request w (fetch_failed why) e =
      attempted-Handled ledger trade_id false _ w (fail-Quiet s _ _ _ _ _ _ request)
  fetched-Handled trade_id symbol ledger request w (fetched evidence) e =
      assessed-Handled ledger
        (record {
          incident = some (get "incident_id" evidence);
          trade_id = trade_id;
          symbol = symbol;
        })
        evidence request w (s.adapter.assess evidence ledger) e refl

  pub handle-Handled :
      (trade_id : String) (ledger : List Fields) (request : Option Fields) (w : World)
      → Handled ledger trade_id w (handle s trade_id ledger request w)
  unfolding handle
  handle-Handled trade_id ledger request w =
      fetched-Handled trade_id (symbol_of s ledger trade_id) ledger request w
        (s.adapter.fetch_evidence trade_id) refl
