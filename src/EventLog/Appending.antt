-- ===== src/EventLog/Appending.antt =====
-- What `append_fleet_event` of src/trade_alerts/fleet_event_log.py leaves in the log.
use mathlib.Core.Path.{subst}
use trade_alerts.Base.{
  sym, ◌∙◌, ◌≡◌, ◌≢◌, ◌⊎◌, refl, ap, Bool, true, false, none, some, List, [], ◌∷◌, ◌++◌, String,
  select, select-append, arith,
}
use trade_alerts.Result.{
  Result, ok, ◌>>=◌, bind-eq-ok, ok-injective, Ensures, Ensures-bind, Ensures-ok,
}
use trade_alerts.Jsonl.{
  Line, is_blank, read_records, append_record, read_records-append_record, append_record-torn,
}
use trade_alerts.Json.{Json, null, Fields, get, find, is_text, is_canonical_fields, is_filled_text}
use trade_alerts.EventLog.Catalog.{require_risk_tier-eq-ok}
use trade_alerts.EventLog.{
  LogError, EventFile, EventArgs, projects, risk_tiers, is_one_of, require_project,
  require_bare_code, event_record, text_has_dot, require_mapping, append_jsonl, read_jsonl,
  event_fields, append_fleet_event, is_fleet_event, read_fleet_events,
}

pub read_jsonl-append :
    (r : Fields) (f : EventFile)
    → f.torn ≡ none
    → read_jsonl (append_record r f) ≡ (do rs ← read_jsonl f; ok (rs ++ r ∷ []))
unfolding read_jsonl
read_jsonl-append r f t = rw (read_records-append_record r f t, read_jsonl) (ground arith)

read_jsonl-eq-ok :
    (f : EventFile) (rs : List Fields) → read_jsonl f ≡ ok rs → read_records f ≡ ok rs
unfolding read_jsonl
read_jsonl-eq-ok f rs h = ground arith

-- What the log holds: a known project, a bare code, and a tier of the catalog or none.
pub record IsEvent (r : Fields) : Type 0 where
  pub kind : is_fleet_event r ≡ true
  pub project : is_one_of projects (get "project" r) ≡ true
  pub code : is_filled_text (get "code" r) ≡ true
  pub bare : text_has_dot (get "code" r) ≡ false
  pub tier : (get "risk_tier" r ≡ null) ⊎ (is_one_of risk_tiers (get "risk_tier" r) ≡ true)
  pub canonical : is_canonical_fields r ≡ true

require_project-eq-ok : (v p : Json) → require_project v ≡ ok p → is_one_of projects p ≡ true
unfolding require_project
require_project-eq-ok v p h = ground arith

require_bare_code-eq-ok :
    (v c : Json) → require_bare_code v ≡ ok c → (is_filled_text c ≡ true) × (text_has_dot c ≡ false)
unfolding require_bare_code
require_bare_code-eq-ok v c h = ground arith

abbrev IsCheckedEvent : Fields → Type 0
IsCheckedEvent r = is_canonical_fields r ≡ true → IsEvent r

event_record-IsEvent :
    (fresh now : String) (a : EventArgs) (project code tier : Json)
    (evidence details measurements : Fields)
    → is_one_of projects project ≡ true
    → (is_filled_text code ≡ true) × (text_has_dot code ≡ false)
    → (tier ≡ null) ⊎ (is_one_of risk_tiers tier ≡ true)
    → IsCheckedEvent (event_record fresh now a project code tier evidence details measurements)
unfolding get find is_text
event_record-IsEvent fresh now a project code tier evidence details measurements p c t canonical =
    record { kind = refl; project = p; code = c.0; bare = c.1; tier = t; canonical = canonical }

abbrev Anything : Fields → Type 0
Anything _ = Unit

anything : (r : Result LogError Fields) → Ensures Anything r
anything r = record { returns = λ _ _. tt }

event_fields-IsEvent :
    (fresh now : String) (a : EventArgs) → Ensures IsCheckedEvent (event_fields fresh now a)
unfolding event_fields
event_fields-IsEvent fresh now a =
    Ensures-bind _ _ _ _ (record { returns = require_project-eq-ok a.project })
      λ project p.
        Ensures-bind _ _ _ _ (record { returns = require_bare_code-eq-ok a.code })
          λ code c.
            Ensures-bind (λ t. (t ≡ null) ⊎ (is_one_of risk_tiers t ≡ true)) _ _ _
              (record { returns = λ t e. (require_risk_tier-eq-ok a.risk_tier t e).1 })
              λ tier t. Ensures-bind _ _ _ _ (anything (require_mapping a.evidence)) λ evidence _.
                Ensures-bind _ _ _ _ (anything (require_mapping a.details)) λ details _.
                  Ensures-bind _ _ _ _ (anything (require_mapping a.measurements)) λ measurements _.
                    Ensures-ok IsCheckedEvent _ (
                      event_record-IsEvent fresh now a project code tier evidence details
                        measurements p c t)

append_jsonl-eq-ok :
    (locked : Bool) (r : Fields) (f : EventFile) {f' : EventFile}
    → append_jsonl locked r f ≡ ok f'
    → (is_canonical_fields r ≡ true) × (append_record r f ≡ f')
unfolding append_jsonl
append_jsonl-eq-ok locked r f h = ground arith

-- A call that returns wrote the event that it returns at the end of the file and nothing else, and the
-- event has a known project, a bare code, a tier of the catalog or none, and canonical content.
pub append_fleet_event-IsEvent :
    (locked : Bool) (fresh now : String) (a : EventArgs) (f : EventFile) {r : Fields}
    {f' : EventFile}
    → append_fleet_event locked fresh now a f ≡ ok (r, f')
    → IsEvent r × (f' ≡ append_record r f)
unfolding append_fleet_event
append_fleet_event-IsEvent locked fresh now a f {r} {f'} h =
    let (x, made, h1) = bind-eq-ok (event_fields fresh now a) _ h in
    let (f'', wrote, h2) = bind-eq-ok (append_jsonl locked x f) _ h1 in
    let (canonical, same) = append_jsonl-eq-ok locked x f wrote in
    let pair : (x, f'') ≡ (r, f') = ok-injective h2 in
    let event : x ≡ r = ap (λ p. p.0) pair in
    let file : f'' ≡ f' = ap (λ p. p.1) pair in
    (
      subst IsEvent event ((event_fields-IsEvent fresh now a).returns x made canonical),
      sym file ∙ sym same ∙ ap (λ e. append_record e f) event,
    )

-- What was written is read back last, if the file ended in a whole line.
pub read_fleet_events-append :
    (locked : Bool) (fresh now : String) (a : EventArgs) (f : EventFile) {r : Fields}
    {f' : EventFile} {before : List Fields}
    → f.torn ≡ none
    → read_fleet_events f ≡ ok before
    → append_fleet_event locked fresh now a f ≡ ok (r, f')
    → read_fleet_events f' ≡ ok (before ++ r ∷ [])
unfolding read_fleet_events
read_fleet_events-append locked fresh now a f {r} {f'} {before} t h e =
    let (event, wrote) = append_fleet_event-IsEvent locked fresh now a f e in
    let (rs, read, selected) = bind-eq-ok (read_jsonl f) _ h in
    rw (wrote, read_jsonl-append r f t, read)
      (ap ok (
        select-append is_fleet_event rs (r ∷ [])
        ∙ ap (λ x. select is_fleet_event rs ++ x) (rw event.kind refl)
        ∙ ap (λ x. x ++ r ∷ []) (ok-injective selected)))

-- Behind a torn last line, if it is not white space that `json.loads` skips, a call that returns reports
-- the event as written, but the event is lost: no reader of the log returns any more.
pub append_fleet_event_torn :
    (locked : Bool) (fresh now : String) (a : EventArgs) (f : EventFile) {l : Line Fields}
    {r : Fields} {f' : EventFile}
    → f.torn ≡ some l
    → is_blank l ≡ false
    → append_fleet_event locked fresh now a f ≡ ok (r, f')
    → (events : List Fields) → read_fleet_events f' ≢ ok events
unfolding read_fleet_events
append_fleet_event_torn locked fresh now a f {l} {r} {f'} t b e events h =
    let (event, wrote) = append_fleet_event-IsEvent locked fresh now a f e in
    let (rs, read, selected) = bind-eq-ok (read_jsonl f') _ h in
    append_record-torn r f l rs t b
      (subst (λ g. read_records g ≡ ok rs) wrote (read_jsonl-eq-ok f' rs read))
