-- ===== src/Requests/Opened.antt =====
-- What `open_error_request` of src/trade_alerts/error_request_queue.py returns and writes.
use mathlib.Core.Path.{subst}
use trade_alerts.Base.{
  ◌≡◌, refl, sym, ap, ◌∙◌, ◌⊎◌, inl, inr, true, false, Option, none, some, List, [], ◌∷◌, String,
  any, first, arith, eq_refl,
}
use trade_alerts.Result.{ok, bind-eq-ok, ok-injective}
use trade_alerts.Jsonl.{append_record}
use trade_alerts.Json.{Json, str, Fields, get, find, is_text}
use trade_alerts.EventLog.{EventFile, append_jsonl, is_one_of, projects}
use trade_alerts.Requests.Checks.{
  from_log, request_fingerprint, require_requestable_tier, require_queue_project,
  require_queue_code, queue_mapping,
}
use trade_alerts.Requests.Reading.{outstanding_error_requests}
use trade_alerts.Requests.Queue.{
  OpenArgs, request_line, has_fingerprint, place, prepare, open_error_request,
}
use trade_alerts.Requests.Opening.{appended, any-first, last_check}

abbrev pub requestable : List String
requestable = "R2" ∷ "R3" ∷ []

-- A request that may stand in the queue: a known project, a tier that opens requests, and the
-- fingerprint of the call's project, code and evidence.
pub record IsRequest (digest : Fields → String) (fresh : String) (a : OpenArgs)
    (fingerprint : String) (r : Fields) : Type 0 where
  pub printed : request_fingerprint digest a.project a.code a.evidence ≡ ok fingerprint
  pub shows : has_fingerprint fingerprint r ≡ true
  pub id : get "request_id" r ≡ str fresh
  pub project : is_one_of projects (get "project" r) ≡ true
  pub tier : is_one_of requestable (get "risk_tier" r) ≡ true

tier-eq-ok : (v t : Json) → require_requestable_tier v ≡ ok t → is_one_of requestable t ≡ true
unfolding require_requestable_tier
tier-eq-ok v t h = ground arith

project-eq-ok : (v p : Json) → require_queue_project v ≡ ok p → is_one_of projects p ≡ true
unfolding require_queue_project
project-eq-ok v p h = ground arith

module _ (digest : Fields → String) (print : Json → String) where
  prepare-IsRequest :
      (fresh now : String) (a : OpenArgs) {q : String × Fields}
      → prepare digest print fresh now a ≡ ok q
      → IsRequest digest fresh a q.0 q.1
  unfolding prepare get find is_text
  prepare-IsRequest fresh now a {q} h =
      let (fp, printed, h1) =
        bind-eq-ok (request_fingerprint digest a.project a.code a.evidence) _ h in
      let (tier, t, h2) = bind-eq-ok (require_requestable_tier a.risk_tier) _ h1 in
      let (project, p, h3) = bind-eq-ok (require_queue_project a.project) _ h2 in
      let (code, c, h4) = bind-eq-ok (require_queue_code a.code) _ h3 in
      let (evidence, e, h5) = bind-eq-ok (queue_mapping a.evidence) _ h4 in
      let (details, d, h6) = bind-eq-ok (queue_mapping a.details) _ h5 in
      let (measurements, m, h7) = bind-eq-ok (queue_mapping a.measurements) _ h6 in
      let (canonical, same) = last_check _ _ _ h7 in
      subst (λ w. IsRequest digest fresh a w.0 w.1) same
        (record {
          printed = printed;
          shows = eq_refl fp;
          id = refl;
          project = project-eq-ok a.project project p;
          tier = tier-eq-ok a.risk_tier tier t;
        })

  -- A request of the queue with the same fingerprint, and nothing written.
  abbrev pub Returned : OpenArgs → List Fields → EventFile → Fields → EventFile → Type 0
  Returned a queue f r f' =
      (fp : String) × (request_fingerprint digest a.project a.code a.evidence ≡ ok fp)
      × (first (has_fingerprint fp) queue ≡ some r)
      × (f' ≡ f)

  -- A new request, written at the end; no open request has its fingerprint.
  abbrev pub Added : String → OpenArgs → List Fields → EventFile → Fields → EventFile → Type 0
  Added fresh a queue f r f' =
      (fp : String) × IsRequest digest fresh a fp r
      × (any (has_fingerprint fp) queue ≡ false)
      × (f' ≡ append_record (request_line r) f)

  placed :
      (fresh : String) (a : OpenArgs) (q : String × Fields) (queue : List Fields) (f : EventFile)
      (o : Option Fields) {r : Fields} {f' : EventFile}
      → IsRequest digest fresh a q.0 q.1
      → first (has_fingerprint q.0) queue ≡ o
      → place q.0 q.1 o f ≡ ok (r, f')
      → Returned a queue f r f' ⊎ Added fresh a queue f r f'
  placed fresh a q queue f (some e) {r} {f'} k search h =
      let same : (e, f) ≡ (r, f') = ok-injective h in
      inl (q.0, k.printed, search ∙ ap (λ w. some w.0) same, sym (ap (λ w. w.1) same))
  placed fresh a q queue f none {r} {f'} k search h =
      let (g, wrote, last) = bind-eq-ok (from_log (append_jsonl true (request_line q.1) f)) _ h in
      let same : (q.1, g) ≡ (r, f') = ok-injective last in
      inr (
        q.0,
        subst (λ w. IsRequest digest fresh a q.0 w.0) same k,
        any-first print (has_fingerprint q.0) queue search,
        sym (ap (λ w. w.1) same)
            ∙ appended (request_line q.1) f g wrote
            ∙ ap (λ w. append_record (request_line w.0) f) same,
      )

  -- A call that returns found the open requests, and gives either one of them with its fingerprint,
  -- writing nothing, or a new one that it wrote at the end: that has a known project and the tier R2
  -- or R3, and no open request had its fingerprint.
  pub open_error_request-cases :
      (fresh now : String) (a : OpenArgs) (f : EventFile) {r : Fields} {f' : EventFile}
      → open_error_request digest print fresh now a f ≡ ok (r, f')
      → (queue : List Fields) × (outstanding_error_requests print f ≡ ok queue)
        × (Returned a queue f r f' ⊎ Added fresh a queue f r f')
  unfolding open_error_request
  open_error_request-cases fresh now a f {r} {f'} h =
      let (q, done, h1) = bind-eq-ok (prepare digest print fresh now a) _ h in
      let (queue, read, h2) = bind-eq-ok (outstanding_error_requests print f) _ h1 in
      (queue, read, placed fresh a q queue f _ (prepare-IsRequest fresh now a done) refl h2)
