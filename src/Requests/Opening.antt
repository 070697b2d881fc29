-- ===== src/Requests/Opening.antt =====
-- Opening a request twice, in src/trade_alerts/error_request_queue.py.
use mathlib.Core.Path.{subst}
use trade_alerts.Base.{
  ◌≡◌, refl, sym, ap, ◌∙◌, Bool, true, false, ◌||◌, not, Option, none, some, List, [], ◌∷◌, ◌++◌,
  String, ◌==◌, any, select, first, map, arith, select-append, map-append, eq_refl,
}
use trade_alerts.Result.{ok, ◌>>=◌, ◌>>◌, raise_if, bind-eq-ok, ok-injective, fold_results-snoc}
use trade_alerts.Jsonl.{append_record}
use trade_alerts.Json.{Json, str, Fields, get, find, is_text, is_canonical, is_canonical_fields}
use trade_alerts.EventLog.{EventFile, append_jsonl, read_jsonl}
use trade_alerts.EventLog.Appending.{read_jsonl-append}
use trade_alerts.Requests.Checks.{
  from_log, request_fingerprint, require_requestable_tier, require_queue_project,
  require_queue_code, queue_mapping,
}
use trade_alerts.Requests.Reading.{
  Found, is_key, is_open, add_request, add_outcome, requests, terminated, insert_sorted,
  sort_requests, open_requests, outstanding_error_requests,
}
use trade_alerts.Requests.Queue.{
  OpenArgs, request_line, has_fingerprint, place, prepare, open_error_request,
}

-- What the ordering of the queue does to a search in it.
module _ (print : Json → String) (p : Fields → Bool) where
  any-insert_sorted :
      (r : Fields) (rs : List Fields) → any p (insert_sorted print r rs) ≡ (p r || any p rs)
  unfolding insert_sorted
  any-insert_sorted r [] = refl
  any-insert_sorted r (s ∷ rs) = ground (arith, any-insert_sorted r rs)

  pub any-sort_requests : (rs : List Fields) → any p (sort_requests print rs) ≡ any p rs
  unfolding sort_requests
  any-sort_requests [] = refl
  any-sort_requests (r ∷ rs) =
      any-insert_sorted r (sort_requests print rs) ∙ ap (λ b. p r || b) (any-sort_requests rs)

  first-insert_sorted :
      (r : Fields) (rs : List Fields)
      → p r ≡ false
      → first p (insert_sorted print r rs) ≡ first p rs
  unfolding insert_sorted
  first-insert_sorted r [] h = rw h refl
  first-insert_sorted r (s ∷ rs) h = ground (arith, first-insert_sorted r rs)

  first-sort_requests :
      (rs : List Fields) (r : Fields)
      → any p rs ≡ false
      → p r ≡ true
      → first p (sort_requests print (rs ++ r ∷ [])) ≡ some r
  unfolding sort_requests insert_sorted
  first-sort_requests [] r absent h = rw h refl
  first-sort_requests (s ∷ rs) r absent h =
      first-insert_sorted s (sort_requests print (rs ++ r ∷ [])) (ground arith)
      ∙ first-sort_requests rs r (ground arith) h

  pub any-first : (rs : List Fields) → first p rs ≡ none → any p rs ≡ false
  any-first [] h = refl
  any-first (r ∷ rs) h = ground (arith, any-first rs)

-- What is in a request that passed the checks.
pub record IsPrepared (digest : Fields → String) (fresh : String) (a : OpenArgs)
    (q : String × Fields) : Type 0 where
  pub fingerprint : request_fingerprint digest a.project a.code a.evidence ≡ ok q.0
  pub id : get "request_id" q.1 ≡ str fresh
  pub shows : has_fingerprint q.0 q.1 ≡ true
  pub canonical : is_canonical_fields q.1 ≡ true

pub last_check :
    {A : Type 0} {E : Type 0} (b : Bool) (e : E) (x : A) {y : A}
    → (do raise_if (not b) e; ok x) ≡ ok y
    → (b ≡ true) × (x ≡ y)
last_check true e x h = (refl, ok-injective h)
last_check false e x h = cc

module _ (digest : Fields → String) (print : Json → String) where
  pub prepare-IsPrepared :
      (fresh now : String) (a : OpenArgs) {q : String × Fields}
      → prepare digest print fresh now a ≡ ok q
      → IsPrepared digest fresh a q
  unfolding prepare get find is_text
  prepare-IsPrepared fresh now a {q} h =
      let (fp, printed, h1) =
        bind-eq-ok (request_fingerprint digest a.project a.code a.evidence) _ h in
      let (tier, t, h2) = bind-eq-ok (require_requestable_tier a.risk_tier) _ h1 in
      let (project, p, h3) = bind-eq-ok (require_queue_project a.project) _ h2 in
      let (code, c, h4) = bind-eq-ok (require_queue_code a.code) _ h3 in
      let (evidence, e, h5) = bind-eq-ok (queue_mapping a.evidence) _ h4 in
      let (details, d, h6) = bind-eq-ok (queue_mapping a.details) _ h5 in
      let (measurements, m, h7) = bind-eq-ok (queue_mapping a.measurements) _ h6 in
      let (canonical, same) = last_check _ _ _ h7 in
      subst (IsPrepared digest fresh a) same
        (record { fingerprint = printed; id = refl; shows = eq_refl fp; canonical = canonical })

-- The file reads, and no request and no outcome in it has the id.
pub record IsNewId (id : String) (f : EventFile) : Type 0 where
  pub records : List Fields
  pub found : Found
  pub closed : List String
  pub read : read_jsonl f ≡ ok records
  pub requested : requests records ≡ ok found
  pub ended : terminated records ≡ ok closed
  pub filled : (id == "") ≡ false
  pub not_requested : any (is_key id) found ≡ false
  pub not_ended : any (λ c. c == id) closed ≡ false

module _ (id : String) (r : Fields) (same_id : get "request_id" r ≡ str id) where
  add_request-request_line :
      (found : Found)
      → (id == "") ≡ false
      → any (is_key id) found ≡ false
      → add_request found (request_line r) ≡ ok (found ++ (id, r) ∷ [])
  unfolding add_request is_text get find
  add_request-request_line found filled new = rw (same_id, filled, new) refl

  add_outcome-request_line :
      (closed : List String) → add_outcome closed (request_line r) ≡ ok closed
  unfolding add_outcome is_text get find
  add_outcome-request_line closed = refl

pub appended :
    (r : Fields) (f f' : EventFile)
    → from_log (append_jsonl true r f) ≡ ok f'
    → f' ≡ append_record r f
unfolding append_jsonl
appended r f f' h = ground arith

append_jsonl-canonical :
    (r : Fields) (f : EventFile)
    → is_canonical_fields r ≡ true
    → append_jsonl true (request_line r) f ≡ ok (append_record (request_line r) f)
unfolding append_jsonl is_canonical
append_jsonl-canonical r f h = rw h refl

module _ (print : Json → String) where
  outstanding-new :
      (id : String) (f : EventFile) (n : IsNewId id f)
      → outstanding_error_requests print f ≡ ok (open_requests print n.found n.closed)
  unfolding outstanding_error_requests
  outstanding-new id f n = rw (n.read, n.requested, n.ended) refl

  -- the requests once one with a new id is added
  outstanding-opened :
      (id : String) (r : Fields) (f : EventFile) (n : IsNewId id f)
      → get "request_id" r ≡ str id
      → f.torn ≡ none
      → outstanding_error_requests print (append_record (request_line r) f)
        ≡ ok (open_requests print (n.found ++ (id, r) ∷ []) n.closed)
  unfolding outstanding_error_requests
  outstanding-opened id r f n same_id whole =
      rw
        (
          read_jsonl-append (request_line r) f whole,
          n.read,
          fold_results-snoc add_request [] n.records (request_line r),
          n.requested,
          add_request-request_line id r same_id n.found n.filled n.not_requested,
          fold_results-snoc add_outcome [] n.records (request_line r),
          n.ended,
          add_outcome-request_line id r same_id n.closed,
        )
        refl

  found_again :
      (p : Fields → Bool) (id : String) (r : Fields) (f : EventFile) (n : IsNewId id f)
      → first p (open_requests print n.found n.closed) ≡ none
      → p r ≡ true
      → first p (open_requests print (n.found ++ (id, r) ∷ []) n.closed) ≡ some r
  found_again p id r f n absent h =
      let none_before : any p (map (λ e. e.1) (select (is_open n.closed) n.found)) ≡ false =
        sym (any-sort_requests print p _) ∙ any-first print p _ absent in
      rw (select-append (is_open n.closed) n.found ((id, r) ∷ []), n.not_ended, map-append)
        (first-sort_requests print p (map (λ e. e.1) (select (is_open n.closed) n.found)) r
          none_before h)

module _ (digest : Fields → String) (print : Json → String) where
  -- The second search, by how the first one ended.
  place-again :
      (fresh : String) (a : OpenArgs) (q : String × Fields) (x : Fields) (f : EventFile)
      (n : IsNewId fresh f) (o : Option Fields) {r : Fields} {f' : EventFile}
      → IsPrepared digest fresh a q
      → f.torn ≡ none
      → first (has_fingerprint q.0) (open_requests print n.found n.closed) ≡ o
      → place q.0 q.1 o f ≡ ok (r, f')
      → (do
        existing ← outstanding_error_requests print f'
        place q.0 x (first (has_fingerprint q.0) existing) f')
        ≡ ok (r, f')
  place-again fresh a q x f n (some e) {r} {f'} prepared whole search h =
      subst
        (λ w.
          (do
            existing ← outstanding_error_requests print w.1
            place q.0 x (first (has_fingerprint q.0) existing) w.1)
          ≡ ok w)
        (ok-injective h) (rw (outstanding-new print fresh f n, search) refl)
  place-again fresh a q x f n none {r} {f'} prepared whole search h =
      subst
        (λ w.
          (do
            existing ← outstanding_error_requests print w.1
            place q.0 x (first (has_fingerprint q.0) existing) w.1)
          ≡ ok w)
        (ok-injective (rw (append_jsonl-canonical q.1 f prepared.canonical) at h))
        (rw
          (
            outstanding-opened print fresh q.1 f n prepared.id whole,
            found_again print (has_fingerprint q.0) fresh q.1 f n search prepared.shows,
          )
          refl)

  -- Opening a request again under the same fingerprint returns the request that the
  -- first call returned and writes nothing, if the second call's arguments pass its checks, the
  -- first call's id was new and the queue ended in a whole line.
  pub open_again :
      (fresh now fresh' now' : String) (a a' : OpenArgs) (f : EventFile) {q' : String × Fields}
      {r : Fields} {f' : EventFile}
      → IsNewId fresh f
      → f.torn ≡ none
      → request_fingerprint digest a.project a.code a.evidence
        ≡ request_fingerprint digest a'.project a'.code a'.evidence
      → prepare digest print fresh' now' a' ≡ ok q'
      → open_error_request digest print fresh now a f ≡ ok (r, f')
      → open_error_request digest print fresh' now' a' f' ≡ ok (r, f')
  unfolding open_error_request
  open_again fresh now fresh' now' a a' f {q'} {r} {f'} n whole same again h =
      let (q, done, h1) = bind-eq-ok (prepare digest print fresh now a) _ h in
      let prepared = prepare-IsPrepared digest print fresh now a done in
      let prepared' = prepare-IsPrepared digest print fresh' now' a' again in
      let same_print : q.0 ≡ q'.0 =
        ok-injective (sym prepared.fingerprint ∙ same ∙ prepared'.fingerprint) in
      let placed : place q.0 q.1
            (first (has_fingerprint q.0) (open_requests print n.found n.closed)) f
          ≡ ok (r, f') =
        rw (outstanding-new print fresh f n) at h1 in
      rw (again, sym same_print) (place-again fresh a q q'.1 f n _ prepared whole refl placed)
