-- ===== src/Requests/Keys.antt =====
-- The dict of the requests in src/trade_alerts/error_request_queue.py has each under its own id.
use trade_alerts.Base.{
  ◌≡◌, refl, Bool, true, false, ◌&&◌, not, List, [], ◌∷◌, String, ◌==◌, any, all, select, map,
  arith, eq_refl, eq_iff, Bool-cases, inl, inr, all-append,
}
use trade_alerts.Result.{ok, fold_results-keeps}
use trade_alerts.Json.{Json, str, obj, Fields, get, is_text}
use trade_alerts.Requests.Reading.{Found, is_open, insert_request, add_body, add_request, requests}

-- The key of an entry is the id that stands in its request.
abbrev pub keyed : String × Fields → Bool
keyed e = is_text e.0 (get "request_id" e.1) && not (e.0 == "")

insert_request-keyed :
    (found : Found) (r : Fields) (v : Json) {found' : Found}
    → get "request_id" r ≡ v
    → insert_request found r v ≡ ok found'
    → all keyed found ≡ true
    → all keyed found' ≡ true
unfolding is_text
insert_request-keyed found r (str id) g h k =
    ground (arith, all-append keyed found ((id, r) ∷ []), eq_refl id)
insert_request-keyed found r _ g h k = cc

add_body-keyed :
    (found : Found) (v : Json) {found' : Found}
    → add_body found v ≡ ok found'
    → all keyed found ≡ true
    → all keyed found' ≡ true
add_body-keyed found (obj r) h k = insert_request-keyed found r (get "request_id" r) refl h k
add_body-keyed found _ h k = cc

add_request-keyed :
    (found : Found) (r : Fields) (found' : Found)
    → add_request found r ≡ ok found'
    → all keyed found ≡ true
    → all keyed found' ≡ true
unfolding add_request
add_request-keyed found r found' h k =
    ground (arith, add_body-keyed found (get "request" r) {found' = found'})

pub requests-keyed :
    (rs : List Fields) {found : Found} → requests rs ≡ ok found → all keyed found ≡ true
requests-keyed rs h =
    fold_results-keeps add_request (λ found. all keyed found ≡ true) add_request-keyed [] rs h refl

abbrev pub has_request_id : String → Fields → Bool
has_request_id id r = is_text id (get "request_id" r)

apart : (s t : String) (v : Json) → (s == t) ≡ false → is_text t v ≡ true → is_text s v ≡ false
unfolding is_text
apart s t (str x) d h = ground (arith, eq_iff x t, eq_iff x s, eq_iff s t)
apart s t _ d h = cc

pub none_open :
    (id : String) (closed : List String) (found : Found)
    → all keyed found ≡ true
    → any (has_request_id id) (map (λ e. e.1) (select (is_open (id ∷ closed)) found)) ≡ false
none_open id closed [] k = refl
none_open id closed (e ∷ found) k =
    ground (arith, none_open id closed found, apart id e.0 (get "request_id" e.1))

pub closable :
    (id : Json) (found : Found)
    → all keyed found ≡ true
    → any (λ e. is_text e.0 id) found ≡ true
    → (s : String) × (id ≡ str s) × ((s == "") ≡ false)
unfolding is_text
closable id [] k h = cc
closable (str s) (e ∷ found) k h = elim (Bool-cases (s == e.0)) [
  | inl same ↦ (s, refl, ground (arith, eq_iff s e.0))
  | inr apart_from ↦ closable (str s) found (ground arith) (ground arith)
]
closable id (e ∷ found) k h = closable id found (ground arith) (ground arith)
