-- ===== src/Reconciliation/Classify.antt =====
-- `comparison_for` of src/trade_alerts/ledger_integrity.py and `classify_projection_inventory` of
-- src/trade_alerts/google_ledger_reconciliation.py. `is_identifier` and `is_digest` stand for the regular
-- expressions of `_require_identifier` and `_require_digest`.
use trade_alerts.Base.{
  ℕ, Bool, true, false, ◌&&◌, not, Option, none, some, List, [], ◌∷◌, ◌++◌, String, ◌==◌, any, all,
  select, map, ltb, if◌then◌else◌,
}
use trade_alerts.Base.Int.{pos}
use trade_alerts.Result.{Result, ok, raised, ◌>>=◌, ◌>>◌, raise_if}
use trade_alerts.Json
use trade_alerts.Json.{Json, Items, Fields, end, get, find, is_text}
use trade_alerts.Outbox.Records.{Provenance}
use trade_alerts.Strings.{text_lt}

pub data Classification : Type 0 where
  matched pending_sync google_no_ledger_source digest_mismatch : Classification
  duplicate_google_trade_id source_rejected : Classification

pub data CompareError : Type 0 where
  bad_identifier bad_digest not_iterable : CompareError

-- ReconciliationFinding; its detail follows from the classification
pub record Finding : Type 0 where
  pub trade_id : String
  pub event_type : String
  pub classification : Classification
  pub outbox_status : Option String

-- A dict from the fields of a proof to a status.
abbrev pub Statuses : Type 0
Statuses = List ((String × String × String) × String)

abbrev same_proof : String × String × String → String × String × String → Bool
same_proof (a, b, c) (x, y, z) = a == x && b == y && c == z

abbrev pub set_status : String × String × String → String → Statuses → Statuses
set_status k v [] = (k, v) ∷ []
set_status k v ((j, w) ∷ rest) =
    if same_proof j k then (j, v) ∷ rest else (j, w) ∷ set_status k v rest

abbrev pub status_of : String × String × String → Statuses → Option String
status_of k [] = none
status_of k ((j, w) ∷ rest) = if same_proof j k then some w else status_of k rest

abbrev filled : Json → Option String
filled (Json.str s) = if s == "" then none else some s
filled _ = none

abbrev add_status :
    Option String → Option String → Option String → Option String → Statuses → Statuses
add_status (some t) (some e) (some p) (some s) m = set_status (t, e, p) s m
add_status _ _ _ _ m = m

unfoldable pub outbox_statuses : List Json → Statuses → Statuses
outbox_statuses [] m = m
outbox_statuses (Json.obj r ∷ rs) m = outbox_statuses rs (
    add_status (filled (get "trade_id" r)) (filled (get "event_type" r))
      (filled (get "payload_digest" r)) (filled (get "status" r)) m)
outbox_statuses (_ ∷ rs) m = outbox_statuses rs m

-- A dict from a trade id to its item.
abbrev pub Inventory : Type 0
Inventory = List (String × Fields)

abbrev set_item : String → Fields → Inventory → Inventory
set_item k v [] = (k, v) ∷ []
set_item k v ((j, w) ∷ rest) = if j == k then (j, v) ∷ rest else (j, w) ∷ set_item k v rest

abbrev add_item : Option String → Fields → Inventory → Inventory
add_item none item m = m
add_item (some t) item m = set_item t item m

unfoldable pub items_by_trade : List Json → Inventory → Inventory
items_by_trade [] m = m
items_by_trade (Json.obj item ∷ rest) m =
    items_by_trade rest (add_item (filled (get "trade_id" item)) item m)
items_by_trade (_ ∷ rest) m = items_by_trade rest m

-- items.get(trade_id, {})
abbrev pub item_of : String → Inventory → Fields
item_of t [] = end
item_of t ((j, w) ∷ rest) = if j == t then w else item_of t rest

-- The rows of an audit that are objects, of one event type. Of what can be iterated and is no list,
-- no element is an object.
unfoldable pub matching_rows : String → Items → List Fields
matching_rows t Json.nil = []
matching_rows t (Json.item (Json.obj row) rest) =
    let rows = matching_rows t rest in if is_text t (get "event_type" row) then row ∷ rows else rows
matching_rows t (Json.item _ rest) = matching_rows t rest

abbrev pub audit_rows : String → Option Json → Result CompareError (List Fields)
audit_rows t none = ok []
audit_rows t (some (Json.arr rows)) = ok (matching_rows t rows)
audit_rows t (some (Json.obj fs)) = ok []
audit_rows t (some (Json.str s)) = ok []
audit_rows t (some _) = raised not_iterable

abbrev pub texts_of : Json → List String
texts_of (Json.str s) = s ∷ []
texts_of _ = []

unfoldable pub confirmed_digests : List Fields → List String
confirmed_digests [] = []
confirmed_digests (row ∷ rows) =
    if is_text "CONFIRMED" (get "status" row)
    then texts_of (get "payload_digest" row) ++ confirmed_digests rows
    else confirmed_digests rows

unfoldable pub is_rejected : List Fields → Bool
is_rejected rows = any (λ row. is_text "REJECTED" (get "status" row)) rows

-- item.get("google_row_count", 0), what is no count being 0; `True` is the integer 1
unfoldable pub row_count : Option Json → ℕ
row_count (some (Json.int (pos n))) = n
row_count (some (Json.bool true)) = 1
row_count _ = 0

module _ (is_identifier is_digest : String → Bool) where
  abbrev pub compare_digests : String → List String → Classification
  compare_digests l [] = pending_sync
  compare_digests l (g ∷ []) = if g == l then matched else digest_mismatch
  compare_digests l (g ∷ h ∷ gs) = duplicate_google_trade_id

  abbrev pub compare_local : Option String → List String → Result CompareError Classification
  compare_local none google = ok google_no_ledger_source
  compare_local (some l) google = do
    raise_if (not (is_digest l)) bad_digest
    raise_if (not (all is_digest google)) bad_digest
    ok (compare_digests l google)

  unfoldable pub comparison_for :
      String → Option String → List String → Bool → Result CompareError Classification
  comparison_for trade_id local google rejected = do
    raise_if (not (is_identifier trade_id)) bad_identifier
    if rejected then ok source_rejected else compare_local local google

  -- the comparison, and the second one for a row that stands more than once
  abbrev pub recount : String → String → ℕ → Classification → Result CompareError Classification
  recount trade_id digest count first =
      if ltb 1 count
      then comparison_for trade_id (some digest) (digest ∷ digest ∷ []) false
      else ok first

  unfoldable pub classify_proof : Statuses → Inventory → Provenance → Result CompareError Finding
  classify_proof outbox items p = do
    let item = item_of p.trade_id items
    rows ← audit_rows p.event_type (find "audit" item)
    first ←
        comparison_for p.trade_id (some p.payload_digest) (confirmed_digests rows)
          (is_rejected rows)
    c ← recount p.trade_id p.payload_digest (row_count (find "google_row_count" item)) first
    ok (record {
      trade_id = p.trade_id;
      event_type = p.event_type;
      classification = c;
      outbox_status = status_of (p.trade_id, p.event_type, p.payload_digest) outbox;
    })

  unfoldable pub classify_proofs :
      Statuses → Inventory → List Provenance → Result CompareError (List Finding)
  classify_proofs outbox items [] = ok []
  classify_proofs outbox items (p ∷ ps) = do
    f ← classify_proof outbox items p
    fs ← classify_proofs outbox items ps
    ok (f ∷ fs)

unfoldable pub insert_item : String × Fields → Inventory → Inventory
insert_item e [] = e ∷ []
insert_item e (x ∷ xs) =
    let rest = insert_item e xs in if text_lt x.0 e.0 then x ∷ rest else e ∷ x ∷ xs

-- sorted(items.items()); the keys are all different
unfoldable pub sort_items : Inventory → Inventory
sort_items [] = []
sort_items (e ∷ es) = insert_item e (sort_items es)

abbrev pub is_sourceless : List Provenance → String × Fields → Bool
is_sourceless local e =
    not (any (λ p. p.trade_id == e.0) local) && ltb 0 (row_count (find "google_row_count" e.1))

abbrev pub sourceless_finding : String × Fields → Finding
sourceless_finding e = record {
  trade_id = e.0;
  event_type = "unknown";
  classification = google_no_ledger_source;
  outbox_status = none;
}

module _ (is_identifier is_digest : String → Bool) where
  unfoldable pub classify_projection_inventory :
      List Provenance → List Json → List Json → Result CompareError (List Finding)
  classify_projection_inventory local outbox_records receiver_items = do
    let items = items_by_trade receiver_items []
    fs ← classify_proofs is_identifier is_digest (outbox_statuses outbox_records []) items local
    ok (fs ++ map sourceless_finding (select (is_sourceless local) (sort_items items)))
