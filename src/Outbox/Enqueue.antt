-- ===== src/Outbox/Enqueue.antt =====
-- What `enqueue_projection_intent` of src/trade_alerts/projection_outbox.py does to a history.
use mathlib.Core.Path.{subst}
use trade_alerts.Base.{
  eq_refl, ◌≡◌, refl, sym, ap, ◌∙◌, true, Option, none, some, List, [], ◌∷◌, ◌++◌, map, first,
  arith, map-append, String,
}
use trade_alerts.Result.{bind-eq-ok, ok}
use trade_alerts.Jsonl.{
  File, file_of, append_record, read_records-append_record, append_record-file_of,
}
use trade_alerts.Outbox.Cells.{str, cell_eq_refl}
use trade_alerts.Outbox.Records.{
  Provenance, Intent, Record, intent_v1, dispatch_v1, other_kind, action_event_type,
  schema_version_v2, is_allowed_action, intent_from_record,
}
use trade_alerts.Outbox.Queue.{
  enqueue_candidate, record_of_intent, read_outbox, from_provenance, find_existing, same_key,
  enqueue_projection_intent, candidate_of,
}
use trade_alerts.Outbox.Log.{
  Entry, queued, record_of, log, queued_intents, IsSendable, IsLog, read_outbox-log,
  find_existing-log, intent_from_record-record_of_intent,
}

abbrev pub enqueue_after : Intent → List Entry → Option Intent → Intent × List Entry
enqueue_after c es none = (c, es ++ queued c ∷ [])
enqueue_after c es (some e) = (e, es)

-- What enqueueing does to a history: nothing if the same projection was ever queued.
abbrev pub enqueue_log : Intent → List Entry → Intent × List Entry
enqueue_log c es = enqueue_after c es (first (λ e. same_key e c) (queued_intents es))

pub append-log :
    (e : Entry) (es : List Entry) → append_record (record_of e) (log es) ≡ log (es ++ e ∷ [])
append-log e es =
    append_record-file_of (record_of e) (map record_of es)
    ∙ ap file_of (sym (map-append record_of es (e ∷ [])))

enqueue_candidate-log :
    (c : Intent) (es : List Entry) (found : Option Intent)
    → let (i, es') = enqueue_after c es found in enqueue_candidate c found (log es) ≡ (i, log es')
unfolding record_of
enqueue_candidate-log c es none = ap (λ f. (c, f)) (append-log (queued c) es)
enqueue_candidate-log c es (some e) = refl

-- On the file of a history, a call that passes the checks on its arguments returns, and the file it
-- leaves is that of the history with the new intent last, or unchanged if an intent with the same
-- immutable key was queued before, which is returned then.
pub enqueue-log :
    (fresh now action : String) (p : Provenance) (es : List Entry) {c : Intent}
    → IsLog es
    → from_provenance fresh now action p ≡ ok c
    → let (i, es') = enqueue_log c es in
      enqueue_projection_intent fresh now action p (log es) ≡ ok (i, log es')
unfolding enqueue_projection_intent
enqueue-log fresh now action p es {c} h e =
    rw (e, read_outbox-log, find_existing-log c es [] h)
      (ap ok (enqueue_candidate-log c es (first (λ e'. same_key e' c) (queued_intents es))))

pub same_key_refl : (i : Intent) → same_key i i ≡ true
unfolding same_key
same_key_refl i = simp cell_eq_refl

find_existing-append :
    (c d : Intent) (rs : List Record)
    → find_existing c rs ≡ ok none
    → intent_from_record (record_of_intent d) ≡ ok d
    → same_key d c ≡ true
    → find_existing c (rs ++ record_of_intent d ∷ []) ≡ ok (some d)
unfolding find_existing
find_existing-append c d [] h s k = ground arith
find_existing-append c d (intent_v1 raw ∷ rs) h s k = ground (arith, find_existing-append c d rs)
find_existing-append c d (dispatch_v1 raw ∷ rs) h s k = find_existing-append c d rs h s k
find_existing-append c d (other_kind ∷ rs) h s k = find_existing-append c d rs h s k

-- the search looks at the candidate's key alone
find_existing-cong :
    (c d : Intent) (rs : List Record)
    → ((e : Intent) → same_key e c ≡ same_key e d)
    → find_existing c rs ≡ find_existing d rs
unfolding find_existing
find_existing-cong c d [] k = refl
find_existing-cong c d (intent_v1 raw ∷ rs) k = grind (arith, find_existing-cong c d rs k, k)
find_existing-cong c d (dispatch_v1 raw ∷ rs) k = find_existing-cong c d rs k
find_existing-cong c d (other_kind ∷ rs) k = find_existing-cong c d rs k

module _ (action : String) (p : Provenance) where
  abbrev candidate : String → String → Intent
  candidate fresh now = candidate_of fresh now action p

  candidate-same_key :
      (a b c d : String) (e : Intent) → same_key e (candidate a b) ≡ same_key e (candidate c d)
  unfolding same_key
  candidate-same_key a b c d e = refl

  -- The arguments pass the checks.
  abbrev pub IsProjectable : Type 0
  IsProjectable =
      (is_allowed_action (str action) ≡ true) × (action_event_type action ≡ some p.event_type)

  pub from_provenance-IsProjectable :
      (fresh now : String)
      → IsProjectable
      → from_provenance fresh now action p ≡ ok (candidate fresh now)
  unfolding from_provenance
  from_provenance-IsProjectable fresh now h = rw (h.0, h.1, eq_refl) refl

  module _ (fresh now fresh' now' : String) (v2 : p.schema_version ≡ schema_version_v2)
      (h : IsProjectable) where
    candidate-IsSendable : IsSendable (candidate fresh now)
    candidate-IsSendable = (h.0, rw v2 (cell_eq_refl (str schema_version_v2)))

    -- the second search, on what the first call left
    find_existing-again :
        (rs : List Record) (found : Option Intent)
        → find_existing (candidate fresh now) rs ≡ ok found
        → find_existing (candidate fresh' now') rs ≡ ok found
    find_existing-again rs found e =
        find_existing-cong (candidate fresh' now') (candidate fresh now) rs
          (candidate-same_key fresh' now' fresh now)
        ∙ e

    find_existing-new :
        (rs : List Record)
        → find_existing (candidate fresh now) rs ≡ ok none
        → find_existing (candidate fresh' now') (rs ++ record_of_intent (candidate fresh now) ∷ [])
          ≡ ok (some (candidate fresh now))
    find_existing-new rs e =
        find_existing-append (candidate fresh' now') (candidate fresh now) rs
          (find_existing-again rs none e)
          (intent_from_record-record_of_intent (candidate fresh now) candidate-IsSendable)
          (candidate-same_key fresh' now' fresh now (candidate fresh now)
            ∙ same_key_refl (candidate fresh now))

    read_outbox-append :
        (f : File Record) (r : Record) {rs : List Record}
        → f.torn ≡ none
        → read_outbox f ≡ ok rs
        → read_outbox (append_record r f) ≡ ok (rs ++ r ∷ [])
    unfolding read_outbox
    read_outbox-append f r t e = rw (read_records-append_record r f t, read_outbox) (ground arith)

    enqueue_again :
        (f : File Record) (rs : List Record) (found : Option Intent)
        → f.torn ≡ none
        → read_outbox f ≡ ok rs
        → find_existing (candidate fresh now) rs ≡ ok found
        → enqueue_projection_intent fresh' now' action p
            (enqueue_candidate (candidate fresh now) found f).1
          ≡ ok (enqueue_candidate (candidate fresh now) found f)
    unfolding enqueue_projection_intent
    enqueue_again f rs none t r e =
        rw
          (
            from_provenance-IsProjectable fresh' now' h,
            read_outbox-append f (record_of_intent (candidate fresh now)) t r,
            find_existing-new rs e,
          )
          refl
    enqueue_again f rs (some i) t r e =
        rw (from_provenance-IsProjectable fresh' now' h, r, find_existing-again rs (some i) e) refl

    enqueue-eq-ok :
        (f : File Record) {r : Intent × File Record}
        → enqueue_projection_intent fresh now action p f ≡ ok r
        → (rs : List Record) × (found : Option Intent) × (read_outbox f ≡ ok rs)
          × (find_existing (candidate fresh now) rs ≡ ok found)
          × (enqueue_candidate (candidate fresh now) found f ≡ r)
    unfolding enqueue_projection_intent
    enqueue-eq-ok f {r} e =
        let (c, passed, e') = bind-eq-ok (from_provenance fresh now action p) _ e in
        let same : ok (candidate fresh now) ≡ ok c =
          sym (from_provenance-IsProjectable fresh now h) ∙ passed in
        let (rs, read, e'') = bind-eq-ok (read_outbox f) _ e' in
        let (found, find, last) = bind-eq-ok (find_existing c rs) _ e'' in
        let same' : candidate fresh now ≡ c = ground arith in
        (rs, found, read, rw same' find, rw same' (ground arith))

    -- Enqueueing one projection twice returns the first intent and writes nothing the second time,
    -- whatever the file held, if its last line was whole and the provenance is of schema v2.
    pub enqueue_twice :
        (f : File Record) {i : Intent} {f' : File Record}
        → f.torn ≡ none
        → enqueue_projection_intent fresh now action p f ≡ ok (i, f')
        → enqueue_projection_intent fresh' now' action p f' ≡ ok (i, f')
    enqueue_twice f t e =
        let (rs, found, read, find, last) = enqueue-eq-ok f e in
        subst (λ r. enqueue_projection_intent fresh' now' action p r.1 ≡ ok r) last
          (enqueue_again f rs found t read find)
