-- ===== src/Outbox/Recovery.antt =====
-- What `requeue_rejected_projection_intents` of src/trade_alerts/projection_outbox.py does to a history.
use mathlib.Core.Path.{subst}
use trade_alerts.Base.{
  ℕ, suc, ◌≡◌, refl, sym, ap, ◌∙◌, Bool, true, false, ◌&&◌, ◌||◌, not, List, [], ◌∷◌, ◌++◌, map,
  String, any, all, select, arith, All, append-nil, append_assoc, Bool-cases, inl, inr,
}
use trade_alerts.Result.{ok}
use trade_alerts.Outbox.Cells.{Cell, str, cell_eq, get, get_or_null}
use trade_alerts.Outbox.Records.{Intent, obj_of_dispatch}
use trade_alerts.Outbox.Queue.{same_key}
use trade_alerts.Outbox.Log.{
  Entry, queued, tried, record_of, log, queued_intents, IsLog, IsLogAfter, read_outbox-log,
  intent_from_record-record_of_intent,
}
use trade_alerts.Outbox.Enqueue.{append-log}
use trade_alerts.Outbox.Groups.{
  is_sibling, same_key-euclid, same_key-sym, same_key-trade_id, IsClass, IsClass-group_by_key,
}
use trade_alerts.Outbox.Requeue.{
  py_str, Seen, was_confirmed, was_settled, collect, group_by_key, latest, recover_groups,
  append_intents, copies_from, requeue_rejected,
}

abbrev pub seen_of : List Entry → Seen
seen_of [] = []
seen_of (queued i ∷ es) = seen_of es
seen_of (tried d ∷ es) = (py_str d.intent_id, py_str d.status) ∷ seen_of es

pub collect-log :
    (before : List Intent) (es : List Entry)
    → IsLogAfter before es
    → collect (map record_of es) ≡ ok (queued_intents es, seen_of es)
unfolding collect record_of get_or_null get obj_of_dispatch
collect-log before [] h = refl
collect-log before (queued i ∷ es) h =
    rw (intent_from_record-record_of_intent i h.0, collect-log (before ++ i ∷ []) es h.2) refl
collect-log before (tried d ∷ es) h = rw (collect-log before es h) refl

pub append_intents-log :
    (is : List Intent) (es : List Entry) → append_intents is (log es) ≡ log (es ++ map queued is)
unfolding append_intents record_of
append_intents-log [] es = rw append-nil refl
append_intents-log (i ∷ is) es = rw (append-log (queued i) es) (
    append_intents-log is (es ++ queued i ∷ [])
    ∙ ap log (append_assoc es (queued i ∷ []) (map queued is)))

-- Every intent that was ever queued for the projection of `c` has a terminal answer, and none of
-- them was confirmed.
abbrev pub IsRecoverable : String → List Entry → Intent → Type 0
IsRecoverable t es c =
    (cell_eq c.trade_id (str t) ≡ true)
    × (all
          (λ i.
            not (same_key i c)
            || (was_settled (seen_of es) i && not (was_confirmed (seen_of es) i)))
          (queued_intents es)
        ≡ true)

module _ (t : String) (es : List Entry) where
  abbrev seen : Seen
  seen = seen_of es

  -- what the tests on a group say of all that was queued
  spread :
      (p : Intent → Bool) (h c : Intent) (is : List Intent)
      → cell_eq h.trade_id (str t) ≡ true
      → same_key c h ≡ true
      → any (λ i. not (p i)) (select (is_sibling t h) is) ≡ false
      → all (λ i. not (same_key i c) || p i) is ≡ true
  spread p h c [] trade same none_fails = refl
  spread p h c (i ∷ is) trade same none_fails = ground (
    arith,
    spread p h c is trade same,
    same_key-sym i c,
    same_key-euclid c i h,
    same_key-trade_id i h (str t),
  )

  all-select :
      (p q : Intent → Bool) (is : List Intent)
      → ((i : Intent) → q i ≡ true → p i ≡ true)
      → all p (select q is) ≡ true
  all-select p q [] h = refl
  all-select p q (i ∷ is) h = ground (arith, h i, all-select p q is h)

  all-latest :
      (p : Intent → Bool) (i : Intent) (is : List Intent)
      → all p (i ∷ is) ≡ true
      → p (latest i is) ≡ true
  all-latest p i [] h = ground arith
  all-latest p i (j ∷ is) h = all-latest p j is (ground arith)

  none_fails :
      (is : List Intent)
      → any (was_confirmed seen) is ≡ false
      → any (λ j. not (was_settled seen j)) is ≡ false
      → any (λ i. not (was_settled seen i && not (was_confirmed seen i))) is ≡ false
  none_fails [] u s = refl
  none_fails (i ∷ is) u s = ground (arith, none_fails is)

  -- a copy of the latest of a class that passes the tests
  copy-IsRecoverable :
      (id time : Cell) (h : Intent) (g : List Intent)
      → IsClass t (queued_intents es) (h ∷ g)
      → any (was_confirmed seen) (h ∷ g) ≡ false
      → any (λ j. not (was_settled seen j)) (h ∷ g) ≡ false
      → IsRecoverable t es (record (latest h g) { intent_id = id; created_at = time })
  unfolding same_key
  copy-IsRecoverable id time h g class unconfirmed settled =
      let good : Intent → Bool = λ i. was_settled seen i && not (was_confirmed seen i) in
      let qs = queued_intents es in
      let own : all (is_sibling t h) (h ∷ g) ≡ true =
        subst (λ l. all (is_sibling t h) l ≡ true) (sym class)
          (all-select (is_sibling t h) (is_sibling t h) qs (λ i k. k)) in
      let last : is_sibling t h (latest h g) ≡ true = all-latest (is_sibling t h) h g own in
      let clean : any (λ i. not (good i)) (select (is_sibling t h) qs) ≡ false =
        subst (λ l. any (λ i. not (good i)) l ≡ false) class
          (none_fails (h ∷ g) unconfirmed settled) in
      let trade : cell_eq h.trade_id (str t) ≡ true = ground arith in
      let same : same_key (latest h g) h ≡ true = ground arith in
      (
        ground arith,
        spread good h (record (latest h g) { intent_id = id; created_at = time }) qs trade same
            clean,
      )

  module _ (fresh now : ℕ → String) where
    copies-IsRecoverable :
        (gs : List (List Intent)) (n : ℕ)
        → All (IsClass t (queued_intents es)) gs
        → All (IsRecoverable t es) (copies_from fresh now n (recover_groups seen gs))
    unfolding copies_from recover_groups
    copies-IsRecoverable [] n h = tt
    copies-IsRecoverable ([] ∷ gs) n h = absurd h.0
    copies-IsRecoverable ((i ∷ g) ∷ gs) n h = elim (Bool-cases (any (was_confirmed seen) (i ∷ g))) [
      | inl yes_confirmed ↦ rw yes_confirmed (copies-IsRecoverable gs n h.1)
      | inr unconfirmed ↦ elim (Bool-cases (any (λ j. not (was_settled seen j)) (i ∷ g))) [
        | inl waiting ↦ rw (unconfirmed, waiting) (copies-IsRecoverable gs n h.1)
        | inr settled ↦
            rw (unconfirmed, settled)
              (
                copy-IsRecoverable (str (fresh n)) (str (now n)) i g h.0 unconfirmed settled,
                copies-IsRecoverable gs (suc n) h.1,
              )
      ]
    ]

    -- A requeue on the file of a history returns; it writes exactly the intents that it returns, at
    -- the end, and each is for a projection of the trade that has a rejected intent for each time it
    -- was queued: nothing that was confirmed or still waits is sent again.
    pub requeue-IsRecoverable :
        IsLog es
        → (is : List Intent) × (requeue_rejected fresh now t (log es)
            ≡ ok (is, log (es ++ map queued is)))
          × All (IsRecoverable t es) is
    unfolding requeue_rejected
    requeue-IsRecoverable h =
        let is =
          copies_from fresh now 0 (recover_groups seen (group_by_key t (queued_intents es) [])) in
        (
          is,
          rw (read_outbox-log, collect-log [] es h)
              (ap (λ f. ok (is, f)) (append_intents-log is es)),
          copies-IsRecoverable (group_by_key t (queued_intents es) []) 0
              (IsClass-group_by_key t (queued_intents es)),
        )
