-- ===== src/Outbox/Head.antt =====
-- How one attempt on the head changes the queue of src/trade_alerts/projection_outbox.py.
use trade_alerts.Base.{
  ◌≡◌, refl, ap, Bool, true, false, ◌&&◌, not, List, [], ◌∷◌, ◌++◌, any, select, if◌then◌else◌,
  arith, append-nil, any-append, select-cong, Bool-cases, inl, inr,
}
use trade_alerts.Outbox.Cells.{Cell, cell_eq, cell_eq_iff, cell_eq_refl}
use trade_alerts.Outbox.Records.{Intent, Dispatch, is_terminal}
use trade_alerts.Outbox.Queue.{has_id}
use trade_alerts.Outbox.Log.{
  Entry, queued, tried, queued_intents, settles, pending, IsLog, IsLogAfter, queued_intents-append,
}

-- No two intents share an id.
abbrev Distinct : List Intent → Type 0
Distinct [] = Unit
Distinct (i ∷ is) = (any (has_id i.intent_id) is ≡ false) × Distinct is

any-has_id-cong :
    (a b : Cell) (is : List Intent) → cell_eq a b ≡ true → any (has_id a) is ≡ any (has_id b) is
any-has_id-cong a b is h = ap (λ c. any (has_id c) is) ((cell_eq_iff a b).0 h)

not_again :
    (c : Cell) (before : List Intent) (es : List Entry)
    → any (has_id c) before ≡ true
    → IsLogAfter before es
    → any (has_id c) (queued_intents es) ≡ false
not_again c before [] seen h = refl
not_again c before (queued i ∷ es) seen h = ground (
  arith,
  any-has_id-cong i.intent_id c before,
  not_again c (before ++ i ∷ []) es,
  any-append (has_id c) before (i ∷ []),
)
not_again c before (tried d ∷ es) seen h = not_again c before es seen h

Distinct-queued_intents :
    (before : List Intent) (es : List Entry) → IsLogAfter before es → Distinct (queued_intents es)
Distinct-queued_intents before [] h = tt
Distinct-queued_intents before (queued i ∷ es) h = (
  not_again i.intent_id (before ++ i ∷ []) es
      (ground (arith, any-append (has_id i.intent_id) before (i ∷ []), cell_eq_refl i.intent_id))
      h.2,
  Distinct-queued_intents (before ++ i ∷ []) es h.2,
)
Distinct-queued_intents before (tried d ∷ es) h = Distinct-queued_intents before es h

any-select :
    (p q : Intent → Bool) (is : List Intent) → any q is ≡ false → any q (select p is) ≡ false
any-select p q [] h = refl
any-select p q (i ∷ is) h = ground (arith, any-select p q is)

Distinct-select : (p : Intent → Bool) (is : List Intent) → Distinct is → Distinct (select p is)
Distinct-select p [] h = tt
Distinct-select p (i ∷ is) h =
    ground (arith, any-select p (has_id i.intent_id) is, Distinct-select p is)

pub Distinct-pending : (es : List Entry) → IsLog es → Distinct (pending es)
unfolding pending
Distinct-pending es h =
    Distinct-select (λ i. not (any (settles i.intent_id) es)) (queued_intents es)
      (Distinct-queued_intents [] es h)

select-select :
    (p q : Intent → Bool) (is : List Intent) → select q (select p is) ≡ select (λ i. p i && q i) is
select-select p q [] = refl
select-select p q (i ∷ is) = ground (arith, select-select p q is)

pending-tried_select :
    (es : List Entry) (d : Dispatch)
    → pending (es ++ tried d ∷ []) ≡ select (λ i. not (settles i.intent_id (tried d))) (pending es)
unfolding pending
pending-tried_select es d =
    rw (queued_intents-append, append-nil, select-select)
      (select-cong _ _ (queued_intents es)
        λ i. ground (arith, any-append (settles i.intent_id) es (tried d ∷ [])))

keep_all :
    (d : Dispatch) (is : List Intent)
    → is_terminal d.status ≡ false
    → select (λ i. not (settles i.intent_id (tried d))) is ≡ is
keep_all d [] h = refl
keep_all d (i ∷ is) h = ground (arith, keep_all d is)

keep_others :
    (d : Dispatch) (is : List Intent)
    → any (has_id d.intent_id) is ≡ false
    → select (λ i. not (settles i.intent_id (tried d))) is ≡ is
keep_others d [] h = refl
keep_others d (i ∷ is) h = ground (
  arith,
  keep_others d is,
  cell_eq_iff d.intent_id i.intent_id,
  cell_eq_iff i.intent_id d.intent_id,
)

-- A terminal answer takes the head, and the head alone, out of the queue; any other answer leaves
-- the queue as it was.
pub pending-tried :
    (es : List Entry) (d : Dispatch) {i : Intent} {rest : List Intent}
    → IsLog es
    → pending es ≡ i ∷ rest
    → d.intent_id ≡ i.intent_id
    → pending (es ++ tried d ∷ []) ≡ (if is_terminal d.status then rest else i ∷ rest)
pending-tried es d {i} {rest} h e same =
    let distinct : Distinct (i ∷ rest) = rw e at (Distinct-pending es h) in
    rw (pending-tried_select, e)
      (elim (Bool-cases (is_terminal d.status)) [
        | inl t ↦ rw (t, same, cell_eq_refl) (keep_others d rest (rw same distinct.0))
        | inr t ↦ rw t (ap (λ is. i ∷ is) (keep_all d rest t))
      ])
