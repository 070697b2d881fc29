-- ===== src/Expired/Once.antt =====
-- Nothing is announced twice by src/trade_alerts/pending_expired_notice.py.
use mathlib.Core.Path.{subst}
use trade_alerts.Base.{
  ◌≡◌, refl, sym, ap, ◌∙◌, Bool, true, false, ◌&&◌, ◌||◌, Option, none, some, List, [], ◌∷◌, ◌++◌,
  map, any, any-append, String, ◌==◌, eq_refl, eq_iff, if◌then◌else◌, arith, Bool-cases, inl, inr,
}
use trade_alerts.Result.{ok, ◌>>=◌, ok-injective}
use trade_alerts.EventLog.{EventFile, append_fleet_event, read_fleet_events}
use trade_alerts.EventLog.Kept.{append_fleet_event-IsKept, taken}
use trade_alerts.Json.{Json, Fields, get, find, is_text}
use trade_alerts.Strings.{text_items, text_lt}
use trade_alerts.SafeHalt.Latch.{mapping_or_empty}
use trade_alerts.Expired.Notice.{
  code_pending_expired, insert_text, sort_texts, Plan, evidence_of, plan_args, trade_id_of,
  texts_in, listed, is_notice, announced_trade_ids, plan_for, unannounced_of, expired_markers,
  plan_pending_expired_notice,
}

same_plan : {p q : Plan} → ◌≡◌ {A = Option Plan} (some p) (some q) → p ≡ q
same_plan {p} h = ap (λ o. elim o as (λ _. Plan) [ none ↦ p | some x ↦ x ]) h

-- Sorting keeps what is there.
any-insert_if :
    (b : Bool) (p : String → Bool) (s t : String) (rest ts : List String)
    → any p rest ≡ (p s || any p ts)
    → any p (if b then t ∷ rest else s ∷ t ∷ ts) ≡ (p s || any p (t ∷ ts))
any-insert_if true p s t rest ts h = rw h (swapped (p t) (p s) (any p ts))
  where
    swapped : (a b c : Bool) → (a || (b || c)) ≡ (b || (a || c))
    swapped a b c = ground arith
any-insert_if false p s t rest ts h = refl

any-insert_text :
    (p : String → Bool) (s : String) (ts : List String)
    → any p (insert_text s ts) ≡ (p s || any p ts)
unfolding insert_text
any-insert_text p s [] = refl
any-insert_text p s (t ∷ ts) =
    any-insert_if (text_lt t s) p s t (insert_text s ts) ts (any-insert_text p s ts)

any-sort_texts : (p : String → Bool) (ts : List String) → any p (sort_texts ts) ≡ any p ts
unfolding sort_texts
any-sort_texts p [] = refl
any-sort_texts p (t ∷ ts) =
    any-insert_text p t (sort_texts ts) ∙ ap (λ b. p t || b) (any-sort_texts p ts)

left_holds : (a b : Bool) → a ≡ true → (a || b) ≡ true
left_holds a b h = ground arith

right_holds : (a b : Bool) → b ≡ true → (a || b) ≡ true
right_holds a b h = ground arith

neither : (a b : Bool) → a ≡ false → b ≡ false → (a || b) ≡ false
neither a b h k = ground arith

both : (a b : Bool) → a ≡ true → b ≡ true → (a && b) ≡ true
both a b h k = ground arith

module _ (print : Json → String) where
  texts_in-text_items : (ts : List String) → texts_in print (text_items ts) ≡ ts
  unfolding texts_in text_items
  texts_in-text_items [] = refl
  texts_in-text_items (t ∷ ts) = ap (λ x. t ∷ x) (texts_in-text_items ts)

  -- An event of the log that carries a plan.
  pub record Carries (project : String) (p : Plan) (e : Fields) : Type 0 where
    pub in_project : get "project" e ≡ Json.str project
    pub with_code : get "code" e ≡ Json.str code_pending_expired
    pub with_evidence : get "evidence" e ≡ Json.obj (evidence_of p)

  carried_ids :
      (project : String) (p : Plan) (e : Fields)
      → Carries project p e
      → (is_notice print project e ≡ true)
        × (listed print (get "trade_ids" (mapping_or_empty (get "evidence" e))) ≡ p.trade_ids)
  unfolding is_text get find
  carried_ids project p e c = (
    both (is_text project (get "project" e)) (is_text code_pending_expired (get "code" e))
        (rw c.in_project (eq_refl project)) (rw c.with_code refl),
    rw c.with_evidence (texts_in-text_items p.trade_ids),
  )

  announced-here :
      (b : Bool) (t : String) (ids rest : List String)
      → b ≡ true
      → any (λ s. s == t) ids ≡ true
      → any (λ s. s == t) (if b then ids ++ rest else rest) ≡ true
  announced-here false t ids rest h k = cc
  announced-here true t ids rest h k =
      any-append (λ s. s == t) ids rest ∙ left_holds _ (any (λ s. s == t) rest) k

  announced-later :
      (b : Bool) (t : String) (ids rest : List String)
      → any (λ s. s == t) rest ≡ true
      → any (λ s. s == t) (if b then ids ++ rest else rest) ≡ true
  announced-later false t ids rest k = k
  announced-later true t ids rest k =
      any-append (λ s. s == t) ids rest ∙ right_holds (any (λ s. s == t) ids) _ k

  announced-carried :
      (project t : String) (p : Plan) (e : Fields) (before after : List Fields)
      → Carries project p e
      → any (λ s. s == t) p.trade_ids ≡ true
      → any (λ s. s == t) (announced_trade_ids print (before ++ e ∷ after) project) ≡ true
  unfolding announced_trade_ids
  announced-carried project t p e [] after c h =
      let (noticed, ids) = carried_ids project p e c in
      announced-here (is_notice print project e) t _ _ noticed (ap (any (λ s. s == t)) ids ∙ h)
  announced-carried project t p e (x ∷ before) after c h =
      announced-later (is_notice print project x) t _ _
        (announced-carried project t p e before after c h)

  -- No marker that is left is of a trade in the list.
  unannounced-absent :
      (t : String) (seen : List String) (ms : List Fields)
      → any (λ s. s == t) seen ≡ true
      → any (λ s. s == t) (map (trade_id_of print) (unannounced_of print seen ms)) ≡ false
  unannounced-absent t seen [] h = refl
  unannounced-absent t seen (m ∷ ms) h =
      elim (Bool-cases (any (λ s. s == trade_id_of print m) seen)) [
        | inl k ↦ rw k (unannounced-absent t seen ms h)
        | inr k ↦ rw k (
            neither (trade_id_of print m == t) _ (other (trade_id_of print m) k)
              (unannounced-absent t seen ms h))
      ]
    where
      other : (u : String) → any (λ s. s == u) seen ≡ false → (u == t) ≡ false
      other u k = elim (Bool-cases (u == t)) [
        | inr e ↦ e
        | inl e ↦
            let here : any (λ s. s == u) seen ≡ true =
              subst (λ x. any (λ s. s == x) seen ≡ true) (sym ((eq_iff u t).0 e)) h in
            cc
      ]

  written-Carries :
      (locked : Bool) (fresh now project tier at : String) (p : Plan) (f f' : EventFile)
      (e : Fields)
      → append_fleet_event locked fresh now (plan_args project tier at p) f ≡ ok (e, f')
      → Carries project p e
  written-Carries locked fresh now project tier at p f f' e h =
      let k = append_fleet_event-IsKept locked fresh now (plan_args project tier at p) f f' e h in
      record {
        in_project = k.same_project;
        with_code = k.same_code;
        with_evidence =
            k.same_evidence ∙ ap Json.obj (sym (taken (evidence_of p) k.evidence k.taken_evidence));
      }

  plan_for-absent :
      (status : Json) (t : String) (ms : List Fields) (q : Plan)
      → any (λ s. s == t) (map (trade_id_of print) ms) ≡ false
      → plan_for print status ms ≡ some q
      → any (λ s. s == t) q.trade_ids ≡ false
  plan_for-absent status t [] q h k = cc
  plan_for-absent (Json.obj status) t (m ∷ ms) q h k =
      subst (λ x. any (λ s. s == t) x.trade_ids ≡ false) (same_plan k)
        (any-sort_texts (λ s. s == t) (map (trade_id_of print) (m ∷ ms)) ∙ h)
  plan_for-absent _ t (m ∷ ms) q h k = cc

  -- A trade that one notice named is in no later one: if a plan was appended as an event, then from any
  -- log that has this event, and whatever the ledger status says by then, no plan names that trade.
  pub plan-once :
      (locked : Bool) (fresh now project tier at t : String) (p q : Plan) (f f' log : EventFile)
      (e : Fields) (before after : List Fields) (later : Json)
      → append_fleet_event locked fresh now (plan_args project tier at p) f ≡ ok (e, f')
      → read_fleet_events log ≡ ok (before ++ e ∷ after)
      → any (λ s. s == t) p.trade_ids ≡ true
      → (do
        events ← read_fleet_events log
        ok (plan_pending_expired_notice print later events project))
        ≡ ok (some q)
      → any (λ s. s == t) q.trade_ids ≡ false
  unfolding plan_pending_expired_notice
  plan-once locked fresh now project tier at t p q f f' log e before after later wrote read named
        planned =
      let seen = announced_trade_ids print (before ++ e ∷ after) project in
      let planned_then : plan_for print later
            (unannounced_of print seen (expired_markers print later))
          ≡ some q =
        ok-injective (
          sym (
            ap (λ r. do events ← r; ok (plan_pending_expired_notice print later events project))
              read)
          ∙ planned) in
      plan_for-absent later t (unannounced_of print seen (expired_markers print later)) q
        (unannounced-absent t seen (expired_markers print later) (
          announced-carried project t p e before after
            (written-Carries locked fresh now project tier at p f f' e wrote) named))
        planned_then
