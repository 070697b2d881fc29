-- ===== src/Reconciliation/Findings.antt =====
-- What the findings of src/trade_alerts/google_ledger_reconciliation.py say.
use mathlib.Core.Path.{subst}
use trade_alerts.Base.{
  eq_refl, ℕ, ◌≤◌, ◌≡◌, ◌≢◌, ◌↔◌, refl, sym, ap, ◌∙◌, Bool, true, false, some, List, [], ◌∷◌, ◌++◌,
  String, ◌==◌, any, All, select, map, ltb, if◌then◌else◌, arith, eq_iff, Bool-cases, inl, inr,
}
use trade_alerts.Result.{ok, bind-eq-ok, ok-injective}
use trade_alerts.Json.{Json, Fields, find}
use trade_alerts.Outbox.Records.{Provenance}
use trade_alerts.Reconciliation.Classify.{
  Classification, matched, google_no_ledger_source, duplicate_google_trade_id, source_rejected,
  Finding, Statuses, Inventory, item_of, items_by_trade, outbox_statuses, audit_rows,
  confirmed_digests, is_rejected, row_count, compare_digests, comparison_for, recount,
  classify_proof, classify_proofs, sort_items, is_sourceless, sourceless_finding,
  classify_projection_inventory,
}

module _ (is_identifier is_digest : String → Bool) where
  compared-matched :
      (l : String) (g : List String)
      → (compare_digests is_identifier is_digest l g ≡ matched) ↔ (g ≡ l ∷ [])
  compared-matched l [] = ((λ h. cc), (λ h. cc))
  compared-matched l (g ∷ []) =
      ((λ h. ground (arith, eq_iff g l)), (λ h. ground (arith, eq_iff g l)))
  compared-matched l (g ∷ k ∷ gs) = ((λ h. cc), (λ h. cc))

  compared_sourced :
      (l : String) (g : List String)
      → compare_digests is_identifier is_digest l g ≢ google_no_ledger_source
  compared_sourced l [] h = cc
  compared_sourced l (g ∷ []) h = ground arith
  compared_sourced l (g ∷ k ∷ gs) h = cc

  -- What a comparison with a local digest comes to.
  comparison-cases :
      (t l : String) (g : List String) (r : Bool) {c : Classification}
      → comparison_for is_identifier is_digest t (some l) g r ≡ ok c
      → c ≡ (if r then source_rejected else compare_digests is_identifier is_digest l g)
  unfolding comparison_for
  comparison-cases t l g r {c} h = ground arith

  recount-cases :
      (t l : String) (n : ℕ) (first : Classification) {c : Classification}
      → recount is_identifier is_digest t l n first ≡ ok c
      → c ≡ (if ltb 1 n then duplicate_google_trade_id else first)
  recount-cases t l n first {c} h = elim (Bool-cases (ltb 1 n)) [
    | inl many ↦ rw many (comparison-cases t l (l ∷ l ∷ []) false (rw many at h))
    | inr one ↦ rw one (sym (ok-injective (rw one at h)))
  ]

  -- What a finding on a local proof is made of.
  record IsFound (outbox : Statuses) (items : Inventory) (p : Provenance) (f : Finding)
      : Type 0 where
    rows : List Fields
    read : audit_rows p.event_type (find "audit" (item_of p.trade_id items)) ≡ ok rows
    same_trade : f.trade_id ≡ p.trade_id
    class : f.classification ≡ (
        if ltb 1 (row_count (find "google_row_count" (item_of p.trade_id items)))
        then duplicate_google_trade_id
        else if is_rejected rows
        then source_rejected
        else compare_digests is_identifier is_digest p.payload_digest (confirmed_digests rows))

  found :
      (outbox : Statuses) (items : Inventory) (p : Provenance) {f : Finding}
      → classify_proof is_identifier is_digest outbox items p ≡ ok f
      → IsFound outbox items p f
  unfolding classify_proof
  found outbox items p {f} h =
      let n = row_count (find "google_row_count" (item_of p.trade_id items)) in
      let (rows, read, h1) =
        bind-eq-ok (audit_rows p.event_type (find "audit" (item_of p.trade_id items))) _ h in
      let (first, compared, h2) =
        bind-eq-ok
          (comparison_for is_identifier is_digest p.trade_id (some p.payload_digest)
            (confirmed_digests rows) (is_rejected rows))
          _ h1 in
      let (c, counted, h3) =
        bind-eq-ok (recount is_identifier is_digest p.trade_id p.payload_digest n first) _ h2 in
      record {
        rows = rows;
        read = read;
        same_trade = sym (ap (λ x. x.trade_id) (ok-injective h3));
        class =
            sym (ap (λ x. x.classification) (ok-injective h3))
            ∙ recount-cases p.trade_id p.payload_digest n first counted
            ∙ ap (λ x. if ltb 1 n then duplicate_google_trade_id else x)
                (comparison-cases p.trade_id p.payload_digest (confirmed_digests rows)
                  (is_rejected rows) compared);
      }

  -- The proof has exactly one confirmed projection, with its own digest, no rejection, and one row
  -- at most.
  pub record IsProjectedOnce (items : Inventory) (p : Provenance) : Type 0 where
    pub rows : List Fields
    pub read : audit_rows p.event_type (find "audit" (item_of p.trade_id items)) ≡ ok rows
    pub confirmed : confirmed_digests rows ≡ p.payload_digest ∷ []
    pub unrejected : is_rejected rows ≡ false
    pub single : row_count (find "google_row_count" (item_of p.trade_id items)) ≤ 1

  -- A local proof is reported as matched exactly if the receiver confirmed one projection of it, with
  -- the proof's own digest, rejected none, and holds at most one row of the trade.
  pub classify_proof-matched :
      (outbox : Statuses) (items : Inventory) (p : Provenance) {f : Finding}
      → classify_proof is_identifier is_digest outbox items p ≡ ok f
      → (f.classification ≡ matched) ↔ IsProjectedOnce items p
  classify_proof-matched outbox items p {f} h =
      let k = found outbox items p h in
      (
        (λ m.
            let e = sym k.class ∙ m in
            record {
              rows = k.rows;
              read = k.read;
              confirmed =
                  (compared-matched p.payload_digest (confirmed_digests k.rows)).0 (ground arith);
              unrejected = ground arith;
              single = ground arith;
            }),
        (λ once.
            let same : once.rows ≡ k.rows = ok-injective (sym once.read ∙ k.read) in
            let m =
              (compared-matched p.payload_digest (confirmed_digests once.rows)).1 once.confirmed in
            k.class ∙ rw (sym same) (ground (arith, once.unrejected, once.single, m))),
      )

  found_sourced :
      (outbox : Statuses) (items : Inventory) (p : Provenance) (f : Finding)
      → IsFound outbox items p f
      → f.classification ≢ google_no_ledger_source
  found_sourced outbox items p f k m =
      let e = sym k.class ∙ m in
      ground (arith, compared_sourced p.payload_digest (confirmed_digests k.rows))

true_not_false : true ≢ false
true_not_false h = cc

module _ (local : List Provenance) where
  abbrev pub has_proof : List Provenance → String → Bool
  has_proof ps t = any (λ p. p.trade_id == t) ps

  abbrev pub TellsSource : Finding → Type 0
  TellsSource f =
      (f.classification ≡ google_no_ledger_source) ↔ (has_proof local f.trade_id ≡ false)

  more_proofs :
      (q : Provenance) (xs ps : List Provenance)
      → All (λ p. has_proof xs p.trade_id ≡ true) ps
      → All (λ p. has_proof (q ∷ xs) p.trade_id ≡ true) ps
  more_proofs q xs [] h = tt
  more_proofs q xs (p ∷ ps) h = (ground (arith, h.0), more_proofs q xs ps h.1)

  own_proofs : (ps : List Provenance) → All (λ p. has_proof ps p.trade_id ≡ true) ps
  own_proofs [] = tt
  own_proofs (p ∷ ps) = (rw (eq_refl p.trade_id) refl, more_proofs p ps ps (own_proofs ps))

  sourceless-TellsSource :
      (es : Inventory) → All TellsSource (map sourceless_finding (select (is_sourceless local) es))
  sourceless-TellsSource [] = tt
  sourceless-TellsSource (e ∷ es) = elim (Bool-cases (is_sourceless local e)) [
    | inl alone ↦ rw alone (((λ h. ground arith), (λ h. refl)), sourceless-TellsSource es)
    | inr other ↦ rw other (sourceless-TellsSource es)
  ]

  All-append :
      (fs gs : List Finding) → All TellsSource fs → All TellsSource gs → All TellsSource (fs ++ gs)
  All-append [] gs h k = k
  All-append (f ∷ fs) gs h k = (h.0, All-append fs gs h.1 k)

  module _ (is_identifier is_digest : String → Bool) where
    proofs-TellsSource :
        (outbox : Statuses) (items : Inventory) (ps : List Provenance) {fs : List Finding}
        → All (λ p. has_proof local p.trade_id ≡ true) ps
        → classify_proofs is_identifier is_digest outbox items ps ≡ ok fs
        → All TellsSource fs
    unfolding classify_proofs
    proofs-TellsSource outbox items [] {fs} k h = subst (λ x. All TellsSource x) (ok-injective h) tt
    proofs-TellsSource outbox items (p ∷ ps) {fs} k h =
        let (f, one, h1) = bind-eq-ok (classify_proof is_identifier is_digest outbox items p) _ h in
        let (gs, others, h2) =
          bind-eq-ok (classify_proofs is_identifier is_digest outbox items ps) _ h1 in
        let c = found is_identifier is_digest outbox items p one in
        let known : has_proof local f.trade_id ≡ true = rw c.same_trade k.0 in
        subst (λ x. All TellsSource x) (ok-injective h2)
          (
            (
              (λ m. absurd (found_sourced is_identifier is_digest outbox items p f c m)),
              (λ none_known. absurd (true_not_false (sym known ∙ none_known))),
            ),
            proofs-TellsSource outbox items ps k.1 others,
          )

    -- Of all findings of an inventory, exactly those on a trade without a local proof say that the
    -- ledger has no source for it.
    pub classify_projection_inventory-TellsSource :
        (outbox_records receiver_items : List Json) {fs : List Finding}
        → classify_projection_inventory is_identifier is_digest local outbox_records receiver_items
          ≡ ok fs
        → All TellsSource fs
    unfolding classify_projection_inventory
    classify_projection_inventory-TellsSource outbox_records receiver_items {fs} h =
        let items = items_by_trade receiver_items [] in
        let (gs, classified, last) =
          bind-eq-ok
            (classify_proofs is_identifier is_digest (outbox_statuses outbox_records []) items
              local)
            _ h in
        subst (λ x. All TellsSource x) (ok-injective last)
          (All-append gs _
            (proofs-TellsSource (outbox_statuses outbox_records []) items local (own_proofs local)
              classified)
            (sourceless-TellsSource (sort_items items)))
