-- ===== src/Replay/Loop.antt =====
-- The loop of a replay of src/trade_alerts/notice_replay.py.
use trade_alerts.Base.{
  ℕ, suc, ◌≡◌, refl, sym, ◌∙◌, true, false, none, List, [], ◌∷◌, ◌++◌, String, ◌==◌, any, all,
  any-append, arith, eq_refl, Bool-cases, inl, inr,
}
use trade_alerts.Result.{Result, ok, raised}
use trade_alerts.Json.{Json, Fields}
use trade_alerts.EventLog.{EventFile, read_fleet_events}
use trade_alerts.Replay.Replaying.{
  ReplayError, Replayed, ReplayArgs, id_of, is_skipped, announce, go_on, continue_with, replay_each,
}
use trade_alerts.Replay.Announced.{ids, ids-append, announced}

module _ (print : Json → String) where
  module _ (a : ReplayArgs) where
    skip-more :
        (A B : List String) (r : Fields)
        → is_skipped print a A r ≡ true
        → (any (λ s. s == id_of print a r) A ≡ true → any (λ s. s == id_of print a r) B ≡ true)
        → is_skipped print a B r ≡ true
    unfolding is_skipped
    skip-more A B r h more = elim (Bool-cases (any (λ s. s == id_of print a r) A)) [
      | inl there ↦ ground (arith, more there)
      | inr not_there ↦ ground arith
    ]

    -- Every id that is told stays told.
    unfoldable pub Grows : List Fields → List Fields → Type 0
    Grows es es' =
        (i : String)
        → any (λ s. s == i) (ids print a es) ≡ true
        → any (λ s. s == i) (ids print a es') ≡ true

    -- What a loop that ran to its end leaves: a log in which each request of the list is told.
    pub record IsReplayed (rs : List Fields) (es : List Fields) (st : Replayed) : Type 0 where
      pub events : List Fields
      pub read : read_fleet_events st.log ≡ ok events
      pub grows : Grows es events
      pub told : all (is_skipped print a (ids print a events)) rs ≡ true

    unfoldable pub SameIds : List String → List Fields → Type 0
    SameIds A es = (i : String) → any (λ s. s == i) A ≡ any (λ s. s == i) (ids print a es)

    told_more :
        (A : List String) (r e : Fields) (es : List Fields)
        → ids print a (e ∷ []) ≡ id_of print a r ∷ []
        → SameIds A es
        → SameIds (id_of print a r ∷ A) (es ++ e ∷ [])
    unfolding SameIds
    told_more A r e es told same i =
        rw
          (
            ids-append print a es (e ∷ []),
            told,
            any-append (λ s. s == i) (ids print a es) (id_of print a r ∷ []),
            same i,
          )
          (ground arith)

    grown : (es : List Fields) (e : Fields) → Grows es (es ++ e ∷ [])
    unfolding Grows
    grown es e i h =
        rw
          (
            ids-append print a es (e ∷ []),
            any-append (λ s. s == i) (ids print a es) (ids print a (e ∷ [])),
            h,
          )
          refl

    told_last :
        (r e : Fields) (es : List Fields)
        → ids print a (e ∷ []) ≡ id_of print a r ∷ []
        → any (λ s. s == id_of print a r) (ids print a (es ++ e ∷ [])) ≡ true
    told_last r e es told =
        rw
          (
            ids-append print a es (e ∷ []),
            told,
            any-append (λ s. s == id_of print a r) (ids print a es) (id_of print a r ∷ []),
            eq_refl (id_of print a r),
          )
          (ground arith)

    told-skipped :
        (r : Fields) (A : List String)
        → any (λ s. s == id_of print a r) A ≡ true
        → is_skipped print a A r ≡ true
    unfolding is_skipped
    told-skipped r A h = ground arith

    unskipped-filled :
        (A : List String) (r : Fields)
        → is_skipped print a A r ≡ false
        → (id_of print a r == "") ≡ false
    unfolding is_skipped
    unskipped-filled A r h = ground arith

    -- One event of the loop, and what the rest of it does.
    go_on-IsReplayed :
        (fresh now : String) (A : List String) (r : Fields) (rs : List Fields) (f : EventFile)
        (es : List Fields) (next : Fields × EventFile → Replayed)
        (o : Result ReplayError (Fields × EventFile))
        → (id_of print a r == "") ≡ false
        → f.torn ≡ none
        → read_fleet_events f ≡ ok es
        → SameIds A es
        → announce print a fresh now r f ≡ o
        → (go_on print a f (λ w. continue_with print a w.0 (next w)) o).stopped ≡ none
        → ((w : Fields × EventFile)
            → w.1.torn ≡ none
            → read_fleet_events w.1 ≡ ok (es ++ w.0 ∷ [])
            → SameIds (id_of print a r ∷ A) (es ++ w.0 ∷ [])
            → (next w).stopped ≡ none
            → IsReplayed rs (es ++ w.0 ∷ []) (next w))
        → IsReplayed (r ∷ rs) es (go_on print a f (λ w. continue_with print a w.0 (next w)) o)
    unfolding Grows SameIds
    go_on-IsReplayed fresh now A r rs f es next (raised x) filled whole read same o s rest = cc
    go_on-IsReplayed fresh now A r rs f es next (ok (e, f')) filled whole read same o s rest =
        let k = announced print a fresh now r f filled whole read o in
        let l = rest (e, f') k.whole k.read (told_more A r e es k.told same) s in
        record {
          events = l.events;
          read = l.read;
          grows = λ i t. l.grows i (grown es e i t);
          told =
              rw
                (
                  told-skipped r (ids print a l.events) (l.grows _ (told_last r e es k.told)),
                  l.told,
                )
                refl;
        }

    module _ (fresh now : ℕ → String) where
      pub replay_each-IsReplayed :
          (n : ℕ) (A : List String) (rs : List Fields) (f : EventFile) (es : List Fields)
          → f.torn ≡ none
          → read_fleet_events f ≡ ok es
          → SameIds A es
          → (replay_each print a fresh now n A rs f).stopped ≡ none
          → IsReplayed rs es (replay_each print a fresh now n A rs f)
      unfolding replay_each Grows SameIds
      replay_each-IsReplayed n A [] f es whole read same h = record {
        events = es;
        read = read;
        grows = λ i k. k;
        told = refl;
      }
      replay_each-IsReplayed n A (r ∷ rs) f es whole read same h =
          elim (Bool-cases (is_skipped print a A r)) [
            | inl skip ↦
                let k = replay_each-IsReplayed n A rs f es whole read same (rw skip at h) in
                rw skip (record {
                  events = k.events;
                  read = k.read;
                  grows = k.grows;
                  told =
                      rw
                        (
                          skip-more A (ids print a k.events) r skip
                              (λ t. k.grows _ (sym (same _) ∙ t)),
                          k.told,
                        )
                        refl;
                })
            | inr unskipped ↦ rw unskipped (
                go_on-IsReplayed (fresh n) (now n) A r rs f es
                  (λ w. replay_each print a fresh now (suc n) (id_of print a r ∷ A) rs w.1)
                  (announce print a (fresh n) (now n) r f) (unskipped-filled A r unskipped) whole
                  read same refl (rw unskipped at h)
                  (λ w whole' read' same' s'.
                    replay_each-IsReplayed (suc n) (id_of print a r ∷ A) rs w.1 (es ++ w.0 ∷ [])
                      whole' read' same' s'))
          ]

      pub replay_each-skipped :
          (n : ℕ) (A : List String) (rs : List Fields) (f : EventFile)
          → all (is_skipped print a A) rs ≡ true
          → replay_each print a fresh now n A rs f
            ≡ record { log = f; written = []; stopped = none }
      unfolding replay_each
      replay_each-skipped n A [] f h = refl
      replay_each-skipped n A (r ∷ rs) f h =
          let first : is_skipped print a A r ≡ true = ground arith in
          rw first (replay_each-skipped n A rs f (ground arith))
