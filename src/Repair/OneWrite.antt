-- ===== src/Repair/OneWrite.antt =====
-- The one write of a round of src/trade_alerts/repair_runner.py.
use mathlib.Core.Path.{subst}
use trade_alerts.Base.{
  ◌≡◌, refl, sym, ◌∙◌, ◌⊎◌, inl, inr, Bool, true, false, List, [], ◌∷◌, String, any, ◌==◌, ◌||◌,
  eq_refl, arith, Bool-cases,
}
use trade_alerts.Result.{Result, ok, raised}
use trade_alerts.Json.{Fields}
use trade_alerts.Channels.Text.{Text}
use trade_alerts.Repair.World.{RunError, World, settled}
use trade_alerts.Repair.Writing.{Setting}
use trade_alerts.Repair.Candidates.{handle, OpenRequests, request_of, is_blocked, take_candidates}
use trade_alerts.Repair.Handling.{Wrote, Handled, untouched, wrote, handle-Handled}

module _ (s : Setting) where
  -- The ledger is as before, or one of the candidates was written, which no blocking request holds back.
  abbrev pub AtMostOnce : List Fields → OpenRequests s → List String → Text → Text → Type 0
  AtMostOnce ledger requests candidates before after =
      (after ≡ before)
      ⊎ ((trade_id : String) × (any (λ t. t == trade_id) candidates ≡ true)
          × (is_blocked s (request_of s trade_id requests) ≡ false)
          × Wrote s ledger before after trade_id)

  either : (a b : Bool) → b ≡ true → (a || b) ≡ true
  either a b h = ground arith

  one_of_either : (a b : Bool) → a ≡ true → (a || b) ≡ true
  one_of_either a b h = ground arith

  one_more :
      (ledger : List Fields) (requests : OpenRequests s) (t : String) (rest : List String)
      (before after : Text)
      → AtMostOnce ledger requests rest before after
      → AtMostOnce ledger requests (t ∷ rest) before after
  one_more ledger requests t rest before after (inl h) = inl h
  one_more ledger requests t rest before after (inr (u, there, free, w)) =
      inr (u, either (t == u) (any (λ x. x == u) rest) there, free, w)

  -- After an attempt the other candidates wait.
  take_candidates-deferred :
      (ledger : List Fields) (requests : OpenRequests s) (candidates : List String) (w : World)
      → (take_candidates s ledger requests true candidates w).world.ledger ≡ w.ledger
  unfolding take_candidates
  take_candidates-deferred ledger requests [] w = refl
  take_candidates-deferred ledger requests (t ∷ rest) w =
      elim (Bool-cases (is_blocked s (request_of s t requests))) [
        | inl h ↦ rw h (take_candidates-deferred ledger requests rest _)
        | inr h ↦ rw h (take_candidates-deferred ledger requests rest _)
      ]

  module _ (ledger : List Fields) (requests : OpenRequests s) (t : String) (rest : List String)
      (w : World) (free : is_blocked s (request_of s t requests) ≡ false)
      (later : (w' : World)
        → AtMostOnce ledger requests rest w'.ledger
            (take_candidates s ledger requests false rest w').world.ledger) where
    go_on-AtMostOnce :
        (d : World) (b : Bool)
        → d.ledger ≡ w.ledger
        → AtMostOnce ledger requests
            (t ∷ rest)
            w.ledger
            (take_candidates s ledger requests b rest d).world.ledger
    go_on-AtMostOnce d true h = inl (take_candidates-deferred ledger requests rest d ∙ h)
    go_on-AtMostOnce d false h = one_more ledger requests t rest w.ledger _ (
        subst
          (λ before.
            AtMostOnce ledger requests rest before
              (take_candidates s ledger requests false rest d).world.ledger)
          h (later d))

    Wrote-AtMostOnce :
        (d : World) (b : Bool)
        → b ≡ true
        → Wrote s ledger w.ledger d.ledger t
        → AtMostOnce ledger requests
            (t ∷ rest)
            w.ledger
            (take_candidates s ledger requests b rest d).world.ledger
    Wrote-AtMostOnce d false h x = cc
    Wrote-AtMostOnce d true h x = inr (
      t,
      one_of_either (t == t) (any (λ y. y == t) rest) (eq_refl t),
      free,
      subst (λ after. Wrote s ledger w.ledger after t)
          (sym (take_candidates-deferred ledger requests rest d)) x,
    )

    Handled-AtMostOnce :
        (d : World) (r : Result RunError Bool)
        → Handled s ledger t w (record { result = r; world = d })
        → AtMostOnce ledger requests
            (t ∷ rest)
            w.ledger
            (settled (λ b. take_candidates s ledger requests b rest) d r).world.ledger
    Handled-AtMostOnce d (ok b) (untouched h) = go_on-AtMostOnce d b h
    Handled-AtMostOnce d (ok b) (wrote x said) = Wrote-AtMostOnce d b (said b refl) x
    Handled-AtMostOnce d (raised e) (untouched h) = inl h
    Handled-AtMostOnce d (raised e) (wrote x said) =
        inr (t, one_of_either (t == t) (any (λ y. y == t) rest) (eq_refl t), free, x)

  -- However many candidates a round takes, and whether it ends or an exception stops it, the ledger is
  -- as before or was appended to by one batch: the one staged for a candidate that no blocking
  -- request holds back, on evidence that the exchange gave and the assessment found writable.
  pub take_candidates-AtMostOnce :
      (ledger : List Fields) (requests : OpenRequests s) (candidates : List String) (w : World)
      → AtMostOnce ledger requests candidates w.ledger
          (take_candidates s ledger requests false candidates w).world.ledger
  unfolding take_candidates
  take_candidates-AtMostOnce ledger requests [] w = inl refl
  take_candidates-AtMostOnce ledger requests (t ∷ rest) w =
      elim (Bool-cases (is_blocked s (request_of s t requests))) [
        | inl h ↦ rw h (
            one_more ledger requests t rest _ _ (take_candidates-AtMostOnce ledger requests rest _))
        | inr h ↦ rw h (
            Handled-AtMostOnce ledger requests t rest w h
              (take_candidates-AtMostOnce ledger requests rest)
              (handle s t ledger (request_of s t requests) w).world
              (handle s t ledger (request_of s t requests) w).result
              (handle-Handled s t ledger (request_of s t requests) w))
      ]
