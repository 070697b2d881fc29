-- ===== src/SafeHalt/Token.antt =====
-- The confirmation token of src/trade_alerts/safe_halt_model.py: what moves it, and that it clears a
-- latch once.
use mathlib.Core.Path.{subst}
use trade_alerts.Base.{
  ◌≡◌, refl, sym, ap, ◌∙◌, Bool, true, false, not, List, ◌∷◌, ◌++◌, String, ◌==◌, any-append, arith,
  eq_refl,
}
use trade_alerts.Result.{ok, raised, ◌>>◌, raise_if, bind-eq-ok, ok-injective}
use trade_alerts.Json.{
  update_fields, Json, str, obj, Fields, end, get, find, put, is_text, is_canonical_fields,
  is_filled_text,
}
use trade_alerts.Json.Puts.{get-put, get-put-other}
use trade_alerts.SafeHalt.Latch.{
  HaltError, already_cleared, reason_required, require_condition_code, halt_dict, fingerprint_core,
  latch_record, HaltArgs, build_safe_halt, safe_halt_fingerprint, unchanged, re_assert, is_true,
}
use trade_alerts.SafeHalt.Resume.{
  is_cleared, assert_not_already_cleared, resume_preview, safe_halt_cleared_fields,
}

-- What a latch that was built is like.
pub record IsLatch (a : HaltArgs) (h : Fields) : Type 0 where
  pub active : is_true (get "active" h) ≡ true
  pub code : require_condition_code (get "code" h) ≡ ok (get "code" h)
  pub canonical : is_canonical_fields (fingerprint_core h) ≡ true
  pub evidence : Fields
  pub stored : halt_dict a.evidence ≡ ok evidence
  pub core :
      fingerprint_core h ≡ fingerprint_core (latch_record "" a.code a.reason a.reason evidence end)

code-eq-ok :
    (v c : Json) → require_condition_code v ≡ ok c → (v ≡ c) × (require_condition_code c ≡ ok c)
unfolding require_condition_code
code-eq-ok v c h = ground arith

last :
    {A : Type 0} (b : Bool) (e : HaltError) (x : A) {y : A}
    → (do raise_if (not b) e; ok x) ≡ ok y
    → (b ≡ true) × (x ≡ y)
last true e x h = (refl, ok-injective h)
last false e x h = cc

pub build_safe_halt-IsLatch :
    (now : String) (a : HaltArgs) {h : Fields} → build_safe_halt now a ≡ ok h → IsLatch a h
unfolding build_safe_halt fingerprint_core get find
build_safe_halt-IsLatch now a {h} e =
    let (u, reason, e1) =
      bind-eq-ok (raise_if (not (is_filled_text a.reason)) reason_required) _ e in
    let (code, c, e2) = bind-eq-ok (require_condition_code a.code) _ e1 in
    let (evidence, ev, e3) = bind-eq-ok (halt_dict a.evidence) _ e2 in
    let (details, d, e4) = bind-eq-ok (halt_dict a.details) _ e3 in
    let (canonical, same) = last _ _ _ e4 in
    let (named, bare) = code-eq-ok a.code code c in
    subst (IsLatch a) same (record {
      active = refl;
      code = bare;
      canonical = canonical;
      evidence = evidence;
      stored = ev;
      core =
          ap (λ v. fingerprint_core (latch_record "" v a.reason a.reason evidence end)) (sym named);
    })

fingerprint_core-since :
    (v : Json) (h : Fields) → fingerprint_core (put "since" v h) ≡ fingerprint_core h
unfolding fingerprint_core
fingerprint_core-since v h =
    rw
      (
        get-put-other "code" "since" v h refl,
        get-put-other "reason" "since" v h refl,
        get-put-other "evidence" "since" v h refl,
      )
      refl

module _ (digest : Fields → String) where
  fingerprint-IsLatch :
      (a : HaltArgs) (h : Fields)
      → IsLatch a h
      → safe_halt_fingerprint digest h ≡ ok (digest (fingerprint_core h))
  unfolding safe_halt_fingerprint
  fingerprint-IsLatch a h l = rw (l.code, l.canonical) refl

  same_core :
      (a b : HaltArgs) (g h : Fields)
      → a.code ≡ b.code
      → a.reason ≡ b.reason
      → a.evidence ≡ b.evidence
      → IsLatch a g
      → IsLatch b h
      → fingerprint_core g ≡ fingerprint_core h
  same_core a b g h c r e k l =
      let same : k.evidence ≡ l.evidence =
        ok-injective (sym k.stored ∙ ap halt_dict e ∙ l.stored) in
      k.core
      ∙ ap (λ v. fingerprint_core (latch_record "" v a.reason a.reason k.evidence end)) c
      ∙ ap (λ v. fingerprint_core (latch_record "" b.code v v k.evidence end)) r
      ∙ ap (λ v. fingerprint_core (latch_record "" b.code b.reason b.reason v end)) same
      ∙ sym l.core

  pub fingerprint-filled :
      (h : Fields) {fp : String}
      → ((c : Fields) → (digest c == "") ≡ false)
      → safe_halt_fingerprint digest h ≡ ok fp
      → (fp == "") ≡ false
  unfolding safe_halt_fingerprint
  fingerprint-filled h {fp} filled e =
      let (code, c, e1) = bind-eq-ok (require_condition_code (get "code" h)) _ e in
      let (canonical, same) = last _ _ _ e1 in
      subst (λ s. (s == "") ≡ false) same (filled (fingerprint_core h))

  re_assert-put :
      (a b : HaltArgs) (g h : Fields)
      → fingerprint_core g ≡ fingerprint_core h
      → IsLatch a g
      → IsLatch b h
      → is_filled_text (get "since" g) ≡ true
      → re_assert digest (obj g) h ≡ put "since" (get "since" g) h
  unfolding re_assert unchanged
  re_assert-put a b g h core k l since =
      rw
        (
          k.active,
          fingerprint-IsLatch a g k,
          fingerprint-IsLatch b h l,
          core,
          eq_refl (digest (fingerprint_core h)),
          since,
        )
        refl

  fingerprint-since :
      (b : HaltArgs) (h : Fields)
      → IsLatch b h
      → (v : Json)
      → safe_halt_fingerprint digest (put "since" v h) ≡ ok (digest (fingerprint_core h))
  unfolding safe_halt_fingerprint
  fingerprint-since b h l v =
      rw (get-put-other "code" "since" v h refl, l.code, fingerprint_core-since v h, l.canonical)
        refl

  -- A latch that is raised again for the same code, reason and evidence, at any time and with any
  -- details, keeps the time of the first latch and its token, if the first latch has a time.
  pub re_assert-since :
      (now now' : String) (a b : HaltArgs) {g h : Fields}
      → a.code ≡ b.code
      → a.reason ≡ b.reason
      → a.evidence ≡ b.evidence
      → build_safe_halt now a ≡ ok g
      → build_safe_halt now' b ≡ ok h
      → is_filled_text (get "since" g) ≡ true
      → (get "since" (re_assert digest (obj g) h) ≡ get "since" g)
        × (safe_halt_fingerprint digest (re_assert digest (obj g) h)
            ≡ safe_halt_fingerprint digest g)
  re_assert-since now now' a b {g} {h} c r e x y since =
      let k = build_safe_halt-IsLatch now a x in
      let l = build_safe_halt-IsLatch now' b y in
      let core = same_core a b g h c r e k l in
      let kept = re_assert-put a b g h core k l since in
      (
        ap (get "since") kept ∙ get-put "since" (get "since" g) h,
        ap (safe_halt_fingerprint digest) kept
            ∙ fingerprint-since b h l (get "since" g)
            ∙ ap (λ v. ok (digest v)) (sym core)
            ∙ sym (fingerprint-IsLatch a g k),
      )

module _ (digest : Fields → String) (strip : String → String) where
  is_cleared-row :
      (fp : String) (before after : List Json) (row : Fields)
      → get "event_type" row ≡ str "safe_halt_cleared"
      → get "halt_fingerprint" row ≡ str fp
      → (fp == "") ≡ false
      → is_cleared fp (before ++ obj row ∷ after) ≡ true
  unfolding is_cleared is_text
  is_cleared-row fp before after row kind print filled =
      rw (any-append, kind, print, filled, eq_refl fp) (ground arith)

  cleared-fingerprint :
      (now : String) (halt : Fields) (method : String) (cleared_at reason : Json) {fields : Fields}
      → safe_halt_cleared_fields digest strip now halt method cleared_at reason end ≡ ok fields
      → (fp : String) × (safe_halt_fingerprint digest halt ≡ ok fp)
        × (get "halt_fingerprint" fields ≡ str fp)
  unfolding safe_halt_cleared_fields update_fields get find
  cleared-fingerprint now halt method cleared_at reason {fields} h = ground arith

  -- Once a ledger has the row of a cleared latch, wherever it stands, the same latch cannot be
  -- previewed for another clearing: for a digest that is never empty, and a row with the code's event
  -- type and the fingerprint of the fields that were built.
  pub cleared_once :
      (now : String) (halt : Fields) (method : String) (cleared_at reason : Json)
      (before after : List Json) (row : Fields) {fields : Fields}
      → ((c : Fields) → (digest c == "") ≡ false)
      → safe_halt_cleared_fields digest strip now halt method cleared_at reason end ≡ ok fields
      → get "event_type" row ≡ str "safe_halt_cleared"
      → get "halt_fingerprint" row ≡ get "halt_fingerprint" fields
      → resume_preview digest strip halt (before ++ obj row ∷ after) ≡ raised already_cleared
  unfolding resume_preview assert_not_already_cleared
  cleared_once now halt method cleared_at reason before after row {fields} filled h kind copied =
      let (fp, printed, shown) = cleared-fingerprint now halt method cleared_at reason h in
      rw
        (
          printed,
          is_cleared-row fp before after row kind (copied ∙ shown)
              (fingerprint-filled digest halt filled printed),
        )
        refl
