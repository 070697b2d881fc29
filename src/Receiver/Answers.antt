-- ===== src/Receiver/Answers.antt =====
-- What `deliver_projection_v2` of src/trade_alerts/google_ledger_client.py returns.
use trade_alerts.Base.{
  ℕ, zero, suc, ◌+◌, ◌<◌, ◌≡◌, refl, ap, ◌∙◌, ◌⊎◌, inl, inr, Bool, true, false, ◌&&◌, not, Option,
  none, some, [], ◌∷◌, String, ltb, if◌then◌else◌, arith, Bool-cases,
}
use trade_alerts.Base.Int.{ℤ, int_ltb}
use trade_alerts.Result.{Result, ok, raised}
use trade_alerts.Json.{Json, Fields, get, truthy}
use trade_alerts.Receiver.Redirect.{ClientError, Url, is_text_https}
use trade_alerts.Receiver.Delivery.{
  Network, Submission, Delivered, submission_actions, is_in, action_of, refused, confirm,
  receiver_error, terminal_receiver_errors, interpret, attempt_post, settle_attempt, deliver_from,
  at_least_one, deliver_projection_v2, py_text,
}

plus_zero : (n : ℕ) → n + 0 ≡ n
plus_zero n = omega arith

plus_suc : (m n : ℕ) → m + suc n ≡ suc m + n
plus_suc m n = omega arith

module _ (parse : String → Option Url) (lower : String → String) (print : Json → String)
    (net : Network) (endpoint : Json) where
  abbrev pub answer_at : ℕ → Result ClientError Fields
  answer_at k = (attempt_post parse lower print net endpoint k).answer

  -- The attempts from `attempt` on, `n` of them, all raised.
  abbrev pub AllRaised : ℕ → ℕ → Type 0
  AllRaised attempt zero = Unit
  AllRaised attempt (suc n) =
      ((e : ClientError) × (answer_at attempt ≡ raised e)) × AllRaised (suc attempt) n

  -- The first attempt of those that was answered, and what the call made of it.
  abbrev pub First : ℕ → ℕ → Delivered → Type 0
  First attempt left d =
      (n : ℕ) × (result : Fields) × (n < left)
      × AllRaised attempt n
      × (answer_at (attempt + n) ≡ ok result)
      × (d.submission ≡ interpret parse lower print result)
      × (d.posts ≡ n + 1)

  -- No attempt was answered.
  abbrev pub Unanswered : ℕ → ℕ → Delivered → Type 0
  Unanswered attempt left d =
      AllRaised attempt left
      × (d.submission ≡ refused "TRANSPORT_FAILED" "transport_failed")
      × (d.posts ≡ left)

  deliver_from-cases :
      (left attempt : ℕ)
      → let d = deliver_from parse lower print net endpoint left attempt in
        First attempt left d ⊎ Unanswered attempt left d
  unfolding deliver_from
  deliver_from-cases zero attempt = inr (tt, refl, refl)
  deliver_from-cases (suc left) attempt =
      settled (answer_at attempt) refl (deliver_from-cases left (suc attempt))
    where
      more : Delivered
      more = deliver_from parse lower print net endpoint left (suc attempt)

      last : Bool
      last = not (ltb 0 left)

      settled :
          (a : Result ClientError Fields)
          → answer_at attempt ≡ a
          → First (suc attempt) left more ⊎ Unanswered (suc attempt) left more
          → let d = settle_attempt parse lower print net endpoint last attempt more a in
            First attempt (suc left) d ⊎ Unanswered attempt (suc left) d
      settled (ok result) e rest =
          inl (0, result, omega arith, tt, ap answer_at (plus_zero attempt) ∙ e, refl, refl)
      settled (raised x) e (inl (n, result, low, before, came, made, count)) = inl (
        suc n,
        result,
        omega arith,
        ((x, e), before),
        ap answer_at (plus_suc attempt n) ∙ came,
        made,
        omega (arith, count),
      )
      settled (raised x) e (inr (before, made, count)) =
          inr (((x, e), before), made, omega (arith, count))

  -- With an allowed action and an HTTPS endpoint the call returns what the first answered attempt
  -- means, after as many posts, or "transport_failed" when each of the attempts raised; there is at
  -- least one attempt.
  pub deliver_projection-First :
      (payload : Fields) (attempts : ℕ)
      → is_in submission_actions (action_of (get "action" payload)) ≡ true
      → is_text_https endpoint ≡ true
      → let d = deliver_projection_v2 parse lower print net endpoint payload attempts in
        First 0 (at_least_one parse lower print net endpoint attempts) d
        ⊎ Unanswered 0 (at_least_one parse lower print net endpoint attempts) d
  unfolding deliver_projection_v2
  deliver_projection-First payload attempts allowed secure =
      rw (allowed, secure)
        (deliver_from-cases (at_least_one parse lower print net endpoint attempts) 0)

module _ (parse : String → Option Url) (lower : String → String) (print : Json → String)
    (net : Network) (endpoint : Json) where
  deliver_from-answered :
      (n : ℕ) (result : Fields)
      → answer_at parse lower print net endpoint 0 ≡ ok result
      → (deliver_from parse lower print net endpoint
          (at_least_one parse lower print net endpoint n)
          0).submission
        ≡ interpret parse lower print result
  unfolding deliver_from
  deliver_from-answered zero result h = rw h refl
  deliver_from-answered (suc n) result h = elim (Bool-cases (ltb (suc n) 1)) [
    | inl b ↦ rw (b, h) refl
    | inr b ↦ rw (b, h) refl
  ]

  pub deliver-answered :
      (payload : Fields) (attempts : ℕ) (result : Fields)
      → is_in submission_actions (action_of (get "action" payload)) ≡ true
      → is_text_https endpoint ≡ true
      → answer_at parse lower print net endpoint 0 ≡ ok result
      → (deliver_projection_v2 parse lower print net endpoint payload attempts).submission
        ≡ interpret parse lower print result
  unfolding deliver_projection_v2
  deliver-answered payload attempts result allowed secure h =
      rw (allowed, secure) (deliver_from-answered attempts result h)

-- A row that the local records take, and a status that they know.
abbrev pub is_row : Option ℤ → Bool
is_row none = true
is_row (some n) = not (int_ltb n 2)

abbrev pub is_submission : Submission → Bool
is_submission s =
    is_in ("CONFIRMED" ∷ "REJECTED" ∷ "TRANSPORT_FAILED" ∷ []) s.status && is_row s.receiver_row

confirm-is_submission : (row : Json) → is_submission (confirm row) ≡ true
confirm-is_submission (Json.int n) = elim (Bool-cases (int_ltb n 2)) [
  | inl h ↦ rw h refl
  | inr h ↦ rw (h, h) refl
]
confirm-is_submission _ = refl

refused-is_submission :
    (terminal : Bool) (error : String)
    → is_submission (refused (if terminal then "REJECTED" else "TRANSPORT_FAILED") error) ≡ true
refused-is_submission true error = refl
refused-is_submission false error = refl

is_submission-if :
    (b : Bool) (s t : Submission)
    → is_submission s ≡ true
    → is_submission t ≡ true
    → is_submission (if b then s else t) ≡ true
is_submission-if true s t p q = p
is_submission-if false s t p q = q

module _ (parse : String → Option Url) (lower : String → String) (print : Json → String) where
  interpret-is_submission :
      (result : Fields) → is_submission (interpret parse lower print result) ≡ true
  unfolding interpret
  interpret-is_submission result =
      is_submission-if (truthy (get "ok" result)) (confirm (get "row" result))
        (receiver_error parse lower print result) (confirm-is_submission (get "row" result))
        (refused-is_submission
          (is_in terminal_receiver_errors (py_text parse lower print (get "error" result)))
          (py_text parse lower print (get "error" result)))

  module _ (net : Network) (endpoint : Json) where
    settle-is_submission :
        (last : Bool) (attempt : ℕ) (more : Delivered) (a : Result ClientError Fields)
        → is_submission more.submission ≡ true
        → is_submission
            (settle_attempt parse lower print net endpoint last attempt more a).submission
          ≡ true
    settle-is_submission last attempt more (ok result) h = interpret-is_submission result
    settle-is_submission last attempt more (raised e) h = h

    deliver_from-is_submission :
        (left attempt : ℕ)
        → is_submission (deliver_from parse lower print net endpoint left attempt).submission ≡ true
    unfolding deliver_from
    deliver_from-is_submission zero attempt = refl
    deliver_from-is_submission (suc left) attempt =
        settle-is_submission (not (ltb 0 left)) attempt
          (deliver_from parse lower print net endpoint left (suc attempt))
          (answer_at parse lower print net endpoint attempt)
          (deliver_from-is_submission left (suc attempt))

    -- Whatever the call returns, its status is one the records know, and it has no row below 2.
    pub deliver-is_submission :
        (payload : Fields) (attempts : ℕ)
        → is_submission
            (deliver_projection_v2 parse lower print net endpoint payload attempts).submission
          ≡ true
    unfolding deliver_projection_v2
    deliver-is_submission payload attempts =
        elim (Bool-cases (is_in submission_actions (action_of (get "action" payload)))) [
          | inr h ↦ rw h refl
          | inl h ↦ elim (Bool-cases (is_text_https endpoint)) [
            | inr g ↦ rw (h, g) refl
            | inl g ↦
                rw (h, g)
                  (deliver_from-is_submission (at_least_one parse lower print net endpoint attempts)
                    0)
          ]
        ]
