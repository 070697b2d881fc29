-- ===== src/Channels/Waiting.antt =====
-- When `request_with_retry` of src/trade_alerts/core.py waits.
use trade_alerts.Base.{
  ℕ, zero, suc, ◌+◌, ◌^◌, ◌≤◌, ◌<◌, ◌≡◌, refl, ap, ◌∙◌, Bool, true, false, List, [], ◌∷◌, arith,
  ltb, Bool-cases, inl, inr,
}
use trade_alerts.Channels.Sending.{Tried, retry_from}

-- The waits after `n` attempts from `attempt` on that failed: each twice the one before.
unfoldable pub backoffs : ℕ → ℕ → List ℕ
backoffs attempt zero = []
backoffs attempt (suc n) = 2 ^ attempt ∷ backoffs (suc attempt) n

abbrev pub one_less : ℕ → ℕ
one_less zero = zero
one_less (suc n) = n

-- The `n` attempts from `attempt` on all fail.
abbrev pub Failing : (ℕ → Bool) → ℕ → ℕ → Type 0
Failing request attempt n = (k : ℕ) → attempt ≤ k → k < attempt + n → request k ≡ false

-- Some attempt returns after failed ones, with a wait behind each failed one, or all fail, with a
-- wait behind each but the last.
pub data Waited (request : ℕ → Bool) (attempt left : ℕ) (t : Tried) : Type 0 where
  returned_at :
      (n : ℕ)
      → n < left
      → Failing request attempt n
      → request (attempt + n) ≡ true
      → t.waits ≡ backoffs attempt n
      → Waited request attempt left t
  exhausted :
      Failing request attempt left
      → t.waits ≡ backoffs attempt (one_less left)
      → Waited request attempt left t

Failing-one_more :
    (request : ℕ → Bool) (attempt n : ℕ)
    → request attempt ≡ false
    → Failing request (suc attempt) n
    → Failing request attempt (suc n)
Failing-one_more request attempt n now later k low high = grind (arith, later k)

positive : (n : ℕ) → ltb 0 (suc n) ≡ true
positive n = ground arith

retry_from-failed :
    (request : ℕ → Bool) (attempt left : ℕ)
    → request attempt ≡ false
    → Waited request (suc attempt) left (retry_from left (suc attempt) request)
    → Waited request attempt (suc left) (retry_from (suc left) attempt request)
unfolding retry_from backoffs
retry_from-failed request attempt zero failed (returned_at n few fail now waits) =
    absurd (omega arith)
retry_from-failed request attempt (suc left) failed (returned_at n few fail now waits) =
    returned_at (suc n) (omega arith) (Failing-one_more request attempt n failed fail)
      (ap request (omega arith) ∙ now)
      (rw (failed, positive left) (ap (λ ws. 2 ^ attempt ∷ ws) waits))
retry_from-failed request attempt zero failed (exhausted fail waits) =
    exhausted (Failing-one_more request attempt 0 failed fail) (rw failed refl)
retry_from-failed request attempt (suc left) failed (exhausted fail waits) =
    exhausted (Failing-one_more request attempt (suc left) failed fail)
      (rw (failed, positive left) (ap (λ ws. 2 ^ attempt ∷ ws) waits))

pub retry_from-Waited :
    (left attempt : ℕ) (request : ℕ → Bool)
    → Waited request attempt left (retry_from left attempt request)
unfolding retry_from backoffs
retry_from-Waited zero attempt request = exhausted (λ k low high. absurd (omega arith)) refl
retry_from-Waited (suc left) attempt request = elim (Bool-cases (request attempt)) [
  | inl answer ↦
      returned_at 0 (omega arith) (λ k low high. absurd (omega arith))
        (ap request (omega arith) ∙ answer) (rw answer refl)
  | inr no_answer ↦
      retry_from-failed request attempt left no_answer
        (retry_from-Waited left (suc attempt) request)
]
