-- ===== src/Channels/Delivery.antt =====
-- What the channels of src/trade_alerts/channels.py deliver.
use trade_alerts.Base.{
  ℕ, zero, suc, ◌+◌, ◌-◌, ◌≤◌, ◌<◌, ◌≡◌, refl, ap, ◌∙◌, Bool, true, false, not, List, [], ◌∷◌, ◌++◌,
  All, all, select, select-append, length, length-append, ltb, arith, append-nil, Bool-cases, inl,
  inr, ◌↔◌,
}
use trade_alerts.Channels.Text.{
  Text, take, join, or_original, is_blank_text, sendable, line_max_messages, change_last,
  line_pieces,
}
use trade_alerts.Channels.Split.{length-take, split_text-IsSplit}
use trade_alerts.Channels.Waiting.{Waited, retry_from-Waited}
use trade_alerts.Channels.Sending.{retry_from, request_with_retry, send_each, telegram_send}

-- an attempt among `left` from `attempt` on that returns
abbrev pub Returning : (ℕ → Bool) → ℕ → ℕ → Type 0
Returning request attempt left = (k : ℕ) × (attempt ≤ k) × (k < attempt + left) × (request k ≡ true)

retry_from-returned :
    (left attempt : ℕ) (request : ℕ → Bool)
    → (retry_from left attempt request).returned ≡ true
    → Returning request attempt left
unfolding retry_from
retry_from-returned zero attempt request h = cc
retry_from-returned (suc left) attempt request h = elim (Bool-cases (request attempt)) [
  | inl answer ↦ (attempt, omega arith, omega arith, answer)
  | inr no_answer ↦
      let (k, low, high, answer) =
        retry_from-returned left (suc attempt) request (rw no_answer at h) in
      (k, omega arith, omega arith, answer)
]

returned-retry_from :
    (left attempt k : ℕ) (request : ℕ → Bool)
    → attempt ≤ k
    → k < attempt + left
    → request k ≡ true
    → (retry_from left attempt request).returned ≡ true
unfolding retry_from
returned-retry_from zero attempt k request low high answer = absurd (omega arith)
returned-retry_from (suc left) attempt k request low high answer =
    elim (Bool-cases (request attempt)) [
      | inl now ↦ rw now refl
      | inr no_answer ↦ rw no_answer (
          returned-retry_from left (suc attempt) k request
            (later attempt k request low no_answer answer) (omega arith) answer)
    ]
  where
    later : (a b : ℕ) (r : ℕ → Bool) → a ≤ b → r a ≡ false → r b ≡ true → suc a ≤ b
    later a b r le n y = grind arith

-- A retried request returns exactly if one of the attempts that the policy allows returns. It stops at
-- the first attempt that returns, with one wait behind each failed attempt before it; if all fail,
-- with one wait behind each but the last. The n-th wait is 2 ^ n times the policy's backoff.
pub request_with_retry-returned :
    (request : ℕ → Bool) (attempts : ℕ)
    → (((request_with_retry request attempts).returned ≡ true) ↔ Returning request 0 attempts)
      × Waited request 0 attempts (request_with_retry request attempts)
unfolding request_with_retry
request_with_retry-returned request attempts = (
  (
    retry_from-returned attempts 0 request,
    λ r. returned-retry_from attempts 0 r.0 request r.1 r.2 r.3,
  ),
  retry_from-Waited attempts 0 request,
)

-- The texts of the accepted requests, put together.
abbrev pub delivered : List (List Text) → Text
delivered [] = []
delivered (m ∷ ms) = join m ++ delivered ms

module _ (is_space : ℕ → Bool) where
  abbrev pub visible : Text → Text
  visible t = select (λ c. not (is_space c)) t

  blank_invisible : (p : Text) → all is_space p ≡ true → visible p ≡ []
  blank_invisible [] h = refl
  blank_invisible (c ∷ cs) h = ground (arith, blank_invisible cs)

  filtered-visible :
      (ps : List Text)
      → visible (join (select (λ p. not (is_blank_text is_space p)) ps)) ≡ visible (join ps)
  unfolding join
  filtered-visible [] = refl
  filtered-visible (p ∷ ps) = elim (Bool-cases (all is_space p)) [
    | inl blank ↦
        rw (blank, select-append (λ c. not (is_space c)) p (join ps), blank_invisible p blank)
          (filtered-visible ps)
    | inr shown ↦
        rw
          (
            shown,
            select-append (λ c. not (is_space c)) p
                (join (select (λ p. not (is_blank_text is_space p)) ps)),
            select-append (λ c. not (is_space c)) p (join ps),
            filtered-visible ps,
          )
          refl
  ]

  original_kept :
      (ps : List Text) (t : Text)
      → visible (join ps) ≡ visible t
      → visible (join (or_original is_space ps t)) ≡ visible t
  unfolding join
  original_kept [] t h = ap visible (append-nil t)
  original_kept (p ∷ ps) t h = h

  sendable-visible :
      (ps : List Text) (t : Text)
      → join ps ≡ t
      → visible (join (sendable is_space ps t)) ≡ visible t
  unfolding sendable
  sendable-visible ps t h = original_kept _ t (filtered-visible ps ∙ ap visible h)

  module _ (attempts : ℕ) (post : List Text → ℕ → Bool) where
    send_each-delivered :
        (ps : List Text)
        → (send_each is_space attempts post ps).returned ≡ true
        → delivered (send_each is_space attempts post ps).texts ≡ join ps
    unfolding send_each join
    send_each-delivered [] h = refl
    send_each-delivered (p ∷ ps) h =
        elim (Bool-cases (request_with_retry (post (p ∷ [])) attempts).returned) [
          | inl answer ↦
              rw (answer, append-nil p) (ap (λ t. p ++ t) (send_each-delivered ps (rw answer at h)))
          | inr failed ↦ absurd (impossible (rw failed at h))
        ]
      where
        impossible : false ≡ true → ⊥
        impossible e = cc

    -- A Telegram send that returns delivered, in order, every visible character of the text: for a
    -- limit of at least one.
    pub telegram_send-visible :
        (limit : ℕ) (text : Text)
        → 1 ≤ limit
        → (telegram_send is_space attempts post true limit text).returned ≡ true
        → visible (delivered (telegram_send is_space attempts post true limit text).texts)
          ≡ visible text
    unfolding telegram_send
    telegram_send-visible limit text positive h =
        let (ps, ran, s) = split_text-IsSplit is_space text limit positive in
        rw ran (
          ap visible (send_each-delivered (sendable is_space ps text) (rw ran at h))
          ∙ sendable-visible ps text s.whole)

change_last-short :
    (limit : ℕ) (f : Text → Text) (ps : List Text)
    → ((p : Text) → length (f p) ≤ limit)
    → All (λ p. length p ≤ limit) ps
    → All (λ p. length p ≤ limit) (change_last f ps)
unfolding change_last
change_last-short limit f [] h k = tt
change_last-short limit f (p ∷ []) h k = (h p, tt)
change_last-short limit f (p ∷ q ∷ ps) h k = (k.0, change_last-short limit f (q ∷ ps) h k.1)

length-change_last : (f : Text → Text) (ps : List Text) → length (change_last f ps) ≡ length ps
unfolding change_last
length-change_last f [] = refl
length-change_last f (p ∷ []) = refl
length-change_last f (p ∷ q ∷ ps) = omega (arith, length-change_last f (q ∷ ps))

take-short :
    (limit n : ℕ) (ps : List Text)
    → All (λ p. length p ≤ limit) ps
    → All (λ p. length p ≤ limit) (take n ps)
unfolding take
take-short limit zero ps h = tt
take-short limit (suc n) [] h = tt
take-short limit (suc n) (p ∷ ps) h = (h.0, take-short limit n ps h.1)

-- What goes into one LINE push is at most five pieces, each within the limit, if the pieces were and
-- the truncation mark is not longer than the limit.
pub line_pieces-bounds :
    (mark : Text) (limit : ℕ) (ps : List Text)
    → length mark ≤ limit
    → All (λ p. length p ≤ limit) ps
    → (length (line_pieces mark limit ps) ≤ line_max_messages)
      × All (λ p. length p ≤ limit) (line_pieces mark limit ps)
unfolding line_pieces
line_pieces-bounds mark limit ps h k = elim (Bool-cases (ltb line_max_messages (length ps))) [
  | inl many ↦ rw many (
    omega (
      arith,
      length-change_last (λ p. take (limit - length mark) p ++ mark) (take 5 ps),
      length-take 5 ps,
    ),
    change_last-short limit (λ p. take (limit - length mark) p ++ mark) (take 5 ps)
        (λ p. omega (
          arith,
          length-append (take (limit - length mark) p) mark,
          length-take (limit - length mark) p,
        ))
        (take-short limit 5 ps k),
  )
  | inr few ↦ rw few (ground arith, k)
]
