-- ===== src/Channels/Split.antt =====
-- `split_text` of src/trade_alerts/channels.py loses nothing and keeps the limit.
use trade_alerts.Base.{
  ℕ, zero, suc, ◌+◌, ◌≤◌, ◌<◌, ◌≡◌, refl, ap, ◌∙◌, Bool, some, List, [], ◌∷◌, ◌++◌, All, length,
  ltb, arith, append-nil, Bool-cases, inl, inr,
}
use trade_alerts.Channels.Text.{
  Text, take, drop, join, after_last_break, cut_of, split_loop, split_text,
}

module _ {ℓ} {A : Type ℓ} where
  take-drop : (n : ℕ) (xs : List A) → take n xs ++ drop n xs ≡ xs
  unfolding take drop
  take-drop zero xs = refl
  take-drop (suc n) [] = refl
  take-drop (suc n) (x ∷ xs) = ap (λ ys. x ∷ ys) (take-drop n xs)

  pub length-take : (n : ℕ) (xs : List A) → length (take n xs) ≤ n
  unfolding take
  length-take zero xs = omega arith
  length-take (suc n) [] = omega arith
  length-take (suc n) (x ∷ xs) = omega (arith, length-take n xs)

  length-drop : (n : ℕ) (xs : List A) → n ≤ length xs → length (drop n xs) + n ≡ length xs
  unfolding drop
  length-drop zero xs h = omega arith
  length-drop (suc n) [] h = omega arith
  length-drop (suc n) (x ∷ xs) h = omega (arith, length-drop n xs (omega arith))

  length-take_of : (n : ℕ) (xs : List A) → n ≤ length xs → length (take n xs) ≡ n
  unfolding take
  length-take_of zero xs h = omega arith
  length-take_of (suc n) [] h = omega arith
  length-take_of (suc n) (x ∷ xs) h = omega (arith, length-take_of n xs (omega arith))

after_last_break-le : (t : Text) → after_last_break t ≤ length t
unfolding after_last_break
after_last_break-le [] = omega arith
after_last_break-le (c ∷ cs) = ground (arith, after_last_break-le cs)

module _ (is_space : ℕ → Bool) where
  cut-bounds :
      (limit : ℕ) (rest : Text)
      → 1 ≤ limit
      → (1 ≤ cut_of is_space limit rest) × (cut_of is_space limit rest ≤ limit)
  unfolding cut_of
  cut-bounds limit rest h =
      ground (arith, after_last_break-le (take limit rest), length-take limit rest)

  -- What a splitting is: the pieces make up the text, each is within the limit, and none is empty
  -- unless the text is.
  pub record IsSplit (limit : ℕ) (text : Text) (pieces : List Text) : Type 0 where
    pub whole : join pieces ≡ text
    pub short : All (λ p. length p ≤ limit) pieces
    pub filled : 1 ≤ length text → All (λ p. 1 ≤ length p) pieces

  split_loop-IsSplit :
      (fuel limit : ℕ) (rest : Text)
      → 1 ≤ limit
      → length rest < fuel
      → (pieces : List Text) × (split_loop is_space fuel limit rest ≡ some pieces)
        × IsSplit limit rest pieces
  unfolding split_loop join
  split_loop-IsSplit zero limit rest h enough = absurd (omega arith)
  split_loop-IsSplit (suc fuel) limit rest h enough = elim (Bool-cases (ltb limit (length rest))) [
    | inl long ↦
        let cut = cut_of is_space limit rest in
        let (low, high) = cut-bounds limit rest h in
        let over : limit < length rest = ground arith in
        let left : length (drop cut rest) + cut ≡ length rest =
          length-drop cut rest (omega arith) in
        let (ps, ran, s) = split_loop-IsSplit fuel limit (drop cut rest) h (omega arith) in
        let size = length-take_of cut rest (omega arith) in
        (
          take cut rest ∷ ps,
          rw (long, ran) refl,
          record {
            whole = ap (λ t. take cut rest ++ t) s.whole ∙ take-drop cut rest;
            short = (omega arith, s.short);
            filled = λ n. (omega arith, s.filled (omega arith));
          },
        )
    | inr short ↦ (
      rest ∷ [],
      rw short refl,
      record { whole = append-nil rest; short = (ground arith, tt); filled = λ n. (n, tt) },
    )
  ]

  -- With a limit of at least one the splitting returns: the pieces put together are the text, none is
  -- longer than the limit, and none is empty unless the text is.
  pub split_text-IsSplit :
      (text : Text) (limit : ℕ)
      → 1 ≤ limit
      → (pieces : List Text) × (split_text is_space text limit ≡ some pieces)
        × IsSplit limit text pieces
  unfolding split_text
  split_text-IsSplit text limit h =
      let (ps, ran, s) = split_loop-IsSplit (suc (length text)) limit text h (omega arith) in
      (ps, rw ran (ground arith), s)
