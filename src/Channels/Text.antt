-- ===== src/Channels/Text.antt =====
-- `split_text`, `sendable` and the cap of the LINE channel, of src/trade_alerts/channels.py. A text is
-- the list of its code points; `is_space` stands for the characters that `str.strip` drops.
use trade_alerts.Base.{
  ℕ, zero, suc, ◌-◌, Bool, ◌||◌, not, Option, none, some, List, [], ◌∷◌, ◌++◌, all, select, length,
  ltb, nat_eq, if◌then◌else◌,
}

abbrev pub Text : Type 0
Text = List ℕ

-- xs[:n]
unfoldable pub take {ℓ} : {A : Type ℓ} → ℕ → List A → List A
take zero xs = []
take (suc n) [] = []
take (suc n) (x ∷ xs) = x ∷ take n xs

-- xs[n:]
unfoldable pub drop {ℓ} : {A : Type ℓ} → ℕ → List A → List A
drop zero xs = xs
drop (suc n) [] = []
drop (suc n) (x ∷ xs) = drop n xs

-- "".join(pieces)
unfoldable pub join : List Text → Text
join [] = []
join (p ∷ ps) = p ++ join ps

-- text.rfind("\n") + 1
unfoldable pub after_last_break : Text → ℕ
after_last_break [] = 0
after_last_break (c ∷ cs) =
    let rest = after_last_break cs in
    if nat_eq rest 0 then (if nat_eq c 10 then 1 else 0) else suc rest

module _ (is_space : ℕ → Bool) where
  -- not text.strip()
  abbrev pub is_blank_text : Text → Bool
  is_blank_text t = all is_space t

  unfoldable pub cut_of : ℕ → Text → ℕ
  cut_of limit rest =
      let cut = after_last_break (take limit rest) in
      if nat_eq cut 0 || is_blank_text (take cut rest) then limit else cut

  abbrev with_piece : Text → Option (List Text) → Option (List Text)
  with_piece p none = none
  with_piece p (some ps) = some (p ∷ ps)

  -- the loop, for fuel above the length of the rest
  unfoldable pub split_loop : ℕ → ℕ → Text → Option (List Text)
  split_loop zero limit rest = none
  split_loop (suc fuel) limit rest =
      let more = split_loop fuel limit (drop (cut_of limit rest) rest) in
      if ltb limit (length rest)
      then with_piece (take (cut_of limit rest) rest) more
      else some (rest ∷ [])

  -- none is the ValueError for a limit below one
  unfoldable pub split_text : Text → ℕ → Option (List Text)
  split_text text limit =
      let pieces = split_loop (suc (length text)) limit text in if ltb limit 1 then none else pieces

  abbrev pub or_original : List Text → Text → List Text
  or_original [] original = original ∷ []
  or_original (p ∷ ps) original = p ∷ ps

  unfoldable pub sendable : List Text → Text → List Text
  sendable pieces original = or_original (select (λ p. not (is_blank_text p)) pieces) original

abbrev pub line_max_messages : ℕ
line_max_messages = 5

-- pieces[-1] = f(pieces[-1])
unfoldable pub change_last : (Text → Text) → List Text → List Text
change_last f [] = []
change_last f (p ∷ []) = f p ∷ []
change_last f (p ∷ q ∷ ps) = p ∷ change_last f (q ∷ ps)

-- What the LINE channel puts into one push; `mark` is the truncation mark. Python's slice counts a
-- negative bound from the end, which a mark longer than the limit would give.
unfoldable pub line_pieces : Text → ℕ → List Text → List Text
line_pieces mark limit pieces =
    if ltb line_max_messages (length pieces)
    then change_last (λ p. take (limit - length mark) p ++ mark) (take line_max_messages pieces)
    else pieces
