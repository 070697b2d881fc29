-- ===== src/LedgerFile/Lines.antt =====
-- How the lines of a file of src/trade_alerts/atomic_ledger_append.py come apart and together.
use trade_alerts.Base.{
  ℕ, zero, suc, ◌+◌, ◌-◌, ◌≡◌, refl, ap, ◌∙◌, Bool, true, false, ◌&&◌, not, List, [], ◌∷◌, ◌++◌,
  all, length, length-append, nat_eq, if◌then◌else◌, arith,
}
use trade_alerts.Channels.Text.{Text, drop}
use trade_alerts.LedgerFile.Texts.{is_newline, universal, is_boundary, extend, split_lines}
use trade_alerts.LedgerFile.Batch.{blob_of, last_lines}

-- No character of it ends a line.
abbrev pub is_one_line : Text → Bool
is_one_line t = all (λ c. not (is_boundary c)) t

-- It has no carriage return.
abbrev pub is_plain : Text → Bool
is_plain t = all (λ c. not (nat_eq c 13)) t

pub both : {a b : Bool} → (a && b) ≡ true → (a ≡ true) × (b ≡ true)
both {a} {b} h = ground arith

pub conj : {a b : Bool} → a ≡ true → b ≡ true → (a && b) ≡ true
conj h g = ground arith

negated : {a : Bool} → not a ≡ true → a ≡ false
negated {a} h = ground arith

pub universal-plain : (t : Text) → is_plain t ≡ true → universal false t ≡ t
unfolding universal
universal-plain [] h = refl
universal-plain (c ∷ t) h =
    let (first, rest) = both h in
    rw (negated {a = nat_eq c 13} first, universal-plain t rest) (plain_char (is_newline c) c t)
  where
    plain_char : (b : Bool) (c : ℕ) (t : Text) → (if b && false then t else c ∷ t) ≡ c ∷ t
    plain_char true c t = refl
    plain_char false c t = refl

boundary-plain : (c : ℕ) → not (is_boundary c) ≡ true → not (nat_eq c 13) ≡ true
unfolding is_boundary
boundary-plain c h = ground arith

pub one_line-plain : (t : Text) → is_one_line t ≡ true → is_plain t ≡ true
one_line-plain [] h = refl
one_line-plain (c ∷ t) h =
    let (first, rest) = both h in conj (boundary-plain c first) (one_line-plain t rest)

split_lines-line :
    (l t : Text) → is_one_line l ≡ true → split_lines (l ++ 10 ∷ t) ≡ l ∷ split_lines t
unfolding split_lines is_boundary
split_lines-line [] t h = refl
split_lines-line (c ∷ l) t h =
    let (first, rest) = both h in
    rw (negated {a = is_boundary c} first, split_lines-line l t rest) refl

pub split_lines-blob : (ls : List Text) → all is_one_line ls ≡ true → split_lines (blob_of ls) ≡ ls
unfolding blob_of split_lines
split_lines-blob [] h = refl
split_lines-blob (l ∷ ls) h =
    let (first, rest) = both h in
    split_lines-line l (blob_of ls) first ∙ ap (λ ts. l ∷ ts) (split_lines-blob ls rest)

-- The empty line that a newline behind this text makes.
unfoldable pub gap : Text → List Text
gap [] = [] ∷ []
gap (c ∷ []) = if is_boundary c then [] ∷ [] else []
gap (c ∷ d ∷ t) = gap (d ∷ t)

-- A text that is not empty has a line.
pub data IsFilled : List Text → Type 0 where
  filled : (l : Text) (ls : List Text) → IsFilled (l ∷ ls)

step-IsFilled : (b : Bool) (c : ℕ) (ls : List Text) → IsFilled (if b then [] ∷ ls else extend c ls)
step-IsFilled true c ls = filled [] ls
step-IsFilled false c [] = filled (c ∷ []) []
step-IsFilled false c (l ∷ ls) = filled (c ∷ l) ls

pub split_lines-IsFilled : (c : ℕ) (t : Text) → IsFilled (split_lines (c ∷ t))
unfolding split_lines
split_lines-IsFilled c t = step-IsFilled (is_boundary c) c (split_lines t)

extend-append : (c : ℕ) (ls ms : List Text) → IsFilled ls → extend c (ls ++ ms) ≡ extend c ls ++ ms
extend-append c _ ms (filled l ls) = refl

pub step-append :
    (b : Bool) (c : ℕ) (ls ms : List Text)
    → IsFilled ls
    → (if b then [] ∷ (ls ++ ms) else extend c (ls ++ ms))
      ≡ (if b then [] ∷ ls else extend c ls) ++ ms
step-append true c ls ms h = refl
step-append false c ls ms h = extend-append c ls ms h

step_last :
    (b : Bool) (c : ℕ) (ls : List Text)
    → (if b then [] ∷ [] ∷ ls else extend c ([] ∷ ls))
      ≡ (if b then [] ∷ [] else extend c []) ++ ((if b then [] ∷ [] else []) ++ ls)
step_last true c ls = refl
step_last false c ls = refl

pub split_lines-break :
    (f g : Text) → split_lines (f ++ 10 ∷ g) ≡ split_lines f ++ (gap f ++ split_lines g)
unfolding split_lines gap is_boundary
split_lines-break [] g = refl
split_lines-break (c ∷ []) g = step_last (is_boundary c) c (split_lines g)
split_lines-break (c ∷ d ∷ t) g = rw (split_lines-break (d ∷ t) g) (
    step-append (is_boundary c) c (split_lines (d ∷ t)) (gap (d ∷ t) ++ split_lines g)
      (split_lines-IsFilled d t))

-- No line that comes out of a split has a character that ends a line.
step-one_line :
    (b : Bool) (c : ℕ) (ls : List Text)
    → is_boundary c ≡ b
    → all is_one_line ls ≡ true
    → all is_one_line (if b then [] ∷ ls else extend c ls) ≡ true
step-one_line true c ls e h = h
step-one_line false c [] e h = rw e refl
step-one_line false c (l ∷ ls) e h = rw e h

pub split_lines-one_line : (t : Text) → all is_one_line (split_lines t) ≡ true
unfolding split_lines
split_lines-one_line [] = refl
split_lines-one_line (c ∷ t) =
    step-one_line (is_boundary c) c (split_lines t) refl (split_lines-one_line t)

drop-one_line :
    (n : ℕ) (ls : List Text) → all is_one_line ls ≡ true → all is_one_line (drop n ls) ≡ true
unfolding drop
drop-one_line zero ls h = h
drop-one_line (suc n) [] h = refl
drop-one_line (suc n) (l ∷ ls) h = drop-one_line n ls ((both h).1)

pub last_lines-one_line :
    (n : ℕ) (ls : List Text) → all is_one_line ls ≡ true → all is_one_line (last_lines n ls) ≡ true
last_lines-one_line n ls h = drop-one_line (length ls - n) ls h

drop-append : (xs ys : List Text) → drop (length xs) (xs ++ ys) ≡ ys
unfolding drop
drop-append [] ys = refl
drop-append (x ∷ xs) ys = drop-append xs ys

excess : (m n k : ℕ) → k ≡ m + n → k - n ≡ m
excess m n k h = omega (arith, h)

pub last_lines-append : (xs ys : List Text) → last_lines (length ys) (xs ++ ys) ≡ ys
last_lines-append xs ys =
    ap (λ n. drop n (xs ++ ys))
      (excess (length xs) (length ys) (length (xs ++ ys)) (length-append xs ys))
    ∙ drop-append xs ys
