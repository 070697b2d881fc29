-- ===== src/LedgerFile/ReadBack.antt =====
-- What the read-back of `append_lines_atomically` of src/trade_alerts/atomic_ledger_append.py sees.
use trade_alerts.Base.{
  ℕ, ◌≡◌, refl, sym, ap, ◌∙◌, Bool, true, false, not, List, [], ◌∷◌, ◌++◌, append-nil, append_assoc,
  all, all-append, length, nat_eq, if◌then◌else◌, arith, Bool-cases, inl, inr,
}
use trade_alerts.Result.{ok, raised}
use trade_alerts.Channels.Text.{Text}
use trade_alerts.LedgerFile.Texts.{is_newline, is_boundary, split_lines, same_text, same_lines}
use trade_alerts.LedgerFile.Batch.{
  read_back_differs, blob_of, needs_leading_newline, batch_text, lines_of, last_lines, read_back,
}
use trade_alerts.LedgerFile.Lines.{
  is_one_line, is_plain, universal-plain, one_line-plain, gap, split_lines-blob, split_lines-break,
  last_lines-append, step-append, split_lines-IsFilled, both, conj,
}

-- Equal texts

decided : (b : Bool) → not b ≡ false → b ≡ true
decided b h = ground arith

nat_eq_sound : (m n : ℕ) → nat_eq m n ≡ true → m ≡ n
nat_eq_sound m n h = ground arith

same_text_sound : (s t : Text) → same_text s t ≡ true → s ≡ t
unfolding same_text
same_text_sound [] [] h = refl
same_text_sound [] (d ∷ t) h = cc
same_text_sound (c ∷ s) [] h = cc
same_text_sound (c ∷ s) (d ∷ t) h =
    let (first, rest) = both h in
    ap (λ x. x ∷ s) (nat_eq_sound c d first) ∙ ap (λ x. d ∷ x) (same_text_sound s t rest)

pub same_lines_sound : (ss ts : List Text) → same_lines ss ts ≡ true → ss ≡ ts
unfolding same_lines
same_lines_sound [] [] h = refl
same_lines_sound [] (t ∷ ts) h = cc
same_lines_sound (s ∷ ss) [] h = cc
same_lines_sound (s ∷ ss) (t ∷ ts) h =
    let (first, rest) = both h in
    ap (λ x. x ∷ ss) (same_text_sound s t first) ∙ ap (λ x. t ∷ x) (same_lines_sound ss ts rest)

nat_eq-same : (n : ℕ) → nat_eq n n ≡ true
nat_eq-same n = ground arith

same_text-same : (s : Text) → same_text s s ≡ true
unfolding same_text
same_text-same [] = refl
same_text-same (c ∷ s) = conj (nat_eq-same c) (same_text-same s)

same_lines-same : (ss : List Text) → same_lines ss ss ≡ true
unfolding same_lines
same_lines-same [] = refl
same_lines-same (s ∷ ss) = conj (same_text-same s) (same_lines-same ss)

-- Plain texts

one_lines-plain : (ls : List Text) → all is_one_line ls ≡ true → is_plain (blob_of ls) ≡ true
unfolding blob_of
one_lines-plain [] h = refl
one_lines-plain (l ∷ ls) h =
    let (first, rest) = both h in
    all-append _ l (10 ∷ blob_of ls) ∙ conj (one_line-plain l first) (one_lines-plain ls rest)

-- The empty line between a torn last line and the batch.
abbrev pub between : Text → List Text
between f = if needs_leading_newline f then gap f else []

newline-boundary : (c : ℕ) → is_newline c ≡ true → is_boundary c ≡ true
unfolding is_boundary
newline-boundary c h = ground arith

batch-ended :
    (f : Text) (ls : List Text) → needs_leading_newline f ≡ false → batch_text f ls ≡ blob_of ls
batch-ended f ls h = rw h refl

batch-torn :
    (f : Text) (ls : List Text) → needs_leading_newline f ≡ true → batch_text f ls ≡ 10 ∷ blob_of ls
batch-torn f ls h = rw h refl

pub between-ended : (f : Text) → needs_leading_newline f ≡ false → between f ≡ []
between-ended f h = rw h refl

pub between-torn : (f : Text) → needs_leading_newline f ≡ true → between f ≡ gap f
between-torn f h = rw h refl

-- Behind a newline the lines of a text are its own.
split_lines-ended :
    (f t : Text)
    → needs_leading_newline f ≡ false
    → split_lines (f ++ t) ≡ split_lines f ++ split_lines t
unfolding split_lines needs_leading_newline
split_lines-ended [] t h = refl
split_lines-ended (c ∷ []) t h = rw (newline-boundary c (decided (is_newline c) h)) refl
split_lines-ended (c ∷ d ∷ f) t h =
    rw (split_lines-ended (d ∷ f) t h) (
      step-append (is_boundary c) c (split_lines (d ∷ f)) (split_lines t)
        (split_lines-IsFilled d f))

split_lines-batch :
    (f : Text) (encoded : List Text)
    → all is_one_line encoded ≡ true
    → split_lines (f ++ batch_text f encoded) ≡ split_lines f ++ (between f ++ encoded)
split_lines-batch f encoded h = elim (Bool-cases (needs_leading_newline f)) [
  | inl e ↦
      ap (λ t. split_lines (f ++ t)) (batch-torn f encoded e)
      ∙ split_lines-break f (blob_of encoded)
      ∙ ap (λ ls. split_lines f ++ (gap f ++ ls)) (split_lines-blob encoded h)
      ∙ ap (λ ls. split_lines f ++ (ls ++ encoded)) (sym (between-torn f e))
  | inr e ↦
      ap (λ t. split_lines (f ++ t)) (batch-ended f encoded e)
      ∙ split_lines-ended f (blob_of encoded) e
      ∙ ap (λ ls. split_lines f ++ ls) (split_lines-blob encoded h)
      ∙ ap (λ ls. split_lines f ++ (ls ++ encoded)) (sym (between-ended f e))
]

batch-plain :
    (f : Text) (ls : List Text)
    → is_plain f ≡ true
    → all is_one_line ls ≡ true
    → is_plain (f ++ batch_text f ls) ≡ true
batch-plain f ls h k = all-append _ f (batch_text f ls) ∙ conj h (led (needs_leading_newline f))
  where
    led : (b : Bool) → is_plain (if b then 10 ∷ blob_of ls else blob_of ls) ≡ true
    led true = one_lines-plain ls k
    led false = one_lines-plain ls k

-- The lines of the file after the batch, nobody else having written.
pub lines_of-batch :
    (f : Text) (ls : List Text)
    → is_plain f ≡ true
    → all is_one_line ls ≡ true
    → lines_of (f ++ (batch_text f ls ++ [])) ≡ lines_of f ++ (between f ++ ls)
lines_of-batch f ls h k =
    ap (λ t. lines_of (f ++ t)) (append-nil (batch_text f ls))
    ∙ ap split_lines (universal-plain (f ++ batch_text f ls) (batch-plain f ls h k))
    ∙ split_lines-batch f ls k
    ∙ ap (λ t. split_lines t ++ (between f ++ ls)) (sym (universal-plain f h))

pub read_back-batch :
    (f : Text) (ls : List Text)
    → is_plain f ≡ true
    → all is_one_line ls ≡ true
    → read_back ls (f ++ (batch_text f ls ++ [])) ≡ ok (length ls)
read_back-batch f ls h k =
    let regroup : lines_of (f ++ (batch_text f ls ++ [])) ≡ (lines_of f ++ between f) ++ ls =
      lines_of-batch f ls h k ∙ sym (append_assoc (lines_of f) (between f) ls) in
    let tail =
      ap (last_lines (length ls)) regroup ∙ last_lines-append (lines_of f ++ between f) ls in
    ap (λ ts. if same_lines ts ls then ok (length ls) else raised read_back_differs) tail
    ∙ ap (λ b. if b then ok (length ls) else raised read_back_differs) (same_lines-same ls)
