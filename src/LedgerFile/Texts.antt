-- ===== src/LedgerFile/Texts.antt =====
-- The methods of `str` that src/trade_alerts/atomic_ledger_append.py calls. A text is the list of its
-- code points.
use trade_alerts.Base.{ℕ, Bool, true, false, ◌&&◌, ◌||◌, List, [], ◌∷◌, nat_eq, leb, if◌then◌else◌}
use trade_alerts.Channels.Text.{Text}

abbrev pub is_newline : ℕ → Bool
is_newline c = nat_eq c 10

-- t.lstrip of the characters that pass
unfoldable pub strip_left : (ℕ → Bool) → Text → Text
strip_left test [] = []
strip_left test (c ∷ t) = let rest = strip_left test t in if test c then rest else c ∷ t

abbrev keep_char : Bool → ℕ → Text → Text
keep_char true c [] = []
keep_char _ c t = c ∷ t

-- t.rstrip of the characters that pass
unfoldable pub strip_right : (ℕ → Bool) → Text → Text
strip_right test [] = []
strip_right test (c ∷ t) = keep_char (test c) c (strip_right test t)

abbrev pub strip_text : (ℕ → Bool) → Text → Text
strip_text test t = strip_right test (strip_left test t)

-- What `read_text` makes of the ends of lines: "\r\n" and "\r" become "\n". The flag says whether the
-- last character was "\r".
unfoldable pub universal : Bool → Text → Text
universal after_return [] = []
universal after_return (c ∷ t) =
    let rest = universal (nat_eq c 13) t in
    if nat_eq c 13 then 10 ∷ rest else if is_newline c && after_return then rest else c ∷ rest

-- Where `str.splitlines` ends a line.
unfoldable pub is_boundary : ℕ → Bool
is_boundary c =
    (leb 10 c && leb c 13)
    || (leb 28 c && leb c 30)
    || nat_eq c 133
    || nat_eq c 8232
    || nat_eq c 8233

abbrev pub extend : ℕ → List Text → List Text
extend c [] = (c ∷ []) ∷ []
extend c (l ∷ ls) = (c ∷ l) ∷ ls

-- str.splitlines, of a text without "\r"
unfoldable pub split_lines : Text → List Text
split_lines [] = []
split_lines (c ∷ t) = let rest = split_lines t in if is_boundary c then [] ∷ rest else extend c rest

unfoldable pub same_text : Text → Text → Bool
same_text [] [] = true
same_text (c ∷ s) (d ∷ t) = nat_eq c d && same_text s t
same_text _ _ = false

unfoldable pub same_lines : List Text → List Text → Bool
same_lines [] [] = true
same_lines (s ∷ ss) (t ∷ ts) = same_text s t && same_lines ss ts
same_lines _ _ = false
