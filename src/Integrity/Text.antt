-- ===== src/Integrity/Text.antt =====
-- The regular expressions of src/trade_alerts/ledger_integrity.py, as tests on the characters.
use Prim.Native.Char.{Char, code}
use trade_alerts.Base.{ℕ, suc, Bool, true, false, ◌&&◌, ◌||◌, String, nat_eq, leb}

abbrev is_between : ℕ → ℕ → Char → Bool
is_between low high c = leb low (code c) && leb (code c) high

-- [A-Za-z0-9]
abbrev is_alphanumeric : Char → Bool
is_alphanumeric c = is_between 65 90 c || is_between 97 122 c || is_between 48 57 c

-- [A-Za-z0-9._:-]
abbrev is_identifier_char : Char → Bool
is_identifier_char c =
    is_alphanumeric c
    || nat_eq (code c) 46
    || nat_eq (code c) 95
    || nat_eq (code c) 58
    || nat_eq (code c) 45

-- [\u3400-\u4dbf\u4e00-\u9fff]
abbrev is_ideograph : Char → Bool
is_ideograph c = is_between 13312 19903 c || is_between 19968 40959 c

unfoldable pub all_chars : (Char → Bool) → String → Bool
all_chars test String.[] = true
all_chars test (String.◌∷◌ c s) = test c && all_chars test s

unfoldable pub text_length : String → ℕ
text_length String.[] = 0
text_length (String.◌∷◌ c s) = suc (text_length s)

-- One character of the first class, and up to 255 of the second.
unfoldable pub is_name : (Char → Bool) → (Char → Bool) → String → Bool
is_name first rest String.[] = false
is_name first rest (String.◌∷◌ c s) = first c && all_chars rest s && leb (text_length s) 255

-- _IDENTIFIER_RE.fullmatch
abbrev pub is_identifier : String → Bool
is_identifier s = is_name is_alphanumeric is_identifier_char s

-- _SHEET_NAME_RE.fullmatch
abbrev pub is_sheet_name : String → Bool
is_sheet_name s =
    is_name (λ c. is_alphanumeric c || is_ideograph c) (λ c. is_identifier_char c || is_ideograph c)
      s

-- _SHA256_RE.fullmatch
unfoldable pub is_sha256 : String → Bool
is_sha256 s =
    all_chars (λ c. is_between 48 57 c || is_between 97 102 c) s && nat_eq (text_length s) 64

-- s.rstrip(c), for a c of one character
unfoldable pub strip_right : ℕ → String → String
strip_right n String.[] = String.[]
strip_right n (String.◌∷◌ c s) = let rest = strip_right n s in keep (nat_eq (code c) n) c rest
  where
    keep : Bool → Char → String → String
    keep true c String.[] = String.[]
    keep _ c rest = String.◌∷◌ c rest
