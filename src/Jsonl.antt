-- ===== src/Jsonl.antt =====
-- Append-only JSONL files: `_read_records` and `_append_locked` of
-- src/trade_alerts/projection_outbox.py, `read_jsonl` and `append_jsonl` of
-- src/trade_alerts/fleet_event_log.py, which have one body.
--
-- A file is its lines as `json.loads` reads them, an object being a value of the type `R` that the
-- reader makes of it. `torn` is a last line that no newline ends, which a crash in the middle of a
-- write leaves. A `blank` line is white space that `json.loads` skips, an `odd_blank` one has other white
-- space, which only `str.strip` drops. A missing file reads as an empty one.
use trade_alerts.Base.{
  Bool, true, false, ◌≢◌, ℕ, suc, ◌≡◌, refl, ap, Option, none, some, List, [], ◌∷◌, ◌++◌, map,
  arith, append-nil,
}
use trade_alerts.Result.{Result, ok, raised, ◌>>=◌}

pub data Line {ℓ} (R : Type ℓ) : Type ℓ where
  blank odd_blank malformed not_object : Line R
  object : R → Line R

pub record File {ℓ} (R : Type ℓ) : Type ℓ where
  pub lines : List (Line R)
  pub torn : Option (Line R)

pub data ReadError : Type 0 where
  malformed_at not_object_at : ℕ → ReadError

module _ {ℓ} {R : Type ℓ} where
  -- the loop over `enumerate(handle, start=1)`
  unfoldable pub read_from : ℕ → List (Line R) → Result ReadError (List R)
  read_from n [] = ok []
  read_from n (blank ∷ rest) = read_from (suc n) rest
  read_from n (odd_blank ∷ rest) = read_from (suc n) rest
  read_from n (malformed ∷ rest) = raised (malformed_at n)
  read_from n (not_object ∷ rest) = raised (not_object_at n)
  read_from n (object r ∷ rest) = do rs ← read_from (suc n) rest; ok (r ∷ rs)

  abbrev pub last_line : Option (Line R) → List (Line R)
  last_line none = []
  last_line (some l) = l ∷ []

  unfoldable pub read_records : File R → Result ReadError (List R)
  read_records f = read_from 1 (f.lines ++ last_line f.torn)

  -- What a line is once a whole JSON object is written right behind it: only white space in front
  -- that `json.loads` skips leaves the object readable.
  abbrev pub glue : Option (Line R) → R → Line R
  glue none r = object r
  glue (some blank) r = object r
  glue (some _) r = malformed

  unfoldable pub append_record : R → File R → File R
  append_record r f = record { lines = f.lines ++ glue f.torn r ∷ []; torn = none }

  -- A file that holds these records and no other line.
  abbrev pub file_of : List R → File R
  file_of rs = record { lines = map object rs; torn = none }

  read_from-objects : (n : ℕ) (rs : List R) → read_from n (map object rs) ≡ ok rs
  unfolding read_from
  read_from-objects n [] = refl
  read_from-objects n (r ∷ rs) = ground (arith, read_from-objects (suc n) rs)

  -- A file of records reads back as those records.
  pub read_records-file_of : (rs : List R) → read_records (file_of rs) ≡ ok rs
  unfolding read_records
  read_records-file_of rs = rw append-nil (read_from-objects 1 rs)

  map-object-append :
      (rs : List R) (r : R) → map object rs ++ object r ∷ [] ≡ map object (rs ++ r ∷ [])
  map-object-append [] r = refl
  map-object-append (x ∷ rs) r = ap (λ ls. object x ∷ ls) (map-object-append rs r)

  pub append_record-file_of :
      (r : R) (rs : List R) → append_record r (file_of rs) ≡ file_of (rs ++ r ∷ [])
  unfolding append_record
  append_record-file_of r rs =
      ap (λ ls. record { lines = ls; torn = none }) (map-object-append rs r)

  read_from-append :
      (n : ℕ) (ls : List (Line R)) (r : R)
      → read_from n (ls ++ object r ∷ []) ≡ (do rs ← read_from n ls; ok (rs ++ r ∷ []))
  unfolding read_from
  read_from-append n [] r = refl
  read_from-append n (blank ∷ ls) r = read_from-append (suc n) ls r
  read_from-append n (odd_blank ∷ ls) r = read_from-append (suc n) ls r
  read_from-append n (object x ∷ ls) r = ground (arith, read_from-append (suc n) ls r)
  read_from-append n (malformed ∷ ls) r = refl
  read_from-append n (not_object ∷ ls) r = refl

  -- Behind a whole last line, what is appended is the last record that is read.
  pub read_records-append_record :
      (r : R) (f : File R)
      → f.torn ≡ none
      → read_records (append_record r f) ≡ (do rs ← read_records f; ok (rs ++ r ∷ []))
  unfolding read_records append_record
  read_records-append_record r f h = rw (h, append-nil, append-nil) (read_from-append 1 f.lines r)

  read_from-malformed :
      (n : ℕ) (ls : List (Line R)) (rs : List R) → read_from n (ls ++ malformed ∷ []) ≢ ok rs
  unfolding read_from
  read_from-malformed n [] rs h = cc
  read_from-malformed n (blank ∷ ls) rs h = read_from-malformed (suc n) ls rs h
  read_from-malformed n (odd_blank ∷ ls) rs h = read_from-malformed (suc n) ls rs h
  read_from-malformed n (object x ∷ ls) [] h = ground arith
  read_from-malformed n (object x ∷ ls) (r ∷ rs) h =
      ground (arith, read_from-malformed (suc n) ls rs)
  read_from-malformed n (malformed ∷ ls) rs h = cc
  read_from-malformed n (not_object ∷ ls) rs h = cc

  abbrev pub is_blank : Line R → Bool
  is_blank blank = true
  is_blank _ = false

  -- Behind a torn line that is not white space which `json.loads` skips, an append makes the file unreadable.
  pub append_record-torn :
      (r : R) (f : File R) (l : Line R) (rs : List R)
      → f.torn ≡ some l
      → is_blank l ≡ false
      → read_records (append_record r f) ≢ ok rs
  unfolding read_records append_record
  append_record-torn r f blank rs t b = cc
  append_record-torn r f odd_blank rs t b = rw (t, append-nil) (read_from-malformed 1 f.lines rs)
  append_record-torn r f malformed rs t b = rw (t, append-nil) (read_from-malformed 1 f.lines rs)
  append_record-torn r f not_object rs t b = rw (t, append-nil) (read_from-malformed 1 f.lines rs)
  append_record-torn r f (object x) rs t b = rw (t, append-nil) (read_from-malformed 1 f.lines rs)
