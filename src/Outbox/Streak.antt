-- ===== src/Outbox/Streak.antt =====
-- `_consecutive_answers` of src/trade_alerts/projection_outbox.py counts the last answers of an intent
-- that are all the same.
use trade_alerts.Base.{
  ℕ, ◌+◌, ◌≡◌, refl, ap, ◌∙◌, true, List, [], ◌∷◌, ◌++◌, map, String, if◌then◌else◌, arith, all,
  length, all-append, length-append, Bool-cases, inl, inr,
}
use trade_alerts.Result.{ok}
use trade_alerts.Outbox.Cells.{Cell, str, cell_eq, cell_eq_refl, get, get_or_null}
use trade_alerts.Outbox.Records.{Dispatch, obj_of_dispatch}
use trade_alerts.Outbox.Dispatch.{count_answers, consecutive_answers}
use trade_alerts.Outbox.Log.{Entry, queued, tried, record_of, log}
use trade_alerts.Outbox.Attempt.{consecutive_answers-log}

-- The error codes of this intent's attempts, in order.
abbrev pub answers : Cell → List Entry → List Cell
answers id [] = []
answers id (queued i ∷ es) = answers id es
answers id (tried d ∷ es) =
    if cell_eq d.intent_id id then d.error_code ∷ answers id es else answers id es

-- How many answers at the end of the list are this one.
abbrev pub trailing_run : Cell → List Cell → ℕ
trailing_run code [] = 0
trailing_run code (c ∷ cs) =
    if all (λ d. cell_eq d code) (c ∷ cs) then length (c ∷ cs) else trailing_run code cs

abbrev count_from : Cell → ℕ → List Cell → ℕ
count_from code n [] = n
count_from code n (c ∷ cs) = count_from code (if cell_eq c code then n + 1 else 0) cs

count_answers-count_from :
    (id : Cell) (code : String) (n : ℕ) (es : List Entry)
    → count_answers id code n (map record_of es) ≡ count_from (str code) n (answers id es)
unfolding count_answers record_of get_or_null get obj_of_dispatch
count_answers-count_from id code n [] = refl
count_answers-count_from id code n (queued i ∷ es) = count_answers-count_from id code n es
count_answers-count_from id code n (tried d ∷ es) = elim (Bool-cases (cell_eq d.intent_id id)) [
  | inl mine ↦
      rw mine
        (count_answers-count_from id code (if cell_eq d.error_code (str code) then n + 1 else 0) es)
  | inr other ↦ rw other (count_answers-count_from id code n es)
]

trailing_run-all :
    (code : Cell) (cs : List Cell)
    → all (λ d. cell_eq d code) cs ≡ true
    → trailing_run code cs ≡ length cs
trailing_run-all code [] h = refl
trailing_run-all code (c ∷ cs) h = rw h refl

count_from-trailing_run :
    (code : Cell) (n : ℕ) (cs : List Cell)
    → count_from code n cs
      ≡ (if all (λ d. cell_eq d code) cs then n + length cs else trailing_run code cs)
count_from-trailing_run code n [] = omega arith
count_from-trailing_run code n (c ∷ cs) =
    rw (count_from-trailing_run code (if cell_eq c code then n + 1 else 0) cs)
      (ground (arith, trailing_run-all code cs))

count_from_zero : (code : Cell) (cs : List Cell) → count_from code 0 cs ≡ trailing_run code cs
count_from_zero code [] = refl
count_from_zero code (c ∷ cs) = rw (count_from-trailing_run code 0 (c ∷ cs)) (ground arith)

-- The count of consecutive answers is the length of the run of that answer at the end of the
-- intent's own attempts; attempts on other intents do not matter.
pub consecutive_answers-trailing_run :
    (es : List Entry) (id : Cell) (code : String)
    → consecutive_answers (log es) id code ≡ ok (trailing_run (str code) (answers id es))
consecutive_answers-trailing_run es id code =
    consecutive_answers-log es id code
    ∙ ap ok (count_answers-count_from id code 0 es ∙ count_from_zero (str code) (answers id es))

trailing_run-snoc :
    (code : Cell) (cs : List Cell) → trailing_run code (cs ++ code ∷ []) ≡ trailing_run code cs + 1
trailing_run-snoc code [] = rw (cell_eq_refl code) (omega arith)
trailing_run-snoc code (c ∷ cs) = ground (
  arith,
  trailing_run-snoc code cs,
  all-append (λ d. cell_eq d code) cs (code ∷ []),
  cell_eq_refl code,
  length-append cs (code ∷ []),
)

answers-snoc :
    (id : Cell) (es : List Entry) (d : Dispatch)
    → d.intent_id ≡ id
    → answers id (es ++ tried d ∷ []) ≡ answers id es ++ d.error_code ∷ []
answers-snoc id [] d h = rw (h, cell_eq_refl id) refl
answers-snoc id (queued i ∷ es) d h = answers-snoc id es d h
answers-snoc id (tried e ∷ es) d h = ground (arith, answers-snoc id es d h)

-- One more answer with the code makes the run longer by one.
pub trailing_run-tried :
    (es : List Entry) (id code : Cell) (d : Dispatch)
    → d.intent_id ≡ id
    → d.error_code ≡ code
    → trailing_run code (answers id (es ++ tried d ∷ [])) ≡ trailing_run code (answers id es) + 1
trailing_run-tried es id code d mine same =
    rw (answers-snoc id es d mine, same) (trailing_run-snoc code (answers id es))
