-- ===== src/Outbox/Log.antt =====
-- The outbox as a history: which intents were queued and how each attempt ended. A file of
-- src/trade_alerts/projection_outbox.py that only this code wrote is the file of such a history.
use trade_alerts.Base.{
  select-cong, ◌≡◌, refl, ap, ◌∙◌, Bool, true, false, ◌&&◌, ◌||◌, not, List, [], ◌∷◌, ◌++◌, map,
  any, select, first, if◌then◌else◌, arith, append-nil, append_assoc, Bool-cases, inl, inr,
}
use trade_alerts.Result.{ok}
use trade_alerts.Jsonl.{File, file_of, read_records-file_of}
use trade_alerts.Outbox.Cells.{Cell, cell_eq, is_str}
use trade_alerts.Outbox.Records.{
  Intent, Dispatch, Record, schema_version_v2, is_allowed_action, is_terminal, intent_from_record,
  intent_of_obj-obj_of_intent, dispatch_of_obj-obj_of_dispatch,
}
use trade_alerts.Outbox.Queue.{
  Scan, has_id, record_of_intent, scan, scan_record, read_outbox, is_settled, find_existing,
  same_key, outstanding_projection_intents,
}
use trade_alerts.Outbox.Dispatch.{record_of_dispatch}

pub data Entry : Type 0 where
  queued : Intent → Entry
  tried : Dispatch → Entry

unfoldable pub record_of : Entry → Record
record_of (queued i) = record_of_intent i
record_of (tried d) = record_of_dispatch d

abbrev pub log : List Entry → File Record
log es = file_of (map record_of es)

abbrev pub queued_intents : List Entry → List Intent
queued_intents [] = []
queued_intents (queued i ∷ es) = i ∷ queued_intents es
queued_intents (tried d ∷ es) = queued_intents es

abbrev pub settles : Cell → Entry → Bool
settles c (queued i) = false
settles c (tried d) = is_terminal d.status && cell_eq d.intent_id c

-- What still has to be sent: the queued intents with no terminal answer, in order of queueing.
unfoldable pub pending : List Entry → List Intent
pending es = select (λ i. not (any (settles i.intent_id) es)) (queued_intents es)

abbrev pub IsSendable : Intent → Type 0
IsSendable i =
    (is_allowed_action i.action ≡ true) × (is_str schema_version_v2 i.schema_version ≡ true)

-- Every queued intent passes the reader's checks, and its id is new.
abbrev pub IsLogAfter : List Intent → List Entry → Type 0
IsLogAfter before [] = Unit
IsLogAfter before (queued i ∷ es) =
    IsSendable i × (any (has_id i.intent_id) before ≡ false) × IsLogAfter (before ++ i ∷ []) es
IsLogAfter before (tried d ∷ es) = IsLogAfter before es

abbrev pub IsLog : List Entry → Type 0
IsLog es = IsLogAfter [] es

pub intent_from_record-record_of_intent :
    (i : Intent) → IsSendable i → intent_from_record (record_of_intent i) ≡ ok i
unfolding intent_from_record
intent_from_record-record_of_intent i h = rw intent_of_obj-obj_of_intent (ground arith)

abbrev pub terminal_after : List Cell → List Entry → List Cell
terminal_after t [] = t
terminal_after t (queued i ∷ es) = terminal_after t es
terminal_after t (tried d ∷ es) =
    terminal_after (if is_terminal d.status then d.intent_id ∷ t else t) es

pub scan-log :
    (es : List Entry) (s : Scan)
    → IsLogAfter s.intents es
    → scan (map record_of es) s
      ≡ ok (record {
        intents = s.intents ++ queued_intents es;
        terminal = terminal_after s.terminal es;
      })
unfolding scan scan_record record_of
scan-log [] s h = rw append-nil
scan-log (queued i ∷ es) s h =
    rw (intent_from_record-record_of_intent i h.0, h.1)
      (scan-log es (record s { intents = s.intents ++ i ∷ [] }) h.2
        ∙ ap (λ is. ok (record { intents = is; terminal = terminal_after s.terminal es }))
            (append_assoc s.intents (i ∷ []) (queued_intents es)))
scan-log (tried d ∷ es) s h =
    rw dispatch_of_obj-obj_of_dispatch (elim (Bool-cases (is_terminal d.status)) [
      | inl e ↦ rw e (scan-log es (record s { terminal = d.intent_id ∷ s.terminal }) h)
      | inr e ↦ rw e (scan-log es s h)
    ])

any-terminal_after :
    (c : Cell) (t : List Cell) (es : List Entry)
    → any (λ d. cell_eq d c) (terminal_after t es)
      ≡ (any (λ d. cell_eq d c) t || any (settles c) es)
any-terminal_after c t [] = ground arith
any-terminal_after c t (queued i ∷ es) = any-terminal_after c t es
any-terminal_after c t (tried d ∷ es) =
    rw (any-terminal_after c (if is_terminal d.status then d.intent_id ∷ t else t) es)
      (ground arith)

pub read_outbox-log : (es : List Entry) → read_outbox (log es) ≡ ok (map record_of es)
unfolding read_outbox
read_outbox-log es = rw (read_records-file_of, read_outbox)

-- The file of a history yields what that history still has to send, in order of queueing.
pub outstanding-log :
    (es : List Entry) → IsLog es → outstanding_projection_intents (log es) ≡ ok (pending es)
unfolding outstanding_projection_intents pending is_settled
outstanding-log es h =
    rw (read_outbox-log, scan-log es (record { intents = []; terminal = [] }) h)
      (ap ok
        (select-cong _ _ (queued_intents es) λ i. ap not (any-terminal_after i.intent_id [] es)))

pub find_existing-log :
    (c : Intent) (es : List Entry) (before : List Intent)
    → IsLogAfter before es
    → find_existing c (map record_of es) ≡ ok (first (λ e. same_key e c) (queued_intents es))
unfolding find_existing record_of
find_existing-log c [] before h = refl
find_existing-log c (queued i ∷ es) before h =
    rw (intent_from_record-record_of_intent i h.0)
      (ground (arith, find_existing-log c es (before ++ i ∷ []) h.2))
find_existing-log c (tried d ∷ es) before h = find_existing-log c es before h

pub queued_intents-append :
    (es fs : List Entry) → queued_intents (es ++ fs) ≡ queued_intents es ++ queued_intents fs
queued_intents-append [] fs = refl
queued_intents-append (queued i ∷ es) fs = ap (λ is. i ∷ is) (queued_intents-append es fs)
queued_intents-append (tried d ∷ es) fs = queued_intents-append es fs

IsLogAfter-snoc :
    (es : List Entry) (e : Entry) (before : List Intent)
    → IsLogAfter before es
    → IsLogAfter (before ++ queued_intents es) (e ∷ [])
    → IsLogAfter before (es ++ e ∷ [])
IsLogAfter-snoc [] e before h k = rw append-nil at k
IsLogAfter-snoc (queued i ∷ es) e before h k =
    (h.0, h.1, IsLogAfter-snoc es e (before ++ i ∷ []) h.2 (rw (append_assoc) k))
IsLogAfter-snoc (tried d ∷ es) e before h k = IsLogAfter-snoc es e before h k

-- An attempt keeps a history a history.
pub tried-IsLog : (es : List Entry) (d : Dispatch) → IsLog es → IsLog (es ++ tried d ∷ [])
tried-IsLog es d h = IsLogAfter-snoc es (tried d) [] h tt

-- So does an intent that can be sent and whose id is new.
pub queued-IsLog :
    (es : List Entry) (i : Intent)
    → IsLog es
    → IsSendable i
    → any (has_id i.intent_id) (queued_intents es) ≡ false
    → IsLog (es ++ queued i ∷ [])
queued-IsLog es i h s new = IsLogAfter-snoc es (queued i) [] h (s, new, tt)
