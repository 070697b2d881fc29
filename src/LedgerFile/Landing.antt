-- ===== src/LedgerFile/Landing.antt =====
-- What `append_lines_atomically` of src/trade_alerts/atomic_ledger_append.py leaves for `read_ledger`
-- of src/trade_alerts/ledger_reconcile.py.
use trade_alerts.Base.{
  ℕ, ◌≡◌, refl, sym, ap, ◌∙◌, Bool, true, false, Option, none, some, List, [], ◌∷◌, ◌++◌, all,
  length, if◌then◌else◌, Bool-cases, inl, inr,
}
use trade_alerts.Result.{ok, raised}
use trade_alerts.Json.{Json, Fields}
use trade_alerts.Channels.Text.{Text}
use trade_alerts.LedgerFile.Texts
use trade_alerts.LedgerFile.Texts.{
  is_newline, universal, is_boundary, split_lines, same_text, same_lines,
}
use trade_alerts.LedgerFile.Batch.{
  read_back_differs, needs_leading_newline, batch_text, lines_of, last_lines, Appended, keep,
  encode_from, write_batch, append_lines_atomically, event_of, events_in, read_ledger,
}
use trade_alerts.LedgerFile.Lines.{
  is_one_line, is_plain, gap, split_lines-one_line, last_lines-one_line,
}
use trade_alerts.LedgerFile.ReadBack.{
  same_lines_sound, between, between-ended, between-torn, lines_of-batch, read_back-batch,
}

module _ (is_space : ℕ → Bool) (loads : Text → Option Json) where
  events_in-append :
      (ls ms : List Text)
      → events_in is_space loads (ls ++ ms)
        ≡ events_in is_space loads ls ++ events_in is_space loads ms
  unfolding events_in
  events_in-append [] ms = refl
  events_in-append (l ∷ ls) ms =
      ap (keep (event_of is_space loads l)) (events_in-append ls ms)
      ∙ kept (event_of is_space loads l) (events_in is_space loads ls) (events_in is_space loads ms)
    where
      kept : (o : Option Fields) (xs ys : List Fields) → keep o (xs ++ ys) ≡ keep o xs ++ ys
      kept none xs ys = refl
      kept (some x) xs ys = refl

  events_in-maybe : (b : Bool) → events_in is_space loads (if b then [] ∷ [] else []) ≡ []
  unfolding events_in Texts.strip_left Texts.strip_right
  events_in-maybe true = refl
  events_in-maybe false = refl

  events_in-gap : (f : Text) → events_in is_space loads (gap f) ≡ []
  unfolding gap
  events_in-gap [] = events_in-maybe true
  events_in-gap (c ∷ []) = events_in-maybe (is_boundary c)
  events_in-gap (c ∷ d ∷ t) = events_in-gap (d ∷ t)

  events_in-between : (f : Text) → events_in is_space loads (between f) ≡ []
  events_in-between f = elim (Bool-cases (needs_leading_newline f)) [
    | inl e ↦ ap (events_in is_space loads) (between-torn f e) ∙ events_in-gap f
    | inr e ↦ ap (events_in is_space loads) (between-ended f e) ∙ events_in-maybe false
  ]

  events_in-lines :
      (ls ms ns : List Text)
      → events_in is_space loads ms ≡ []
      → events_in is_space loads (ls ++ (ms ++ ns))
        ≡ events_in is_space loads ls ++ events_in is_space loads ns
  events_in-lines ls ms ns h =
      events_in-append ls (ms ++ ns)
      ∙ ap (λ es. events_in is_space loads ls ++ es)
          (events_in-append ms ns ∙ ap (λ es. es ++ events_in is_space loads ns) h)

  -- What a batch that is written by one call leaves.
  pub record Landed (f : Text) (encoded : List Text) (a : Appended) : Type 0 where
    pub returned : a.result ≡ ok (length encoded)
    pub extended : a.file ≡ f ++ (batch_text f encoded ++ [])
    pub readable :
        read_ledger is_space loads a.file
        ≡ read_ledger is_space loads f ++ events_in is_space loads encoded

  write_batch-Landed :
      (f : Text) (encoded : List Text)
      → is_plain f ≡ true
      → all is_one_line encoded ≡ true
      → Landed f encoded (write_batch is_space loads [] f (ok encoded))
  unfolding read_ledger
  write_batch-Landed f encoded h k = record {
    returned = read_back-batch f encoded h k;
    extended = refl;
    readable =
        ap (events_in is_space loads) (lines_of-batch f encoded h k)
        ∙ events_in-lines (lines_of f) (between f) encoded (events_in-between f);
  }

  -- A batch of lines that pass the checks and have no character that ends a line inside them is
  -- written whole behind the file, on a line of its own even if a crash left the last one unfinished;
  -- the call returns their number, and a reader finds the events of the file as before and then those
  -- of the batch. The file must have no carriage return, and nobody else writes meanwhile.
  pub append_lines-Landed :
      (line : Text) (lines encoded : List Text) (f : Text)
      → encode_from is_space loads 0 (line ∷ lines) ≡ ok encoded
      → is_plain f ≡ true
      → all is_one_line encoded ≡ true
      → Landed f encoded (append_lines_atomically is_space loads [] (line ∷ lines) f)
  unfolding append_lines_atomically
  append_lines-Landed line lines encoded f came h k = rw came (write_batch-Landed f encoded h k)

  -- What a batch with a character inside a line that `str.splitlines` ends a line at leaves: the call
  -- raises, and the batch is in the file.
  pub record Misread (others f : Text) (encoded : List Text) (a : Appended) : Type 0 where
    pub refused : a.result ≡ raised read_back_differs
    pub written : a.file ≡ f ++ (batch_text f encoded ++ others)

  -- If a line of the batch has a character inside it that `str.splitlines` takes for the end of a line,
  -- such as U+2028, which JSON allows in a text, then the call raises although the whole batch is in
  -- the file, whatever the file held and whoever else wrote.
  pub append_lines-Misread :
      (others line : Text) (lines encoded : List Text) (f : Text)
      → encode_from is_space loads 0 (line ∷ lines) ≡ ok encoded
      → all is_one_line encoded ≡ false
      → Misread others f encoded (append_lines_atomically is_space loads others (line ∷ lines) f)
  unfolding append_lines_atomically
  append_lines-Misread others line lines encoded f came h = rw came (record {
    refused = misread (length encoded) (f ++ (batch_text f encoded ++ others));
    written = refl;
  })
    where
      misread :
          (n : ℕ) (t : Text)
          → (if same_lines (last_lines n (lines_of t)) encoded
              then ok n
              else raised read_back_differs)
            ≡ raised read_back_differs
      misread n t = elim (Bool-cases (same_lines (last_lines n (lines_of t)) encoded)) [
        | inr e ↦ rw e refl
        | inl e ↦
            let same = same_lines_sound (last_lines n (lines_of t)) encoded e in
            let fine =
              last_lines-one_line n (lines_of t) (split_lines-one_line (universal false t)) in
            let clash : true ≡ false = sym fine ∙ ap (all is_one_line) same ∙ h in cc
      ]
