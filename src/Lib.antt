-- ===== src/Lib.antt =====
-- trade-alerts keeps the audit side of a fleet of trading programs: append-only JSONL files beside
-- each strategy, a queue of ledger rows that go to a Google sheet, an event log, and a queue of
-- requests that a human or a repair program has to answer. This library models these files, the
-- operations on them and their errors, and proves what holds of them.
--
-- Parts, and where they are modelled:
--   Base, Result     numbers, lists, Boolean tests; a call that returns or raises
--   Json             JSON values, with Python's truth value, `get` and `json.dumps`'s refusals
--   Strings          texts in order and put together
--   Jsonl            a JSONL file: its lines, a torn last line, reading and appending
--                    (`_read_records`, `_append_locked`, `read_jsonl`, `append_jsonl`)
--   Outbox           src/trade_alerts/projection_outbox.py
--     Cells, Records   the flat values, the dataclasses, their records and back
--     Queue            `from_provenance`, `enqueue_projection_intent`,
--                      `outstanding_projection_intents`
--     Dispatch         `record_projection_dispatch`, `_validate_rebuilt`, `_consecutive_answers`,
--                      `_dispatch_next_locked` with its three parking rules
--     Requeue          `requeue_rejected_projection_intents`
--     ParkEvent        `record_projection_park_event`, `dispatch_next_projection`
--     Log              an outbox as a history of queued intents and attempts: its abstract view
--     Enqueue, Append, Head, Attempt, Streak, Binding, Rules, Parking, Groups, Recovery,
--     ParkNotice       what the operations do to such a history
--   EventLog         src/trade_alerts/fleet_event_log.py: `append_fleet_event`,
--                    `read_fleet_events` and the checks; Catalog has the catalog lookups
--   Requests         src/trade_alerts/error_request_queue.py: Checks (with
--                    `request_fingerprint`), Reading (`_requests`, `_terminated`,
--                    `outstanding_error_requests`), Queue (`open_error_request`,
--                    `record_request_outcome`, `find_error_request`)
--   SafeHalt         src/trade_alerts/safe_halt_model.py: Latch (`build_safe_halt`, `re_assert`,
--                    `safe_halt_fingerprint`), Resume (`resume_preview`, `check_confirmation`,
--                    `safe_halt_cleared_fields`), Token what holds of them
--   Channels         src/trade_alerts/channels.py and `request_with_retry` of
--                    src/trade_alerts/core.py: Text (`split_text`, `sendable`), Sending (the two
--                    `send` methods), Split, Waiting and Delivery what holds of them
--   Reconciliation   src/trade_alerts/google_ledger_reconciliation.py and `comparison_for` of
--                    src/trade_alerts/ledger_integrity.py: Classify, and Findings what they say
--   Replay           src/trade_alerts/notice_replay.py: Replaying
--                    (`replay_unannounced_requests`), Announced, Loop and Once what it leaves
--   Integrity        src/trade_alerts/ledger_integrity.py: Text (its regular expressions), Canonical
--                    (`canonical_json`, `sha256_digest`, `normalise_projection`), Signing
--                    (`build_provenance`, the three signed requests, `verify_signed_request`);
--                    Normal, Verified, Reissuing and Rebuilding what holds of them
--   Receiver         src/trade_alerts/google_ledger_client.py and
--                    src/trade_alerts/provenance_outbox.py: Redirect (`_permitted_redirect`,
--                    `_post_json`, `post_receiver_json`), Delivery (`deliver_projection_v2` and the
--                    two reads), Recording (`append_outbox_record`, `submit_projection_v2`); Hops,
--                    Answers, Sending and Callback what holds of them
--   LedgerFile       src/trade_alerts/atomic_ledger_append.py and `read_ledger` of
--                    src/trade_alerts/ledger_reconcile.py: Texts (the methods of `str`), Batch
--                    (`append_lines_atomically`, `stage_lines`); Lines, ReadBack and Landing what a
--                    batch leaves
--   Expired          src/trade_alerts/pending_expired_notice.py: Notice (`expired_markers`,
--                    `plan_pending_expired_notice`), Batch (`announce_batch_expired`); Once and
--                    BatchOnce what was announced before
--   Repair           src/trade_alerts/repair_runner.py: World (the files and the calls on them),
--                    Outcomes (`_fail`, `_block`, `_close_request`), Writing (`_write`), Candidates
--                    (`_handle`, `_close_overtaken_requests`, the loop of `run`), Replays
--                    (`_replay_unannounced`), Rounds (the two checks at the end, `run`,
--                    `_refresh_ops_export`, `run_repair_round`); Writes, Handling, OneWrite,
--                    Overtaken, LeftOpen, ReplayWrites, RoundWrites, Events, Counting and Escalation
--                    what they leave
--
-- The outbox reports a parked intent to the event log, and the request queue is stored by the event
-- log's `append_jsonl` and `read_jsonl`. The replay reads both. The outbox's callback `submit` is the
-- client's `deliver_projection_v2` in Receiver.Callback, and what its callback `rebuild` builds is signed
-- in Integrity.Rebuilding. The repair runner writes the ledger with the batches of LedgerFile, and its
-- events and requests with EventLog and Requests; it announces what the Replay and Expired plan. What a
-- strategy's adapter does, and what src/trade_alerts/verified_close_backfill.py assesses and stages, is
-- its record `Adapter`.
--
-- How the code is translated. A file is passed in and out of each operation. A call that raises has
-- written nothing, and returns `raised` with a constructor for each message; a replay or a send, which
-- can be stopped half way, and a round of the runner return what they did. Each operation holds an
-- exclusive lock from its read to its write, so it is one step; whether a lock with a time-out was had
-- is an argument. New ids and the time are arguments, and so are the callbacks `rebuild` and `submit`,
-- as functions to how they end. SHA-256 over `json.dumps` is a parameter `digest`, and `str` of a value
-- that is not a text a parameter `print`. Loops over a list are structural recursion. `split_loop` has
-- as fuel one more than the length of the text, and each round takes at least one character off; the
-- decimal digits of an integer have the number plus one, which is more than its digits. A text that is
-- cut, sent or split into lines is the list of its code points, and what `str.strip` drops is a parameter.
--
-- Python's library in Integrity (`json.dumps`, `str` of an int, `format`, `UUID`, SHA-256, HMAC) is the
-- record `Runtime`, and `requests` and `urlparse` in Receiver are functions to how a call ends; in
-- `submit_projection_v2` the network is a function of the outbox at the time of the request, which fixes
-- the order of the two. In Requests, Reconciliation and SafeHalt, regular expressions are parameters.
--
-- A flat record's values are null, an integer or a text (Outbox.Cells); Python's `True == 1` and floats
-- do not occur in what the outbox writes. An unhashable value where the code looks into a set or dict
-- raises TypeError there and is modelled like a wrong value.
--
-- Not modelled: the file system under a write (`fsync`, permissions), processes that do not take the
-- lock, the packaged data, HTTP transports, the page-rendering scripts and the Apps Script receiver.
pub mod Base
pub mod Result
pub mod Json
pub mod Strings
pub mod Jsonl
pub mod Outbox
pub mod EventLog
pub mod Requests
pub mod SafeHalt
pub mod Channels
pub mod Reconciliation
pub mod Replay
pub mod Integrity
pub mod Receiver
pub mod LedgerFile
pub mod Expired
pub mod Repair
