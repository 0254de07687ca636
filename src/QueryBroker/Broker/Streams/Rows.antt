-- ===== src/QueryBroker/Broker/Streams/Rows.antt =====
-- What a stream hands on, and what it leaves in the audit log (engine/querybroker/broker.go).
use hermi_nas.Prelude.{
  All, Bool-cases, List, Option, String, [], ap, arith, false, if◌then◌else◌, inl, inr, keep_if,
  length, none, not, refl, some, true, ℕ, ◌++◌, ◌+◌, ◌<◌, ◌==◌, ◌∷◌, ◌≡◌,
}
use mathlib.Core.List.{append-nil, append_assoc}
use native.Mathlib.Nat.{add-zero}
use hermi_nas.Kernel.Errors
use hermi_nas.Kernel.Errors.{Bytes, Error, Result}
use hermi_nas.Lines.{is_empty, drop_cr, scan_parts, scan, split_lines, split}
use hermi_nas.QueryBroker.Quota
use hermi_nas.QueryBroker.Audit.{AuditEntry, AuditLog}
use hermi_nas.QueryBroker.Broker.{
  Broker, Http, Response, Times, entry_failed, entry_done, journal, request, rate_limit_error,
}
use hermi_nas.QueryBroker.Broker.Streams.{
  stream_rows, conclude, read_rows, sent, stream, read_failure, scan_failure, max_line,
}

-- One entry at the end of the log says how many rows were handed on, and the error, if any.
pub record IsStreamed {ℓ} {S : Type ℓ} (user_id sql : String) (before : AuditLog)
    (outcome : ℕ × Option Error × S × Broker) : Type 0 where
  pub entry : AuditEntry
  pub appended :
      outcome.3.audit.lines ≡ (if before.writable then before.lines ++ entry ∷ [] else before.lines)
  pub of_user : entry.user_id ≡ user_id
  pub of_sql : entry.sql ≡ sql
  pub counted : entry.row_count ≡ outcome.0
  pub failure : entry.error ≡ outcome.1
  pub success : entry.success ≡ elim outcome.1 [ none ↦ true | some _ ↦ false ]

module _ {ℓ} {S : Type ℓ} (user_id sql : String) where
  failed-IsStreamed :
      (started duration count : ℕ) (e : Error) (s : S) (b : Broker)
      → IsStreamed user_id sql b.audit
          (count, some e, s, journal (entry_failed user_id sql started duration count e) b)
  unfolding journal
  failed-IsStreamed started duration count e s b = record {
    entry = entry_failed user_id sql started duration count e;
    appended = refl;
    of_user = refl;
    of_sql = refl;
    counted = refl;
    failure = refl;
    success = refl;
  }

  done-IsStreamed :
      (started duration count : ℕ) (s : S) (b : Broker)
      → IsStreamed user_id sql b.audit
          (count, none, s, journal (entry_done user_id sql started duration count false) b)
  unfolding journal
  done-IsStreamed started duration count s b = record {
    entry = entry_done user_id sql started duration count false;
    appended = refl;
    of_user = refl;
    of_sql = refl;
    counted = refl;
    failure = refl;
    success = refl;
  }

module _ {ℓ} {S : Type ℓ} (on_row : S → Bytes → S × Option Error) (at : Times)
    (user_id sql : String) where
  conclude-IsStreamed :
      (failure : Option Error) (rows : ℕ × Option Error × S) (b : Broker)
      → IsStreamed user_id sql b.audit (conclude on_row at user_id sql failure rows b)
  unfolding conclude
  conclude-IsStreamed failure (count, some e, s) b = failed-IsStreamed user_id sql _ _ count e s b
  conclude-IsStreamed (some e) (count, none, s) b =
      failed-IsStreamed user_id sql _ _ count (read_failure e) s b
  conclude-IsStreamed none (count, none, s) b = done-IsStreamed user_id sql _ _ count s b

  sent-IsStreamed :
      (r : Result Response) (s : S) (b : Broker)
      → IsStreamed user_id sql b.audit (sent on_row at user_id sql r s b)
  unfolding sent
  sent-IsStreamed (Errors.err e) s b = failed-IsStreamed user_id sql _ _ 0 e s b
  sent-IsStreamed (Errors.ok resp) s b = elim (Bool-cases (resp.status == 200)) [
    | inl h ↦
        rw (h, read_rows)
          (conclude-IsStreamed (scan_failure (scan max_line resp.body).1 resp.read_error)
            (stream_rows on_row (scan max_line resp.body).0 0 s) b)
    | inr h ↦ rw (h, read_rows) (failed-IsStreamed user_id sql _ _ 0 _ s b)
  ]

  -- Every stream, refused, failed, stopped by the callback or run to its end, adds exactly one
  -- entry to a log that can be written: the user, the text, the number of rows that the callback
  -- took, and the error that the caller gets.
  stream-IsStreamed :
      (http : Http) (s : S) (b : Broker)
      → IsStreamed user_id sql b.audit (stream on_row http at user_id sql s b)
  unfolding stream
  stream-IsStreamed http s b =
      let b' = record b { quotas = (Quota.allow at.quota_at user_id b.quotas).1 } in
      elim (Bool-cases (Quota.allow at.quota_at user_id b.quotas).0) [
        | inl h ↦ rw h (sent-IsStreamed (request http sql b') s b')
        | inr h ↦
            rw h (failed-IsStreamed user_id sql at.audit_at 0 0 (rate_limit_error user_id) s b')
      ]

-- A callback that keeps each row and never fails.
abbrev pub collect : List Bytes → Bytes → List Bytes × Option Error
collect rows row = (rows ++ row ∷ [], none)

stream_rows-collect :
    (lines : List Bytes) (count : ℕ) (rows : List Bytes)
    → stream_rows collect lines count rows ≡ (
      count + length (keep_if (λ line. not (is_empty line)) lines),
      none,
      rows ++ keep_if (λ line. not (is_empty line)) lines,
    )
unfolding stream_rows
stream_rows-collect [] count rows = rw (add-zero, append-nil)
stream_rows-collect (line ∷ lines) count rows = elim (Bool-cases (is_empty line)) [
  | inl h ↦ rw (h, stream_rows-collect lines count rows)
  | inr h ↦
      rw (h, stream_rows-collect lines (count + 1) (rows ++ line ∷ []), append_assoc)
        (ap (λ (n : ℕ). (n, none, rows ++ line ∷ keep_if (λ x. not (is_empty x)) lines))
          (omega arith))
]

-- A line that the scanner passes on as it is: it fits, and no carriage return ends it.
pub record Fits (max : ℕ) (line : Bytes) : Type 0 where
  pub short : length line < max
  pub plain : drop_cr line ≡ line

scan_parts-Fits :
    (max : ℕ) (parts : List Bytes)
    → All (Fits max) parts
    → (keep_if (λ line. not (is_empty line)) (scan_parts max parts).0
        ≡ keep_if (λ line. not (is_empty line)) parts)
      × ((scan_parts max parts).1 ≡ false)
unfolding scan_parts
scan_parts-Fits max [] h = (refl, refl)
scan_parts-Fits max (part ∷ []) h = ground (arith, h.0.short, h.0.plain)
scan_parts-Fits max (part ∷ next ∷ parts) h =
    ground (arith, h.0.short, h.0.plain, scan_parts-Fits max (next ∷ parts) h.1)

-- Where the quota admits the query, ClickHouse answers 200 with a body that is read to its end, and
-- every line of it fits the scanner and ends in no carriage return, a stream that keeps its rows
-- gets the rows that `Execute` would return for the same body, all of them in their order, and its
-- count is their number.
pub stream-collects :
    (http : Http) (at : Times) (user_id sql : String) (b : Broker) (resp : Response)
    → (Quota.allow at.quota_at user_id b.quotas).0 ≡ true
    → request http sql (record b { quotas = (Quota.allow at.quota_at user_id b.quotas).1 })
      ≡ Errors.ok resp
    → resp.status ≡ 200
    → resp.read_error ≡ none
    → All (Fits max_line) (split resp.body)
    → let outcome = stream collect http at user_id sql [] b in
      (outcome.0 ≡ length (split_lines resp.body))
      × (outcome.1 ≡ none)
      × (outcome.2 ≡ split_lines resp.body)
unfolding stream scan split_lines
stream-collects http at user_id sql b resp allowed asked good whole fits =
    let (kept, short) = scan_parts-Fits max_line (split resp.body) fits in
    ground (
      arith,
      allowed,
      asked,
      good,
      whole,
      kept,
      short,
      stream_rows-collect (scan_parts max_line (split resp.body)).0 0 [],
    )
