-- ===== src/QueryBroker/Broker/Streams.antt =====
-- `Stream`: rows handed on as they arrive (engine/querybroker/broker.go).
-- The callback `onRow` is a function on a state of the caller's, which may return an error.
pub mod Rows
use hermi_nas.Prelude.{
  Bool, List, Option, String, [], false, if◌then◌else◌, none, not, some, true, ℕ, ◌*◌, ◌+◌, ◌-◌,
  ◌==◌, ◌∷◌,
}
use hermi_nas.Kernel.Errors
use hermi_nas.Kernel.Errors.{Bytes, Error, Result}
use hermi_nas.Lines.{is_empty, scan}
use hermi_nas.QueryBroker.Quota
use hermi_nas.QueryBroker.Broker.{
  Broker, Http, Response, Times, entry_failed, entry_done, journal, rate_limit_error, request,
  click_house_error,
}

-- The size of the scanner's buffer.
abbrev pub max_line : ℕ
max_line = 16 * 1024 * 1024

unfoldable pub read_failure : Error → Error
read_failure e =
    Errors.wrap Errors.internal (record { format = "reading clickhouse response"; args = [] }) e

too_long_error : Error
too_long_error = Errors.foreign (record { format = "bufio.Scanner: token too long"; args = [] })

-- `scanner.Err()`
scan_failure : Bool → Option Error → Option Error
unfolding too_long_error
scan_failure true read_error = some too_long_error
scan_failure false read_error = read_error

module _ {ℓ} {S : Type ℓ} (on_row : S → Bytes → S × Option Error) where
  -- The loop: the count of rows, the callback's error that ended it, and the caller's state.
  unfoldable pub stream_rows : List Bytes → ℕ → S → ℕ × Option Error × S
  stream_rows [] count s = (count, none, s)
  stream_rows (line ∷ lines) count s =
      let (s', stop) = on_row s line in
      let skipped = stream_rows lines count s in
      let passed = stream_rows lines (count + 1) s' in
      if is_empty line then skipped else elim stop [ some e ↦ (count, some e, s') | none ↦ passed ]

  -- The end of `Stream`: the callback's error comes first, then the scanner's.
  conclude :
      Times
      → String
      → String
      → Option Error
      → ℕ × Option Error × S
      → Broker
      → ℕ × Option Error × S × Broker
  unfolding read_failure
  conclude at user_id sql failure (count, some e, s) b = (
    count,
    some e,
    s,
    journal (entry_failed user_id sql at.started (at.finished - at.started) count e) b,
  )
  conclude at user_id sql (some e) (count, none, s) b =
      let wrapped = read_failure e in
      (
        count,
        some wrapped,
        s,
        journal (entry_failed user_id sql at.started (at.finished - at.started) count wrapped) b,
      )
  conclude at user_id sql none (count, none, s) b = (
    count,
    none,
    s,
    journal (entry_done user_id sql at.started (at.finished - at.started) count false) b,
  )

  read_rows : Times → String → String → Response → S → Broker → ℕ × Option Error × S × Broker
  unfolding stream_rows conclude scan_failure
  read_rows at user_id sql resp s b =
      let e = click_house_error resp.status resp.body in
      let (lines, too_long) = scan max_line resp.body in
      if not (resp.status == 200)
      then (
        0,
        some e,
        s,
        journal (entry_failed user_id sql at.started (at.finished - at.started) 0 e) b,
      )
      else conclude at user_id sql (scan_failure too_long resp.read_error) (stream_rows lines 0 s) b

  sent : Times → String → String → Result Response → S → Broker → ℕ × Option Error × S × Broker
  unfolding read_rows
  sent at user_id sql (Errors.ok resp) s b = read_rows at user_id sql resp s b
  sent at user_id sql (Errors.err e) s b =
      (0, some e, s, journal (entry_failed user_id sql at.started (at.finished - at.started) 0 e) b)

  -- The two results of `Stream`, the caller's state behind the callback, and the broker.
  unfoldable pub stream :
      Http → Times → String → String → S → Broker → ℕ × Option Error × S × Broker
  unfolding sent
  stream http at user_id sql s b =
      let (allowed, quotas) = Quota.allow at.quota_at user_id b.quotas in
      let b' = record b { quotas = quotas } in
      if not allowed
      then (
        0,
        some (rate_limit_error user_id),
        s,
        journal (entry_failed user_id sql at.audit_at 0 0 (rate_limit_error user_id)) b',
      )
      else sent at user_id sql (request http sql b') s b'
