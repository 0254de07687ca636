-- ===== src/WsHub/Polling.antt =====
-- One poller of a widget, `run` and `maxSinceColumn` of engine/wshub/subscription.go.
-- The runner of queries and encoding/json are parameters: `field` is what a row has under a column,
-- decoded where it is a text, and `none` where the row does not decode or lacks the column.
pub mod Newest
use hermi_nas.Prelude.{
  Bool, List, Option, String, [], if◌then◌else◌, none, not, some, str_eq, suc, zero, ℕ, ◌&&◌, ◌*◌,
  ◌∷◌,
}
use Prim.Native.String.{◌++◌ as append, compare}
use text.Mathlib.Text.{is_lt}
use hermi_nas.Kernel.Errors.{Error, Result, Bytes, ok, err}
use hermi_nas.SchemaMgr.Dataset.{is_nil}
use hermi_nas.WsHub.Subscriptions.{ControlMessage}

-- `val > max` of Go's texts.
abbrev pub exceeds : String → String → Bool
exceeds val max = is_lt (compare max val)

unfoldable pub is_incremental : ControlMessage → Bool
is_incremental msg = str_eq msg.mode "incremental" && not (str_eq msg.since_column "")

unfoldable pub query_of : ControlMessage → String → String
unfolding is_incremental
query_of msg last_seen =
    if is_incremental msg && not (str_eq last_seen "")
    then append "SELECT * FROM (" (
        append msg.sql
          (append ") AS w WHERE " (append msg.since_column (append " > '" (append last_seen "'")))))
    else msg.sql

unfoldable pub newer : Option String → String → String
newer none current = current
newer (some val) current = if exceeds val current then val else current

module _ (field : String → Bytes → Option String) where
  unfoldable pub max_since_column : List Bytes → String → String → String
  unfolding newer
  max_since_column [] column current = current
  max_since_column (row ∷ rows) column current =
      max_since_column rows column (newer (field column row) current)

  -- What is pushed, if anything, and the value seen last.
  unfoldable pub polled :
      ControlMessage → Result (List Bytes) → String → Option (List Bytes) × String
  unfolding is_incremental max_since_column
  polled msg (err e) last_seen = (none, last_seen)
  polled msg (ok rows) last_seen =
      if is_incremental msg
      then (
        if is_nil rows then none else some rows,
        max_since_column rows msg.since_column last_seen,
      )
      else (some rows, last_seen)

  module _ (execute : ℕ → String → Result (List Bytes)) (msg : ControlMessage) where
    -- The ticks from a number on: what is pushed at each, with the value seen last.
    unfoldable pub poll_from : ℕ → ℕ → String → List (Option (List Bytes)) × String
    unfolding polled query_of
    poll_from zero tick last_seen = ([], last_seen)
    poll_from (suc ticks) tick last_seen =
        let (pushed, seen) = polled msg (execute tick (query_of msg last_seen)) last_seen in
        let (later, last) = poll_from ticks (suc tick) seen in (pushed ∷ later, last)
