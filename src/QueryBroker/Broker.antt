-- ===== src/QueryBroker/Broker.antt =====
-- Queries, engine/querybroker/broker.go.
-- ClickHouse and the network are a parameter `Http`; the times that `time.Now()` reads are
-- arguments, in nanoseconds; the fields of `Broker` that change are the state.
pub mod Laws
pub mod Streams
use hermi_nas.Prelude.{
  Bool, List, Option, String, [], codes, false, if◌then◌else◌, length, ltb, none, not, some, true,
  ℕ, ◌-◌, ◌/◌, ◌==◌, ◌||◌, ◌∷◌,
}
use Prim.Native.String.{◌++◌ as str_append}
use hermi_nas.Prelude.Int.{ℤ}
use hermi_nas.Kernel.Errors
use hermi_nas.Kernel.Errors.{◌>>=◌, Bytes, Message, Error, Result}
use hermi_nas.Lines.{split_lines, trim_space, contains_bytes, scan}
use hermi_nas.QueryBroker.Quota
use hermi_nas.QueryBroker.Cache
use hermi_nas.QueryBroker.Audit
use hermi_nas.QueryBroker.Audit.{AuditEntry, AuditLog}

pub record Broker : Type 0 where
  pub base_url : String
  pub cache : Cache.Cache
  pub quotas : Quota.QuotaTracker
  pub audit : AuditLog

pub record Config : Type 0 where
  pub click_house_url : String
  pub quota : Quota.Quota
  pub cache_ttl : ℤ

-- `New`; `opened` is what `os.OpenFile` gives for the audit log.
unfoldable pub new : Config → Result AuditLog → Result Broker
unfolding Audit.open_audit_log
new cfg opened = elim (Audit.open_audit_log opened) [
  | Errors.err e ↦ Errors.err e
  | Errors.ok audit ↦ Errors.ok (record {
    base_url = cfg.click_house_url;
    cache = Cache.new_cache cfg.cache_ttl;
    quotas = Quota.new_quota_tracker cfg.quota;
    audit = audit;
  })
]

pub record Request : Type 0 where
  pub url : String
  pub query : String
  pub max_rows_to_read : Option ℕ

-- What `io.ReadAll` gets from the body, and the error that ends it, if one does.
pub record Response : Type 0 where
  pub status : ℕ
  pub body : Bytes
  pub read_error : Option Error

-- The outcome of `client.Do`; a failure comes with what `ctx.Err()` then reads.
pub data Sent : Type 0 where
  failed : Error → Option Error → Sent
  answered : Response → Sent

pub record Http : Type 0 where
  pub bad_url : String → Option Error  -- `http.NewRequestWithContext`
  pub send : Request → Sent

send_error : Error → Option Error → Error
send_error e none =
    Errors.wrap Errors.unavailable (record { format = "clickhouse request failed"; args = [] }) e
send_error e (some ctx_err) =
    Errors.wrap Errors.unavailable (record { format = "query canceled or timed out"; args = [] })
      ctx_err

received : Sent → Result Response
unfolding send_error
received (failed e ctx_err) = Errors.err (send_error e ctx_err)
received (answered resp) = Errors.ok resp

unfoldable pub build_request : String → Broker → Request
build_request sql b =
    let max = b.quotas.quota.max_rows_to_read in
    record {
      url = b.base_url;
      query = str_append sql " FORMAT JSONEachRow";
      max_rows_to_read = if ltb 0 max then some max else none;
    }

unfoldable pub request : Http → String → Broker → Result Response
unfolding build_request received
request http sql b = elim (http.bad_url b.base_url) [
  | some e ↦
      Errors.err
        (Errors.wrap Errors.internal (record { format = "build clickhouse request"; args = [] }) e)
  | none ↦ received (http.send (build_request sql b))
]

unfoldable pub click_house_error : ℕ → Bytes → Error
unfolding trim_space contains_bytes
click_house_error status body =
    let msg = trim_space body in
    if contains_bytes msg (codes "TOO_MANY_ROWS") || contains_bytes msg (codes "LIMIT_EXCEEDED")
    then Errors.new Errors.resource_exhausted
        (record { format = "query exceeded max_rows_to_read: %s"; args = Errors.text msg ∷ [] })
    else Errors.new Errors.internal (record {
      format = "clickhouse returned %d: %s";
      args = Errors.num status ∷ Errors.text msg ∷ [];
    })

read_body : Response → Result Bytes
unfolding click_house_error
read_body resp =
    if not (resp.status == 200)
    then Errors.err (click_house_error resp.status resp.body)
    else elim resp.read_error [
      | some e ↦ Errors.err (
          Errors.wrap Errors.internal (record { format = "reading clickhouse response"; args = [] })
            e)
      | none ↦ Errors.ok resp.body
    ]

unfoldable pub do_query : Http → String → Broker → Result Bytes
unfolding request read_body
do_query http sql b = do resp ← request http sql b; read_body resp

pub record QueryResult : Type 0 where
  pub rows : List Bytes
  pub row_count : ℕ
  pub duration : ℕ
  pub cached : Bool

-- What the clock reads at the calls of `time.Now()` in one query.
pub record Times : Type 0 where
  pub quota_at : ℕ
  pub cache_at : ℕ
  pub audit_at : ℕ
  pub started : ℕ
  pub finished : ℕ
  pub stored : ℕ

abbrev pub milliseconds : ℕ → ℕ
milliseconds d = d / 1000000

-- `b.audit.Record(entry)`
unfoldable pub journal : AuditEntry → Broker → Broker
unfolding Audit.add
journal entry b = record b { audit = Audit.add entry b.audit }

unfoldable pub rate_limit_error : String → Error
rate_limit_error user_id =
    Errors.new Errors.resource_exhausted
      (record { format = "rate limit exceeded for user %q"; args = Errors.str user_id ∷ [] })

abbrev pub entry_failed : String → String → ℕ → ℕ → ℕ → Error → AuditEntry
entry_failed user_id sql at duration count e = record {
  user_id = user_id;
  sql = sql;
  started_at = at;
  duration_ms = milliseconds duration;
  row_count = count;
  cached = false;
  success = false;
  error = some e;
}

abbrev pub entry_done : String → String → ℕ → ℕ → ℕ → Bool → AuditEntry
entry_done user_id sql at duration count cached = record {
  user_id = user_id;
  sql = sql;
  started_at = at;
  duration_ms = milliseconds duration;
  row_count = count;
  cached = cached;
  success = true;
  error = none;
}

-- The end of `Execute`, from the answer of `doQuery` on.
finish : Times → String → String → Result Bytes → Broker → Result QueryResult × Broker
finish at user_id sql (Errors.err e) b =
    (Errors.err e, journal (entry_failed user_id sql at.started (at.finished - at.started) 0 e) b)
finish at user_id sql (Errors.ok body) b =
    let rows = split_lines body in
    let duration = at.finished - at.started in
    let b' = journal (entry_done user_id sql at.started duration (length rows) false) b in
    (
      Errors.ok
          (record { rows = rows; row_count = length rows; duration = duration; cached = false }),
      record b' { cache = Cache.set at.stored sql body b'.cache },
    )

-- `Execute` behind the quota: the cache, then ClickHouse.
look_up : Http → Times → String → String → Option Bytes → Broker → Result QueryResult × Broker
unfolding finish do_query
look_up http at user_id sql (some body) b =
    let rows = split_lines body in
    (
      Errors.ok (record { rows = rows; row_count = length rows; duration = 0; cached = true }),
      journal (entry_done user_id sql at.audit_at 0 (length rows) true) b,
    )
look_up http at user_id sql none b = finish at user_id sql (do_query http sql b) b

admitted : Http → Times → String → String → Broker → Result QueryResult × Broker
unfolding look_up
admitted http at user_id sql b =
    let (cached, cache) = Cache.get at.cache_at sql b.cache in
    look_up http at user_id sql cached (record b { cache = cache })

unfoldable pub execute : Http → Times → String → String → Broker → Result QueryResult × Broker
unfolding admitted rate_limit_error
execute http at user_id sql b =
    let (allowed, quotas) = Quota.allow at.quota_at user_id b.quotas in
    let b' = record b { quotas = quotas } in
    if not allowed
    then (
      Errors.err (rate_limit_error user_id),
      journal (entry_failed user_id sql at.audit_at 0 0 (rate_limit_error user_id)) b',
    )
    else admitted http at user_id sql b'
