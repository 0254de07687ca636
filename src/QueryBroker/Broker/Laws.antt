-- ===== src/QueryBroker/Broker/Laws.antt =====
-- What `Execute` does on each path (engine/querybroker/broker.go).
use hermi_nas.Prelude.{
  ◌∙◌, Bool, Bool-cases, Option, String, [], arith, false, if◌then◌else◌, inl, inr, length, none,
  refl, some, true, ℕ, ◌++◌, ◌+◌, ◌-◌, ◌<◌, ◌∷◌, ◌≡◌, ◌≤◌,
}
use hermi_nas.Prelude.Int.{pos_part}
use text.Mathlib.TextPositions.{eq_refl}
use hermi_nas.Kernel.Errors
use hermi_nas.Kernel.Errors.{Bytes, Error, Result, ok, err}
use hermi_nas.Lines.{split_lines}
use hermi_nas.QueryBroker.Quota
use hermi_nas.QueryBroker.Cache
use hermi_nas.QueryBroker.Cache.{visible, visible-get, visible-set, ttl-get}
use hermi_nas.QueryBroker.Audit.{AuditEntry, AuditLog}
use hermi_nas.QueryBroker.Broker.{
  Broker, Http, Times, QueryResult, execute, finish, look_up, journal, entry_done, entry_failed,
  do_query, rate_limit_error,
}

-- What an audit entry says of the outcome that the caller gets.
abbrev pub Describes : Result QueryResult → AuditEntry → Type 0
Describes (ok r) e =
    (e.success ≡ true)
    × (e.row_count ≡ length r.rows)
    × (r.row_count ≡ length r.rows)
    × (e.cached ≡ r.cached)
    × (e.error ≡ none)
Describes (err x) e = (e.success ≡ false) × (e.row_count ≡ 0) × (e.error ≡ some x)

-- One entry for the query is at the end of the log, and it describes the outcome.
pub record IsJournaled (user_id sql : String) (before : AuditLog)
    (outcome : Result QueryResult × Broker) : Type 0 where
  pub entry : AuditEntry
  pub appended :
      outcome.1.audit.lines ≡ (if before.writable then before.lines ++ entry ∷ [] else before.lines)
  pub writable : outcome.1.audit.writable ≡ before.writable
  pub of_user : entry.user_id ≡ user_id
  pub of_sql : entry.sql ≡ sql
  pub describes : Describes outcome.0 entry

-- In a log that can be written.
pub journaled_line :
    {user_id sql : String} {before : AuditLog} {outcome : Result QueryResult × Broker}
    (j : IsJournaled user_id sql before outcome)
    → before.writable ≡ true
    → outcome.1.audit.lines ≡ before.lines ++ j.entry ∷ []
journaled_line j h = j.appended ∙ rw h refl

module _ (http : Http) (at : Times) (user_id sql : String) where
  finish-IsJournaled :
      (r : Result Bytes) (b : Broker) → IsJournaled user_id sql b.audit (finish at user_id sql r b)
  unfolding finish journal
  finish-IsJournaled (ok body) b = record {
    entry =
        entry_done user_id sql at.started (at.finished - at.started) (length (split_lines body))
          false;
    appended = refl;
    writable = refl;
    of_user = refl;
    of_sql = refl;
    describes = (refl, refl, refl, refl, refl);
  }
  finish-IsJournaled (err e) b = record {
    entry = entry_failed user_id sql at.started (at.finished - at.started) 0 e;
    appended = refl;
    writable = refl;
    of_user = refl;
    of_sql = refl;
    describes = (refl, refl, refl);
  }

  look_up-IsJournaled :
      (found : Option Bytes) (b : Broker)
      → IsJournaled user_id sql b.audit (look_up http at user_id sql found b)
  unfolding look_up journal
  look_up-IsJournaled (some body) b = record {
    entry = entry_done user_id sql at.audit_at 0 (length (split_lines body)) true;
    appended = refl;
    writable = refl;
    of_user = refl;
    of_sql = refl;
    describes = (refl, refl, refl, refl, refl);
  }
  look_up-IsJournaled none b = finish-IsJournaled (do_query http sql b) b

  module _ (b : Broker) where
    allowed : Bool
    allowed = (Quota.allow at.quota_at user_id b.quotas).0

    -- The broker as the quota and the cache leave it.
    looked_up : Broker
    looked_up = record b {
      cache = (Cache.get at.cache_at sql b.cache).1;
      quotas = (Quota.allow at.quota_at user_id b.quotas).1;
    }

    refusal : Broker
    unfolding journal
    refusal =
        journal (entry_failed user_id sql at.audit_at 0 0 (rate_limit_error user_id))
          (record b { quotas = (Quota.allow at.quota_at user_id b.quotas).1 })

    execute_refused :
        allowed ≡ false → execute http at user_id sql b ≡ (err (rate_limit_error user_id), refusal)
    unfolding execute allowed refusal
    execute_refused h = rw h

    execute_admitted :
        allowed ≡ true
        → execute http at user_id sql b
          ≡ look_up http at user_id sql (Cache.get at.cache_at sql b.cache).0 looked_up
    unfolding execute allowed looked_up
    execute_admitted h = rw h

    refusal-IsJournaled : IsJournaled user_id sql b.audit (err (rate_limit_error user_id), refusal)
    unfolding refusal
    refusal-IsJournaled = record {
      entry = entry_failed user_id sql at.audit_at 0 0 (rate_limit_error user_id);
      appended = refl;
      writable = refl;
      of_user = refl;
      of_sql = refl;
      describes = (refl, refl, refl);
    }

  -- Every query, refused, failed, answered by the cache or by ClickHouse, adds exactly one entry
  -- to a log that can be written, with the user, the text and the outcome that the caller gets.
  pub execute-IsJournaled :
      (b : Broker) → IsJournaled user_id sql b.audit (execute http at user_id sql b)
  unfolding looked_up
  execute-IsJournaled b = elim (Bool-cases (allowed b)) [
    | inl h ↦
        rw (execute_admitted b h)
          (look_up-IsJournaled (Cache.get at.cache_at sql b.cache).0 (looked_up b))
    | inr h ↦ rw (execute_refused b h) (refusal-IsJournaled b)
  ]

  -- A query that the quota refuses fails with `resource_exhausted` whatever ClickHouse would answer,
  -- and leaves the cache as it was.
  execute_over_quota :
      (b : Broker)
      → (Quota.allow at.quota_at user_id b.quotas).0 ≡ false
      → ((execute http at user_id sql b).0 ≡ err (rate_limit_error user_id))
        × (Errors.is_resource_exhausted (rate_limit_error user_id) ≡ true)
        × ((execute http at user_id sql b).1.cache ≡ b.cache)
  unfolding allowed rate_limit_error refusal Errors.is_resource_exhausted Errors.new
      Errors.Code-discrete
  execute_over_quota b h = (rw (execute_refused b h), refl, rw (execute_refused b h))

  finish_error :
      (r : Result Bytes) (b : Broker) {e : Error}
      → (finish at user_id sql r b).0 ≡ err e
      → (finish at user_id sql r b).1.cache ≡ b.cache
  unfolding finish journal
  finish_error (ok body) b h = cc
  finish_error (err x) b h = refl

  look_up_error :
      (found : Option Bytes) (b : Broker) {e : Error}
      → (look_up http at user_id sql found b).0 ≡ err e
      → (look_up http at user_id sql found b).1.cache ≡ b.cache
  unfolding look_up
  look_up_error (some body) b h = cc
  look_up_error none b h = finish_error (do_query http sql b) b h

  -- A query that fails, whether the quota refuses it or ClickHouse fails it, leaves in the cache,
  -- under every key, what a reader no earlier than the query would have seen there.
  pub failed_not_cached :
      (b : Broker) {e : Error}
      → (execute http at user_id sql b).0 ≡ err e
      → (now : ℕ) (key : String) → at.cache_at ≤ now
      → visible (execute http at user_id sql b).1.cache now key ≡ visible b.cache now key
  unfolding looked_up refusal
  failed_not_cached b h now key later = elim (Bool-cases (allowed b)) [
    | inr r ↦ rw (execute_refused b r)
    | inl a ↦
        rw
          (
            execute_admitted b a,
            look_up_error (Cache.get at.cache_at sql b.cache).0 (looked_up b)
                (rw (execute_admitted b a) at h),
          )
          (visible-get b.cache at.cache_at now sql key later)
  ]

  -- What ClickHouse answered is what the cache now holds.
  record IsStored (r : QueryResult) (before after : Cache.Cache) : Type 0 where
    body : Bytes
    rows : r.rows ≡ split_lines body
    stored : after ≡ Cache.set at.stored sql body before

  finish-IsStored :
      (a : Result Bytes) (b : Broker) {r : QueryResult}
      → (finish at user_id sql a b).0 ≡ ok r
      → IsStored r b.cache (finish at user_id sql a b).1.cache
  unfolding finish journal
  finish-IsStored (ok body) b h = record { body = body; rows = ground arith; stored = refl }
  finish-IsStored (err x) b h = cc

  look_up-IsStored :
      (found : Option Bytes) (b : Broker) {r : QueryResult}
      → (look_up http at user_id sql found b).0 ≡ ok r
      → r.cached ≡ false
      → IsStored r b.cache (look_up http at user_id sql found b).1.cache
  unfolding look_up
  look_up-IsStored (some body) b h fresh = absurd (ground arith)
  look_up-IsStored none b h fresh = finish-IsStored (do_query http sql b) b h

  execute-IsStored :
      (b : Broker) {r : QueryResult}
      → (execute http at user_id sql b).0 ≡ ok r
      → r.cached ≡ false
      → IsStored r (Cache.get at.cache_at sql b.cache).1 (execute http at user_id sql b).1.cache
  unfolding looked_up
  execute-IsStored b h fresh = elim (Bool-cases (allowed b)) [
    | inr q ↦ absurd (ground (arith, execute_refused b q))
    | inl a ↦ rw (execute_admitted b a) (
        look_up-IsStored (Cache.get at.cache_at sql b.cache).0 (looked_up b)
          (rw (execute_admitted b a) at h) fresh)
  ]

  -- An admitted query whose text has a visible entry is answered from it.
  execute_cached :
      (b : Broker) {body : Bytes}
      → allowed b ≡ true
      → visible b.cache at.cache_at sql ≡ some body
      → (execute http at user_id sql b).0
        ≡ ok (record {
          rows = split_lines body;
          row_count = length (split_lines body);
          duration = 0;
          cached = true;
        })
  unfolding looked_up look_up visible journal
  execute_cached b a seen = rw (execute_admitted b a, seen, look_up)

-- Two queries of one text, with a positive ttl: the first was answered by ClickHouse, and the
-- second, of any user, is admitted by the quota and looks into the cache no later than the ttl
-- after the first was stored. The second gets the rows of the first from the cache, whatever
-- ClickHouse would answer now.
pub execute_hit :
    (http http' : Http) (at at' : Times) (user_id user_id' sql : String) (b : Broker)
    {r : QueryResult}
    → (execute http at user_id sql b).0 ≡ ok r
    → r.cached ≡ false
    → 0 < pos_part b.cache.ttl
    → at'.cache_at ≤ at.stored + pos_part b.cache.ttl
    → let b' = (execute http at user_id sql b).1 in
      (Quota.allow at'.quota_at user_id' b'.quotas).0 ≡ true
      → (execute http' at' user_id' sql b').0
        ≡ ok (record { rows = r.rows; row_count = length r.rows; duration = 0; cached = true })
unfolding allowed
execute_hit http http' at at' user_id user_id' sql b {r} h fresh p soon ok' =
    let b' = (execute http at user_id sql b).1 in
    let kept = execute-IsStored http at user_id sql b h fresh in
    let seen : visible b'.cache at'.cache_at sql ≡ some kept.body =
      rw (kept.stored, visible-set, eq_refl, ttl-get) (ground (arith, p, soon)) in
    rw (execute_cached http' at' user_id' sql b' ok' seen, kept.rows)
