-- ===== src/QueryBroker/Tests.antt =====
-- The theorems on queries, quotas, the cache and streams at concrete brokers
-- (engine/querybroker).
use hermi_nas.Prelude.{
  List, String, [], arith, codes, keep_if, length, ltb, none, refl, true, ℕ, ◌++◌, ◌∷◌, ◌≡◌, ◌≤◌,
}
use hermi_nas.Prelude.Int.{pos}
use hermi_nas.Kernel.Errors
use hermi_nas.Kernel.Errors.{Bytes, Error, Result, ok, err, Message}
use hermi_nas.Lines.{split_lines, split, drop_cr}
use hermi_nas.Window.{recent}
use hermi_nas.Window.Bound.{in_minute, accepted, run}
use hermi_nas.QueryBroker.Quota
use hermi_nas.QueryBroker.Quota.{granted-le-quota, allow-refuses_exactly}
use hermi_nas.QueryBroker.Cache
use hermi_nas.QueryBroker.Cache.{visible, visible-set, visible-get}
use hermi_nas.QueryBroker.Broker.{
  Broker, journal, Http, Times, Sent, Response, execute, request, rate_limit_error,
}
use hermi_nas.QueryBroker.Broker.Laws.{failed_not_cached, execute_hit}
use hermi_nas.QueryBroker.Broker.Streams.{stream}
use hermi_nas.QueryBroker.Broker.Streams.Rows.{collect, stream-collects}

abbrev one_a_minute : Quota.Quota
one_a_minute = record { requests_per_minute = pos 1; max_rows_to_read = 100 }

abbrev reqs : List (ℕ × String)
reqs = (5, "ann") ∷ (6, "bob") ∷ (7, "ann") ∷ []

granted-le-quota_example :
    length (
      keep_if
        (in_minute 0)
        (accepted Quota.allow "ann" reqs (Quota.new_quota_tracker one_a_minute)))
    ≤ 1
granted-le-quota_example =
    granted-le-quota one_a_minute "ann" reqs (omega arith)
      (omega arith, (omega arith, (omega arith, tt))) 0

allow-refuses_exactly_example :
    (Quota.allow 8 "ann" (run Quota.allow reqs (Quota.new_quota_tracker one_a_minute))).0
    ≡ ltb
        (length (recent 8 (accepted Quota.allow "ann" reqs (Quota.new_quota_tracker one_a_minute))))
        1
allow-refuses_exactly_example =
    allow-refuses_exactly one_a_minute "ann" reqs (omega arith)
      (omega arith, (omega arith, (omega arith, tt))) 8 (omega arith)

abbrev rows : Bytes
rows = codes "1" ++ 10 ∷ codes "2" ++ 10 ∷ []

abbrev broker : Broker
broker = record {
  base_url = "http://localhost:8123";
  cache = record { ttl = pos 1000; entries = λ k. none };
  quotas = record {
    quota = record { requests_per_minute = pos 10; max_rows_to_read = 100 };
    windows = λ u. [];
  };
  audit = record { lines = []; writable = true };
}

-- ClickHouse answers every query with two rows, or with an error.
abbrev resp : Response
resp = record { status = 200; body = rows; read_error = none }

abbrev answering : Http
answering = record { bad_url = λ u. none; send = λ r. Sent.answered resp }

abbrev refusing : Http
refusing = record {
  bad_url = λ u. none;
  send = λ r. Sent.failed (Errors.foreign (record { format = "refused"; args = [] })) none;
}

abbrev at : Times
at = record { quota_at = 1; cache_at = 2; audit_at = 3; started = 4; finished = 5; stored = 6 }

abbrev later : Times
later = record {
  quota_at = 11;
  cache_at = 12;
  audit_at = 13;
  started = 14;
  finished = 15;
  stored = 16;
}

execute_hit_example :
    (execute refusing later "bob" "q" (execute answering at "ann" "q" broker).1).0
    ≡ ok (record { rows = codes "1" ∷ codes "2" ∷ []; row_count = 2; duration = 0; cached = true })
unfolding execute Quota.allow Cache.get Cache.set split_lines split journal
execute_hit_example =
    execute_hit answering refusing at later "ann" "bob" "q" broker refl refl (omega arith)
      (omega arith) refl

stream-collects_example :
    let outcome = stream collect answering at "ann" "q" [] broker in
    (outcome.0 ≡ length (split_lines rows)) × (outcome.1 ≡ none) × (outcome.2 ≡ split_lines rows)
unfolding Quota.allow request split drop_cr
stream-collects_example = stream-collects answering at "ann" "q" broker resp refl refl refl refl (
  record { short = omega arith; plain = refl },
  (
    record { short = omega arith; plain = refl },
    (record { short = omega arith; plain = refl }, tt),
  ),
)

-- A broker whose one request of the minute was granted to ann.
abbrev busy : Broker
busy = record broker { quotas = record { quota = one_a_minute; windows = λ u. 1 ∷ [] } }

refused : (execute answering later "ann" "q" busy).0 ≡ err (rate_limit_error "ann")
unfolding execute Quota.allow
refused = refl

failed_not_cached_example :
    visible (execute answering later "ann" "q" busy).1.cache 20 "q" ≡ visible busy.cache 20 "q"
failed_not_cached_example =
    failed_not_cached answering later "ann" "q" busy refused 20 "q" (omega arith)
