-- ===== src/Api/Routes.antt =====
-- The handlers and the router of engine/api/routes.go, with the mux of engine/schemamgr/http.go.
-- A request is as net/http gives it: its method, its header, its address, and its path with the body
-- that the route of that path decodes. The mux's own answers stand under `refused` as well. Without a directory of
-- static files, which would take the requests that no pattern takes.
pub mod Login
pub mod Router
mod Tests
pub mod Access
pub mod Views
pub mod Kept
pub mod Limited
pub mod Audited
use hermi_nas.Prelude.{
  Bool, List, Option, String, [], codes, false, if◌then◌else◌, none, not, some, str_eq, true, ℕ,
  ◌++◌, ◌||◌, ◌∷◌,
}
use hermi_nas.Prelude.Int.{is_pos}
use hermi_nas.Kernel.Errors
use hermi_nas.Kernel.Errors.{Error, Result, Bytes, ok, err}
use hermi_nas.Kernel.Permissions.{Role, at_least, viewer, engineer}
use hermi_nas.SchemaMgr.Infer.{Sample}
use hermi_nas.SchemaMgr.Dataset.{Column, Dataset}
use hermi_nas.SchemaMgr.Database.{Database}
use hermi_nas.SchemaMgr.Ddl.{Text, decimal}
use hermi_nas.SchemaMgr.Http
use hermi_nas.SchemaMgr.Http.{CreateRequest, Reply, answer, error}
use hermi_nas.QueryBroker.Broker
use hermi_nas.QueryBroker.Broker.{Http, Times, QueryResult, execute}
use hermi_nas.Auth.Database.{Backend}
use hermi_nas.Auth.Store.{User, verify_password}
use hermi_nas.Auth.Jwt.{Library, JwtManager, issue}
use hermi_nas.Auth.Middleware.{
  Identity, Handler, Response, refused, failed, served, aborted, authenticate, require_role,
  require_dataset_scope,
}
use hermi_nas.Api.RateLimit.{by_remote_ip, allow}
use hermi_nas.Api.ClickHouse.{Client}
use hermi_nas.Api.Ingest.{ingest}
use hermi_nas.Api.World.{World}

pub record Credentials : Type 0 where
  pub username : String
  pub password : String

pub record LoginResponse : Type 0 where
  pub token : String
  pub role : Role

pub data DatasetPath : Type 0 where
  collection : Result CreateRequest → DatasetPath
  item versions_of : String → DatasetPath
  columns_of : String → Result (List Column) → DatasetPath
  elsewhere : DatasetPath

pub data Endpoint : Type 0 where
  health unknown : Endpoint
  login : Result Credentials → Endpoint
  query : Result String → Endpoint
  datasets : DatasetPath → Endpoint
  ingest_into : String → Bytes → Endpoint

pub record Request : Type 0 where
  pub method : String
  pub authorization : String
  pub remote_addr : String
  pub endpoint : Endpoint

pub data Payload : Type 0 where
  status_ok : Payload
  session : LoginResponse → Payload
  result_body : Bytes → Payload
  dataset : Dataset → Payload
  dataset_list : List Dataset → Payload
  accepted : ℕ → Payload

-- A pattern "GET …" of the mux takes HEAD too.
abbrev pub is_get : String → Bool
is_get method = str_eq method "GET" || str_eq method "HEAD"

abbrev pub not_found : Response Payload
not_found = refused 404 "404 page not found"

abbrev pub not_allowed : Response Payload
not_allowed = refused 405 "Method Not Allowed"

abbrev pub respond : {A : Type 0} → (A → Payload) → Reply A → Response Payload
respond body (answer status a) = served status (body a)
respond body (error status text e) = failed status text e

abbrev pub map_served : {A : Type 0} → (A → Payload) → Response A → Response Payload
map_served body (refused status text) = refused status text
map_served body (failed status text e) = failed status text e
map_served body (served status a) = served status (body a)
map_served body aborted = aborted

-- The bytes of `strconv.FormatBool`.
abbrev pub format_bool : Bool → Bytes
format_bool true = codes "true"
format_bool false = codes "false"

-- The rows with commas between them.
unfoldable pub join_rows : List Bytes → Bytes
join_rows [] = []
join_rows (row ∷ []) = row
join_rows (row ∷ next ∷ rows) = row ++ codes "," ++ join_rows (next ∷ rows)

unfoldable pub fmt_write_query_result : QueryResult → Bytes
unfolding join_rows
fmt_write_query_result result =
    codes "{\"row_count\":"
    ++ decimal result.row_count
    ++ codes ",\"cached\":"
    ++ format_bool result.cached
    ++ codes ",\"rows\":["
    ++ join_rows result.rows
    ++ codes "]}"

unfoldable pub query_status : Error → ℕ
query_status e =
    if Errors.is_resource_exhausted e
    then 429
    else if Errors.is_invalid_argument e
    then 400
    else 500

abbrev pub subject_of : Option Identity → String
subject_of none = ""
subject_of (some id) = id.subject

query_answer : Result QueryResult → Response Payload
unfolding query_status fmt_write_query_result
query_answer (ok result) = served 200 (result_body (fmt_write_query_result result))
query_answer (err e) = failed (query_status e) "" e

module _ {Secret : Type 0} (J : Library Secret) (m : JwtManager Secret) (B : Backend) where
  login_issued : User B → Result String → Response LoginResponse
  login_issued u (ok token) = served 200 (record { token = token; role = u.role })
  login_issued u (err e) = refused 500 "failed to issue session token"

  login_checked : ℕ → Result (User B) → Response LoginResponse
  unfolding login_issued
  login_checked now (ok u) = login_issued u (issue J now u.username u.role m)
  login_checked now (err e) = refused 401 "invalid username or password"

  unfoldable pub login_handler : ℕ → Result Credentials → B.Db → Response LoginResponse
  unfolding login_checked
  login_handler now (err e) db = refused 400 "invalid JSON body"
  login_handler now (ok req) db = login_checked now (verify_password B req.username req.password db)

module _ {R S A : Type 0} (method : R → String) where
  unfoldable pub dataset_rbac : Handler R S A → Handler R S A
  dataset_rbac next none r s = (refused 401 "authentication required", s)
  dataset_rbac next (some id) r s =
      if at_least id.role (if str_eq (method r) "GET" then viewer else engineer)
      then next (some id) r s
      else (refused 403 "insufficient role", s)

module _ {C : Type 0} (D : Database) (B : Backend) where
  unfoldable pub query_handler :
      Http → Times → Result String → Option Identity → World D B C → Response Payload × World D B C
  unfolding query_answer
  query_handler http at (err e) ctx w = (refused 400 "invalid JSON body", w)
  query_handler http at (ok sql) ctx w =
      let (result, broker) = execute http at (subject_of ctx) sql w.broker in
      (query_answer result, record w { broker = broker })

  module _ (ddl : Option (Text → C → Option Error × C)) (now : ℕ) where
    taken_over : Reply Dataset × D.Db × C → World D B C → Response Payload × World D B C
    taken_over (reply, db, c) w =
        (respond dataset reply, record w { registry = db; clickhouse = c })

    -- `Routes` of engine/schemamgr/http.go: the mux of the dataset routes.
    unfoldable pub datasets_handler :
        String → DatasetPath → World D B C → Response Payload × World D B C
    unfolding taken_over
    datasets_handler method (collection body) w =
        if str_eq method "POST"
        then taken_over (Http.create ddl D body now w.registry w.clickhouse) w
        else if is_get method
        then (respond dataset_list (Http.list D w.registry), w)
        else (not_allowed, w)
    datasets_handler method (item name) w =
        if is_get method
        then (respond dataset (Http.get D name w.registry), w)
        else (not_allowed, w)
    datasets_handler method (versions_of name) w =
        if is_get method
        then (respond dataset_list (Http.versions D name w.registry), w)
        else (not_allowed, w)
    datasets_handler method (columns_of name body) w =
        if str_eq method "POST"
        then taken_over (Http.add_columns ddl D name body now w.registry w.clickhouse) w
        else (not_allowed, w)
    datasets_handler method elsewhere w = (not_found, w)
