-- ===== src/Api/Routes/Kept/Consistent.antt =====
-- The registry of datasets behind the router of engine/api/routes.go.
use hermi_nas.Api.Ingest.Kept.{ingest-registry}
use hermi_nas.Api.Routes.{
  Database, DatasetPath, Request, collection, columns_of, datasets_handler, elsewhere, is_get, item,
  versions_of, World,
}
use hermi_nas.Api.Routes.Kept.{serve_all, serve_all-kept}
use hermi_nas.Api.Routes.Router.{Clock, Deps, ingest_answer}
use hermi_nas.Auth.Database.{Backend}
use hermi_nas.Kernel.Errors.{Bytes, Result, Result-cases, err, ok}
use hermi_nas.Prelude.{Bool-cases, List, String, inl, inr, str_eq, ℕ}
use hermi_nas.SchemaMgr.Database.{Laws}
use hermi_nas.SchemaMgr.Dataset.{Column}
use hermi_nas.SchemaMgr.Http.{CreateRequest, dataset_of}
use hermi_nas.SchemaMgr.Http.Answers.{created-db}
use hermi_nas.SchemaMgr.Store.Registry.{
  IsConsistent, add_columns-IsConsistent, create-IsConsistent, ensure_dataset-IsConsistent,
}
use hermi_nas.SchemaMgr.Http
use hermi_nas.SchemaMgr.Store

module _ {F C Secret : Type 0} (D : Database) (L : Laws D) (B : Backend)
    (deps : Deps F C Secret D B) where
  IsKept : World D B C → Type 0
  IsKept w = IsConsistent D w.registry

  created-IsConsistent :
      (body : Result CreateRequest) (now : ℕ) (db : D.Db) (c : C)
      → IsConsistent D db
      → IsConsistent D (Http.create deps.ddl D body now db c).1
  unfolding Http.create
  created-IsConsistent (err e) now db c h = h
  created-IsConsistent (ok req) now db c h =
      rw (created-db deps.ddl D (Store.create D (dataset_of req) now db) c)
        (create-IsConsistent D L (dataset_of req) now db h)

  columns-IsConsistent :
      (name : String) (body : Result (List Column)) (now : ℕ) (db : D.Db) (c : C)
      → IsConsistent D db
      → IsConsistent D (Http.add_columns deps.ddl D name body now db c).1
  unfolding Http.add_columns Http.evolved
  columns-IsConsistent name (err e) now db c h = h
  columns-IsConsistent name (ok columns) now db c h =
      elim (Result-cases (Store.add_columns D name columns now db).0) [
        | inl (d, q) ↦ rw (Http.evolved, q) (add_columns-IsConsistent D L name columns now db h)
        | inr (e, q) ↦ rw (Http.evolved, q) (add_columns-IsConsistent D L name columns now db h)
      ]

  datasets-IsKept :
      (now : ℕ) (method : String) (path : DatasetPath) (w : World D B C)
      → IsKept w
      → IsKept (datasets_handler D B deps.ddl now method path w).1
  unfolding datasets_handler IsKept
  datasets-IsKept now method (collection body) w h = elim (Bool-cases (str_eq method "POST")) [
    | inl q ↦ rw q (created-IsConsistent body now w.registry w.clickhouse h)
    | inr q ↦ elim (Bool-cases (is_get method)) [ inl k ↦ rw (q, k) h | inr k ↦ rw (q, k) h ]
  ]
  datasets-IsKept now method (item name) w h = elim (Bool-cases (is_get method)) [
    | inl k ↦ rw k h
    | inr k ↦ rw k h
  ]
  datasets-IsKept now method (versions_of name) w h = elim (Bool-cases (is_get method)) [
    | inl k ↦ rw k h
    | inr k ↦ rw k h
  ]
  datasets-IsKept now method (columns_of name body) w h = elim (Bool-cases (str_eq method "POST")) [
    | inl q ↦ rw q (columns-IsConsistent name body now w.registry w.clickhouse h)
    | inr q ↦ rw q h
  ]
  datasets-IsKept now method elsewhere w h = h

  ingest-IsKept :
      (at : Clock F) (name : String) (body : Bytes) (w : World D B C)
      → IsKept w
      → IsKept (ingest_answer D B deps at name body w).1
  unfolding IsKept
  ingest-IsKept at name body w h =
      ingest-registry D B deps.numbers deps.ddl deps.inserter deps.encode name at.now w
        (IsConsistent D) h
        (λ r. ensure_dataset-IsConsistent D L deps.numbers name r at.now w.registry h)
        deps.unmarshal at.received_at body

  -- Over every registry that fulfils the laws, whatever requests the router serves one after
  -- another, each at any time, with any token and any body, and with a path that is UTF-8 where its
  -- escapes are undone: a consistent registry stays consistent.
  -- Each dataset that can be read is well-formed and has all its versions, numbered from 1 to its
  -- own.
  pub serve_all-IsConsistent :
      (requests : List (Clock F × Request)) (w : World D B C)
      → IsConsistent D w.registry
      → IsConsistent D (serve_all D B deps requests w).registry
  unfolding IsKept
  serve_all-IsConsistent =
      serve_all-kept D B deps IsKept (λ at user_id sql w h. h) datasets-IsKept ingest-IsKept
        (λ windows w h. h)
