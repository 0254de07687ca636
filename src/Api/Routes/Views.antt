-- ===== src/Api/Routes/Views.antt =====
-- What the routes of datasets cannot change (engine/api/routes.go).
use hermi_nas.Api.Routes.{
  Database, DatasetPath, Text, collection, columns_of, datasets_handler, elsewhere, is_get, item,
  versions_of, World, taken_over, Dataset,
}
use hermi_nas.Auth.Database.{Backend}
use hermi_nas.Prelude.{Bool-cases, Option, String, inl, inr, refl, str_eq, ℕ, ◌≡◌}
use hermi_nas.SchemaMgr.Http
use hermi_nas.SchemaMgr.Http.{Reply}
use hermi_nas.Kernel.Errors.{Error}

module _ {C : Type 0} (D : Database) (B : Backend) (ddl : Option (Text → C → Option Error × C))
    (now : ℕ) {X : Type 0} (view : World D B C → X)
    (same : (w : World D B C) (db : D.Db) (c : C)
      → view (record w { registry = db; clickhouse = c }) ≡ view w) where
  taken_over-view :
      (o : Reply Dataset × D.Db × C) (w : World D B C)
      → view (taken_over D B ddl now o w).1 ≡ view w
  unfolding taken_over
  taken_over-view (reply, db, c) w = same w db c

  pub datasets-view :
      (method : String) (path : DatasetPath) (w : World D B C)
      → view (datasets_handler D B ddl now method path w).1 ≡ view w
  unfolding datasets_handler
  datasets-view method (collection body) w = elim (Bool-cases (str_eq method "POST")) [
    | inl q ↦ rw q (taken_over-view (Http.create ddl D body now w.registry w.clickhouse) w)
    | inr q ↦ elim (Bool-cases (is_get method)) [ inl k ↦ rw (q, k) refl | inr k ↦ rw (q, k) refl ]
  ]
  datasets-view method (item name) w = elim (Bool-cases (is_get method)) [
    | inl k ↦ rw k refl
    | inr k ↦ rw k refl
  ]
  datasets-view method (versions_of name) w = elim (Bool-cases (is_get method)) [
    | inl k ↦ rw k refl
    | inr k ↦ rw k refl
  ]
  datasets-view method (columns_of name body) w = elim (Bool-cases (str_eq method "POST")) [
    | inl q ↦
        rw q (taken_over-view (Http.add_columns ddl D name body now w.registry w.clickhouse) w)
    | inr q ↦ rw q refl
  ]
  datasets-view method elsewhere w = refl
