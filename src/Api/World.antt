-- ===== src/Api/World.antt =====
-- What the handlers of engine/api share and change: the stores that `Deps` of engine/api/routes.go
-- names, ClickHouse, and the map `ensured` of `ingestHandler`.
use hermi_nas.Prelude.{Bool, String}
use hermi_nas.SchemaMgr.Database.{Database}
use hermi_nas.Auth.Database.{Backend}
use hermi_nas.QueryBroker.Broker.{Broker}
use hermi_nas.Api.RateLimit.{SlidingWindow}

pub record World (D : Database) (B : Backend) (C : Type 0) : Type 0 where
  pub registry : D.Db
  pub accounts : B.Db
  pub clickhouse : C
  pub broker : Broker
  pub windows : SlidingWindow
  pub ensured : String → Bool
