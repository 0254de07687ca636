-- ===== src/SchemaMgr/Tests/Memory.antt =====
-- A database in memory that behaves as the registry expects of SQLite
-- (engine/schemamgr/store.go).
use hermi_nas.Prelude.{
  List, Option, String, [], ap, arith, contains, eq_iff, if◌then◌else◌, map, none, put, refl, some,
  str_eq, sym, ℕ, ◌∙◌, ◌∷◌, ◌≡◌,
}
use Prim.Native.String.{compare}
use text.Mathlib.Text.{is_lt}
use hermi_nas.Kernel.Errors
use hermi_nas.Kernel.Errors.{Result, ok, err, Error}
use hermi_nas.SchemaMgr.Dataset.{Dataset}
use hermi_nas.SchemaMgr.Database.{Database, Rows, Laws, Selected, no_rows, found, insert_row}

pub record Tables : Type 0 where
  pub names : List String
  pub datasets : String → Option Dataset
  pub rows : String → List (ℕ × Dataset)

abbrev insert_name : String → List String → List String
insert_name n [] = n ∷ []
insert_name n (x ∷ xs) =
    let rest = insert_name n xs in
    if str_eq x n then x ∷ xs else if is_lt (compare x n) then x ∷ rest else n ∷ x ∷ xs

abbrev selected : Option Dataset → Selected Dataset
selected none = no_rows
selected (some d) = found d

abbrev all_of : (String → Option Dataset) → List String → List Dataset
all_of datasets [] = []
all_of datasets (n ∷ ns) = elim (datasets n) [
  | none ↦ all_of datasets ns
  | some d ↦ d ∷ all_of datasets ns
]

abbrev taken : Error
taken = Errors.foreign (record { format = "UNIQUE constraint failed"; args = [] })

abbrev add_version : Dataset → Dataset → Tables → Result Tables
add_version d t db =
    if contains d.version (map (λ row. row.0) (db.rows d.name))
    then err taken
    else ok (record db { rows = put d.name (insert_row d.version t (db.rows d.name)) db.rows })

abbrev pub memory : Database
memory = record {
  Db = Tables;
  Definition = Dataset;
  encode = λ d. ok d;
  decode = λ d. ok d;
  select_definition = λ db name. selected (db.datasets name);
  select_all = λ db. ok (record { scanned = map ok (all_of db.datasets db.names); end = none });
  select_versions =
      λ db name. ok (record { scanned = map ok (map (λ row. row.1) (db.rows name)); end = none });
  begin = λ db. ok tt;
  upsert_dataset = λ d t db. ok (record db {
    names = insert_name d.name db.names;
    datasets = put d.name (some t) db.datasets;
  });
  insert_version = add_version;
  commit = λ db. ok tt;
  history = λ db name. db.rows name;
}

-- The row that a successful `insert_version` leaves.
add_version-eq :
    (d t : Dataset) (db : Tables) {db' : Tables}
    → add_version d t db ≡ ok db'
    → record db { rows = put d.name (insert_row d.version t (db.rows d.name)) db.rows } ≡ db'
add_version-eq d t db h = ground arith

ok_injective : (a b : Tables) → ok a ≡ ok b → a ≡ b
ok_injective a b h = cc

map_ok-injective : (xs ys : List Dataset) → map ok xs ≡ map ok ys → xs ≡ ys
map_ok-injective [] [] h = refl
map_ok-injective [] (y ∷ ys) h = cc
map_ok-injective (x ∷ xs) [] h = cc
map_ok-injective (x ∷ xs) (y ∷ ys) h = ground (arith, map_ok-injective xs ys)

abbrev all_scanned : List (Result Dataset) → Rows Dataset
all_scanned xs = record { scanned = xs; end = none }

same_scanned : {xs ys : List (Result Dataset)} → ok (all_scanned xs) ≡ ok (all_scanned ys) → xs ≡ ys
same_scanned h = cc

pub memory-Laws : Laws memory
memory-Laws = record {
  decode-encode = λ d t h. ground arith;
  select-upsert = λ d t db db' name h.
      ap (λ (x : Tables). selected (x.datasets name)) (sym (ok_injective _ db' h)) ∙ ground arith;
  history-upsert =
      λ d t db db' name h. ap (λ (x : Tables). x.rows name) (sym (ok_injective _ db' h));
  select-insert = λ d t db db' name h. ground arith;
  history-insert = λ d t db db' name h.
      ap (λ (x : Tables). x.rows name) (sym (add_version-eq d t db h))
      ∙ ground (
        arith,
        eq_iff d.name name,
        λ (e : d.name ≡ name). ap db.rows e,
        λ (e : d.name ≡ name). ap (λ n. insert_row d.version t (db.rows n)) e,
      );
  primary_key = λ d t db db' h. ground arith;
  select_versions-history = λ db name ts h. sym (map_ok-injective _ ts (same_scanned h));
}
