-- ===== src/SchemaMgr/Ddl.antt =====
-- DDL text, engine/schemamgr/ddl.go. A text is the list of its characters.
pub mod Quoting
use hermi_nas.Prelude.{
  List, String, [], codes, if◌then◌else◌, ltb, not, str_eq, suc, zero, ℕ, ◌%◌, ◌&&◌, ◌++◌, ◌+◌, ◌/◌,
  ◌==◌, ◌∷◌,
}
use hermi_nas.Prelude.Int.{ℤ, pos_part, is_pos}
use hermi_nas.SchemaMgr.Dataset.{Column, Dataset, is_nil}

abbrev pub Text : Type 0
Text = List ℕ

abbrev pub backtick : ℕ
backtick = 0x60

-- `strings.ReplaceAll(name, "`", "``")`
unfoldable pub escape : Text → Text
escape [] = []
escape (c ∷ cs) =
    let rest = escape cs in if c == backtick then backtick ∷ backtick ∷ rest else c ∷ rest

unfoldable pub quote_ident : String → Text
unfolding escape
quote_ident name = backtick ∷ escape (codes name) ++ backtick ∷ []

-- `%d` of a natural number; the fuel is the number itself, which has fewer digits than that.
unfoldable pub decimal_from : ℕ → ℕ → Text
decimal_from zero n = (b'0' + n % 10) ∷ []
decimal_from (suc fuel) n =
    let more = decimal_from fuel (n / 10) in
    if ltb n 10 then (b'0' + n) ∷ [] else more ++ (b'0' + n % 10) ∷ []

unfoldable pub decimal : ℕ → Text
unfolding decimal_from
decimal n = decimal_from n n

-- `strings.TrimRight(text, "\n")`
unfoldable pub trim_newlines : Text → Text
trim_newlines [] = []
trim_newlines (c ∷ cs) =
    let rest = trim_newlines cs in if c == 10 && is_nil rest then [] else c ∷ rest

unfoldable pub column_type : Column → Text
column_type c = if c.nullable then codes "Nullable(" ++ codes c.type ++ codes ")" else codes c.type

-- One line for each column, with a comma behind all but the last.
unfoldable pub column_lines : Text → List Column → Text
unfolding quote_ident column_type
column_lines head [] = []
column_lines head (c ∷ cs) =
    codes "    "
    ++ head
    ++ quote_ident c.name
    ++ codes " "
    ++ column_type c
    ++ (if is_nil cs then [] else codes ",")
    ++ 10 ∷ column_lines head cs

-- `strings.Join(quoted, ", ")`
unfoldable pub join_quoted : List String → Text
unfolding quote_ident
join_quoted [] = []
join_quoted (col ∷ []) = quote_ident col
join_quoted (col ∷ next ∷ cols) = quote_ident col ++ codes ", " ++ join_quoted (next ∷ cols)

unfoldable pub partition_clause : Dataset → Text
unfolding quote_ident
partition_clause d =
    if not (str_eq d.partition_by_column "")
    then codes "PARTITION BY toYYYYMM(" ++ quote_ident d.partition_by_column ++ codes ")" ++ 10 ∷ []
    else []

unfoldable pub order_clause : List String → Text
unfolding join_quoted
order_clause [] = codes "ORDER BY tuple()" ++ 10 ∷ []
order_clause (col ∷ cols) = codes "ORDER BY (" ++ join_quoted (col ∷ cols) ++ codes ")" ++ 10 ∷ []

unfoldable pub ttl_clause : Dataset → Text
unfolding quote_ident decimal
ttl_clause d =
    if is_pos d.ttl_days
    then codes "TTL "
      ++ quote_ident d.partition_by_column
      ++ codes " + INTERVAL "
      ++ decimal (pos_part d.ttl_days)
      ++ codes " DAY"
      ++ 10 ∷ []
    else []

unfoldable pub generate_ddl : Dataset → Text
unfolding column_lines partition_clause order_clause ttl_clause trim_newlines quote_ident
generate_ddl d = trim_newlines (
    codes "CREATE TABLE IF NOT EXISTS "
    ++ quote_ident d.name
    ++ codes " ("
    ++ 10 ∷ column_lines [] d.columns
    ++ codes ") ENGINE = MergeTree()"
    ++ 10 ∷ partition_clause d
    ++ order_clause d.order_by
    ++ ttl_clause d)

unfoldable pub generate_alter_ddl : String → List Column → Text
unfolding column_lines trim_newlines quote_ident
generate_alter_ddl dataset_name new_columns = trim_newlines (
    codes "ALTER TABLE "
    ++ quote_ident dataset_name
    ++ 10 ∷ column_lines (codes "ADD COLUMN ") new_columns)
