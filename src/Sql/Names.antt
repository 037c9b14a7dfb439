-- ===== src/Sql/Names.antt =====
-- The tables by names of model/sql/converter/types.go.
use goctl.Base.{List, [], ◌∷◌, Option, none, some, Text, codes, text_eq, if◌then◌else◌}

abbrev pub unsigned_type_map : List (Text × Text)
unsigned_type_map =
    (codes "int", codes "uint")
    ∷ (codes "int8", codes "uint8")
    ∷ (codes "int16", codes "uint16")
    ∷ (codes "int32", codes "uint32")
    ∷ (codes "int64", codes "uint64")
    ∷ []

-- A read of a map from strings.
unfoldable pub lookup {ℓ} : {A : Type ℓ} → Text → List (Text × A) → Option A
unfolding text_eq
lookup s [] = none
lookup s ((k, v) ∷ m) = if text_eq k s then some v else lookup s m

abbrev pub common_mysql_data_type_map_string : List (Text × Text)
common_mysql_data_type_map_string =
    (codes "bool", codes "bool")
    ∷ (codes "_bool", codes "pq.BoolArray")
    ∷ (codes "boolean", codes "bool")
    ∷ (codes "tinyint", codes "int64")
    ∷ (codes "smallint", codes "int64")
    ∷ (codes "mediumint", codes "int64")
    ∷ (codes "int", codes "int64")
    ∷ (codes "int1", codes "int64")
    ∷ (codes "int2", codes "int64")
    ∷ (codes "_int2", codes "pq.Int64Array")
    ∷ (codes "int3", codes "int64")
    ∷ (codes "int4", codes "int64")
    ∷ (codes "_int4", codes "pq.Int64Array")
    ∷ (codes "int8", codes "int64")
    ∷ (codes "_int8", codes "pq.Int64Array")
    ∷ (codes "integer", codes "int64")
    ∷ (codes "_integer", codes "pq.Int64Array")
    ∷ (codes "bigint", codes "int64")
    ∷ (codes "float", codes "float64")
    ∷ (codes "float4", codes "float64")
    ∷ (codes "_float4", codes "pq.Float64Array")
    ∷ (codes "float8", codes "float64")
    ∷ (codes "_float8", codes "pq.Float64Array")
    ∷ (codes "double", codes "float64")
    ∷ (codes "decimal", codes "float64")
    ∷ (codes "dec", codes "float64")
    ∷ (codes "fixed", codes "float64")
    ∷ (codes "real", codes "float64")
    ∷ (codes "bit", codes "byte")
    ∷ (codes "date", codes "time.Time")
    ∷ (codes "datetime", codes "time.Time")
    ∷ (codes "timestamp", codes "time.Time")
    ∷ (codes "time", codes "string")
    ∷ (codes "year", codes "int64")
    ∷ (codes "linestring", codes "string")
    ∷ (codes "multilinestring", codes "string")
    ∷ (codes "nvarchar", codes "string")
    ∷ (codes "nchar", codes "string")
    ∷ (codes "char", codes "string")
    ∷ (codes "bpchar", codes "string")
    ∷ (codes "_char", codes "pq.StringArray")
    ∷ (codes "character", codes "string")
    ∷ (codes "varchar", codes "string")
    ∷ (codes "_varchar", codes "pq.StringArray")
    ∷ (codes "binary", codes "string")
    ∷ (codes "bytea", codes "string")
    ∷ (codes "longvarbinary", codes "string")
    ∷ (codes "varbinary", codes "string")
    ∷ (codes "tinytext", codes "string")
    ∷ (codes "text", codes "string")
    ∷ (codes "_text", codes "pq.StringArray")
    ∷ (codes "mediumtext", codes "string")
    ∷ (codes "longtext", codes "string")
    ∷ (codes "enum", codes "string")
    ∷ (codes "set", codes "string")
    ∷ (codes "json", codes "string")
    ∷ (codes "jsonb", codes "string")
    ∷ (codes "blob", codes "string")
    ∷ (codes "longblob", codes "string")
    ∷ (codes "mediumblob", codes "string")
    ∷ (codes "tinyblob", codes "string")
    ∷ (codes "ltree", codes "[]byte")
    ∷ []

unfoldable pub go_type_of : Text → Option Text
unfolding lookup
go_type_of s = lookup s common_mysql_data_type_map_string
