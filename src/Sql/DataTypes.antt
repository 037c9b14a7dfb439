-- ===== src/Sql/DataTypes.antt =====
-- `ConvertDataType`, `ConvertStringDataType`, `convertDatatypeWithConfig` and `mayConvertNullType` of
-- model/sql/converter/types.go. Whether the experimental mode is on, the `TypesMap` of the
-- configuration, none where it cannot be read, and `strings.ToLower` are parameters.
use goctl.Base.{
  Bool, true, false, not, ◌&&◌, ◌==◌, List, [], ◌∷◌, Option, none, some, Text, codes, text_eq,
  if◌then◌else◌,
}
use goctl.Sql.Names.{lookup, unsigned_type_map, go_type_of}
use goctl.Sql.Tables.{DdlType, common_mysql_data_type_map_int, common_mysql_data_type_map}

pub record ModelTypeMapOption : Type 0 where
  pub type : Text
  pub unsigned_type : Text
  pub null_type : Text
  pub pkg : Text

-- What `ConvertStringDataType` returns besides an error.
pub record GoType : Type 0 where
  pub go_type : Text
  pub third_pkg : Text
  pub is_pq_array : Bool

pub data Converted : Type 0 where
  converted : GoType → Converted
  unsupported_database_type : Converted

-- `ConvertDataType` does not return the flag; it is false here.
abbrev pub without_flag : Converted → Converted
without_flag unsupported_database_type = unsupported_database_type
without_flag (converted g) = converted (record g { is_pq_array = false })

abbrev pub or_else : Option Text → Text → Text
or_else none s = s
or_else (some t) s = t

abbrev pub is_empty : Text → Bool
is_empty [] = true
is_empty (c ∷ s) = false

-- `strings.HasPrefix` with `_`.
abbrev pub has_underscore : Text → Bool
has_underscore [] = false
has_underscore (c ∷ s) = c == b'_'

unfoldable pub may_convert_null_type : Text → (is_default_null unsigned strict : Bool) → Text
unfolding lookup text_eq
may_convert_null_type t false u strict =
    if u && strict then or_else (lookup t unsigned_type_map) t else t
may_convert_null_type t true u strict =
    if text_eq t (codes "int64")
    then codes "sql.NullInt64"
    else if text_eq t (codes "int32")
    then codes "sql.NullInt32"
    else if text_eq t (codes "float64")
    then codes "sql.NullFloat64"
    else if text_eq t (codes "bool")
    then codes "sql.NullBool"
    else if text_eq t (codes "string")
    then codes "sql.NullString"
    else if text_eq t (codes "time.Time")
    then codes "sql.NullTime"
    else if u
    then or_else (lookup t unsigned_type_map) t
    else t

-- The part of `convertDatatypeWithConfig` behind its lookup.
unfoldable pub choose_option :
    Option ModelTypeMapOption → (is_default_null unsigned : Bool) → Text × Text
choose_option none null u = ([], [])
choose_option (some o) null u =
    if is_empty o.type && is_empty o.unsigned_type && is_empty o.null_type
    then ([], [])
    else if null && not (is_empty o.null_type)
    then (o.null_type, o.pkg)
    else if not null && u && not (is_empty o.unsigned_type)
    then (o.unsigned_type, o.pkg)
    else (o.type, o.pkg)

-- What `ConvertStringDataType` returns for what the table of names has.
unfoldable pub convert_found :
    Text → Option Text → (is_default_null unsigned strict : Bool) → Converted
unfolding may_convert_null_type
convert_found t none null u strict = unsupported_database_type
convert_found t (some tp) null u strict =
    if has_underscore t
    then converted (record { go_type = tp; third_pkg = []; is_pq_array = true })
    else converted (record {
      go_type = may_convert_null_type tp null u strict;
      third_pkg = [];
      is_pq_array = false;
    })

module _ (types_map : Option (List (Text × ModelTypeMapOption))) (to_lower : Text → Text) where
  unfoldable pub convert_datatype_with_config :
      Text → (is_default_null unsigned : Bool) → Text × Text
  unfolding choose_option lookup
  convert_datatype_with_config t null u = elim types_map [
    | none ↦ ([], [])
    | some m ↦ choose_option (lookup (to_lower t) m) null u
  ]

  -- The lines that both modes share.
  unfoldable pub convert_by_table : Text → (is_default_null unsigned strict : Bool) → Converted
  unfolding convert_found
  convert_by_table t = convert_found t (go_type_of (to_lower t))

  unfoldable pub convert_string_data_type :
      (use_experimental : Bool) → Text → (is_default_null unsigned strict : Bool) → Converted
  unfolding convert_datatype_with_config convert_by_table
  convert_string_data_type use_experimental t null u strict =
      if use_experimental && not (is_empty (convert_datatype_with_config t null u).0)
      then converted (record {
        go_type = (convert_datatype_with_config t null u).0;
        third_pkg = (convert_datatype_with_config t null u).1;
        is_pq_array = false;
      })
      else convert_by_table t null u strict

  unfoldable pub convert_data_type :
      (use_experimental : Bool) → DdlType → (is_default_null unsigned strict : Bool) → Converted
  unfolding common_mysql_data_type_map_int common_mysql_data_type_map convert_string_data_type
      may_convert_null_type
  convert_data_type use_experimental t null u strict =
      if use_experimental
      then elim (common_mysql_data_type_map t) [
        | none ↦ unsupported_database_type
        | some s ↦ without_flag (convert_string_data_type true s null u strict)
      ]
      else elim (common_mysql_data_type_map_int t) [
        | none ↦ unsupported_database_type
        | some s ↦ converted (record {
          go_type = may_convert_null_type s null u strict;
          third_pkg = [];
          is_pq_array = false;
        })
      ]
