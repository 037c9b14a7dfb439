-- ===== src/Tests/Models.antt =====
-- The generator of database models of model/sql on small tables.
use goctl.Base.{
  ◌+◌, arith, true, false, ◌≡◌, ◌<◌, refl, ◌&&◌, ◌↔◌, inl, inr, [], ◌∷◌, Option, none, some, Text,
  codes, leb, if◌then◌else◌, length,
}
use goctl.Sql.Columns.{
  DbIndex, Column, ColumnData, KeyError, Table, index_pri, convert, trim_comments,
}
use goctl.Sql.DataTypes.{
  converted, unsupported_database_type, convert_data_type, convert_string_data_type,
  convert_datatype_with_config,
}
use goctl.Sql.FieldMap.{HasFields, get_table_fields-HasFields}
use goctl.Sql.Fields.{get_table_fields}
use goctl.Sql.Grouping.{at_index}
use goctl.Sql.Indexes.{HasIndexes, convert_errors, convert-HasIndexes}
use goctl.Sql.Modes.{is_unlisted, HasNoCustom, is_lower, convert_data_type-modes}
use goctl.Sql.Names.{go_type_of}
use goctl.Sql.Tables.{DdlType}

abbrev column : Text → Option DbIndex → Column
column n i = record {
  name = n;
  data_type = codes "bigint";
  column_type = codes "bigint unsigned";
  extra = [];
  comment = codes "a";
  column_default = none;
  is_null_able = codes "NO";
  ordinal_position = 1;
  index = i;
}

abbrev index_of : Text → Option DbIndex
index_of n = some (record { index_name = n; non_unique = 0; seq_in_index = 1 })

abbrev users : ColumnData
users = record {
  db = codes "d";
  table = codes "user";
  columns =
      column (codes "id") (index_of index_pri)
      ∷ column (codes "name") (index_of (codes "name_idx"))
      ∷ [];
}

abbrev users_table : Table
users_table = record {
  db = codes "d";
  table = codes "user";
  columns = users.columns;
  unique_index = (codes "name_idx", column (codes "name") (index_of (codes "name_idx")) ∷ []) ∷ [];
  primary_key = column (codes "id") (index_of index_pri);
  normal_index = [];
}

users_converted : convert users ≡ inr users_table
unfolding convert
users_converted = refl

convert-HasIndexes_example :
    (users_table.columns ≡ trim_comments users.columns) × HasIndexes users_table
convert-HasIndexes_example = convert-HasIndexes users users_table users_converted

convert_errors_example :
    ((convert users ≡ inl KeyError.missing_primary_key)
      ↔ (length (at_index index_pri users.columns) ≡ 0))
    × ((convert users ≡ inl KeyError.joint_primary_key)
        ↔ (1 < length (at_index index_pri users.columns)))
convert_errors_example = convert_errors users

-- The lower case of ASCII.
abbrev to_lower : Text → Text
to_lower [] = []
to_lower (c ∷ s) = (if leb b'A' c && leb c b'Z' then c + 32 else c) ∷ to_lower s

to_lower-is_lower : (s : Text) → is_lower s ≡ true → to_lower s ≡ s
to_lower-is_lower [] h = refl
to_lower-is_lower (c ∷ s) h = ground (arith, to_lower-is_lower s)

no_types-HasNoCustom : HasNoCustom none to_lower
unfolding convert_datatype_with_config
no_types-HasNoCustom s null u = refl

convert_data_type-modes_example :
    convert_data_type none to_lower true DdlType.big_int false true true ≡ (
      if is_unlisted DdlType.big_int
      then unsupported_database_type
      else convert_data_type none to_lower false DdlType.big_int false true true)
convert_data_type-modes_example =
    convert_data_type-modes none to_lower no_types-HasNoCustom to_lower-is_lower DdlType.big_int
      false true true

unsigned_big_int :
    convert_string_data_type none to_lower true (codes "BIGINT") false true true
    ≡ converted (record { go_type = codes "uint64"; third_pkg = []; is_pq_array = false })
unfolding convert_string_data_type go_type_of
unsigned_big_int = refl

int_array :
    convert_string_data_type none to_lower false (codes "_int8") true false false
    ≡ converted (record { go_type = codes "pq.Int64Array"; third_pkg = []; is_pq_array = true })
unfolding convert_string_data_type go_type_of
int_array = refl

-- A bit column that may be null has a Go type that holds no null.
nullable_bit :
    convert_data_type none to_lower false DdlType.bit true false false
    ≡ converted (record { go_type = codes "byte"; third_pkg = []; is_pq_array = false })
unfolding convert_data_type
nullable_bit = refl

get_table_fields-HasFields_example :
    HasFields none to_lower true false users.columns
      (get_table_fields none to_lower true false users.columns [])
get_table_fields-HasFields_example =
    get_table_fields-HasFields none to_lower true false users.columns
