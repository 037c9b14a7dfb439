-- ===== src/Sql/Tables.antt =====
-- The tables by constants of model/sql/converter/types.go. The constants of the DDL parser that they name are
-- constructors; what is no constant of them is `other_type`.
use goctl.Base.{ℕ, Option, none, some, Text, codes}

pub data DdlType : Type 0 where
  bit : DdlType
  tiny_int : DdlType
  small_int : DdlType
  medium_int : DdlType
  int : DdlType
  middle_int : DdlType
  int1 : DdlType
  int2 : DdlType
  int3 : DdlType
  int4 : DdlType
  int8 : DdlType
  integer : DdlType
  big_int : DdlType
  float : DdlType
  float4 : DdlType
  float8 : DdlType
  double : DdlType
  decimal : DdlType
  dec : DdlType
  fixed : DdlType
  numeric : DdlType
  real : DdlType
  date : DdlType
  date_time : DdlType
  timestamp : DdlType
  time : DdlType
  year : DdlType
  char : DdlType
  var_char : DdlType
  n_var_char : DdlType
  n_char : DdlType
  character : DdlType
  long_var_char : DdlType
  line_string : DdlType
  multi_line_string : DdlType
  binary : DdlType
  var_binary : DdlType
  tiny_text : DdlType
  text : DdlType
  medium_text : DdlType
  long_text : DdlType
  enum : DdlType
  set : DdlType
  json : DdlType
  blob : DdlType
  long_blob : DdlType
  medium_blob : DdlType
  tiny_blob : DdlType
  bool : DdlType
  boolean : DdlType
  other_type : ℕ → DdlType

unfoldable pub common_mysql_data_type_map_int : DdlType → Option Text
common_mysql_data_type_map_int bit = some (codes "byte")
common_mysql_data_type_map_int tiny_int = some (codes "int64")
common_mysql_data_type_map_int small_int = some (codes "int64")
common_mysql_data_type_map_int medium_int = some (codes "int64")
common_mysql_data_type_map_int int = some (codes "int64")
common_mysql_data_type_map_int middle_int = some (codes "int64")
common_mysql_data_type_map_int int1 = some (codes "int64")
common_mysql_data_type_map_int int2 = some (codes "int64")
common_mysql_data_type_map_int int3 = some (codes "int64")
common_mysql_data_type_map_int int4 = some (codes "int64")
common_mysql_data_type_map_int int8 = some (codes "int64")
common_mysql_data_type_map_int integer = some (codes "int64")
common_mysql_data_type_map_int big_int = some (codes "int64")
common_mysql_data_type_map_int float = some (codes "float64")
common_mysql_data_type_map_int float4 = some (codes "float64")
common_mysql_data_type_map_int float8 = some (codes "float64")
common_mysql_data_type_map_int double = some (codes "float64")
common_mysql_data_type_map_int decimal = some (codes "float64")
common_mysql_data_type_map_int dec = some (codes "float64")
common_mysql_data_type_map_int fixed = some (codes "float64")
common_mysql_data_type_map_int numeric = some (codes "float64")
common_mysql_data_type_map_int real = some (codes "float64")
common_mysql_data_type_map_int date = some (codes "time.Time")
common_mysql_data_type_map_int date_time = some (codes "time.Time")
common_mysql_data_type_map_int timestamp = some (codes "time.Time")
common_mysql_data_type_map_int time = some (codes "string")
common_mysql_data_type_map_int year = some (codes "int64")
common_mysql_data_type_map_int char = some (codes "string")
common_mysql_data_type_map_int var_char = some (codes "string")
common_mysql_data_type_map_int n_var_char = some (codes "string")
common_mysql_data_type_map_int n_char = some (codes "string")
common_mysql_data_type_map_int character = some (codes "string")
common_mysql_data_type_map_int long_var_char = some (codes "string")
common_mysql_data_type_map_int line_string = some (codes "string")
common_mysql_data_type_map_int multi_line_string = some (codes "string")
common_mysql_data_type_map_int binary = some (codes "string")
common_mysql_data_type_map_int var_binary = some (codes "string")
common_mysql_data_type_map_int tiny_text = some (codes "string")
common_mysql_data_type_map_int text = some (codes "string")
common_mysql_data_type_map_int medium_text = some (codes "string")
common_mysql_data_type_map_int long_text = some (codes "string")
common_mysql_data_type_map_int enum = some (codes "string")
common_mysql_data_type_map_int set = some (codes "string")
common_mysql_data_type_map_int json = some (codes "string")
common_mysql_data_type_map_int blob = some (codes "string")
common_mysql_data_type_map_int long_blob = some (codes "string")
common_mysql_data_type_map_int medium_blob = some (codes "string")
common_mysql_data_type_map_int tiny_blob = some (codes "string")
common_mysql_data_type_map_int bool = some (codes "bool")
common_mysql_data_type_map_int boolean = some (codes "bool")
common_mysql_data_type_map_int (other_type n) = none

unfoldable pub common_mysql_data_type_map : DdlType → Option Text
common_mysql_data_type_map bit = some (codes "bit")
common_mysql_data_type_map tiny_int = some (codes "tinyint")
common_mysql_data_type_map small_int = some (codes "smallint")
common_mysql_data_type_map medium_int = some (codes "mediumint")
common_mysql_data_type_map int = some (codes "int")
common_mysql_data_type_map middle_int = some (codes "middleint")
common_mysql_data_type_map int1 = some (codes "int1")
common_mysql_data_type_map int2 = some (codes "int2")
common_mysql_data_type_map int3 = some (codes "int3")
common_mysql_data_type_map int4 = some (codes "int4")
common_mysql_data_type_map int8 = some (codes "int8")
common_mysql_data_type_map integer = some (codes "integer")
common_mysql_data_type_map big_int = some (codes "bigint")
common_mysql_data_type_map float = some (codes "float")
common_mysql_data_type_map float4 = some (codes "float4")
common_mysql_data_type_map float8 = some (codes "float8")
common_mysql_data_type_map double = some (codes "double")
common_mysql_data_type_map decimal = some (codes "decimal")
common_mysql_data_type_map dec = some (codes "dec")
common_mysql_data_type_map fixed = some (codes "fixed")
common_mysql_data_type_map numeric = some (codes "numeric")
common_mysql_data_type_map real = some (codes "real")
common_mysql_data_type_map date = some (codes "date")
common_mysql_data_type_map date_time = some (codes "datetime")
common_mysql_data_type_map timestamp = some (codes "timestamp")
common_mysql_data_type_map time = some (codes "time")
common_mysql_data_type_map year = some (codes "year")
common_mysql_data_type_map char = some (codes "char")
common_mysql_data_type_map var_char = some (codes "varchar")
common_mysql_data_type_map n_var_char = some (codes "nvarchar")
common_mysql_data_type_map n_char = some (codes "nchar")
common_mysql_data_type_map character = some (codes "character")
common_mysql_data_type_map long_var_char = some (codes "longvarchar")
common_mysql_data_type_map line_string = some (codes "linestring")
common_mysql_data_type_map multi_line_string = some (codes "multilinestring")
common_mysql_data_type_map binary = some (codes "binary")
common_mysql_data_type_map var_binary = some (codes "varbinary")
common_mysql_data_type_map tiny_text = some (codes "tinytext")
common_mysql_data_type_map text = some (codes "text")
common_mysql_data_type_map medium_text = some (codes "mediumtext")
common_mysql_data_type_map long_text = some (codes "longtext")
common_mysql_data_type_map enum = some (codes "enum")
common_mysql_data_type_map set = some (codes "set")
common_mysql_data_type_map json = some (codes "json")
common_mysql_data_type_map blob = some (codes "blob")
common_mysql_data_type_map long_blob = some (codes "longblob")
common_mysql_data_type_map medium_blob = some (codes "mediumblob")
common_mysql_data_type_map tiny_blob = some (codes "tinyblob")
common_mysql_data_type_map bool = some (codes "bool")
common_mysql_data_type_map boolean = some (codes "boolean")
common_mysql_data_type_map (other_type n) = none
