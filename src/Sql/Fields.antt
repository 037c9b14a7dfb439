-- ===== src/Sql/Fields.antt =====
-- `getTableFields` of model/sql/parser/parser.go. Of a pair of results with an error, none stands for
-- the error.
use goctl.Base.{
  ℕ, ◌&&◌, ◌||◌, Bool, true, false, List, [], ◌∷◌, Option, none, some, Text, codes, text_eq,
  if◌then◌else◌,
}
use goctl.Sql.Columns.{DbIndex, Column}
use goctl.Sql.DataTypes.{
  GoType, Converted, converted, unsupported_database_type, ModelTypeMapOption,
  convert_string_data_type,
}
use goctl.Util.Naming.{starts_with}

pub record Field : Type 0 where
  pub name_original : Text
  pub name : Text
  pub third_pkg : Text
  pub data_type : Text
  pub comment : Text
  pub seq_in_index : ℕ
  pub ordinal_position : ℕ
  pub contains_pq : Bool

-- `strings.Contains`.
unfoldable pub contains : Text → Text → Bool
unfolding starts_with
contains [] sub = starts_with sub []
contains (c ∷ s) sub = let rest = contains s sub in starts_with sub (c ∷ s) || rest

abbrev pub is_absent : Option Text → Bool
is_absent none = true
is_absent (some s) = false

abbrev pub seq_of : Option DbIndex → ℕ
seq_of none = 0
seq_of (some i) = i.seq_in_index

-- A write to the map of the fields.
unfoldable pub put_field : Text → Field → List (Text × Field) → List (Text × Field)
unfolding text_eq
put_field k f [] = (k, f) ∷ []
put_field k f ((j, g) ∷ m) = if text_eq j k then (j, f) ∷ m else (j, g) ∷ put_field k f m

abbrev field_with : Column → GoType → Field
field_with c g = record {
  name_original = c.name;
  name = c.name;
  third_pkg = g.third_pkg;
  data_type = g.go_type;
  comment = c.comment;
  seq_in_index = seq_of c.index;
  ordinal_position = c.ordinal_position;
  contains_pq = g.is_pq_array;
}

module _ (types_map : Option (List (Text × ModelTypeMapOption))) (to_lower : Text → Text)
    (use_experimental strict : Bool) where
  unfoldable pub column_type_of : Column → Converted
  unfolding convert_string_data_type contains
  column_type_of c =
      convert_string_data_type types_map to_lower use_experimental c.data_type
        (is_absent c.column_default && text_eq c.is_null_able (codes "YES"))
        (contains c.column_type (codes "unsigned")) strict

  -- The field of a column.
  unfoldable pub field_of : Column → Option Field
  unfolding column_type_of
  field_of c = elim (column_type_of c) [
    | unsupported_database_type ↦ none
    | converted g ↦ some (field_with c g)
  ]

  unfoldable pub get_table_fields : List Column → List (Text × Field) → Option (List (Text × Field))
  unfolding field_of put_field
  get_table_fields [] m = some m
  get_table_fields (c ∷ cs) m = elim (field_of c) [
    | none ↦ none
    | some f ↦ get_table_fields cs (put_field c.name f m)
  ]
