-- ===== src/Sql/Columns.antt =====
-- `Convert` of model/sql/model/infoschemamodel.go, and `TrimNewLine` of model/sql/util/newline.go.
use goctl.Base.{
  ℕ, ◌⊎◌, inl, inr, ◌||◌, List, [], ◌∷◌, ◌++◌, Option, none, some, Text, codes, ◌==◌, text_eq,
  if◌then◌else◌,
}
use goctl.Sql.Names.{lookup}

abbrev pub index_pri : Text
index_pri = codes "PRIMARY"

pub record DbIndex : Type 0 where
  pub index_name : Text
  pub non_unique : ℕ
  pub seq_in_index : ℕ

-- `Column` with the fields of `DbColumn`. Of the default only the test for nil is used.
pub record Column : Type 0 where
  pub name : Text
  pub data_type : Text
  pub column_type : Text
  pub extra : Text
  pub comment : Text
  pub column_default : Option Text
  pub is_null_able : Text
  pub ordinal_position : ℕ
  pub index : Option DbIndex

pub record ColumnData : Type 0 where
  pub db : Text
  pub table : Text
  pub columns : List Column

-- A Go map from index names to columns, with one entry for each key.
abbrev pub Indexes : Type 0
Indexes = List (Text × List Column)

pub record Table : Type 0 where
  pub db : Text
  pub table : Text
  pub columns : List Column
  pub unique_index : Indexes
  pub primary_key : Column
  pub normal_index : Indexes

pub data KeyError : Type 0 where
  missing_primary_key : KeyError
  joint_primary_key : KeyError

unfoldable pub trim_new_line : Text → Text
trim_new_line [] = []
trim_new_line (c ∷ s) = let rest = trim_new_line s in if c == 13 || c == 10 then rest else c ∷ rest

-- The write to the comment of a column.
unfoldable pub trim_comment : Column → Column
unfolding trim_new_line
trim_comment c = record c { comment = trim_new_line c.comment }

unfoldable pub trim_comments : List Column → List Column
unfolding trim_comment
trim_comments [] = []
trim_comments (c ∷ cs) = trim_comment c ∷ trim_comments cs

abbrev pub or_nil : Option (List Column) → List Column
or_nil none = []
or_nil (some cs) = cs

-- A write to a map.
unfoldable pub put : Text → List Column → Indexes → Indexes
unfolding text_eq
put k cs [] = (k, cs) ∷ []
put k cs ((j, ds) ∷ m) = if text_eq j k then (j, cs) ∷ m else (j, ds) ∷ put k cs m

-- The loop that fills `m`, on columns with trimmed comments.
unfoldable pub group_columns : List Column → Indexes → Indexes
unfolding put lookup
group_columns [] m = m
group_columns (c ∷ cs) m = elim c.index [
  | none ↦ group_columns cs m
  | some i ↦ group_columns cs (put i.index_name (or_nil (lookup i.index_name m) ++ c ∷ []) m)
]

-- A column of an index, by whether the index of the column is unique.
unfoldable pub file_column :
    Text → List Column → Option DbIndex → Indexes × Indexes → Indexes × Indexes
unfolding put
file_column n cs none t = t
file_column n cs (some i) (u, v) = if i.non_unique == 0 then (put n cs u, v) else (u, put n cs v)

-- The inner loop over the columns of an index.
unfoldable pub file_columns :
    Text → List Column → List Column → Indexes × Indexes → Indexes × Indexes
unfolding file_column
file_columns n cs [] t = t
file_columns n cs (one ∷ rest) t = file_columns n cs rest (file_column n cs one.index t)

-- The loop over `m`, for `UniqueIndex` and `NormalIndex`.
unfoldable pub file_indexes : Indexes → Indexes × Indexes → Indexes × Indexes
unfolding file_columns text_eq
file_indexes [] t = t
file_indexes ((n, cs) ∷ m) t =
    if text_eq n index_pri then file_indexes m t else file_indexes m (file_columns n cs cs t)

-- The table with the columns of the primary index, on the map of the indexes.
unfoldable pub with_key : ColumnData → Column → Indexes → Table
unfolding file_indexes
with_key d c m =
    let filed = file_indexes m ([], []) in
    record {
      db = d.db;
      table = d.table;
      columns = d.columns;
      unique_index = filed.0;
      primary_key = c;
      normal_index = filed.1;
    }

-- The part of `Convert` behind the first loop.
unfoldable pub convert_with : ColumnData → List Column → Indexes → KeyError ⊎ Table
unfolding with_key
convert_with d [] m = inl missing_primary_key
convert_with d (c ∷ _ ∷ _) m = inl joint_primary_key
convert_with d (c ∷ []) m = inr (with_key d c m)

unfoldable pub convert : ColumnData → KeyError ⊎ Table
unfolding trim_comments group_columns convert_with lookup
convert d =
    let trimmed = record d { columns = trim_comments d.columns } in
    let m = group_columns trimmed.columns [] in convert_with trimmed (or_nil (lookup index_pri m)) m
