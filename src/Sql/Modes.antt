-- ===== src/Sql/Modes.antt =====
-- The two modes of `ConvertDataType` of model/sql/converter/types.go, with no custom types.
use goctl.Base.{
  ◌≡◌, refl, sym, ap, ◌∙◌, ◌&&◌, ◌||◌, Bool, true, false, List, [], ◌∷◌, Option, none, some, Text,
  leb, if◌then◌else◌, arith,
}
use goctl.Sql.DataTypes.{
  Converted, converted, unsupported_database_type, without_flag, convert_data_type,
  convert_string_data_type, convert_by_table, convert_found, convert_datatype_with_config,
  may_convert_null_type, has_underscore, ModelTypeMapOption,
}
use goctl.Sql.Names.{go_type_of}
use goctl.Sql.Tables.{DdlType, common_mysql_data_type_map_int, common_mysql_data_type_map}

-- The types whose names the table of names does not list.
abbrev pub is_unlisted : DdlType → Bool
is_unlisted DdlType.middle_int = true
is_unlisted DdlType.numeric = true
is_unlisted DdlType.long_var_char = true
is_unlisted _ = false

-- A text of small letters and digits.
abbrev pub is_lower : Text → Bool
is_lower [] = true
is_lower (c ∷ s) = ((leb b'0' c && leb c b'9') || (leb b'a' c && leb c b'z')) && is_lower s

abbrev by_name : Option Text → Option Text
by_name none = none
by_name (some s) = go_type_of s

abbrev lower_name : Option Text → Bool
lower_name none = true
lower_name (some s) = is_lower s

lower_names : (t : DdlType) → lower_name (common_mysql_data_type_map t) ≡ true
unfolding common_mysql_data_type_map
lower_names (DdlType.other_type n) = refl
lower_names _ = refl

-- The table by names has the Go type of the table by constants, or none where it does not list it.
by_name-listed :
    (t : DdlType)
    → by_name (common_mysql_data_type_map t)
      ≡ (if is_unlisted t then none else common_mysql_data_type_map_int t)
unfolding common_mysql_data_type_map common_mysql_data_type_map_int go_type_of
by_name-listed (DdlType.other_type n) = refl
by_name-listed _ = refl

has_underscore-is_lower : (s : Text) → is_lower s ≡ true → has_underscore s ≡ false
has_underscore-is_lower [] h = refl
has_underscore-is_lower (c ∷ s) h = ground arith

-- The custom types have none for the name of any type.
abbrev pub HasNoCustom : Option (List (Text × ModelTypeMapOption)) → (Text → Text) → Type 0
HasNoCustom m to_lower =
    (s : Text) (null u : Bool) → (convert_datatype_with_config m to_lower s null u).0 ≡ []

-- What either mode returns for the Go type of a table.
abbrev plain : Option Text → (null u strict : Bool) → Converted
plain none null u strict = unsupported_database_type
plain (some tp) null u strict = converted (record {
  go_type = may_convert_null_type tp null u strict;
  third_pkg = [];
  is_pq_array = false;
})

convert_found-is_lower :
    (s : Text) (o : Option Text)
    → is_lower s ≡ true
    → (null u strict : Bool)
    → without_flag (convert_found s o null u strict) ≡ plain o null u strict
unfolding convert_found
convert_found-is_lower s none h null u strict = refl
convert_found-is_lower s (some tp) h null u strict = rw (has_underscore-is_lower s h) refl

module _ (m : Option (List (Text × ModelTypeMapOption))) (to_lower : Text → Text)
    (no_custom : HasNoCustom m to_lower)
    (lower : (s : Text) → is_lower s ≡ true → to_lower s ≡ s) where
  convert_string_data_type-is_lower :
      (s : Text)
      → is_lower s ≡ true
      → (null u strict : Bool)
      → without_flag (convert_string_data_type m to_lower true s null u strict)
        ≡ plain (go_type_of s) null u strict
  unfolding convert_string_data_type convert_by_table
  convert_string_data_type-is_lower s h null u strict =
      rw (no_custom s null u, lower s h) (convert_found-is_lower s (go_type_of s) h null u strict)

  convert_named :
      (o : Option Text)
      → lower_name o ≡ true
      → (null u strict : Bool)
      → elim o [
        | none ↦ unsupported_database_type
        | some s ↦ without_flag (convert_string_data_type m to_lower true s null u strict)
      ]
        ≡ plain (by_name o) null u strict
  convert_named none h null u strict = refl
  convert_named (some s) h null u strict = convert_string_data_type-is_lower s h null u strict

  plain-unlisted :
      (b : Bool) (o : Option Text) (null u strict : Bool)
      → plain (if b then none else o) null u strict
        ≡ (if b then unsupported_database_type else plain o null u strict)
  plain-unlisted true o null u strict = refl
  plain-unlisted false o null u strict = refl

  convert_old :
      (o : Option Text) (null u strict : Bool)
      → elim o [
        | none ↦ unsupported_database_type
        | some s ↦ converted (record {
          go_type = may_convert_null_type s null u strict;
          third_pkg = [];
          is_pq_array = false;
        })
      ]
        ≡ plain o null u strict
  convert_old none null u strict = refl
  convert_old (some s) null u strict = refl

  -- With no custom types and a `strings.ToLower` that keeps texts of small letters and digits,
  -- `ConvertDataType` in the experimental mode returns what it returns in the other mode, except
  -- that it refuses the types `MiddleInt`, `Numeric` and `LongVarChar`.
  pub convert_data_type-modes :
      (t : DdlType) (null u strict : Bool)
      → convert_data_type m to_lower true t null u strict ≡ (
          if is_unlisted t
          then unsupported_database_type
          else convert_data_type m to_lower false t null u strict)
  unfolding convert_data_type
  convert_data_type-modes t null u strict =
      convert_named (common_mysql_data_type_map t) (lower_names t) null u strict
      ∙ ap (λ o. plain o null u strict) (by_name-listed t)
      ∙ plain-unlisted (is_unlisted t) (common_mysql_data_type_map_int t) null u strict
      ∙ ap (λ c. if is_unlisted t then unsupported_database_type else c)
          (sym (convert_old (common_mysql_data_type_map_int t) null u strict))
