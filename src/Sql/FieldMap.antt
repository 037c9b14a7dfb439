-- ===== src/Sql/FieldMap.antt =====
-- The map of fields that `getTableFields` of model/sql/parser/parser.go fills.
use goctl.Base.{
  ◌≡◌, refl, ◌∙◌, ◌&&◌, Bool, true, false, List, [], ◌∷◌, Option, none, some, Text, text_eq,
  text_eq_iff, if◌then◌else◌, arith,
}
use goctl.Sql.Columns.{Column}
use goctl.Sql.DataTypes.{ModelTypeMapOption}
use goctl.Sql.Fields.{Field, put_field, field_of, get_table_fields}
use goctl.Sql.Names.{lookup}

lookup-put_field :
    (n k : Text) (f : Field) (m : List (Text × Field))
    → lookup n (put_field k f m) ≡ (if text_eq k n then some f else lookup n m)
unfolding lookup put_field
lookup-put_field n k f [] = refl
lookup-put_field n k f ((j, g) ∷ m) =
    ground (arith, text_eq_iff j k, text_eq_iff j n, text_eq_iff k n, lookup-put_field n k f m)

abbrev is_there : Option Field → Bool
is_there none = false
is_there (some f) = true

module _ (types_map : Option (List (Text × ModelTypeMapOption))) (to_lower : Text → Text)
    (use_experimental strict : Bool) where
  -- The field of the last column with a name, or else the given one.
  abbrev pub last_field : Text → List Column → Option Field → Option Field
  last_field n [] o = o
  last_field n (c ∷ cs) o =
      last_field n cs
        (if text_eq c.name n then field_of types_map to_lower use_experimental strict c else o)

  abbrev pub all_supported : List Column → Bool
  all_supported [] = true
  all_supported (c ∷ cs) =
      is_there (field_of types_map to_lower use_experimental strict c) && all_supported cs

  abbrev HasLast : List Column → List (Text × Field) → Option (List (Text × Field)) → Type 0
  HasLast cs m none = all_supported cs ≡ false
  HasLast cs m (some r) =
      (all_supported cs ≡ true) × ((n : Text) → lookup n r ≡ last_field n cs (lookup n m))

  HasLast-put :
      (c : Column) (cs : List Column) (m : List (Text × Field)) (f : Field)
      (r : Option (List (Text × Field)))
      → field_of types_map to_lower use_experimental strict c ≡ some f
      → HasLast cs (put_field c.name f m) r
      → HasLast (c ∷ cs) m r
  HasLast-put c cs m f none e h = rw e h
  HasLast-put c cs m f (some r) e h =
      (rw e h.0, λ n. h.1 n ∙ rw (lookup-put_field n c.name f m, e) refl)

  HasLast-step :
      (c : Column) (cs : List Column) (m : List (Text × Field)) (o : Option Field)
      → field_of types_map to_lower use_experimental strict c ≡ o
      → ((f : Field)
          → HasLast cs (put_field c.name f m) (
              get_table_fields types_map to_lower use_experimental strict cs
                (put_field c.name f m)))
      → HasLast (c ∷ cs) m (elim o [
        | none ↦ none
        | some f ↦
            get_table_fields types_map to_lower use_experimental strict cs (put_field c.name f m)
      ])
  HasLast-step c cs m none e h = rw e refl
  HasLast-step c cs m (some f) e h =
      HasLast-put c cs m f
        (get_table_fields types_map to_lower use_experimental strict cs (put_field c.name f m)) e
        (h f)

  get_table_fields_over :
      (cs : List Column) (m : List (Text × Field))
      → HasLast cs m (get_table_fields types_map to_lower use_experimental strict cs m)
  unfolding get_table_fields
  get_table_fields_over [] m = (refl, λ n. refl)
  get_table_fields_over (c ∷ cs) m =
      HasLast-step c cs m (field_of types_map to_lower use_experimental strict c) refl
        (λ f. get_table_fields_over cs (put_field c.name f m))

  -- What the map of the fields is to hold.
  abbrev pub HasFields : List Column → Option (List (Text × Field)) → Type 0
  HasFields cs none = all_supported cs ≡ false
  HasFields cs (some m) =
      (all_supported cs ≡ true) × ((n : Text) → lookup n m ≡ last_field n cs none)

  HasLast-HasFields :
      (cs : List Column) (o : Option (List (Text × Field))) → HasLast cs [] o → HasFields cs o
  unfolding lookup
  HasLast-HasFields cs none h = h
  HasLast-HasFields cs (some m) h = h

  -- `getTableFields` returns an error exactly if the type of some column is not supported;
  -- otherwise the entry of every name is the field of the last column with that name, and there is
  -- none for a name of no column.
  pub get_table_fields-HasFields :
      (cs : List Column)
      → HasFields cs (get_table_fields types_map to_lower use_experimental strict cs [])
  get_table_fields-HasFields cs =
      HasLast-HasFields cs (get_table_fields types_map to_lower use_experimental strict cs [])
        (get_table_fields_over cs [])
