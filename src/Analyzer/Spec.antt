-- ===== src/Analyzer/Spec.antt =====
-- The types of api/spec/spec.go, without documents and comments.
use goctl.Base.{Bool, Text}

-- A list of `Member` is the type `Members`.
mutual
  pub data SpecType : Type 0 where
    primitive_type : Text → SpecType
    define_struct : Text → Members → SpecType
    nested_struct : Text → Members → SpecType
    map_of : Text → Text → SpecType → SpecType
    array_of : Text → SpecType → SpecType
    interface_of : Text → SpecType
    pointer_to : Text → SpecType → SpecType

  pub data Members : Type 0 where
    no_members : Members
    member : Text → SpecType → Text → Bool → Members → Members

-- `Name` of api/spec/name.go.
unfoldable pub type_name : SpecType → Text
type_name (primitive_type r) = r
type_name (define_struct r ms) = r
type_name (nested_struct r ms) = r
type_name (map_of r k v) = r
type_name (array_of r v) = r
type_name (interface_of r) = r
type_name (pointer_to r t) = r
