-- ===== src/Analyzer/Convert.antt =====
-- `astTypeToSpec` and `fieldToMember` of pkg/parser/api/parser/analyzer.go. The text of a composite
-- type, which the `Writer` prints through text/tabwriter, is the parameter `written`.
use goctl.Analyzer.Kind.{is_base_type}
use goctl.Analyzer.Spec.{
  SpecType, Members, primitive_type, define_struct, nested_struct, map_of, array_of, interface_of,
  pointer_to, no_members, member,
}
use goctl.Api.Errors.{
  Refusal, unsupported_any, empty_struct, expected_literal, key_not_equal, value_has_struct,
  dynamic_length, array_has_struct, slice_has_struct, Run, returns, fails, refused, ◌>>=◌, deref,
}
use goctl.Ast.{
  Node, DataType, Elems, any_type, array_type, base_type, interface_type, map_type, pointer_type,
  slice_type, struct_type, no_elems, elem,
}
use goctl.Ast.Nodes.{contains_struct, can_equal, join}
use goctl.Base.{
  ◌==◌, Bool, true, false, not, List, [], ◌∷◌, none, some, Text, codes, text_eq, if◌then◌else◌,
}
use goctl.Token.Kind.{ellipsis}

-- Returning an error at the position of a node.
unfoldable pub refuse_at {ℓ} : {A : Type ℓ} → Node → Refusal → Run A
refuse_at n r = deref n >>= λ t. fails (refused r ∷ [])

-- `isLiteralType`.
abbrev pub is_literal_type : DataType → Bool
is_literal_type (base_type _) = true
is_literal_type (any_type _) = true
is_literal_type _ = false

abbrev pub node_text : Node → Run Text
node_text n = deref n >>= λ t. returns t.token.text

-- `strings.Join(name, ", ")` over the names of a field.
unfoldable pub node_texts : List Node → Run (List Text)
node_texts [] = returns []
node_texts (n ∷ ns) = do t ← deref n; ts ← node_texts ns; returns (t.token.text ∷ ts)

abbrev is_nil : List Node → Bool
is_nil [] = true
is_nil (n ∷ ns) = false

abbrev tag_text : Node → Text
tag_text none = []
tag_text (some t) = t.token.text

-- `RawText` of each data type.
unfoldable pub raw_text_of : (DataType → Text) → DataType → Run Text
raw_text_of written (any_type n) = node_text n
raw_text_of written (base_type n) = node_text n
raw_text_of written (interface_type n) = node_text n
raw_text_of written d = returns (written d)

module _ (written : DataType → Text) where
  unfoldable mutual
    unfolding refuse_at raw_text_of node_texts

    pub ast_type_to_spec : DataType → Run SpecType
    ast_type_to_spec (any_type n) = refuse_at n unsupported_any
    ast_type_to_spec (base_type n) = node_text n >>= λ raw.
        if is_base_type raw
        then returns (primitive_type raw)
        else returns (define_struct raw no_members)
    ast_type_to_spec (interface_type n) = node_text n >>= λ raw. returns (interface_of raw)
    ast_type_to_spec (struct_type l es r) = members_of es >>= λ ms.
        if text_eq (written (struct_type l es r)) (codes "{}")
        then refuse_at l empty_struct
        else returns (nested_struct (written (struct_type l es r)) ms)
    ast_type_to_spec (map_type m l k r v) =
        if not (is_literal_type k)
        then refuse_at m expected_literal
        else if not (can_equal k)
        then refuse_at m key_not_equal
        else if contains_struct v
        then refuse_at m value_has_struct
        else (ast_type_to_spec v >>= λ value. raw_text_of written k >>= λ key.
            returns (map_of (written (map_type m l k r v)) key value))
    ast_type_to_spec (pointer_type s d) = raw_text_of written d >>= λ raw.
        if is_base_type raw
        then returns (pointer_to (written (pointer_type s d)) (primitive_type raw))
        else (ast_type_to_spec d >>= λ value.
            returns (pointer_to (written (pointer_type s d)) value))
    ast_type_to_spec (array_type l n r d) = deref n >>= λ length.
        if length.token.type == ellipsis
        then refuse_at l dynamic_length
        else if contains_struct d
        then refuse_at l array_has_struct
        else (ast_type_to_spec d >>= λ value.
            returns (array_of (written (array_type l n r d)) value))
    ast_type_to_spec (slice_type l r d) =
        if contains_struct d
        then refuse_at l slice_has_struct
        else (ast_type_to_spec d >>= λ value. returns (array_of (written (slice_type l r d)) value))

    -- `fieldToMember` over the fields.
    pub members_of : Elems → Run Members
    members_of no_elems = returns no_members
    members_of (elem ns d tag es) = node_texts ns >>= λ names. ast_type_to_spec d >>= λ t.
        members_of es >>= λ ms.
        returns (member (join (codes ", ") names) t (tag_text tag) (is_nil ns) ms)
