-- ===== src/Analyzer/Formed.antt =====
-- The types that `astTypeToSpec` of pkg/parser/api/parser/analyzer.go returns.
use goctl.Analyzer.Convert.{
  refuse_at, is_literal_type, node_text, node_texts, raw_text_of, ast_type_to_spec, members_of,
}
use goctl.Analyzer.Kind.{is_base_type}
use goctl.Analyzer.Spec.{
  SpecType, Members, primitive_type, define_struct, nested_struct, map_of, array_of, interface_of,
  pointer_to, no_members, member,
}
use goctl.Api.Errors.{
  Refusal, empty_struct, expected_literal, key_not_equal, value_has_struct, dynamic_length,
  array_has_struct, slice_has_struct, Run, returns, deref,
}
use goctl.Api.Post.{Post, Post-bind, Post-map, Always, deref-Post}
use goctl.Ast.{
  TokenNode, Node, DataType, Elems, any_type, array_type, base_type, interface_type, map_type,
  pointer_type, slice_type, struct_type, no_elems, elem,
}
use goctl.Ast.Nodes.{contains_struct, can_equal}
use goctl.Base.{
  ◌≡◌, refl, Bool, true, false, not, Bool-cases, inl, inr, List, [], ◌∷◌, none, some, Text, codes,
  text_eq, ◌==◌, if◌then◌else◌, arith,
}
use goctl.Token.Kind.{ellipsis}

-- A struct is written inside the type.
unfoldable pub has_struct : SpecType → Bool
has_struct (primitive_type r) = false
has_struct (define_struct r ms) = false
has_struct (nested_struct r ms) = true
has_struct (map_of r k v) = has_struct v
has_struct (array_of r v) = has_struct v
has_struct (interface_of r) = false
has_struct (pointer_to r t) = has_struct t

-- Names of base types are primitive and no others are; a struct that is named has no members yet;
-- and no struct is written inside a map, an array or a slice.
mutual
  pub data IsFormed : SpecType → Type 0 where
    formed_primitive : (r : Text) → is_base_type r ≡ true → IsFormed (primitive_type r)
    formed_define : (r : Text) → is_base_type r ≡ false → IsFormed (define_struct r no_members)
    formed_nested : (r : Text) (ms : Members) → AreFormed ms → IsFormed (nested_struct r ms)
    formed_map :
        (r k : Text) (v : SpecType) → IsFormed v → has_struct v ≡ false → IsFormed (map_of r k v)
    formed_array :
        (r : Text) (v : SpecType) → IsFormed v → has_struct v ≡ false → IsFormed (array_of r v)
    formed_interface : (r : Text) → IsFormed (interface_of r)
    formed_pointer : (r : Text) (t : SpecType) → IsFormed t → IsFormed (pointer_to r t)

  pub data AreFormed : Members → Type 0 where
    formed_none : AreFormed no_members
    formed_member :
        (n : Text) (t : SpecType) (tag : Text) (b : Bool) (ms : Members)
        → IsFormed t
        → AreFormed ms
        → AreFormed (member n t tag b ms)

-- Only a name becomes a named struct.
abbrev pub IsNamed : DataType → SpecType → Type 0
IsNamed d (define_struct r ms) =
    (t : TokenNode) × (d ≡ base_type (some t)) × (t.token.text ≡ r) × (is_base_type r ≡ false)
IsNamed d _ = Unit

-- What is known of the type made of a data type.
abbrev pub Made : DataType → SpecType → Type 0
Made d t = IsFormed t × (contains_struct d ≡ false → has_struct t ≡ false) × IsNamed d t

Post-if {ℓ} :
    {A : Type ℓ} (P : A → Type 0) (b : Bool) (x y : Run A)
    → (b ≡ true → Post P x)
    → (b ≡ false → Post P y)
    → Post P (if b then x else y)
Post-if P true x y h k = h refl
Post-if P false x y h k = k refl

pub refuse_at-Post {ℓ} :
    {A : Type ℓ} (P : A → Type 0) (n : Node) (r : Refusal) → Post P (refuse_at n r)
unfolding refuse_at
refuse_at-Post P none r = tt
refuse_at-Post P (some t) r = tt

node_text-Post : (n : Node) → Post Always (node_text n)
node_text-Post none = tt
node_text-Post (some t) = tt

raw_text_of-Post : (written : DataType → Text) (d : DataType) → Post Always (raw_text_of written d)
unfolding raw_text_of
raw_text_of-Post written (any_type n) = node_text-Post n
raw_text_of-Post written (base_type n) = node_text-Post n
raw_text_of-Post written (interface_type n) = node_text-Post n
raw_text_of-Post written (array_type _ _ _ _) = tt
raw_text_of-Post written (map_type _ _ _ _ _) = tt
raw_text_of-Post written (pointer_type _ _) = tt
raw_text_of-Post written (slice_type _ _ _) = tt
raw_text_of-Post written (struct_type _ _ _) = tt

pub node_texts-Post : (ns : List Node) → Post Always (node_texts ns)
unfolding node_texts
node_texts-Post [] = tt
node_texts-Post (none ∷ ns) = tt
node_texts-Post (some t ∷ ns) =
    Post-bind Always Always (node_texts ns) _ (node_texts-Post ns) (λ _ _. tt)

module _ (written : DataType → Text) where
  mutual
    unfolding ast_type_to_spec contains_struct has_struct

    pub ast_type_to_spec-Made : (d : DataType) → Post (Made d) (ast_type_to_spec written d)
    ast_type_to_spec-Made (any_type n) = refuse_at-Post (Made (any_type n)) n _
    ast_type_to_spec-Made (base_type none) = tt
    ast_type_to_spec-Made (base_type (some t)) = elim (Bool-cases (is_base_type t.token.text)) [
      | inl e ↦ rw e (formed_primitive t.token.text e, λ _. refl, tt)
      | inr e ↦ rw e (formed_define t.token.text e, λ _. refl, (t, refl, refl, e))
    ]
    ast_type_to_spec-Made (interface_type none) = tt
    ast_type_to_spec-Made (interface_type (some t)) = (formed_interface t.token.text, λ _. refl, tt)
    ast_type_to_spec-Made (struct_type l es r) =
        let P = Made (struct_type l es r) in
        let text = written (struct_type l es r) in
        Post-bind AreFormed P (members_of written es) _ (members_of-AreFormed es) λ ms f.
          Post-if P (text_eq text (codes "{}")) (refuse_at l empty_struct)
            (returns (nested_struct text ms)) (λ _. refuse_at-Post P l empty_struct)
            (λ _. (formed_nested text ms f, λ h. ground arith, tt))
    ast_type_to_spec-Made (map_type m l k r v) =
        let P = Made (map_type m l k r v) in
        Post-if P (not (is_literal_type k)) (refuse_at m expected_literal) _
          (λ _. refuse_at-Post P m expected_literal)
          λ _.
            Post-if P (not (can_equal k)) (refuse_at m key_not_equal) _
              (λ _. refuse_at-Post P m key_not_equal)
              λ _.
                Post-if P (contains_struct v) (refuse_at m value_has_struct) _
                  (λ _. refuse_at-Post P m value_has_struct)
                  λ e.
                    Post-bind (Made v) P (ast_type_to_spec written v) _ (ast_type_to_spec-Made v)
                      λ t f.
                        Post-bind Always P (raw_text_of written k) _ (raw_text_of-Post written k)
                          λ key _. (formed_map _ key t f.0 (f.1 e), λ _. f.1 e, tt)
    ast_type_to_spec-Made (pointer_type s d) =
        let P = Made (pointer_type s d) in
        Post-bind Always P (raw_text_of written d) _ (raw_text_of-Post written d) λ raw _.
          Post-if P (is_base_type raw) _ _
            (λ e. (formed_pointer _ _ (formed_primitive raw e), λ _. refl, tt))
            λ _.
              Post-bind (Made d) P (ast_type_to_spec written d) _ (ast_type_to_spec-Made d)
                λ t f. (formed_pointer _ t f.0, f.1, tt)
    ast_type_to_spec-Made (array_type l n r d) =
        let P = Made (array_type l n r d) in
        Post-bind Always P (deref n) _ (deref-Post n) λ length _.
          Post-if P (length.token.type == ellipsis) (refuse_at l dynamic_length) _
            (λ _. refuse_at-Post P l dynamic_length)
            λ _.
              Post-if P (contains_struct d) (refuse_at l array_has_struct) _
                (λ _. refuse_at-Post P l array_has_struct)
                λ e.
                  Post-bind (Made d) P (ast_type_to_spec written d) _ (ast_type_to_spec-Made d)
                    λ t f. (formed_array _ t f.0 (f.1 e), f.1, tt)
    ast_type_to_spec-Made (slice_type l r d) =
        let P = Made (slice_type l r d) in
        Post-if P (contains_struct d) (refuse_at l slice_has_struct) _
          (λ _. refuse_at-Post P l slice_has_struct)
          λ e.
            Post-bind (Made d) P (ast_type_to_spec written d) _ (ast_type_to_spec-Made d)
              λ t f. (formed_array _ t f.0 (f.1 e), f.1, tt)

    members_of-AreFormed : (es : Elems) → Post AreFormed (members_of written es)
    members_of-AreFormed no_elems = formed_none
    members_of-AreFormed (elem ns d tag es) =
        Post-bind Always AreFormed (node_texts ns) _ (node_texts-Post ns) λ names _.
          Post-bind (Made d) AreFormed (ast_type_to_spec written d) _ (ast_type_to_spec-Made d)
            λ t f.
              Post-bind AreFormed AreFormed (members_of written es) _ (members_of-AreFormed es)
                λ ms g. formed_member _ t _ _ ms f.0 g

  -- Where `astTypeToSpec` returns a type, every primitive type in it has the name of a base type
  -- and every named struct a name that is none, with no members yet, and no struct is written
  -- inside a map, an array or a slice. It always ends.
  pub ast_type_to_spec-IsFormed : (d : DataType) → Post IsFormed (ast_type_to_spec written d)
  ast_type_to_spec-IsFormed d =
      Post-map (Made d) IsFormed (ast_type_to_spec written d) (ast_type_to_spec-Made d) (λ t f. f.0)
