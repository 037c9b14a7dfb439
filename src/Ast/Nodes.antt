-- ===== src/Ast/Nodes.antt =====
-- The methods of `TokenNode` in pkg/parser/api/ast/ast.go, of comment.go, and those methods of the
-- data types in typestatement.go that do not print.
use goctl.Base.{
  ℕ, Bool, true, false, ◌&&◌, ◌||◌, List, [], ◌∷◌, ◌++◌, Text, codes, ◌==◌, text_eq, if◌then◌else◌,
  length, last_or,
}
use goctl.Ast.{
  TokenNode, DataType, Elems, any_type, array_type, base_type, interface_type, map_type,
  pointer_type, slice_type, struct_type, no_elems, elem,
}
use goctl.Token.Defs.{Token, Position, trim_white_space}

-- `NewTokenNode`.
abbrev pub new_token_node : Token → TokenNode
new_token_node t = record { token = t; head_comments = []; leading_comments = [] }

unfoldable pub equal : TokenNode → Text → Bool
unfolding text_eq
equal t s = text_eq t.token.text s

unfoldable pub is_zero_string : TokenNode → Bool
unfolding equal
is_zero_string t = equal t (codes "\"\"") || equal t (codes "``")

-- `strings.TrimSuffix` by one character.
unfoldable pub trim_last : ℕ → Text → Text
trim_last q [] = []
trim_last q (c ∷ []) = if c == q then [] else c ∷ []
trim_last q (c ∷ d ∷ s) = let rest = trim_last q (d ∷ s) in c ∷ rest

unfoldable pub unquote : Text → Text
unfolding trim_last
unquote [] = []
unquote (c ∷ s) =
    if c == b'`' then trim_last b'`' s else if c == b'"' then trim_last b'"' s else c ∷ s

-- `RawText`.
unfoldable pub raw_text : TokenNode → Text
unfolding unquote
raw_text t = unquote t.token.text

-- `IsEmptyStringOrWhiteSpace` of util/string.go.
unfoldable pub is_empty_or_white_space : Text → Bool
unfolding trim_white_space
is_empty_or_white_space s = length (trim_white_space s) == 0

-- `CommentGroup.List`.
unfoldable pub comment_list : List Token → List Text
unfolding is_empty_or_white_space
comment_list [] = []
comment_list (c ∷ cs) =
    let rest = comment_list cs in if is_empty_or_white_space c.text then rest else c.text ∷ rest

-- `strings.Join`.
unfoldable pub join : Text → List Text → Text
join sep [] = []
join sep (x ∷ []) = x
join sep (x ∷ y ∷ xs) = x ++ (sep ++ join sep (y ∷ xs))

-- `CommentGroup.Valid`.
abbrev pub is_valid_group : List Token → Bool
is_valid_group [] = false
is_valid_group (c ∷ cs) = true

-- `CommentGroup.Join`.
unfoldable pub join_comments : Text → List Token → Text
unfolding comment_list join
join_comments sep cs = if is_valid_group cs then join sep (comment_list cs) else []

unfoldable pub prefix_texts : Text → List Token → List Text
prefix_texts p [] = []
prefix_texts p (c ∷ cs) = (p ++ c.text) ∷ prefix_texts p cs

abbrev with_comments : Text → List Text → List Token → Text
with_comments s [] cs = s
with_comments s (v ∷ vs) cs = s ++ (codes " " ++ join_comments (codes " ") cs)

-- `TokenNode.Format` with a prefix.
unfoldable pub format : Text → TokenNode → Text
unfolding join prefix_texts join_comments comment_list
format p t = join (codes "\n") (
    prefix_texts p t.head_comments
    ++ with_comments (p ++ t.token.text) (comment_list t.leading_comments) t.leading_comments ∷ [])

-- `TokenNode.Pos` and `TokenNode.End`.
unfoldable pub pos_of : List Token → Position → Position
pos_of [] p = p
pos_of (c ∷ cs) p = c.position

unfoldable pub pos : TokenNode → Position
unfolding pos_of
pos t = pos_of t.head_comments t.token.position

abbrev pub has_head_comments : TokenNode → Bool
has_head_comments t = is_valid_group t.head_comments

abbrev pub has_leading_comments : TokenNode → Bool
has_leading_comments t = is_valid_group t.leading_comments

unfoldable pub end_pos : TokenNode → Position
end_pos t = (last_or t.leading_comments t.token).position

-- `ContainsStruct` of each data type.
unfoldable pub contains_struct : DataType → Bool
contains_struct (any_type _) = false
contains_struct (array_type _ _ _ d) = contains_struct d
contains_struct (base_type _) = false
contains_struct (interface_type _) = false
contains_struct (map_type _ _ k _ v) = contains_struct k || contains_struct v
contains_struct (pointer_type _ d) = contains_struct d
contains_struct (slice_type _ _ d) = contains_struct d
contains_struct (struct_type _ _ _) = true

-- `CanEqual` of each data type.
unfoldable mutual
  pub can_equal : DataType → Bool
  can_equal (any_type _) = true
  can_equal (array_type _ _ _ d) = can_equal d
  can_equal (base_type _) = true
  can_equal (interface_type _) = true
  can_equal (map_type _ _ _ _ _) = false
  can_equal (pointer_type _ d) = can_equal d
  can_equal (slice_type _ _ _) = false
  can_equal (struct_type _ es _) = can_equal_elems es

  pub can_equal_elems : Elems → Bool
  can_equal_elems no_elems = true
  can_equal_elems (elem _ d _ es) = can_equal d && can_equal_elems es
