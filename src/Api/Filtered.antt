-- ===== src/Api/Filtered.antt =====
-- A filter with one builder, of pkg/parser/api/parser/filter.go, over the nodes of a list.
use goctl.Api.Errors.{Run, returns, panics, ◌>>=◌}
use goctl.Api.Laws.{error_iff, add-error}
use goctl.Api.Filter.{
  FilterBuilder, new_builder, check_token, check_node_with_prefix, check, filter_errors,
  filter_error,
}
use goctl.Ast.{TokenNode, Node}
use goctl.Base.{
  ◌≡◌, refl, ap, ◌∙◌, ◌↔◌, ◌⊎◌, inl, inr, List, [], ◌∷◌, ◌++◌, none, some, Text, arith,
}
use goctl.Api.Unique.{IsUnique, check_tokens, check_token-filename, check_tokens_new, nodes_of}

check_node_with_prefix-append :
    (prefix : Text) (xs ys : List Node) (b : FilterBuilder)
    → b.filename ≡ prefix
    → (check_node_with_prefix prefix xs b >>= λ c. check ys c)
      ≡ check_node_with_prefix prefix (xs ++ ys) b
unfolding check_node_with_prefix check
check_node_with_prefix-append prefix [] ys b h = ap (λ p. check_node_with_prefix p ys b) h
check_node_with_prefix-append prefix (none ∷ xs) ys b h = refl
check_node_with_prefix-append prefix (some t ∷ xs) ys b h =
    check_node_with_prefix-append prefix xs ys (check_token prefix t b)
      (check_token-filename prefix t b ∙ h)

-- Two checks in a row are one check of all the nodes.
pub check-append :
    (xs ys : List Node) (b : FilterBuilder) → (check xs b >>= λ c. check ys c) ≡ check (xs ++ ys) b
unfolding check
check-append xs ys b = check_node_with_prefix-append b.filename xs ys b refl

check_node_with_prefix-nodes_of :
    (prefix : Text) (ts : List TokenNode) (b : FilterBuilder)
    → check_node_with_prefix prefix (nodes_of ts) b ≡ returns (check_tokens prefix ts b)
unfolding check_node_with_prefix
check_node_with_prefix-nodes_of prefix [] b = refl
check_node_with_prefix-nodes_of prefix (t ∷ ts) b =
    check_node_with_prefix-nodes_of prefix ts (check_token prefix t b)

-- A list of nodes is all there, or the check of it panics.
check_node_with_prefix-cases :
    (prefix : Text) (ns : List Node) (b : FilterBuilder)
    → ((ts : List TokenNode) × (ns ≡ nodes_of ts)) ⊎ (check_node_with_prefix prefix ns b ≡ panics)
unfolding check_node_with_prefix
check_node_with_prefix-cases prefix [] b = inl ([], refl)
check_node_with_prefix-cases prefix (none ∷ ns) b = inr refl
check_node_with_prefix-cases prefix (some t ∷ ns) b =
    elim (check_node_with_prefix-cases prefix ns (check_token prefix t b)) [
      | inl (ts, e) ↦ inl (t ∷ ts, ap (◌∷◌ (some t)) e)
      | inr e ↦ inr e
    ]

-- All the nodes are there, and no text stands at two places.
abbrev pub AllUnique : List Node → Type 0
AllUnique ns = (ts : List TokenNode) × (ns ≡ nodes_of ts) × IsUnique ts

filter_error_one :
    (b : FilterBuilder) → (filter_error (b ∷ []) ≡ returns tt) ↔ (b.error_manager ≡ [])
unfolding filter_error filter_errors
filter_error_one b = rw (add-error [] b.error_manager) (error_iff b.error_manager)

-- A filter with one builder accepts its nodes exactly if they are all there and unique.
pub check-AllUnique :
    (file name : Text) (ns : List Node)
    → ((check ns (new_builder file name) >>= λ b. filter_error (b ∷ [])) ≡ returns tt)
      ↔ AllUnique ns
unfolding check
check-AllUnique file name ns = (
  λ h. elim (check_node_with_prefix-cases file ns (new_builder file name)) [
    | inl (ts, e) ↦
        let b = check_tokens file ts (new_builder file name) in
        let k : filter_error (b ∷ []) ≡ returns tt =
          rw (e, check_node_with_prefix-nodes_of file ts (new_builder file name)) at h in
        (ts, e, (check_tokens_new file name ts).0 ((filter_error_one b).0 k))
    | inr e ↦ let k : ◌≡◌ {A = Run (Unit {0})} panics (returns tt) = rw e at h in ground arith
  ],
  λ a.
      let b = check_tokens file a.0 (new_builder file name) in
      rw (a.1, check_node_with_prefix-nodes_of file a.0 (new_builder file name))
        ((filter_error_one b).1 ((check_tokens_new file name a.0).1 a.2)),
)
