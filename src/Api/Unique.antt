-- ===== src/Api/Unique.antt =====
-- What a builder of pkg/parser/api/parser/filter.go reports.
use goctl.Api.Errors.{duplicate_stmt}
use goctl.Api.Filter.{FilterBuilder, find, new_builder, key_of, mark, refuse, check_token}
use goctl.Ast.{TokenNode, Node}
use goctl.Ast.Nodes.{pos}
use goctl.Base.{
  ◌≤◌, ◌<◌, ◌≡◌, refl, ap, ◌∙◌, ◌↔◌, ◌⊎◌, inl, inr, true, Bool-cases, List, [], ◌∷◌, ◌++◌, Option,
  none, some, Text, codes, text_eq, text_eq_iff, All, length, length-append, ==_iff, arith,
}
use goctl.Token.Defs.{Position, position_eq}

pub position_eq_iff : (p q : Position) → (position_eq p q ≡ true) ↔ (p ≡ q)
unfolding position_eq
position_eq_iff p q =
    ground
      (arith, text_eq_iff p.filename q.filename, ==_iff p.line q.line, ==_iff p.column q.column)

append_cancel {ℓ} : {A : Type ℓ} (xs ys zs : List A) → xs ++ ys ≡ xs ++ zs → ys ≡ zs
append_cancel [] ys zs h = h
append_cancel (x ∷ xs) ys zs h = append_cancel xs ys zs (cc)

-- Two nodes of one text stand at one place.
abbrev pub Agree : TokenNode → TokenNode → Type 0
Agree t u = t.token.text ≡ u.token.text → t.token.position ≡ u.token.position

-- No text stands at two places.
abbrev pub IsUnique : List TokenNode → Type 0
IsUnique [] = Unit
IsUnique (t ∷ ts) = All (Agree t) ts × IsUnique ts

-- The map of a builder has no other place for the key of a node.
abbrev Fits : Text → List (Text × Position) → TokenNode → Type 0
Fits prefix m t = (p : Position) → find (key_of prefix t) m ≡ some p → p ≡ t.token.position

key_of_iff :
    (prefix : Text) (t u : TokenNode)
    → (text_eq (key_of prefix t) (key_of prefix u) ≡ true) ↔ (t.token.text ≡ u.token.text)
key_of_iff prefix t u = (
  λ h.
      append_cancel (codes "/") _ _
        (append_cancel prefix _ _ ((text_eq_iff (key_of prefix t) (key_of prefix u)).0 h)),
  λ h. (text_eq_iff (key_of prefix t) (key_of prefix u)).1 (ap (λ s. prefix ++ (codes "/" ++ s)) h),
)

module _ (prefix : Text) (m : List (Text × Position)) (t : TokenNode) (fits : Fits prefix m t) where
  abbrev marked : List (Text × Position)
  marked = (key_of prefix t, t.token.position) ∷ m

  Fits-mark_old : (u : TokenNode) → Fits prefix marked u → Fits prefix m u
  unfolding find
  Fits-mark_old u f p e = elim (Bool-cases (text_eq (key_of prefix t) (key_of prefix u))) [
    | inl same ↦
        let k : key_of prefix t ≡ key_of prefix u = (text_eq_iff _ _).0 same in
        fits p (ap (λ s. find s m) k ∙ e) ∙ f t.token.position (rw same refl)
    | inr other ↦ f p (rw other e)
  ]

  Fits-mark_Agree : (u : TokenNode) → Fits prefix marked u → Agree t u
  unfolding find
  Fits-mark_Agree u f e = f t.token.position (rw ((key_of_iff prefix t u).1 e) refl)

  mark-Fits : (u : TokenNode) → Fits prefix m u → Agree t u → Fits prefix marked u
  unfolding find
  mark-Fits u f a p e = elim (Bool-cases (text_eq (key_of prefix t) (key_of prefix u))) [
    | inl same ↦
        let h : some t.token.position ≡ some p = rw same at e in
        let k = a ((key_of_iff prefix t u).0 same) in cc
    | inr other ↦ f p (rw other at e)
  ]

  All-Fits-mark :
      (ts : List TokenNode)
      → All (Fits prefix marked) ts ↔ (All (Fits prefix m) ts × All (Agree t) ts)
  All-Fits-mark [] = (λ _. (tt, tt), λ _. tt)
  All-Fits-mark (u ∷ ts) = (
    λ h.
        let r = (All-Fits-mark ts).0 h.1 in
        ((Fits-mark_old u h.0, r.0), (Fits-mark_Agree u h.0, r.1)),
    λ h. (mark-Fits u h.0.0 h.1.0, (All-Fits-mark ts).1 (h.0.1, h.1.1)),
  )

-- `check` over nodes that are all there.
abbrev pub check_tokens : Text → List TokenNode → FilterBuilder → FilterBuilder
check_tokens prefix [] b = b
check_tokens prefix (t ∷ ts) b = check_tokens prefix ts (check_token prefix t b)

check_token-by_find :
    (prefix : Text) (t : TokenNode) (b : FilterBuilder) (o : Option Position)
    → find (key_of prefix t) b.m ≡ o
    → (Fits prefix b.m t × (check_token prefix t b ≡ mark prefix t b))
      ⊎ ((¬ Fits prefix b.m t) × (check_token prefix t b ≡ refuse t b))
unfolding check_token
check_token-by_find prefix t b none h = inl (λ p e. cc, rw (h, check_token) refl)
check_token-by_find prefix t b (some q) h = elim (Bool-cases (position_eq q t.token.position)) [
  | inl e ↦
      let k = (position_eq_iff q t.token.position).0 e in
      inl (λ p g. cc, rw (h, check_token, e) refl)
  | inr e ↦ inr (
    λ f. let k = (position_eq_iff q t.token.position).1 (f q h) in cc,
    rw (h, check_token, e) refl,
  )
]

-- A node is entered in the map, or an error is added.
check_token-cases :
    (prefix : Text) (t : TokenNode) (b : FilterBuilder)
    → (Fits prefix b.m t × (check_token prefix t b ≡ mark prefix t b))
      ⊎ ((¬ Fits prefix b.m t) × (check_token prefix t b ≡ refuse t b))
check_token-cases prefix t b = check_token-by_find prefix t b _ refl

refuse_grows :
    (t : TokenNode) (b : FilterBuilder) → length b.error_manager < length (refuse t b).error_manager
unfolding refuse
refuse_grows t b = omega (
  arith,
  length-append b.error_manager
      (duplicate_stmt (pos t) (codes "duplicate " ++ b.check_expr_name) ∷ []),
)

check_tokens_grows :
    (prefix : Text) (ts : List TokenNode) (b : FilterBuilder)
    → length b.error_manager ≤ length (check_tokens prefix ts b).error_manager
check_tokens_grows prefix [] b = omega arith
check_tokens_grows prefix (t ∷ ts) b = elim (check_token-cases prefix t b) [
  | inl (f, e) ↦ rw (e, check_tokens) (check_tokens_grows prefix ts (mark prefix t b))
  | inr (f, e) ↦
      rw (e, check_tokens)
        (omega (arith, refuse_grows t b, check_tokens_grows prefix ts (refuse t b)))
]

-- No error is added exactly if no text stands at two places, those of the map included.
check_tokens_clean :
    (prefix : Text) (ts : List TokenNode) (b : FilterBuilder)
    → ((check_tokens prefix ts b).error_manager ≡ b.error_manager)
      ↔ (All (Fits prefix b.m) ts × IsUnique ts)
check_tokens_clean prefix [] b = (λ _. (tt, tt), λ _. refl)
check_tokens_clean prefix (t ∷ ts) b = elim (check_token-cases prefix t b) [
  | inl (f, e) ↦
      let ih = check_tokens_clean prefix ts (mark prefix t b) in
      let split = All-Fits-mark prefix b.m t f ts in
      rw (e, check_tokens)
        (
          λ h. let r = ih.0 h in let s = split.0 r.0 in ((f, s.0), (s.1, r.1)),
          λ h. ih.1 (split.1 (h.0.1, h.1.0), h.1.1),
        )
  | inr (f, e) ↦
      rw (e, check_tokens)
        (
          λ h.
              let g = ap length h in
              absurd (omega (arith, refuse_grows t b, check_tokens_grows prefix ts (refuse t b))),
          λ h. absurd (f h.0.0),
        )
]

pub check_token-filename :
    (prefix : Text) (t : TokenNode) (b : FilterBuilder)
    → (check_token prefix t b).filename ≡ b.filename
unfolding refuse
check_token-filename prefix t b = elim (check_token-cases prefix t b) [
  | inl (f, e) ↦ ap (λ (c : FilterBuilder). c.filename) e
  | inr (f, e) ↦ ap (λ (c : FilterBuilder). c.filename) e
]

Fits-empty : (prefix : Text) (ts : List TokenNode) → All (Fits prefix []) ts
unfolding find
Fits-empty prefix [] = tt
Fits-empty prefix (t ∷ ts) = (λ p e. cc, Fits-empty prefix ts)

-- A new builder has no error exactly if no text stands at two places.
pub check_tokens_new :
    (file name : Text) (ts : List TokenNode)
    → ((check_tokens file ts (new_builder file name)).error_manager ≡ []) ↔ IsUnique ts
check_tokens_new file name ts =
    let clean = check_tokens_clean file ts (new_builder file name) in
    (λ h. (clean.0 h).1, λ u. clean.1 (Fits-empty file ts, u))

-- Nodes that are all there.
abbrev pub nodes_of : List TokenNode → List Node
nodes_of [] = []
nodes_of (t ∷ ts) = some t ∷ nodes_of ts
