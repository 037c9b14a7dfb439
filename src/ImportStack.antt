-- ===== src/ImportStack.antt =====
-- The stack of import paths of pkg/parser/api/importstack/importstack.go, its bottom first.
use goctl.Base.{
  ◌≡◌, refl, ◌⊎◌, inl, inr, Bool, true, false, ◌||◌, List, [], ◌∷◌, ◌++◌, Option, none, some, Text,
  if◌then◌else◌, text_eq, text_eq_iff, Bool-cases, arith, sym,
}

pub data Error : Type 0 where
  import_cycle_not_allowed : Error

-- The loop of `Push`.
unfoldable pub is_on : Text → List Text → Bool
unfolding text_eq
is_on p [] = false
is_on p (x ∷ xs) = text_eq x p || is_on p xs

-- `Push`: nil or an error, with the stack.
unfoldable pub push : Text → List Text → Option Error × List Text
push p s = if is_on p s then (some import_cycle_not_allowed, s) else (none, s ++ p ∷ [])

-- `Pop`; `none` is the panic of the slice on an empty stack.
unfoldable pub pop : List Text → Option (List Text)
pop [] = none
pop (x ∷ xs) = let rest = pop xs in elim rest [ none ↦ some [] | some ys ↦ some (x ∷ ys) ]

abbrev pub IsIn : Text → List Text → Type 0
IsIn p [] = ⊥
IsIn p (x ∷ xs) = (x ≡ p) ⊎ IsIn p xs

-- No path stands on the stack twice.
abbrev pub IsDistinct : List Text → Type 0
IsDistinct [] = Unit
IsDistinct (x ∷ xs) = (¬ IsIn x xs) × IsDistinct xs

is_on-IsIn : (p : Text) (s : List Text) → is_on p s ≡ true → IsIn p s
unfolding is_on
is_on-IsIn p [] h = cc
is_on-IsIn p (x ∷ xs) h = elim (Bool-cases (text_eq x p)) [
  | inl e ↦ inl ((text_eq_iff x p).0 e)
  | inr e ↦ inr (is_on-IsIn p xs (rw e at h))
]

pub is_on-not_IsIn : (p : Text) (s : List Text) → is_on p s ≡ false → ¬ IsIn p s
unfolding is_on
is_on-not_IsIn p [] h i = i
is_on-not_IsIn p (x ∷ xs) h (inl e) = ground (arith, text_eq_iff x p)
is_on-not_IsIn p (x ∷ xs) h (inr i) = ground (arith, is_on-not_IsIn p xs)

IsIn-concat : (x p : Text) (s : List Text) → IsIn x (s ++ p ∷ []) → IsIn x s ⊎ (p ≡ x)
IsIn-concat x p [] (inl e) = inr e
IsIn-concat x p [] (inr i) = absurd i
IsIn-concat x p (y ∷ s) (inl e) = inl (inl e)
IsIn-concat x p (y ∷ s) (inr i) = elim (IsIn-concat x p s i) [ inl j ↦ inl (inr j) | inr e ↦ inr e ]

IsDistinct-concat :
    (p : Text) (s : List Text) → (¬ IsIn p s) → IsDistinct s → IsDistinct (s ++ p ∷ [])
IsDistinct-concat p [] n d = (λ i. i, tt)
IsDistinct-concat p (x ∷ s) n d = (
  λ i. elim (IsIn-concat x p s i) [ inl j ↦ d.0 j | inr e ↦ n (inl (sym e)) ],
  IsDistinct-concat p s (λ i. n (inr i)) d.1,
)

pub pop-concat : (p : Text) (s : List Text) → pop (s ++ p ∷ []) ≡ some s
unfolding pop
pop-concat p [] = refl
pop-concat p (x ∷ s) = rw (pop-concat p s) refl

-- On a stack with no path twice, `Push` of a path that is on it returns the error and leaves the
-- stack as it was; of any other path it returns no error, no path stands twice on the new stack,
-- and `Pop` takes it back to the old one.
pub push_lem :
    (p : Text) (s : List Text)
    → IsDistinct s
    → (IsIn p s × (push p s ≡ (some import_cycle_not_allowed, s)))
      ⊎ ((¬ IsIn p s)
          × ((push p s).0 ≡ none)
          × IsDistinct (push p s).1
          × (pop (push p s).1 ≡ some s))
unfolding push
push_lem p s d = elim (Bool-cases (is_on p s)) [
  | inl e ↦ inl (is_on-IsIn p s e, rw e refl)
  | inr e ↦
      let n = is_on-not_IsIn p s e in
      inr (rw e (n, refl, IsDistinct-concat p s n d, pop-concat p s))
]
