-- ===== src/Util/SafeNames.antt =====
-- What `SafeString` of util/string.go returns.
use goctl.Base.{
  ℕ, ◌⊎◌, if◌then◌else◌, ◌≤◌, ◌≡◌, ◌↔◌, refl, ap, ◌∙◌, inl, inr, true, false, Bool-cases, [], ◌∷◌,
  Text, All, arith,
}
use goctl.Util.SafeName.{is_letter, is_number, is_safe_rune, safe_runes, guard_head, safe_string}

-- The texts of the runes that `isSafeRune` accepts, without a digit in front.
abbrev IsSafe : Text → Type 0
IsSafe [] = Unit
IsSafe (r ∷ s) = (is_number r ≡ false) × All (λ c. is_safe_rune c ≡ true) (r ∷ s)

safe_runes-safe : (s : Text) → All (λ c. is_safe_rune c ≡ true) (safe_runes s)
unfolding safe_runes is_safe_rune
safe_runes-safe [] = tt
safe_runes-safe (r ∷ s) = (ground arith, safe_runes-safe s)

guard_head-IsSafe : (s : Text) → All (λ c. is_safe_rune c ≡ true) s → IsSafe (guard_head s)
unfolding guard_head
guard_head-IsSafe [] h = tt
guard_head-IsSafe (r ∷ s) h = elim (Bool-cases (is_number r)) [
  | inl e ↦ rw e (unfold is_number in refl, (unfold is_safe_rune is_letter is_number in refl, h))
  | inr e ↦ rw e (e, h)
]

safe_runes_id : (s : Text) → All (λ c. is_safe_rune c ≡ true) s → safe_runes s ≡ s
unfolding safe_runes
safe_runes_id [] h = refl
safe_runes_id (r ∷ s) h = rw (h.0, safe_runes_id s h.1) refl

guard_head_id : (s : Text) → IsSafe s → guard_head s ≡ s
unfolding guard_head
guard_head_id [] h = refl
guard_head_id (r ∷ s) h = rw h.0 refl

safe_string_id : (s : Text) → IsSafe s → safe_string s ≡ s
unfolding safe_string
safe_string_id [] h = refl
safe_string_id (r ∷ s) h = ap guard_head (safe_runes_id (r ∷ s) h.1) ∙ guard_head_id (r ∷ s) h

safe_string-IsSafe : (s : Text) → IsSafe (safe_string s)
unfolding safe_string
safe_string-IsSafe s = guard_head-IsSafe (safe_runes s) (safe_runes-safe s)

-- The letters, digits and underscore of ASCII.
abbrev pub IsIdentifierRune : ℕ → Type 0
IsIdentifierRune r =
    ((b'a' ≤ r) × (r ≤ b'z'))
    ⊎ (((b'A' ≤ r) × (r ≤ b'Z')) ⊎ (((b'0' ≤ r) × (r ≤ b'9')) ⊎ (r ≡ b'_')))

-- The other runes between the capital and the small letters of ASCII.
abbrev pub IsMark : ℕ → Type 0
IsMark r = (r ≡ b'[') ⊎ ((r ≡ b'\\') ⊎ ((r ≡ b']') ⊎ ((r ≡ b'^') ⊎ (r ≡ b'`'))))

-- A text of runes of a kind, without a digit in front.
abbrev pub IsName : (ℕ → Type 0) → Text → Type 0
IsName K [] = Unit
IsName K (r ∷ s) = (¬ ((b'0' ≤ r) × (r ≤ b'9'))) × All K (r ∷ s)

abbrev pub IsKept : ℕ → Type 0
IsKept r = IsIdentifierRune r ⊎ IsMark r

is_safe_rune_iff : (r : ℕ) → (is_safe_rune r ≡ true) ↔ IsKept r
unfolding is_safe_rune is_letter is_number
is_safe_rune_iff r = ground arith

is_number_iff : (r : ℕ) → (is_number r ≡ false) ↔ (¬ ((b'0' ≤ r) × (r ≤ b'9')))
unfolding is_number
is_number_iff r = ground arith

All-map : (P Q : ℕ → Type 0) (s : Text) → ((r : ℕ) → P r → Q r) → All P s → All Q s
All-map P Q [] f h = tt
All-map P Q (r ∷ s) f h = (f r h.0, All-map P Q s f h.1)

IsSafe-IsName : (s : Text) → IsSafe s ↔ IsName IsKept s
IsSafe-IsName [] = (λ h. h, λ h. h)
IsSafe-IsName (r ∷ s) = (
  (λ h. ((is_number_iff r).0 h.0, All-map _ _ (r ∷ s) (λ c. (is_safe_rune_iff c).0) h.1)),
  (λ h. ((is_number_iff r).1 h.0, All-map _ _ (r ∷ s) (λ c. (is_safe_rune_iff c).1) h.1)),
)

abbrev pub IsUnmarked : Text → Type 0
IsUnmarked s = All (λ r. ¬ IsMark r) s

safe_rune-unmarked : (r : ℕ) → (¬ IsMark (if is_safe_rune r then r else b'_')) ↔ (¬ IsMark r)
unfolding is_safe_rune is_letter is_number
safe_rune-unmarked r = ground arith

safe_runes-IsUnmarked : (s : Text) → IsUnmarked (safe_runes s) ↔ IsUnmarked s
unfolding safe_runes
safe_runes-IsUnmarked [] = (λ h. h, λ h. h)
safe_runes-IsUnmarked (r ∷ s) = (
  (λ h. ((safe_rune-unmarked r).0 h.0, (safe_runes-IsUnmarked s).0 h.1)),
  (λ h. ((safe_rune-unmarked r).1 h.0, (safe_runes-IsUnmarked s).1 h.1)),
)

guard_head-IsUnmarked : (s : Text) → IsUnmarked (guard_head s) ↔ IsUnmarked s
unfolding guard_head
guard_head-IsUnmarked [] = (λ h. h, λ h. h)
guard_head-IsUnmarked (r ∷ s) = elim (Bool-cases (is_number r)) [
  | inl e ↦ rw e ((λ h. h.1), (λ h. (omega arith, h)))
  | inr e ↦ rw e ((λ h. h), (λ h. h))
]

kept_unmarked : (r : ℕ) → IsKept r → (¬ IsMark r) → IsIdentifierRune r
kept_unmarked r (inl i) n = i
kept_unmarked r (inr m) n = absurd (n m)

All-kept_unmarked : (s : Text) → All IsKept s → IsUnmarked s → All IsIdentifierRune s
All-kept_unmarked [] h n = tt
All-kept_unmarked (r ∷ s) h n = (kept_unmarked r h.0 n.0, All-kept_unmarked s h.1 n.1)

identifier_unmarked : (r : ℕ) → IsIdentifierRune r → ¬ IsMark r
identifier_unmarked r h = ground arith

IsName-IsUnmarked : (s : Text) → IsName IsKept s → IsName IsIdentifierRune s ↔ IsUnmarked s
IsName-IsUnmarked [] h = (λ k. k, λ k. k)
IsName-IsUnmarked (r ∷ s) h = (
  (λ k. All-map _ _ (r ∷ s) identifier_unmarked k.1),
  (λ k. (h.0, All-kept_unmarked (r ∷ s) h.1 k)),
)

safe_string-IsUnmarked : (s : Text) → IsUnmarked (safe_string s) ↔ IsUnmarked s
unfolding safe_string
safe_string-IsUnmarked s = (
  (λ h. (safe_runes-IsUnmarked s).0 ((guard_head-IsUnmarked (safe_runes s)).0 h)),
  (λ h. (guard_head-IsUnmarked (safe_runes s)).1 ((safe_runes-IsUnmarked s).1 h)),
)

-- `SafeString` returns a text of ASCII letters, digits, underscores and the marks `[`, `\`, `]`,
-- `^` and the backquote, without a digit in front; it returns its input exactly if that is such a
-- text; and the result is free of these marks, so that it has identifier runes only, exactly if the
-- input is.
pub safe_string_lem :
    (s : Text)
    → IsName IsKept (safe_string s)
      × ((safe_string s ≡ s) ↔ IsName IsKept s)
      × (IsName IsIdentifierRune (safe_string s) ↔ IsUnmarked s)
safe_string_lem s =
    let safe = safe_string-IsSafe s in
    let kept = (IsSafe-IsName (safe_string s)).0 safe in
    let back = IsName-IsUnmarked (safe_string s) kept in
    let marks = safe_string-IsUnmarked s in
    (
      kept,
      (λ e. rw e at kept, λ h. safe_string_id s ((IsSafe-IsName s).1 h)),
      (λ h. marks.0 (back.0 h), λ h. back.1 (marks.1 h)),
    )
