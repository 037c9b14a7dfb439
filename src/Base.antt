-- ===== src/Base.antt =====
-- Names, notation and lemmas that all the modules share. A Go string is modelled by its runes.
use Prim.Native.Nat.{compare, Ordering}
use Prim.Native.Char.{code}
use Prim.Native.String.{String}
pub use Prim.Native.Nat.{ℕ, zero, suc, ◌+◌, ◌-◌, ◌≤◌, ◌<◌}
pub use mathlib.Core.Path.{◌≡◌, refl, sym, ap, ◌∙◌}
pub use mathlib.Core.Logic.{◌≢◌, ◌↔◌, ◌⊎◌, inl, inr}
pub use mathlib.Core.Bool.{Bool, true, false, not, ◌&&◌, ◌||◌}
pub use mathlib.Core.Option.{Option, none, some}
pub use mathlib.Core.List.{List, [], ◌∷◌, ◌++◌, append-nil, append_assoc}
pub use native.Mathlib.Omega.{arith}

-- A Go string or []rune, as code points.
abbrev pub Text : Type 0
Text = List ℕ

-- The code points of a literal.
abbrev pub codes : String → Text
codes String.[] = []
codes (String.◌∷◌ c s) = code c ∷ codes s

abbrev pub ltb : ℕ → ℕ → Bool
ltb a b = elim (compare a b) [ Ordering.lt ↦ true | _ ↦ false ]

abbrev pub leb : ℕ → ℕ → Bool
leb a b = elim (compare a b) [ Ordering.gt ↦ false | _ ↦ true ]

infix 50 ◌==◌
abbrev pub ◌==◌ : ℕ → ℕ → Bool
a == b = elim (compare a b) [ Ordering.eq ↦ true | _ ↦ false ]

infix 1 if◌then◌else◌
abbrev pub if◌then◌else◌ {ℓ} : {A : Type ℓ} → Bool → A → A → A
if true then x else y = x
if false then x else y = y

pub Bool-cases : (b : Bool) → (b ≡ true) ⊎ (b ≡ false)
Bool-cases true = inl refl
Bool-cases false = inr refl

pub ==_iff : (a b : ℕ) → ((a == b) ≡ true) ↔ (a ≡ b)
==_iff a b = ground arith

-- Go's == on strings.
unfoldable pub text_eq : Text → Text → Bool
text_eq [] [] = true
text_eq (x ∷ xs) (y ∷ ys) = x == y && text_eq xs ys
text_eq _ _ = false

pub text_eq_iff : (a b : Text) → (text_eq a b ≡ true) ↔ (a ≡ b)
unfolding text_eq
text_eq_iff (x ∷ a) (y ∷ b) = ground (arith, text_eq_iff a b)
text_eq_iff _ _ = ground arith

module _ {ℓ} {A : Type ℓ} where
  abbrev pub length : List A → ℕ
  length [] = 0
  length (x ∷ xs) = suc (length xs)

  abbrev pub get_or : List A → ℕ → A → A
  get_or [] i d = d
  get_or (x ∷ xs) zero d = x
  get_or (x ∷ xs) (suc i) d = get_or xs i d

  abbrev pub take : ℕ → List A → List A
  take zero xs = []
  take (suc n) [] = []
  take (suc n) (x ∷ xs) = x ∷ take n xs

  abbrev pub drop : ℕ → List A → List A
  drop zero xs = xs
  drop (suc n) [] = []
  drop (suc n) (x ∷ xs) = drop n xs

  -- `xs[len(xs)-1]`, or the default on an empty list.
  abbrev pub last_or : List A → A → A
  last_or [] d = d
  last_or (x ∷ xs) d = last_or xs x

  pub length-append : (xs ys : List A) → length (xs ++ ys) ≡ length xs + length ys
  length-append [] ys = omega arith
  length-append (x ∷ xs) ys = omega (arith, length-append xs ys)

  pub last_or-concat : (xs : List A) (a d : A) → last_or (xs ++ a ∷ []) d ≡ a
  last_or-concat [] a d = refl
  last_or-concat (x ∷ xs) a d = last_or-concat xs a x

  pub get_or-beyond : (xs : List A) (i : ℕ) (d : A) → length xs ≤ i → get_or xs i d ≡ d
  get_or-beyond [] i d h = refl
  get_or-beyond (x ∷ xs) zero d h = elim h [ ]
  get_or-beyond (x ∷ xs) (suc i) d h = get_or-beyond xs i d (omega arith)

  -- Go's `xs[lo:hi]`.
  abbrev pub slice : List A → ℕ → ℕ → List A
  slice xs lo hi = take (hi - lo) (drop lo xs)

  pub drop-eq-cons :
      (xs : List A) (i : ℕ) (d : A) → i < length xs → drop i xs ≡ get_or xs i d ∷ drop (suc i) xs
  drop-eq-cons [] i d h = elim h [ ]
  drop-eq-cons (x ∷ xs) zero d h = refl
  drop-eq-cons (x ∷ xs) (suc i) d h = drop-eq-cons xs i d (omega arith)

  -- A slice begins with the element at its start.
  pub slice-eq-cons :
      (xs : List A) (lo hi : ℕ) (d : A)
      → lo < length xs
      → lo < hi
      → slice xs lo hi ≡ get_or xs lo d ∷ slice xs (lo + 1) hi
  slice-eq-cons xs lo hi d h l =
      let e : hi - lo ≡ suc (hi - (lo + 1)) = omega arith in
      let f : lo + 1 ≡ suc lo = omega arith in rw (drop-eq-cons xs lo d h, e, f)

  pub slice_self : (xs : List A) (lo : ℕ) → slice xs lo lo ≡ []
  slice_self xs lo = let e : lo - lo ≡ 0 = omega arith in rw e

  pub length-drop_cons : (xs ys : List A) (i : ℕ) (x : A) → drop i xs ≡ x ∷ ys → i < length xs
  length-drop_cons [] ys zero x h = cc
  length-drop_cons [] ys (suc i) x h = cc
  length-drop_cons (z ∷ xs) ys zero x h = omega arith
  length-drop_cons (z ∷ xs) ys (suc i) x h = omega (arith, length-drop_cons xs ys i x h)

  pub length-drop-le : (xs : List A) (i : ℕ) → length (drop i xs) ≤ length xs
  length-drop-le xs zero = omega arith
  length-drop-le [] (suc i) = omega arith
  length-drop-le (x ∷ xs) (suc i) = omega (arith, length-drop-le xs i)

  pub take-length_append : (xs ys : List A) → take (length xs) (xs ++ ys) ≡ xs
  take-length_append [] ys = refl
  take-length_append (x ∷ xs) ys = ap (◌∷◌ x) (take-length_append xs ys)

  -- The part of a text that begins with `ys` from `lo` on.
  pub slice-eq_of_drop :
      (xs ys zs : List A) (lo : ℕ) → drop lo xs ≡ ys ++ zs → slice xs lo (lo + length ys) ≡ ys
  slice-eq_of_drop xs ys zs lo h =
      let e : lo + length ys - lo ≡ length ys = omega arith in rw (e, h) (take-length_append ys zs)

module _ {ℓ κ} {A : Type ℓ} (P : A → Type κ) where
  abbrev pub All : List A → Type κ
  All [] = Unit
  All (x ∷ xs) = P x × All xs
