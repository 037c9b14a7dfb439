-- ===== src/Util/Keywords.antt =====
-- What `EscapeGolangKeyword` of util/string.go returns.
use goctl.Base.{
  ◌≡◌, ◌≢◌, ◌↔◌, ◌⊎◌, refl, sym, inl, inr, Bool, true, false, Bool-cases, not, ◌&&◌, List, [], ◌∷◌,
  Option, none, some, Text, codes, text_eq, text_eq_iff, arith, ◌||◌,
}
use goctl.Util.SafeName.{go_keyword, replacement, escape_golang_keyword}

-- The keywords of Go, by the language's specification.
abbrev pub keywords_of_go : List Text
keywords_of_go =
    codes "break"
    ∷ codes "default"
    ∷ codes "func"
    ∷ codes "interface"
    ∷ codes "select"
    ∷ codes "case"
    ∷ codes "defer"
    ∷ codes "go"
    ∷ codes "map"
    ∷ codes "struct"
    ∷ codes "chan"
    ∷ codes "else"
    ∷ codes "goto"
    ∷ codes "package"
    ∷ codes "switch"
    ∷ codes "const"
    ∷ codes "fallthrough"
    ∷ codes "if"
    ∷ codes "range"
    ∷ codes "type"
    ∷ codes "continue"
    ∷ codes "for"
    ∷ codes "import"
    ∷ codes "return"
    ∷ codes "var"
    ∷ []

unfoldable pub is_one_of : List Text → Text → Bool
unfolding text_eq
is_one_of [] s = false
is_one_of (k ∷ ks) s = text_eq k s || is_one_of ks s

unfoldable pub is_keyword : Text → Bool
unfolding is_one_of
is_keyword s = is_one_of keywords_of_go s

is_import : Text → Bool
unfolding text_eq
is_import s = text_eq (codes "import") s

-- A replacement is no keyword, and what it replaces is one other than `import`.
all_replaced : List (Text × Text) → Bool
all_replaced [] = true
all_replaced ((k, v) ∷ m) =
    is_keyword k && not (is_import k) && not (is_keyword v) && all_replaced m

go_keyword_replaced : all_replaced go_keyword ≡ true
unfolding all_replaced is_keyword is_import
go_keyword_replaced = refl

abbrev is_found : Option Text → Bool
is_found none = false
is_found (some v) = true

-- Each keyword other than `import` has a replacement.
all_found : List Text → Bool
all_found [] = true
all_found (k ∷ ks) = (is_import k || is_found (replacement k go_keyword)) && all_found ks

keywords_found : all_found keywords_of_go ≡ true
unfolding all_found replacement is_import
keywords_found = refl

-- What the table of the replacements says of one of them.
abbrev Replaced : Text → Text → Type 0
Replaced s v = (is_keyword s ≡ true) × (is_import s ≡ false) × (is_keyword v ≡ false)

all_replaced-cons :
    (k v : Text) (m : List (Text × Text))
    → all_replaced ((k, v) ∷ m) ≡ true
    → Replaced k v × (all_replaced m ≡ true)
unfolding all_replaced
all_replaced-cons k v m h = ground arith

replacement-Replaced :
    (s v : Text) (m : List (Text × Text))
    → all_replaced m ≡ true
    → replacement s m ≡ some v
    → Replaced s v
unfolding replacement
replacement-Replaced s v [] h e = ground arith
replacement-Replaced s v ((k, w) ∷ m) h e =
    let (here, rest) = all_replaced-cons k w m h in
    elim (Bool-cases (text_eq k s)) [
      | inl g ↦
          let same : ◌≡◌ {A = Option Text} (some w) (some v) = rw g at e in
          let q : w ≡ v = cc in let t : k ≡ s = (text_eq_iff k s).0 g in rw (← q, ← t) here
      | inr g ↦ replacement-Replaced s v m rest (rw g at e)
    ]

all_found-cons :
    (k : Text) (ks : List Text)
    → all_found (k ∷ ks) ≡ true
    → ((is_import k || is_found (replacement k go_keyword)) ≡ true) × (all_found ks ≡ true)
unfolding all_found
all_found-cons k ks h = ground arith

is_one_of-found :
    (s : Text) (ks : List Text)
    → all_found ks ≡ true
    → is_one_of ks s ≡ true
    → replacement s go_keyword ≡ none
    → is_import s ≡ true
unfolding is_one_of
is_one_of-found s [] h i e = cc
is_one_of-found s (k ∷ ks) h i e =
    let (here, rest) = all_found-cons k ks h in
    elim (Bool-cases (text_eq k s)) [
      | inl g ↦
          let t : k ≡ s = (text_eq_iff k s).0 g in
          let here' : (is_import s || is_found (replacement s go_keyword)) ≡ true = rw t at here in
          let last : (is_import s || false) ≡ true = rw e at here' in ground arith
      | inr g ↦ is_one_of-found s ks rest (rw g at i) e
    ]

import_iff : (s : Text) → (is_import s ≡ true) ↔ (s ≡ codes "import")
unfolding is_import
import_iff s = (λ h. sym ((text_eq_iff (codes "import") s).0 h), λ e. rw e refl)

import-is_keyword : is_keyword (codes "import") ≡ true
unfolding is_keyword
import-is_keyword = refl

is_keyword-one_of : (s : Text) → is_keyword s ≡ true → is_one_of keywords_of_go s ≡ true
unfolding is_keyword
is_keyword-one_of s h = h

clash : (b : Bool) → b ≡ true → b ≡ false → ⊥
clash true h k = cc
clash false h k = cc

-- What is escaped and how, by the replacement of a text.
abbrev IsEscaped : Text → Text → Type 0
IsEscaped s t =
    ((is_keyword t ≡ true) ↔ (s ≡ codes "import"))
    × ((t ≡ s) ↔ ((is_keyword s ≡ false) ⊎ (s ≡ codes "import")))

Replaced-IsEscaped : (s v : Text) → Replaced s v → IsEscaped s v
Replaced-IsEscaped s v r =
    let other : s ≢ codes "import" = λ e. clash (is_import s) ((import_iff s).1 e) r.1 in
    (
      (λ h. absurd (clash (is_keyword v) h r.2), λ e. absurd (other e)),
      (
        λ e. absurd (clash (is_keyword s) r.0 (rw e at r.2)),
        λ h. elim h [ inl k ↦ absurd (clash (is_keyword s) r.0 k) | inr e ↦ absurd (other e) ],
      ),
    )

kept-IsEscaped : (s : Text) → replacement s go_keyword ≡ none → IsEscaped s s
kept-IsEscaped s e = (
  (
    λ h.
        (import_iff s).0
          (is_one_of-found s keywords_of_go keywords_found (is_keyword-one_of s h) e),
    λ q. rw q import-is_keyword,
  ),
  (
    λ _. elim (Bool-cases (is_keyword s)) [
      | inl h ↦ inr (
          (import_iff s).0
            (is_one_of-found s keywords_of_go keywords_found (is_keyword-one_of s h) e))
      | inr h ↦ inl h
    ],
    λ _. refl,
  ),
)

escape-by_replacement :
    (s : Text) (o : Option Text)
    → replacement s go_keyword ≡ o
    → IsEscaped s (escape_golang_keyword s)
unfolding escape_golang_keyword
escape-by_replacement s none e = rw (e, escape_golang_keyword) (kept-IsEscaped s e)
escape-by_replacement s (some v) e =
    rw (e, escape_golang_keyword)
      (Replaced-IsEscaped s v (replacement-Replaced s v go_keyword go_keyword_replaced e))

-- What `EscapeGolangKeyword` returns is a keyword of Go exactly if its input is `import`, and it
-- returns its input exactly if that is no keyword of Go or is `import`.
pub escape_golang_keyword_lem :
    (s : Text)
    → ((is_keyword (escape_golang_keyword s) ≡ true) ↔ (s ≡ codes "import"))
      × ((escape_golang_keyword s ≡ s) ↔ ((is_keyword s ≡ false) ⊎ (s ≡ codes "import")))
escape_golang_keyword_lem s = escape-by_replacement s _ refl
