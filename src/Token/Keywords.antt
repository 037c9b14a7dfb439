-- ===== src/Token/Keywords.antt =====
-- The keyword table of pkg/parser/api/token/token.go against the texts of the token types.
use goctl.Base.{
  ℕ, zero, suc, ◌<◌, ◌≡◌, refl, Bool, true, false, ◌&&◌, List, [], ◌∷◌, Option, none, some, Text,
  ◌==◌, ltb, if◌then◌else◌, text_eq_iff, arith, All,
}
use goctl.Token.Kind.{TokenType, golang_keyword_beg, golang_keyword_end}
use goctl.Token.Tables.{keywords, lookup_text, lookup_keyword, type_string}

abbrev IsKeywordEntry : Text → TokenType → Type 0
IsKeywordEntry s t = (type_string t ≡ s) × (golang_keyword_beg < t) × (t < golang_keyword_end)

entries : All (λ e. IsKeywordEntry e.0 e.1) keywords
unfolding type_string
entries = ground arith

lookup_text-All :
    (m : List (Text × TokenType)) (s : Text) (t : TokenType)
    → All (λ e. IsKeywordEntry e.0 e.1) m
    → lookup_text m s ≡ some t
    → IsKeywordEntry s t
unfolding lookup_text
lookup_text-All [] s t a h = cc
lookup_text-All ((k, u) ∷ m) s t a h = ground (arith, text_eq_iff k s, lookup_text-All m s t a.1)

-- A text that is looked up as a keyword is the printed form of its type, and that type lies between
-- the bounds of the Go keywords.
lookup_keyword-IsKeywordEntry :
    (s : Text) (t : TokenType) → lookup_keyword s ≡ some t → IsKeywordEntry s t
unfolding lookup_keyword
lookup_keyword-IsKeywordEntry s t = lookup_text-All keywords s t entries

all_kinds : ℕ → (TokenType → Bool) → Bool
all_kinds zero p = true
all_kinds (suc n) p = p n && all_kinds n p

all_kinds_sound : (n : ℕ) (p : TokenType → Bool) (t : ℕ) → all_kinds n p ≡ true → t < n → p t ≡ true
unfolding all_kinds
all_kinds_sound zero p t h l = absurd (omega arith)
all_kinds_sound (suc n) p t h l = ground (arith, all_kinds_sound n p t)

abbrev found_as : TokenType → Option TokenType → Bool
found_as t none = false
found_as t (some u) = t == u

abbrev in_keywords : TokenType → Bool
in_keywords t = ltb golang_keyword_beg t && ltb t golang_keyword_end

found_again : TokenType → Bool
found_again t = if in_keywords t then found_as t (lookup_keyword (type_string t)) else true

found_table : all_kinds golang_keyword_end found_again ≡ true
unfolding all_kinds found_again lookup_keyword type_string
found_table = refl

found_as→eq : (t : TokenType) (o : Option TokenType) → found_as t o ≡ true → o ≡ some t
found_as→eq t (some u) h = ground arith
found_as→eq t none h = cc

-- The printed form of every token type between the bounds of the Go keywords is looked up as that
-- type.
pub lookup_keyword-type_string :
    (t : TokenType)
    → golang_keyword_beg < t
    → t < golang_keyword_end
    → lookup_keyword (type_string t) ≡ some t
unfolding found_again
lookup_keyword-type_string t lo hi =
    found_as→eq t _
      (let h = all_kinds_sound golang_keyword_end found_again t found_table hi in ground arith)
