-- ===== src/Util/SafeName.antt =====
-- `SafeString` of util/string.go, with the tests on runes and the escape of keywords.
use goctl.Base.{
  ℕ, Bool, ◌||◌, ◌&&◌, List, [], ◌∷◌, Option, none, some, Text, codes, leb, ◌==◌, text_eq,
  if◌then◌else◌,
}

unfoldable pub is_letter : ℕ → Bool
is_letter r = leb b'A' r && leb r b'z'

unfoldable pub is_number : ℕ → Bool
is_number r = leb b'0' r && leb r b'9'

unfoldable pub is_safe_rune : ℕ → Bool
unfolding is_letter is_number
is_safe_rune r = is_letter r || is_number r || r == b'_'

-- `strings.Map` with the function of `SafeString`.
unfoldable pub safe_runes : Text → Text
unfolding is_safe_rune
safe_runes [] = []
safe_runes (r ∷ s) = (if is_safe_rune r then r else b'_') ∷ safe_runes s

-- The test of the head; a safe rune is one byte.
unfoldable pub guard_head : Text → Text
unfolding is_number
guard_head [] = []
guard_head (r ∷ s) = if is_number r then b'_' ∷ r ∷ s else r ∷ s

unfoldable pub safe_string : Text → Text
unfolding safe_runes guard_head
safe_string s = guard_head (safe_runes s)

abbrev pub go_keyword : List (Text × Text)
go_keyword =
    (codes "var", codes "variable")
    ∷ (codes "const", codes "constant")
    ∷ (codes "package", codes "pkg")
    ∷ (codes "func", codes "function")
    ∷ (codes "return", codes "rtn")
    ∷ (codes "defer", codes "dfr")
    ∷ (codes "go", codes "goo")
    ∷ (codes "select", codes "slt")
    ∷ (codes "struct", codes "structure")
    ∷ (codes "interface", codes "itf")
    ∷ (codes "chan", codes "channel")
    ∷ (codes "type", codes "tp")
    ∷ (codes "map", codes "mp")
    ∷ (codes "range", codes "rg")
    ∷ (codes "break", codes "brk")
    ∷ (codes "case", codes "caz")
    ∷ (codes "continue", codes "ctn")
    ∷ (codes "for", codes "fr")
    ∷ (codes "fallthrough", codes "fth")
    ∷ (codes "else", codes "es")
    ∷ (codes "if", codes "ef")
    ∷ (codes "switch", codes "swt")
    ∷ (codes "goto", codes "gt")
    ∷ (codes "default", codes "dft")
    ∷ []

unfoldable pub replacement : Text → List (Text × Text) → Option Text
unfolding text_eq
replacement s [] = none
replacement s ((k, v) ∷ m) = if text_eq k s then some v else replacement s m

-- `EscapeGolangKeyword`, without the message on the console.
unfoldable pub escape_golang_keyword : Text → Text
unfolding replacement
escape_golang_keyword s = elim (replacement s go_keyword) [ none ↦ s | some r ↦ r ]
