-- ===== src/Analyzer/Kind.antt =====
-- The table `kind` of pkg/parser/api/parser/analyzer.go.
use goctl.Base.{Bool, List, [], ◌∷◌, Text, codes}
use goctl.Token.Tables.{has_text}

abbrev pub base_kinds : List Text
base_kinds =
    codes "bool"
    ∷ codes "int"
    ∷ codes "int8"
    ∷ codes "int16"
    ∷ codes "int32"
    ∷ codes "int64"
    ∷ codes "uint"
    ∷ codes "uint8"
    ∷ codes "uint16"
    ∷ codes "uint32"
    ∷ codes "uint64"
    ∷ codes "uintptr"
    ∷ codes "float32"
    ∷ codes "float64"
    ∷ codes "complex64"
    ∷ codes "complex128"
    ∷ codes "string"
    ∷ codes "byte"
    ∷ codes "rune"
    ∷ codes "any"
    ∷ []

unfoldable pub is_base_type : Text → Bool
unfolding has_text
is_base_type s = has_text base_kinds s
