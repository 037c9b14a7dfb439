-- ===== src/Tests/Names.antt =====
-- The text utilities of util/string.go and util/format/format.go.
use goctl.Base.{
  ◌==◌, ◌⊎◌, true, false, ◌+◌, ◌-◌, ◌≡◌, ◌↔◌, refl, ◌&&◌, arith, [], ◌∷◌, Text, codes, All, leb,
  if◌then◌else◌,
}
use goctl.Util.Naming.{named, out_of_range, split, file_naming_format}
use goctl.Util.Offsets.{InRange, file_naming_format-InRange}
use goctl.Util.Pieces.{IsPiece, concat_all, without_underscores, split-IsPiece}
use goctl.Util.SafeName.{safe_string, escape_golang_keyword}
use goctl.Util.Keywords.{is_keyword, escape_golang_keyword_lem}
use goctl.Util.SafeNames.{IsName, IsKept, IsIdentifierRune, IsUnmarked, safe_string_lem}
use goctl.Util.Utf8.{write_runes}

-- Brackets are left as they are, since `isLetter` takes them for letters.
safe_bracket : safe_string (codes "1-a[0]") ≡ codes "_1_a[0]"
unfolding safe_string
safe_bracket = refl

safe_string_lem_example :
    IsName IsKept (safe_string (codes "1-a"))
    × ((safe_string (codes "1-a") ≡ codes "1-a") ↔ IsName IsKept (codes "1-a"))
    × (IsName IsIdentifierRune (safe_string (codes "1-a")) ↔ IsUnmarked (codes "1-a"))
safe_string_lem_example = safe_string_lem (codes "1-a")

-- `import` is a keyword of Go that is not escaped.
import_kept : escape_golang_keyword (codes "import") ≡ codes "import"
unfolding escape_golang_keyword
import_kept = refl

escape_golang_keyword_lem_example :
    ((is_keyword (escape_golang_keyword (codes "type")) ≡ true) ↔ (codes "type" ≡ codes "import"))
    × ((escape_golang_keyword (codes "type") ≡ codes "type")
        ↔ ((is_keyword (codes "type") ≡ false) ⊎ (codes "type" ≡ codes "import")))
escape_golang_keyword_lem_example = escape_golang_keyword_lem (codes "type")

split_camel : split (codes "userID_info") ≡ codes "user" ∷ codes "I" ∷ codes "D" ∷ codes "info" ∷ []
unfolding split
split_camel = refl

split-IsPiece_example :
    All IsPiece (split (codes "user_Info"))
    × (concat_all (split (codes "user_Info")) ≡ without_underscores (codes "user_Info"))
split-IsPiece_example = split-IsPiece (codes "user_Info")

-- The upper and lower case of ASCII.
abbrev to_upper : Text → Text
to_upper [] = []
to_upper (c ∷ s) = (if leb b'a' c && leb c b'z' then c - 32 else c) ∷ to_upper s

abbrev to_lower : Text → Text
to_lower [] = []
to_lower (c ∷ s) = (if leb b'A' c && leb c b'Z' then c + 32 else c) ∷ to_lower s

abbrev to_title : Text → Text
to_title [] = []
to_title (c ∷ s) = (if leb b'a' c && leb c b'z' then c - 32 else c) ∷ s

camel_name :
    file_naming_format to_upper to_lower to_title (codes "goZero.x") (codes "user_info")
    ≡ named (codes "userInfo.x")
unfolding file_naming_format
camel_name = refl

file_naming_format-InRange_example :
    InRange (file_naming_format to_upper to_lower to_title (codes "go_zero") (codes "userInfo"))
file_naming_format-InRange_example =
    file_naming_format-InRange to_upper to_lower to_title (codes "go_zero") (codes "userInfo")
      (omega arith)

three_bytes : write_runes (0x6C49 ∷ codes "a") ≡ 0xE6 ∷ 0xB1 ∷ 0x89 ∷ codes "a"
unfolding write_runes
three_bytes = refl

-- The upper case of the letter 0x250, two bytes, takes three bytes.
abbrev upper_wider : Text → Text
upper_wider (a ∷ b ∷ s) =
    if a == 0xC9 && b == 0x90 then 0xE2 ∷ 0xB1 ∷ 0xAF ∷ to_upper s else to_upper (a ∷ b ∷ s)
upper_wider s = to_upper s

-- Behind that letter the offset of `ZERO` in the upper case lies beyond the format.
wide_format :
    file_naming_format upper_wider to_lower to_title (0xC9 ∷ 0x90 ∷ codes "gozero") (codes "a")
    ≡ out_of_range
unfolding file_naming_format
wide_format = refl
