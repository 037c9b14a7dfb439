-- ===== src/Util/Utf8.antt =====
-- The UTF-8 bytes that `bytes.Buffer` writes for runes in `split` of util/format/format.go.
use Prim.Native.Nat.{◌/◌, ◌%◌}
use goctl.Base.{ℕ, ◌+◌, List, [], ◌∷◌, ◌++◌, Text, ltb, if◌then◌else◌}

unfoldable pub write_rune : ℕ → Text
write_rune r =
    if ltb r 0x80
    then r ∷ []
    else if ltb r 0x800
    then (0xC0 + r / 64) ∷ (0x80 + r % 64) ∷ []
    else if ltb r 0x10000
    then (0xE0 + r / 4096) ∷ (0x80 + r / 64 % 64) ∷ (0x80 + r % 64) ∷ []
    else (0xF0 + r / 262144) ∷ (0x80 + r / 4096 % 64) ∷ (0x80 + r / 64 % 64) ∷ (0x80 + r % 64) ∷ []

unfoldable pub write_runes : Text → Text
unfolding write_rune
write_runes [] = []
write_runes (r ∷ s) = write_rune r ++ write_runes s

-- The strings of the pieces.
unfoldable pub write_pieces : List Text → List Text
unfolding write_runes
write_pieces [] = []
write_pieces (s ∷ ss) = write_runes s ∷ write_pieces ss
