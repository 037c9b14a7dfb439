-- ===== src/Tests/Scan.antt =====
-- The scanner of pkg/parser/api/scanner/scanner.go and the tables of pkg/parser/api/token/token.go.
use goctl.Base.{ℕ, false, ◌≡◌, ◌≢◌, refl, [], ◌∷◌, ◌++◌, some, Text, codes, arith, length, text_eq}
use goctl.Scanner.Ahead.{Ahead, first, advance}
use goctl.Scanner.Document.{scan_document-text}
use goctl.Scanner.Loops.{Outcome}
use goctl.Scanner.Munch.{token_here, scan_ident-name, scan_string-text}
use goctl.Scanner.Next.{next_token, new_scanner}
use goctl.Scanner.NextToken.{IsLoneAt, token_start, next_token-Outcome}
use goctl.Scanner.Progress.{Returns, next_token-Returns, next_token_lone_at_again}
use goctl.Scanner.Quoted.{ok, scan_string, scan_document}
use goctl.Scanner.Skip.{Skips, skip_white_space_lem}
use goctl.Scanner.State.{
  Scanner, is_white_space, read_rune, peek_rune, new_position, position_at, read_while,
  skip_white_space, rounds,
}
use goctl.Scanner.Valid.{IsValid}
use goctl.Scanner.Next
use goctl.Scanner.Words
use goctl.Scanner.Words.{scan_ident, is_ident_rune}
use goctl.Token.Defs.{new_illegal_token}
use goctl.Token.Keywords.{lookup_keyword-type_string}
use goctl.Token.Kind.{ident, string, document, func_kw}
use goctl.Token.Tables.{lookup_keyword, type_string}

-- A scanner at the start of a text.
abbrev at_first : Text → Scanner
at_first text = record {
  filename = codes "a.api";
  size = length text;
  runes = text;
  position = 0;
  read_position = 1;
  ch = first text;
  lines = 0 ∷ [];
}

new_at_first : new_scanner (codes "a.api") (codes "ab") ≡ some (at_first (codes "ab"))
unfolding new_scanner read_rune
new_at_first = refl

at_first-IsValid : (c : ℕ) (cs : Text) → IsValid (at_first (c ∷ cs))
at_first-IsValid c cs = record {
  sized = refl;
  next = refl;
  current = refl;
  bounded = omega arith;
  has_line = omega arith;
  line_start = omega arith;
}

abbrev sample : Scanner
sample = at_first (codes "\n\n ab1 /* x */")

sample-IsValid : IsValid sample
sample-IsValid = at_first-IsValid _ _

next_token-Returns_example : Returns sample (next_token sample)
next_token-Returns_example = next_token-Returns sample sample-IsValid

next_token-sample :
    next_token sample
    ≡ ok
        (record {
          type = ident;
          text = codes "ab1";
          position = record { filename = codes "a.api"; line = 3; column = 2 };
        })
        (advance 6 (record sample { lines = 0 ∷ 1 ∷ 2 ∷ [] }))
unfolding next_token Next.scan_token Next.scan_other Next.punctuation scan_ident Words.end_ident
    is_ident_rune read_while skip_white_space read_rune advance new_position text_eq
next_token-sample = refl

skip_white_space_lem_example :
    Skips sample (skip_white_space (rounds sample) sample)
    × (is_white_space (skip_white_space (rounds sample) sample).ch ≡ false)
skip_white_space_lem_example = skip_white_space_lem sample sample-IsValid

not_at_end : (skip_white_space (rounds sample) sample).ch ≢ 0
unfolding skip_white_space read_rune
not_at_end = omega arith

not_lone : ¬ IsLoneAt (skip_white_space (rounds sample) sample)
unfolding skip_white_space read_rune
not_lone h = absurd (omega (arith, h.at))

next_token-Outcome_example :
    Outcome
      (skip_white_space (rounds sample) sample)
      (token_start (skip_white_space (rounds sample) sample))
      (next_token sample)
next_token-Outcome_example = next_token-Outcome sample sample-IsValid not_at_end not_lone

abbrev at_sign : Scanner
at_sign = at_first (codes "@")

next_token_lone_at_again_example :
    next_token at_sign ≡ ok (new_illegal_token b'@' (position_at at_sign)) at_sign
next_token_lone_at_again_example =
    next_token_lone_at_again at_sign (at_first-IsValid _ _)
      (record { at = refl; last = unfold peek_rune in refl })

abbrev at_last : Scanner
at_last = record (at_first (codes "a")) { position = 1; read_position = 2; ch = 0 }

abbrev named : Scanner
named = at_first (codes "user_1 x")

named-Ahead : Ahead (codes "user_1" ++ codes " x") named
named-Ahead = record { valid = at_first-IsValid _ _; rest = refl }

scan_ident-name_example :
    scan_ident named ≡ (token_here ident (codes "user_1") named, advance 6 named)
scan_ident-name_example =
    scan_ident-name (codes "user_1") (codes " x") named-Ahead
      (unfold is_ident_rune in (refl, (refl, (refl, (refl, (refl, (refl, tt)))))))
      (unfold is_ident_rune in refl) (omega arith) (cc)

abbrev quoted : Scanner
quoted = at_first (codes "\"v1\";")

scan_string-text_example :
    scan_string b'"' string quoted
    ≡ ok (token_here string (codes "\"v1\"") quoted) (advance 4 quoted)
scan_string-text_example =
    scan_string-text b'"' string (codes "v1") (codes ";")
      (record { valid = at_first-IsValid _ _; rest = refl }) (omega arith)

-- The document is cut off behind its first slash.
abbrev commented : Scanner
commented = at_first (codes "/* a * 1/2 */")

scan_document-text_example :
    scan_document commented
    ≡ ok (token_here document (codes "/* a * 1/") commented) (advance 9 commented)
scan_document-text_example =
    scan_document-text (codes " a ") (codes " 1") (codes "2 */")
      (record { valid = at_first-IsValid _ _; rest = refl }) (omega arith) (omega arith)

func_text : lookup_keyword (codes "func") ≡ some func_kw
unfolding lookup_keyword
func_text = refl

lookup_keyword-type_string_example : lookup_keyword (type_string func_kw) ≡ some func_kw
lookup_keyword-type_string_example = lookup_keyword-type_string func_kw (omega arith) (omega arith)
